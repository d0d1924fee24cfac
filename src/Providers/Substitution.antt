-- ===== src/Providers/Substitution.antt =====
-- The parameters of a URL are replaced by their values, if there are at most two of them.
use Prim.Native.String.{String, [], ◌++◌, len}
use text.Mathlib.Text.{get?}
use text.Mathlib.TextLemmas.{append_assoc, append-nil}
use text.Mathlib.TextPositions.{get?-append_middle, len-append}
use overload.Common.{
  ℕ, zero, suc, ◌+◌, ◌-◌, ◌≤◌, ◌<◌, ◌≡◌, refl, sym, ap, ap₂, ◌∙◌, true, false, Option, none, some,
  List, ◌>>=◌, arith, ◌∷◌, leb,
}
use overload.Common
use overload.Common.Int.{ℤ}
use overload.Http.{UrlParam}
use overload.Json.{Value}
use overload.Providers.Template.{
  Template, literal, then_param, braced, render, param_of, descending, get?_at, value_in,
  substitute-descending, regroup,
}
use overload.Providers.UrlParams.{
  substitute_param_with_data, push_matches, find_param_positions, heap_push, sift_up, put_at,
}

-- Where the parameters stand, the first one first.
abbrev pub matches : Template → List (ℕ × ℕ)
matches (literal s) = Common.[]
matches (then_param t name s) =
    Common.◌++◌ (matches t)
      ((len (render braced t), len (render braced t) + len (braced name)) ∷ Common.[])

abbrev pub count_params : Template → ℕ
count_params (literal s) = 0
count_params (then_param t name s) = suc (count_params t)

len-braced : (name : String) → len (braced name) ≡ len name + 2
len-braced name = omega (arith, len-append "{" (name ++ "}"), len-append name "}")

name_at :
    (r name u : String)
    → get? (r ++ (braced name ++ u)) (len r + 1) ((len r + len (braced name)) - 1) ≡ some name
name_at r name u =
    get?_at
      (ap (λ x. r ++ x)
          (append_assoc "{" (name ++ "}") u ∙ ap (λ x. "{" ++ x) (append_assoc name "}" u))
        ∙ sym (append_assoc r "{" (name ++ ("}" ++ u))))
      (omega (arith, len-append r "{")) (omega (arith, len-append r "{", len-braced name))
    ∙ get?-append_middle (r ++ "{") name ("}" ++ u)

push_first : (p : UrlParam) → heap_push p Common.[] ≡ p ∷ Common.[]
unfolding heap_push sift_up put_at
push_first p = refl

push_second : (p q : UrlParam) → p.start < q.start → heap_push q (p ∷ Common.[]) ≡ q ∷ p ∷ Common.[]
unfolding heap_push sift_up put_at
push_second p q h = ground arith

found :
    (t : Template)
    → count_params t ≤ 2
    → push_matches (render braced t) (matches t) Common.[] ≡ some (descending t)
unfolding push_matches
found (literal s) h = refl
found (then_param (literal l) name s) h = rw (name_at l name s) (ap some (push_first _))
found (then_param (then_param (literal l) name s) name' s') h =
    let front = l ++ (braced name ++ s) in
    let name_of_first =
      get?_at (regroup l (braced name) s (braced name' ++ s')) refl refl
      ∙ name_at l name (s ++ (braced name' ++ s')) in
    rw name_of_first (
      rw (name_at front name' s') (
        ap some (
          ap (heap_push _) (push_first _)
          ∙ push_second (param_of (literal l) name) (param_of (then_param (literal l) name s) name')
              (omega (
                arith,
                len-append l (braced name ++ s),
                len-append (braced name) s,
                len-braced name,
              )))))
found (then_param (then_param (then_param t a b) c d) e f) h = absurd (omega arith)

pub found_positions :
    (find_iter : String → List (ℕ × ℕ)) (t : Template)
    → count_params t ≤ 2
    → find_iter (render braced t) ≡ matches t
    → find_param_positions find_iter (render braced t) ≡ some (descending t)
unfolding find_param_positions
found_positions find_iter t h e = rw e (found t h)

pub substituted :
    {N : Type 0} (number_i64 : N → Option ℤ) (data' : Value N) (t : Template)
    → substitute_param_with_data number_i64 (render braced t) (descending t) data'
      ≡ some (render (value_in number_i64 data') t)
substituted number_i64 data' t =
    ap (λ url. substitute_param_with_data number_i64 url (descending t) data')
      (sym (append-nil (render braced t)))
    ∙ substitute-descending number_i64 data' t []
    ∙ ap some (append-nil _)

-- The parameters of a URL that has at most two of them, all of which the regular expression finds,
-- are replaced by their values in the data; a parameter without a value stays, and all other text does.
pub substitute-render :
    {N : Type 0} (number_i64 : N → Option ℤ) (data' : Value N) (find_iter : String → List (ℕ × ℕ))
    (t : Template)
    → count_params t ≤ 2
    → find_iter (render braced t) ≡ matches t
    → (find_param_positions find_iter (render braced t) >>= λ positions.
        substitute_param_with_data number_i64 (render braced t) positions data')
      ≡ some (render (value_in number_i64 data') t)
substitute-render number_i64 data' find_iter t h e =
    rw (found_positions find_iter t h e) (substituted number_i64 data' t)
