-- ===== src/Providers/Template.antt =====
-- A URL as literal texts and parameters between them, and what it is with their values.
use Prim.Native.String.{String, [], ◌++◌, len}
use text.Mathlib.Text.{get?}
use text.Mathlib.TextLemmas.{append_assoc, append-nil, nil-append}
use text.Mathlib.TextPositions.{get?-append_middle, len-append}
use overload.Common.{
  ℕ, ◌+◌, ◌-◌, ◌≡◌, refl, sym, ap, ap₂, ◌∙◌, subst, true, false, Option, none, some, List, ◌>>=◌,
  arith, ◌∷◌, inl, inr, Option-cases,
}
use overload.Common
use overload.Common.Int.{ℤ}
use overload.Http.{UrlParam}
use overload.Json.{Value}
use overload.Json.Access.{get}
use overload.Providers.UrlParams.{
  replace_range, substitute_param_with_data, substitute_one, text_of,
}

pub data Template : Type 0 where
  literal : String → Template
  then_param : Template → (name text : String) → Template

abbrev pub braced : String → String
braced name = "{" ++ (name ++ "}")

abbrev pub render : (String → String) → Template → String
render value (literal s) = s
render value (then_param t name s) = render value t ++ (value name ++ s)

abbrev pub param_of : Template → String → UrlParam
param_of t name = record {
  name = name;
  start = len (render braced t);
  end = len (render braced t) + len (braced name);
}

-- The parameters, the last one first.
abbrev pub descending : Template → List UrlParam
descending (literal s) = Common.[]
descending (then_param t name s) = param_of t name ∷ descending t

get?-front : (s t : String) → get? (s ++ t) 0 (len s) ≡ some s
get?-front s t =
    ap₂ (λ x e. get? x 0 e) (sym (nil-append (s ++ t))) (omega arith) ∙ get?-append_middle [] s t

pub get?_at : {s t : String} {a b c d : ℕ} → s ≡ t → a ≡ b → c ≡ d → get? s a c ≡ get? t b d
get?_at p q r = λ i. get? (p i) (q i) (r i)

get?-back : (s t u : String) → get? (s ++ (t ++ u)) (len s + len t) (len (s ++ (t ++ u))) ≡ some u
get?-back s t u =
    get?_at (sym (append_assoc s t u) ∙ ap (λ x. (s ++ t) ++ x) (sym (append-nil u)))
      (sym (len-append s t)) (omega (arith, len-append s (t ++ u), len-append t u, len-append s t))
    ∙ get?-append_middle (s ++ t) u []

replace_range-middle :
    (s t u v : String)
    → replace_range (s ++ (t ++ u)) (len s) (len s + len t) v ≡ some (s ++ (v ++ u))
unfolding replace_range
replace_range-middle s t u v =
    rw (get?-front s (t ++ u)) (rw (get?-append_middle s t u) (rw (get?-back s t u) refl))

pub regroup : (r t s rest : String) → (r ++ (t ++ s)) ++ rest ≡ r ++ (t ++ (s ++ rest))
regroup r t s rest = append_assoc r (t ++ s) rest ∙ ap (λ x. r ++ x) (append_assoc t s rest)

module _ {N : Type 0} (number_i64 : N → Option ℤ) (data' : Value N) where
  abbrev pub value_or : String → Option (Value N) → String
  value_or name none = braced name
  value_or name (some v) = text_of number_i64 v

  -- The text for a parameter; one without a value stays as it is.
  abbrev pub value_in : String → String
  value_in name = value_or name (get data' name)

  substitute_one-middle :
      (s u name : String) (param : UrlParam) (value : Option (Value N))
      → param.start ≡ len s
      → param.end ≡ len s + len (braced name)
      → substitute_one number_i64 (s ++ (braced name ++ u)) param value
        ≡ some (s ++ (value_or name value ++ u))
  unfolding substitute_one
  substitute_one-middle s u name param none b e = refl
  substitute_one-middle s u name param (some v) b e =
      ap₂ (λ x y. replace_range (s ++ (braced name ++ u)) x y (text_of number_i64 v)) b e
      ∙ replace_range-middle s (braced name) u (text_of number_i64 v)

  pub substitute-descending :
      (t : Template) (rest : String)
      → substitute_param_with_data number_i64 (render braced t ++ rest) (descending t) data'
        ≡ some (render value_in t ++ rest)
  unfolding substitute_param_with_data
  substitute-descending (literal s) rest = refl
  substitute-descending (then_param t name s) rest =
      let later =
        λ (url : String). substitute_param_with_data number_i64 url (descending t) data' in
      ap (λ url. substitute_one number_i64 url (param_of t name) (get data' name) >>= later)
        (regroup (render braced t) (braced name) s rest)
      ∙ ap (λ o. o >>= later)
          (substitute_one-middle (render braced t) (s ++ rest) name (param_of t name)
            (get data' name) refl refl)
      ∙ substitute-descending t (value_in name ++ (s ++ rest))
      ∙ ap some (sym (regroup (render value_in t) (value_in name) s rest))
