-- ===== src/Status/Reader.antt =====
-- A reader of query strings that leaves escapes alone, as an instance of the library's.
use Prim.Native.Char.{Char, char, code}
use Prim.Native.String
use Prim.Native.String.{String, [], ◌∷◌}
use text.Mathlib.TextLemmas.{nil-append, cons-append, append_assoc}
use overload.Common.{
  ℕ, ◌≢◌, ◌≡◌, refl, sym, ap, subst, ◌∙◌, List, [], ◌∷◌, Option, none, some, arith, true, false,
  ◌==◌, if◌then◌else◌,
}
use overload.Common.Dict.{collect}
use overload.Common.Parts.{prepend, split, split_first}
use overload.Status.Plain.{IsPlain, ArePlain, QueryReader, encode}

abbrev IsFree : ℕ → String → Type 0
IsFree n [] = Unit
IsFree n (c ∷ s) = (code c ≢ n) × IsFree n s

IsFree-append : (n : ℕ) (s t : String) → IsFree n s → IsFree n t → IsFree n (String.◌++◌ s t)
IsFree-append n [] t h k = subst (IsFree n) (sym (nil-append t)) k
IsFree-append n (c ∷ s) t (h, hs) k =
    subst (IsFree n) (sym (cons-append c s t)) (h, IsFree-append n s t hs k)

IsPlain-IsFree : (s : String) → IsPlain s → IsFree b'&' s × IsFree b'=' s
IsPlain-IsFree [] h = (tt, tt)
IsPlain-IsFree (c ∷ s) (h, hs) =
    let (amp, eq) = IsPlain-IsFree s hs in
    let other : (code c ≢ b'&') × (code c ≢ b'=') = ground arith in ((other.0, amp), (other.1, eq))

same : (n : ℕ) → (n == n) ≡ true
same n = ground arith

other : {m n : ℕ} → m ≢ n → (m == n) ≡ false
other h = ground arith

-- The clauses of `split` and `split_first` at a character.
split-separator : (c : Char) (s : String) → split (c ∷ s) (code c) ≡ "" ∷ split s (code c)
unfolding split
split-separator c s =
    ap (λ b. if b then "" ∷ split s (code c) else prepend c (split s (code c))) (same (code c))

split-other : (c : Char) (s : String) (n : ℕ) → code c ≢ n → split (c ∷ s) n ≡ prepend c (split s n)
unfolding split
split-other c s n h = ap (λ b. if b then "" ∷ split s n else prepend c (split s n)) (other h)

in_front : Char → Option (String × String) → Option (String × String)
in_front c none = none
in_front c (some (before, after)) = some (c ∷ before, after)

split_first-other :
    (c : Char) (s : String) (n : ℕ)
    → code c ≢ n
    → split_first (c ∷ s) n ≡ in_front c (split_first s n)
unfolding split_first in_front
split_first-other c s n h =
    ap (λ b. if b then some ("", s) else in_front c (split_first s n)) (other h)

split_first-separator : (c : Char) (s : String) → split_first (c ∷ s) (code c) ≡ some ("", s)
unfolding split_first in_front
split_first-separator c s =
    ap (λ b. if b then some ("", s) else in_front c (split_first s (code c))) (same (code c))

split-free : (s : String) (n : ℕ) → IsFree n s → split s n ≡ s ∷ []
unfolding split
split-free [] n h = refl
split-free (c ∷ s) n (h, hs) = split-other c s n h ∙ ap (prepend c) (split-free s n hs)

split-append :
    (s : String) (c : Char) (t : String)
    → IsFree (code c) s
    → split (String.◌++◌ s (c ∷ t)) (code c) ≡ s ∷ split t (code c)
split-append [] d t h = ap (λ u. split u (code d)) (nil-append (d ∷ t)) ∙ split-separator d t
split-append (c ∷ s) d t (h, hs) =
    ap (λ u. split u (code d)) (cons-append c s (d ∷ t))
    ∙ split-other c _ (code d) h
    ∙ ap (prepend c) (split-append s d t hs)

split_first-append :
    (s : String) (c : Char) (t : String)
    → IsFree (code c) s
    → split_first (String.◌++◌ s (c ∷ t)) (code c) ≡ some (s, t)
unfolding in_front
split_first-append [] d t h =
    ap (λ u. split_first u (code d)) (nil-append (d ∷ t)) ∙ split_first-separator d t
split_first-append (c ∷ s) d t (h, hs) =
    ap (λ u. split_first u (code d)) (cons-append c s (d ∷ t))
    ∙ split_first-other c _ (code d) h
    ∙ ap (in_front c) (split_first-append s d t hs)

-- The parts around `=`; a part without one is passed over.
pub read_parts : List String → List (String × String)
read_parts [] = []
read_parts (part ∷ parts) =
    let rest = read_parts parts in
    elim (split_first part b'=') [ none ↦ rest | some pair ↦ pair ∷ rest ]

read_parts-cons :
    (part : String) (parts : List String) (pair : String × String)
    → split_first part b'=' ≡ some pair
    → read_parts (part ∷ parts) ≡ pair ∷ read_parts parts
unfolding read_parts
read_parts-cons part parts pair h = rw (h, read_parts) refl

abbrev equals : String → String → String
equals k v = String.◌++◌ k (String.◌++◌ "=" v)

-- A text of one character in front of another.
one_char : (c : Char) (t : String) → String.◌++◌ (c ∷ []) t ≡ c ∷ t
one_char c t = cons-append c [] t ∙ ap (λ u. c ∷ u) (nil-append t)

read_pair : (k v : String) → IsPlain k → split_first (equals k v) b'=' ≡ some (k, v)
read_pair k v h =
    ap (λ u. split_first (String.◌++◌ k u) b'=') (one_char (char 61 tt) v)
    ∙ split_first-append k (char 61 tt) v (IsPlain-IsFree k h).1

equals-IsFree : (k v : String) → IsPlain k → IsPlain v → IsFree b'&' (equals k v)
equals-IsFree k v h l =
    IsFree-append b'&' k _ (IsPlain-IsFree k h).0
      (IsFree-append b'&' "=" v (omega arith, tt) (IsPlain-IsFree v l).0)

-- The first pair and what follows it.
split-equals :
    (k v t : String)
    → IsPlain k
    → IsPlain v
    → split (String.◌++◌ k (String.◌++◌ "=" (String.◌++◌ v (String.◌++◌ "&" t)))) b'&'
      ≡ equals k v ∷ split t b'&'
split-equals k v t h l =
    ap (λ u. split u b'&')
      (ap (λ u. String.◌++◌ k u) (sym (append_assoc "=" v (String.◌++◌ "&" t)))
        ∙ sym (append_assoc k (String.◌++◌ "=" v) (String.◌++◌ "&" t))
        ∙ ap (λ u. String.◌++◌ (equals k v) u) (one_char (char 38 tt) t))
    ∙ split-append (equals k v) (char 38 tt) t (equals-IsFree k v h l)

pub read-encode :
    (pairs : List (String × String))
    → ArePlain pairs
    → read_parts (split (encode pairs) b'&') ≡ pairs
unfolding encode split read_parts split_first
read-encode [] h = refl
read-encode ((k, v) ∷ []) (hk, hv, hs) =
    ap read_parts (split-free (equals k v) b'&' (equals-IsFree k v hk hv))
    ∙ read_parts-cons (equals k v) [] (k, v) (read_pair k v hk)
read-encode ((k, v) ∷ pair ∷ rest) (hk, hv, hs) =
    ap read_parts (split-equals k v (encode (pair ∷ rest)) hk hv)
    ∙ read_parts-cons (equals k v) (split (encode (pair ∷ rest)) b'&') (k, v) (read_pair k v hk)
    ∙ ap (λ more. (k, v) ∷ more) (read-encode (pair ∷ rest) hs)

abbrev pub reader : QueryReader
reader = record {
  decode = λ query. collect (read_parts (split query b'&')) [];
  decode-encode = λ pairs h. ap (λ found. collect found []) (read-encode pairs h);
}
