-- ===== src/Common/Decimal.antt =====
-- Rust's `Display` and `FromStr` of `usize`: decimal digits, and back.
use Prim.Native.Char.{Char, char, code}
use Prim.Native.Nat.{ℕ, zero, suc, ◌+◌, ◌-◌, ◌*◌, ◌/◌, ◌%◌, ◌^◌, ◌≤◌, ◌<◌}
use Prim.Native.String.{String, [], ◌∷◌}
use mathlib.Core.Bool.{Bool, true, false, ◌&&◌}
use mathlib.Core.List.{List, [], ◌∷◌}
use mathlib.Core.Option.{Option, none, some}
use mathlib.Core.Path.{◌≡◌, refl, ◌∙◌}
use native.Mathlib.Omega.{arith}
use overload.Common.Int.{ℤ, pos, sub_ℕ}
use overload.Common.Lists.{get_or}
use overload.Common.Monads.{◌>>=◌}
use overload.Common.Tests.{ltb, leb, ◌==◌, if◌then◌else◌}

abbrev pub usize_max : ℕ
usize_max = 18446744073709551615

-- The characters `0` to `9`.
abbrev digits : List Char
digits =
    char 48 tt
    ∷ char 49 tt
    ∷ char 50 tt
    ∷ char 51 tt
    ∷ char 52 tt
    ∷ char 53 tt
    ∷ char 54 tt
    ∷ char 55 tt
    ∷ char 56 tt
    ∷ char 57 tt
    ∷ []

abbrev digit : ℕ → Char
digit d = get_or digits d (char 57 tt)

-- The digits of `n` in front of `out`, the last one first.
emit : (fuel : ℕ) → ℕ → String → String
emit zero n out = out
emit (suc fuel) n out =
    let longer : String = (digit (n % 10) ∷ out) in
    let rest = emit fuel (n / 10) longer in if ltb n 10 then longer else rest

-- A `usize` has at most 20 digits.
unfoldable pub show : ℕ → String
unfolding emit
show n = emit 20 n []

scan : String → ℕ → Option ℕ
scan [] n = some n
scan (c ∷ s) n =
    let m = n * 10 + (code c - 48) in
    let rest = scan s m in
    if leb 48 (code c) && leb (code c) 57 && leb m usize_max then rest else none

-- A sign alone is refused, and so is a minus.
scan_some : String → Option ℕ
unfolding scan
scan_some [] = none
scan_some (c ∷ s) = scan (c ∷ s) 0

unfoldable pub parse : String → Option ℕ
unfolding scan_some
parse [] = none
parse (c ∷ s) = if code c == 43 then scan_some s else scan_some (c ∷ s)

-- `FromStr` of `i64`. A number above the bounds of `usize` is refused by `scan`.
unfoldable pub parse_i64 : String → Option ℤ
unfolding parse scan_some
parse_i64 [] = none
parse_i64 (c ∷ s) =
    if code c == 45
    then (scan_some s >>= λ n. if leb n 9223372036854775808 then some (sub_ℕ 0 n) else none)
    else (parse (c ∷ s) >>= λ n. if ltb n 9223372036854775808 then some (pos n) else none)

code-digit : (d : ℕ) → d < 10 → code (digit d) ≡ 48 + d
code-digit zero h = refl
code-digit (suc zero) h = refl
code-digit (suc (suc zero)) h = refl
code-digit (suc (suc (suc zero))) h = refl
code-digit (suc (suc (suc (suc zero)))) h = refl
code-digit (suc (suc (suc (suc (suc zero))))) h = refl
code-digit (suc (suc (suc (suc (suc (suc zero)))))) h = refl
code-digit (suc (suc (suc (suc (suc (suc (suc zero))))))) h = refl
code-digit (suc (suc (suc (suc (suc (suc (suc (suc zero)))))))) h = refl
code-digit (suc (suc (suc (suc (suc (suc (suc (suc (suc zero))))))))) h = refl
code-digit (suc (suc (suc (suc (suc (suc (suc (suc (suc (suc d)))))))))) h = absurd (omega arith)

-- The clause of `scan` at a digit of a number that fits.
scan-digit :
    (n d : ℕ) (out : String)
    → d < 10
    → n * 10 + d ≤ usize_max
    → scan (digit d ∷ out) n ≡ scan out (n * 10 + d)
unfolding scan
scan-digit n d out h k = ground (arith, code-digit d h)

scan-emit :
    (fuel n : ℕ) (out : String)
    → n < 10 ^ suc fuel
    → n ≤ usize_max
    → scan (emit (suc fuel) n out) 0 ≡ scan out n
unfolding emit
scan-emit zero n out h k = ground (arith, scan-digit 0 (n % 10) out)
scan-emit (suc fuel) n out h k = ground (
  arith,
  scan-digit 0 (n % 10) out,
  scan-digit (n / 10) (n % 10) out,
  scan-emit fuel (n / 10) (digit (n % 10) ∷ out),
)

-- Texts of digits, and one that starts with a digit.
abbrev pub IsDigit : Char → Type 0
IsDigit c = (48 ≤ code c) × (code c ≤ 57)

abbrev pub IsDigits : String → Type 0
IsDigits [] = Unit
IsDigits (c ∷ s) = IsDigit c × IsDigits s

abbrev StartsWithDigit : String → Type 0
StartsWithDigit [] = ⊥
StartsWithDigit (c ∷ s) = IsDigit c

if-path {ℓ} : (P : String → Type ℓ) (b : Bool) {s t : String} → P s → P t → P (if b then s else t)
if-path P true p q = p
if-path P false p q = q

IsDigit-digit : (n : ℕ) → IsDigit (digit (n % 10))
IsDigit-digit n =
    let e : code (digit (n % 10)) ≡ 48 + n % 10 = code-digit (n % 10) (omega arith) in
    (omega arith, omega arith)

emit-StartsWithDigit : (fuel n : ℕ) (out : String) → StartsWithDigit (emit (suc fuel) n out)
unfolding emit
emit-StartsWithDigit zero n out =
    if-path StartsWithDigit (ltb n 10) (IsDigit-digit n) (IsDigit-digit n)
emit-StartsWithDigit (suc fuel) n out =
    if-path StartsWithDigit (ltb n 10) (IsDigit-digit n)
      (emit-StartsWithDigit fuel (n / 10) (digit (n % 10) ∷ out))

emit-IsDigits : (fuel n : ℕ) (out : String) → IsDigits out → IsDigits (emit fuel n out)
unfolding emit
emit-IsDigits zero n out h = h
emit-IsDigits (suc fuel) n out h =
    let longer : IsDigits (digit (n % 10) ∷ out) = (IsDigit-digit n, h) in
    if-path IsDigits (ltb n 10) longer (emit-IsDigits fuel (n / 10) (digit (n % 10) ∷ out) longer)

pub show-IsDigits : (n : ℕ) → IsDigits (show n)
unfolding show
show-IsDigits n = emit-IsDigits 20 n [] tt

parse-digits : (s : String) → StartsWithDigit s → parse s ≡ scan s 0
unfolding parse scan_some
parse-digits [] h = absurd h
parse-digits (c ∷ s) h = ground arith

-- A `usize` is read back from its decimal print.
pub parse-show : (n : ℕ) → n ≤ usize_max → parse (show n) ≡ some n
unfolding show scan
parse-show n h =
    parse-digits (emit 20 n []) (emit-StartsWithDigit 19 n []) ∙ scan-emit 19 n [] (omega arith) h

scan-le : (s : String) (n r : ℕ) → n ≤ usize_max → scan s n ≡ some r → r ≤ usize_max
unfolding scan
scan-le [] n r h e = ground arith
scan-le (c ∷ s) n r h e = ground (arith, scan-le s (n * 10 + (code c - 48)) r)

-- What is read fits a `usize`.
pub parse-le : (s : String) (r : ℕ) → parse s ≡ some r → r ≤ usize_max
unfolding parse scan_some
parse-le [] r e = cc e
parse-le (c ∷ []) r e = ground (arith, scan-le (c ∷ []) 0 r)
parse-le (c ∷ d ∷ s) r e = ground (arith, scan-le (c ∷ d ∷ s) 0 r, scan-le (d ∷ s) 0 r)
