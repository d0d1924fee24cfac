-- ===== src/Common/Arith.antt =====
-- Facts about quotients and remainders that the shares rest on.
use Prim.Native.Nat.{ℕ, ◌+◌, ◌-◌, ◌*◌, ◌/◌, ◌%◌, ◌≤◌, ◌<◌}
use mathlib.Core.Path.{◌≡◌, ap, ◌∙◌}
use native.Mathlib.Nat.{div-add-mod, mod-lt}
use native.Mathlib.Omega.{arith}

shares_sum : (r d q : ℕ) → r * (q + 1) + d * q ≡ (r + d) * q + r
shares_sum r d q = omega arith

-- `n` shares of `a / n`, of which `a % n` have one more, are `a` in all.
pub div_mod_shares : (a n : ℕ) → 0 < n → (a % n) * (a / n + 1) + (n - a % n) * (a / n) ≡ a
div_mod_shares a n pos =
    let below : a % n < n = omega arith in
    let whole : a % n + (n - a % n) ≡ n = omega arith in
    shares_sum (a % n) (n - a % n) (a / n) ∙ ap (λ t. t * (a / n) + a % n) whole ∙ div-add-mod a n

pub div_pos : (a n : ℕ) → 0 < n → n ≤ a → 0 < a / n
div_pos a n pos le = grind (arith, div-add-mod a n, mod-lt a {m = n})

pub div-eq_zero : (a n : ℕ) → a < n → a / n ≡ 0
div-eq_zero a n lt = grind (arith, div-add-mod a n)
