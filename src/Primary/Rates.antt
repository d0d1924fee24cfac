-- ===== src/Primary/Rates.antt =====
-- The rates of a second are shared among the secondaries without loss.
use native.Mathlib.Nat.{div-add-mod}
use overload.Common.{
  ℕ, zero, suc, ◌+◌, ◌-◌, ◌*◌, ◌/◌, ◌%◌, ◌<◌, ◌≡◌, refl, ◌⊎◌, min, List, length, replicate, sum,
  All, some, arith, false, ◌==◌, ◌∙◌,
}
use overload.Primary.{spread, calculate_req_per_secondary}

-- `n` parts of a total that differ by one at most.
pub record IsShare (total n : ℕ) (parts : List ℕ) : Type 0 where
  pub many : length parts ≡ n
  pub whole : sum parts ≡ total
  pub even : All (λ x. (x ≡ total / n) ⊎ (x ≡ total / n + 1)) parts

module _ (qr cr a b : ℕ) where
  abbrev spread_same : ℕ → ℕ → List ℕ × List ℕ
  spread_same pos k = spread pos qr cr (replicate k a) (replicate k b)

  spread-length :
      (k pos : ℕ) → (length (spread_same pos k).0 ≡ k) × (length (spread_same pos k).1 ≡ k)
  unfolding spread
  spread-length zero pos = (refl, refl)
  spread-length (suc k) pos = ground (arith, spread-length k (pos + 1))

  spread-sum :
      (k pos : ℕ)
      → (sum (spread_same pos k).0 ≡ k * a + min k (qr - pos))
        × (sum (spread_same pos k).1 ≡ k * b + min k (cr - pos))
  unfolding spread
  spread-sum zero pos = (omega arith, omega arith)
  spread-sum (suc k) pos = ground (arith, spread-sum k (pos + 1))

  spread-even :
      (k pos : ℕ)
      → All (λ x. (x ≡ a) ⊎ (x ≡ a + 1)) (spread_same pos k).0
        × All (λ x. (x ≡ b) ⊎ (x ≡ b + 1)) (spread_same pos k).1
  unfolding spread
  spread-even zero pos = (tt, tt)
  spread-even (suc k) pos = ground (arith, spread-even k (pos + 1))

-- With at least one secondary, the requests and the connections of a second are both divided into
-- one part for each secondary: the parts add up to the whole, and differ by one at most.
pub calculate_req_per_secondary-IsShare :
    (qps connection_count n : ℕ)
    → 0 < n
    → (qs : List ℕ) × (cs : List ℕ) × (calculate_req_per_secondary qps connection_count n
        ≡ some (qs, cs))
      × IsShare qps n qs
      × IsShare connection_count n cs
unfolding calculate_req_per_secondary
calculate_req_per_secondary-IsShare qps conns n pos =
    let nonzero : (n == 0) ≡ false = ground arith in
    let (qs_many, cs_many) = spread-length (qps % n) (conns % n) (qps / n) (conns / n) n 0 in
    let (qs_sum, cs_sum) = spread-sum (qps % n) (conns % n) (qps / n) (conns / n) n 0 in
    let (qs_even, cs_even) = spread-even (qps % n) (conns % n) (qps / n) (conns / n) n 0 in
    let below_q : qps % n < n = omega arith in
    let below_c : conns % n < n = omega arith in
    (
      _,
      _,
      rw nonzero refl,
      record { many = qs_many; whole = qs_sum ∙ omega (arith, div-add-mod qps n); even = qs_even },
      record {
        many = cs_many;
        whole = cs_sum ∙ omega (arith, div-add-mod conns n);
        even = cs_even;
      },
    )
