-- ===== src/Providers/Random.antt =====
-- A request list answers with as many requests as were asked for, each one of its own.
use overload.Common.{
  ℕ, zero, suc, ◌<◌, ◌≡◌, refl, List, [], ◌∷◌, length, get_elem?, some, All, arith, ◌==◌, ap, false,
}
use overload.Http.{HttpReq, RequestList}
use overload.Providers.{ok, pick_all, list_get_n}

-- The request stands in the list.
abbrev pub IsIn : List HttpReq → HttpReq → Type 0
IsIn reqs req = (i : ℕ) × (get_elem? reqs i ≡ some req)

get_elem?_total :
    (reqs : List HttpReq) (i : ℕ)
    → i < length reqs
    → (req : HttpReq) × (get_elem? reqs i ≡ some req)
get_elem?_total [] i h = absurd (omega arith)
get_elem?_total (x ∷ reqs) zero h = (x, refl)
get_elem?_total (x ∷ reqs) (suc i) h = get_elem?_total reqs i (omega arith)

pick_all_total :
    (reqs : List HttpReq) (draw : ℕ → ℕ) (i n : ℕ)
    → ((k : ℕ) → draw k < length reqs)
    → (picked : List HttpReq) × (pick_all reqs draw i n ≡ some picked)
      × (length picked ≡ n)
      × All (IsIn reqs) picked
unfolding pick_all
pick_all_total reqs draw i zero h = ([], refl, refl, tt)
pick_all_total reqs draw i (suc n) h =
    let (req, got) = get_elem?_total reqs (draw i) (h i) in
    let (rest, got_rest, many, mine) = pick_all_total reqs draw (suc i) n h in
    (req ∷ rest, rw got (rw got_rest refl), ap suc many, ((draw i, got), mine))

-- Asked for a positive number of requests, a list that holds any, with draws below its length,
-- answers with exactly that number of requests, and every one stands in the list.
list_get_n-total :
    (self : RequestList) (draw : ℕ → ℕ) (n : ℕ)
    → 0 < n
    → ((k : ℕ) → draw k < length self.reqs)
    → (picked : List HttpReq) × (list_get_n self draw n ≡ ok picked)
      × (length picked ≡ n)
      × All (IsIn self.reqs) picked
unfolding list_get_n
list_get_n-total self draw n pos h =
    let (picked, got, many, mine) = pick_all_total self.reqs draw 0 n h in
    let asked : (n == 0) ≡ false = ground arith in
    let some_data : (length self.reqs == 0) ≡ false = ground (arith, h 0) in
    (picked, rw asked (rw (some_data, got) refl), many, mine)
