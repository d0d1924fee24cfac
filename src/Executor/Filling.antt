-- ===== src/Executor/Filling.antt =====
-- cluster-executor/src/secondary.rs: `fill_req_if_less_than_connections`, which repeats requests
-- until there is one for each connection.
pub mod Repeats
use overload.Common.{
  ℕ, zero, suc, ◌+◌, ◌-◌, ◌*◌, ◌≤◌, ◌<◌, ◌≡◌, refl, sym, ap, ap₂, subst, take, drop, length-take,
  length-drop, some_injective, ◌∙◌, true, false, List, [], ◌∷◌, ◌++◌, length, length-append,
  get_elem?, Option, none, some, ltb, ◌==◌, if◌then◌else◌, ◌>>=◌, ◌⊎◌, inl, inr, arith,
}

-- How far the loop gets on its fuel: to its end, to an index out of bounds, or to neither.
pub data Loop {ℓ} (A : Type ℓ) : Type ℓ where
  ended : List A → Loop A
  panicked running : Loop A

module _ {ℓ} {A : Type ℓ} where
  -- Indexing, and what follows it.
  abbrev pub at_index : Option A → (A → Loop A) → Loop A
  at_index none next = panicked
  at_index (some a) next = next a

  unfoldable pub fill_loop : (fuel available_req i need_to_insert : ℕ) → List A → Loop A
  fill_loop zero available_req i need requests = running
  fill_loop (suc fuel) available_req i need requests =
      let restart = fill_loop fuel available_req 0 need requests in
      if need == 0
      then ended requests
      else (if ltb i available_req
          then at_index (get_elem? requests i) (λ request.
            fill_loop fuel available_req (i + 1) (need - 1) (requests ++ request ∷ []))
          else restart)

  -- `usize` subtraction; no caller has more requests than connections here.
  abbrev pub fill_by : (fuel available_connection available_req : ℕ) → List A → Loop A
  fill_by fuel available_connection available_req requests =
      fill_loop fuel available_req 0 (available_connection - available_req) requests

  abbrev pub result_of : Loop A → Option (List A)
  result_of (ended requests) = some requests
  result_of panicked = none
  result_of running = none

  -- `fill_req_if_less_than_connections`, called with fewer requests than connections; `none` if it
  -- panics or does not end within the fuel. Each round but every second one at most adds a request.
  unfoldable pub fill : (fuel available_connection available_req : ℕ) → List A → Option (List A)
  fill fuel available_connection available_req requests =
      result_of (fill_by fuel available_connection available_req requests)

  -- With no request at all to repeat the loop never ends.
  fill_loop-endless :
      (fuel need : ℕ) (requests : List A) → 1 ≤ need → fill_loop fuel 0 0 need requests ≡ running
  unfolding fill_loop
  fill_loop-endless zero need requests h = refl
  fill_loop-endless (suc fuel) need requests h =
      ground (arith, fill_loop-endless fuel need requests h)

  -- If no request was generated for the connections that wait for one, the loop neither ends nor
  -- panics, however long it runs.
  pub fill-endless :
      (fuel available_connection : ℕ)
      → 1 ≤ available_connection
      → fill_by fuel available_connection 0 [] ≡ running
  fill-endless fuel available_connection h =
      fill_loop-endless fuel (available_connection - 0) [] (omega arith)
