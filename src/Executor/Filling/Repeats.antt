-- ===== src/Executor/Filling/Repeats.antt =====
-- What the filling gives, and that it ends.
use overload.Common.{
  ℕ, zero, suc, ◌+◌, ◌-◌, ◌*◌, ◌≤◌, ◌<◌, ◌≡◌, refl, sym, ap, ap₂, subst, take, drop, length-take,
  length-drop, some_injective, ◌∙◌, true, false, List, [], ◌∷◌, ◌++◌, length, length-append,
  get_elem?, some, ltb, ◌==◌, if◌then◌else◌, ◌⊎◌, inl, inr, arith,
}
use overload.Executor.Filling.{Loop, ended, at_index, result_of, fill_loop, fill}

below : (j i : ℕ) → j < i + 1 → (j < i) ⊎ (j ≡ i)
below j i h = omega arith

module _ {ℓ} {A : Type ℓ} where
  -- From the `n`-th on, an item is the one `n` places before it.
  abbrev IsPeriodic : ℕ → List A → Type ℓ
  IsPeriodic n xs = (k : ℕ) → k + n < length xs → get_elem? xs (k + n) ≡ get_elem? xs k

  -- `filled` starts with `xs`.
  abbrev Extends : List A → List A → Type ℓ
  Extends xs filled = (k : ℕ) → k < length xs → get_elem? filled k ≡ get_elem? xs k

  get_elem?-append :
      (xs ys : List A) (k : ℕ) → k < length xs → get_elem? (xs ++ ys) k ≡ get_elem? xs k
  get_elem?-append [] ys k h = absurd (omega arith)
  get_elem?-append (x ∷ xs) ys zero h = refl
  get_elem?-append (x ∷ xs) ys (suc k) h = get_elem?-append xs ys k (omega arith)

  get_elem?-last :
      (xs : List A) (x : A) (k : ℕ) → k ≡ length xs → get_elem? (xs ++ x ∷ []) k ≡ some x
  get_elem?-last [] x zero h = refl
  get_elem?-last [] x (suc k) h = absurd (omega arith)
  get_elem?-last (y ∷ xs) x zero h = absurd (omega arith)
  get_elem?-last (y ∷ xs) x (suc k) h = get_elem?-last xs x k (omega arith)

  get_elem?-there : (xs : List A) (k : ℕ) → k < length xs → (x : A) × (get_elem? xs k ≡ some x)
  get_elem?-there [] k h = absurd (omega arith)
  get_elem?-there (x ∷ xs) zero h = (x, refl)
  get_elem?-there (x ∷ xs) (suc k) h = get_elem?-there xs k (omega arith)

  -- The items so far: whole copies of the first `n` up to `w`, the last of them from `v` on, and
  -- then `i` items of the next copy.
  record IsFilling (n v i : ℕ) (xs : List A) : Type ℓ where
    in_copy : i ≤ n
    size : length xs ≡ v + n + i
    whole : (j : ℕ) → j < n → get_elem? xs (v + j) ≡ get_elem? xs j
    begun : (j : ℕ) → j < i → get_elem? xs (v + n + j) ≡ get_elem? xs j
    periodic : IsPeriodic n xs

  -- One more item of a copy.
  push-IsFilling :
      (n v i : ℕ) (xs : List A) (x : A)
      → IsFilling n v i xs
      → i < n
      → get_elem? xs i ≡ some x
      → IsFilling n v (i + 1) (xs ++ x ∷ [])
  push-IsFilling n v i xs x f h e = record {
    in_copy = omega arith;
    size = omega (arith, f.size, length-append xs (x ∷ []));
    whole = λ j k.
        kept (v + j) (omega (arith, f.size)) ∙ f.whole j k ∙ sym (kept j (omega (arith, f.size)));
    begun = λ j k. begun j (below j i k);
    periodic =
        λ k l. periodic k (below (k + n) (length xs) (omega (arith, l, length-append xs (x ∷ []))));
  }
    where
      kept : (k : ℕ) → k < length xs → get_elem? (xs ++ x ∷ []) k ≡ get_elem? xs k
      kept = get_elem?-append xs (x ∷ [])

      new : (k : ℕ) → k ≡ v + n + i → get_elem? (xs ++ x ∷ []) k ≡ some x
      new k same = get_elem?-last xs x k (omega (arith, f.size))

      begun :
          (j : ℕ)
          → (j < i) ⊎ (j ≡ i)
          → get_elem? (xs ++ x ∷ []) (v + n + j) ≡ get_elem? (xs ++ x ∷ []) j
      begun j (inl old) =
          kept (v + n + j) (omega (arith, f.size))
          ∙ f.begun j old
          ∙ sym (kept j (omega (arith, f.size)))
      begun j (inr same) =
          new (v + n + j) (omega arith)
          ∙ sym (kept j (omega (arith, f.size)) ∙ ap (get_elem? xs) same ∙ e)

      periodic :
          (k : ℕ)
          → (k + n < length xs) ⊎ (k + n ≡ length xs)
          → get_elem? (xs ++ x ∷ []) (k + n) ≡ get_elem? (xs ++ x ∷ []) k
      periodic k (inl old) = kept (k + n) old ∙ f.periodic k old ∙ sym (kept k (omega arith))
      periodic k (inr same) =
          let place : k ≡ v + i = omega (arith, f.size) in
          new (k + n) (omega arith)
          ∙ sym (kept k (omega (arith, f.size)) ∙ ap (get_elem? xs) place ∙ f.whole i h ∙ e)

  -- The next copy.
  restart-IsFilling : (n v : ℕ) (xs : List A) → IsFilling n v n xs → IsFilling n (v + n) 0 xs
  restart-IsFilling n v xs f = record {
    in_copy = omega arith;
    size = omega (arith, f.size);
    whole = f.begun;
    begun = λ j k. absurd (omega arith);
    periodic = f.periodic;
  }

  pushes :
      (fuel n i need : ℕ) (xs : List A) (x : A)
      → i < n
      → get_elem? xs i ≡ some x
      → fill_loop (suc fuel) n i (suc need) xs ≡ fill_loop fuel n (i + 1) need (xs ++ x ∷ [])
  unfolding fill_loop
  pushes fuel n i need xs x h e =
      let inside : ltb i n ≡ true = ground arith in
      let one_less : suc need - 1 ≡ need = omega arith in
      let left : (suc need == 0) ≡ false = ground arith in
      ap
        (λ b.
          if b
          then ended xs
          else (if ltb i n
              then at_index (get_elem? xs i)
                  (λ request. fill_loop fuel n (i + 1) (suc need - 1) (xs ++ request ∷ []))
              else fill_loop fuel n 0 (suc need) xs))
        left
      ∙ ap
          (λ b.
            if b
            then at_index (get_elem? xs i)
                (λ request. fill_loop fuel n (i + 1) (suc need - 1) (xs ++ request ∷ []))
            else fill_loop fuel n 0 (suc need) xs)
          inside
      ∙ ap
          (λ found.
            at_index found
              (λ request. fill_loop fuel n (i + 1) (suc need - 1) (xs ++ request ∷ [])))
          e
      ∙ ap (λ m. fill_loop fuel n (i + 1) m (xs ++ x ∷ [])) one_less

  restarts :
      (fuel n i need : ℕ) (xs : List A)
      → i ≡ n
      → fill_loop (suc fuel) n i (suc need) xs ≡ fill_loop fuel n 0 (suc need) xs
  unfolding fill_loop
  restarts fuel n i need xs h = ground arith

  -- What the loop gives.
  record Fills (n need : ℕ) (xs : List A) (result : Loop A) : Type ℓ where
    filled : List A
    ends : result ≡ ended filled
    size : length filled ≡ length xs + need
    extends : Extends xs filled
    periodic : IsPeriodic n filled

  fill_loop-Fills :
      (fuel n v i need : ℕ) (xs : List A)
      → IsFilling n v i xs
      → 1 ≤ n
      → 2 * need + 1 ≤ fuel
      → (i ≡ n → 2 * need + 2 ≤ fuel)
      → Fills n need xs (fill_loop fuel n i need xs)
  unfolding fill_loop
  fill_loop-Fills zero n v i need xs f p h k = absurd (omega arith)
  fill_loop-Fills (suc fuel) n v i zero xs f p h k = record {
    filled = xs;
    ends = ground arith;
    size = omega arith;
    extends = λ k l. refl;
    periodic = f.periodic;
  }
  fill_loop-Fills (suc fuel) n v i (suc need) xs f p h k =
      elim (below i n (omega (arith, f.in_copy))) [
        | inl inside ↦
            let (x, e) = get_elem?-there xs i (omega (arith, f.size)) in
            let next =
              fill_loop-Fills fuel n v (i + 1) need (xs ++ x ∷ [])
                (push-IsFilling n v i xs x f inside e) p (omega arith) (λ same. omega arith) in
            record {
              filled = next.filled;
              ends = pushes fuel n i need xs x inside e ∙ next.ends;
              size = omega (arith, next.size, length-append xs (x ∷ []));
              extends = λ j l.
                  next.extends j (omega (arith, l, length-append xs (x ∷ [])))
                  ∙ get_elem?-append xs (x ∷ []) j l;
              periodic = next.periodic;
            }
        | inr over ↦
            let next =
              fill_loop-Fills fuel n (v + n) 0 (suc need) xs
                (restart-IsFilling n v xs (subst (λ m. IsFilling n v m xs) over f)) p
                (omega (arith, k over)) (λ same. omega arith) in
            record {
              filled = next.filled;
              ends = restarts fuel n i need xs over ∙ next.ends;
              size = next.size;
              extends = next.extends;
              periodic = next.periodic;
            }
      ]

  whole-IsFilling : (xs : List A) → IsFilling (length xs) 0 0 xs
  whole-IsFilling xs = record {
    in_copy = omega arith;
    size = omega arith;
    whole = λ j h. ap (get_elem? xs) (omega arith);
    begun = λ j h. absurd (omega arith);
    periodic = λ k h. absurd (omega arith);
  }

  same_items :
      (xs ys : List A)
      → length xs ≡ length ys
      → ((k : ℕ) → k < length xs → get_elem? xs k ≡ get_elem? ys k)
      → xs ≡ ys
  same_items [] [] h e = refl
  same_items [] (y ∷ ys) h e = absurd (omega arith)
  same_items (x ∷ xs) [] h e = absurd (omega arith)
  same_items (x ∷ xs) (y ∷ ys) h e =
      ap₂ ◌∷◌ (some_injective (e 0 (omega arith)))
        (same_items xs ys (omega arith) (λ k l. e (suc k) (omega arith)))

  get_elem?-take : (n k : ℕ) (xs : List A) → k < n → get_elem? (take n xs) k ≡ get_elem? xs k
  get_elem?-take zero k xs h = absurd (omega arith)
  get_elem?-take (suc n) k [] h = refl
  get_elem?-take (suc n) zero (x ∷ xs) h = refl
  get_elem?-take (suc n) (suc k) (x ∷ xs) h = get_elem?-take n k xs (omega arith)

  get_elem?-drop : (n k : ℕ) (xs : List A) → get_elem? (drop n xs) k ≡ get_elem? xs (k + n)
  get_elem?-drop zero k xs = ap (get_elem? xs) (omega arith)
  get_elem?-drop (suc n) k [] = refl
  get_elem?-drop (suc n) k (x ∷ xs) =
      let moved : suc (k + n) ≡ k + suc n = omega arith in
      get_elem?-drop n k xs ∙ ap (get_elem? (x ∷ xs)) moved

  take-Extends :
      (xs filled : List A)
      → length xs ≤ length filled
      → Extends xs filled
      → take (length xs) filled ≡ xs
  take-Extends xs filled h e =
      same_items (take (length xs) filled) xs (omega (arith, length-take (length xs) filled))
        (λ k l.
          let inside : k < length xs = omega (arith, l, length-take (length xs) filled) in
          get_elem?-take (length xs) k filled inside ∙ e k inside)

  drop-IsPeriodic :
      (n : ℕ) (filled : List A)
      → IsPeriodic n filled
      → drop n filled ≡ take (length filled - n) filled
  drop-IsPeriodic n filled p =
      same_items (drop n filled) (take (length filled - n) filled)
        (omega (arith, length-drop n filled, length-take (length filled - n) filled))
        (λ k l.
          let inside : k + n < length filled = omega (arith, l, length-drop n filled) in
          get_elem?-drop n k filled
          ∙ p k inside
          ∙ sym (get_elem?-take (length filled - n) k filled (omega arith)))

  -- With at least one request and fewer requests than connections, the loop ends within twice as many
  -- rounds as there are connections, and one more; then there is one request for each connection,
  -- the generated requests come first, and what follows repeats all from the first on.
  pub fill-repeats :
      (available_connection : ℕ) (requests : List A)
      → 1 ≤ length requests
      → length requests < available_connection
      → (filled : List A) × (fill
            (2 * available_connection + 1)
            available_connection
            (length requests)
            requests
          ≡ some filled)
        × (length filled ≡ available_connection)
        × (take (length requests) filled ≡ requests)
        × (drop (length requests) filled ≡ take (available_connection - length requests) filled)
  unfolding fill
  fill-repeats available_connection requests h k =
      let done =
        fill_loop-Fills (2 * available_connection + 1) (length requests) 0 0
          (available_connection - length requests) requests (whole-IsFilling requests) h
          (omega arith) (λ none_yet. omega arith) in
      let all : length done.filled ≡ available_connection = omega (arith, done.size) in
      (
        done.filled,
        ap result_of done.ends,
        all,
        take-Extends requests done.filled (omega arith) done.extends,
        drop-IsPeriodic (length requests) done.filled done.periodic
            ∙ ap (λ n. take (n - length requests) done.filled) all,
      )
