-- ===== src/RateSpec/Scheme/Polling.antt =====
-- The cursor of `Steps`, polled once a second from second 0 on, finds the step of each second.
use mathlib.Core.List.{append_assoc}
use overload.Common.{
  length-append, ℕ, suc, ◌+◌, ◌≤◌, ◌<◌, ◌≡◌, refl, sym, ◌⊎◌, inl, inr, List, [], ◌∷◌, ◌++◌, length,
  get_elem?, some, leb, if◌then◌else◌, ◌&&◌, arith, ap, Bool, true, false, subst, ◌∙◌, Bool-cases,
}
use overload.RateSpec.{Step, Steps}
use overload.RateSpec.Validate.Accept.{Contiguous, IsAccepted}
use overload.RateSpec.Scheme.{steps_next, steps_select, last_rate}

-- The rate that a list of steps asks for in second `n`: that of the step that `n` lies in, and past
-- the last step that of the last.
abbrev pub rate_at : List Step → ℕ → ℕ
rate_at [] n = 0
rate_at (s ∷ []) n = s.rate
rate_at (s ∷ t ∷ rest) n = if leb s.start n && leb n s.end then s.rate else rate_at (t ∷ rest) n

-- The cursor stands at the step of second `n`, at the one before it, or at the last.
pub record IsAt (s : Steps) (n : ℕ) : Type 0 where
  pub before : List Step
  pub current : Step
  pub after : List Step
  pub split : s.steps ≡ before ++ current ∷ after
  pub cursor : s.current_step ≡ length before
  pub contiguous : Contiguous 0 s.steps
  pub begun : current.start ≤ n
  pub near : (n ≤ current.end + 1) ⊎ (after ≡ [])

get_elem?-middle :
    (before : List Step) (x : Step) (after : List Step)
    → get_elem? (before ++ x ∷ after) (length before) ≡ some x
get_elem?-middle [] x after = refl
get_elem?-middle (y ∷ before) x after = get_elem?-middle before x after

get_elem?-behind :
    (before : List Step) (x : Step) (after : List Step)
    → get_elem? (before ++ x ∷ after) (suc (length before)) ≡ get_elem? after 0
get_elem?-behind [] x after = refl
get_elem?-behind (y ∷ before) x after = get_elem?-behind before x after

last_rate-snoc : (before : List Step) (x : Step) → last_rate (before ++ x ∷ []) ≡ x.rate
unfolding last_rate
last_rate-snoc [] x = refl
last_rate-snoc (y ∷ []) x = refl
last_rate-snoc (y ∷ z ∷ before) x = last_rate-snoc (z ∷ before) x

Contiguous-begin :
    (next : ℕ) (before : List Step) (x : Step) (after : List Step)
    → Contiguous next (before ++ x ∷ after)
    → next ≤ x.start
Contiguous-begin next [] x after c = omega arith
Contiguous-begin next (y ∷ before) x after c =
    omega (arith, Contiguous-begin (y.end + 1) before x after c.2)

Contiguous-drop :
    (next : ℕ) (before : List Step) (x : Step) (after : List Step)
    → Contiguous next (before ++ x ∷ after)
    → Contiguous x.start (x ∷ after)
Contiguous-drop next [] x after c = (refl, c.1, c.2)
Contiguous-drop next (y ∷ before) x after c = Contiguous-drop (y.end + 1) before x after c.2

rate_at-cons :
    (y : Step) (xs : List Step) (n : ℕ) (x : Step) (after : List Step) (before : List Step)
    → xs ≡ before ++ x ∷ after
    → y.end < n
    → rate_at (y ∷ xs) n ≡ rate_at xs n
rate_at-cons y [] n x after [] e h = cc
rate_at-cons y [] n x after (z ∷ before) e h = cc
rate_at-cons y (t ∷ xs) n x after before e h = ground arith

-- Steps that lie before second `n` do not matter.
rate_at-skip :
    (next n : ℕ) (before : List Step) (x : Step) (after : List Step)
    → Contiguous next (before ++ x ∷ after)
    → x.start ≤ n
    → rate_at (before ++ x ∷ after) n ≡ rate_at (x ∷ after) n
rate_at-skip next n [] x after c h = refl
rate_at-skip next n (y ∷ before) x after c h =
    rate_at-cons y (before ++ x ∷ after) n x after before refl
      (omega (arith, Contiguous-begin (y.end + 1) before x after c.2))
    ∙ rate_at-skip (y.end + 1) n before x after c.2 h

module _ (s : Steps) (n : ℕ) where
  -- The reference reads the steps from the one that the cursor stands at.
  rate_at-IsAt : (at : IsAt s n) → rate_at s.steps n ≡ rate_at (at.current ∷ at.after) n
  rate_at-IsAt at =
      ap (λ l. rate_at l n) at.split
      ∙ rate_at-skip 0 n at.before at.current at.after (subst (Contiguous 0) at.split at.contiguous)
          at.begun

  here : (at : IsAt s n) → get_elem? s.steps s.current_step ≡ some at.current
  here at = rw (at.split, at.cursor) (get_elem?-middle at.before at.current at.after)

  behind : (at : IsAt s n) → get_elem? s.steps (suc s.current_step) ≡ get_elem? at.after 0
  behind at = rw (at.split, at.cursor) (get_elem?-behind at.before at.current at.after)

  within :
      (at : IsAt s n)
      → (leb at.current.start n && leb n at.current.end) ≡ true
      → steps_next s n ≡ (at.current.rate, s)
  unfolding steps_next
  within at h = rw (here at, steps_select) (rw h refl)

  past_last :
      (at : IsAt s n)
      → at.after ≡ []
      → (leb at.current.start n && leb n at.current.end) ≡ false
      → steps_next s n ≡ (last_rate s.steps, s)
  unfolding steps_next
  past_last at e h = ground (arith, here at, behind at)

  moves_on :
      (at : IsAt s n) (t : Step)
      → get_elem? at.after 0 ≡ some t
      → (leb at.current.start n && leb n at.current.end) ≡ false
      → steps_next s n ≡ (t.rate, record s { current_step = suc s.current_step })
  unfolding steps_next
  moves_on at t e h = ground (arith, here at, behind at)

-- What one poll at second `n` yields.
abbrev pub Polled : Steps → ℕ → ℕ × Steps → Type 0
Polled s n (rate, s') = (rate ≡ rate_at s.steps n) × (s'.steps ≡ s.steps) × IsAt s' (n + 1)

rate_at-within :
    (x : Step) (after : List Step) (n : ℕ)
    → (leb x.start n && leb n x.end) ≡ true
    → rate_at (x ∷ after) n ≡ x.rate
rate_at-within x [] n h = refl
rate_at-within x (t ∷ after) n h = rw h refl

rate_at-next :
    (x t : Step) (rest : List Step) (n : ℕ)
    → (leb x.start n && leb n x.end) ≡ false
    → (leb t.start n && leb n t.end) ≡ true
    → rate_at (x ∷ t ∷ rest) n ≡ t.rate
rate_at-next x t rest n h k = rw h (rate_at-within t rest n k)

bounds_of :
    (t : Step) (n : ℕ)
    → (leb t.start n && leb n t.end) ≡ true
    → (t.start ≤ n + 1) × (n + 1 ≤ t.end + 1)
bounds_of t n h = ground arith

module _ (s : Steps) (n : ℕ) (at : IsAt s n) where
  abbrev inside : Bool
  inside = leb at.current.start n && leb n at.current.end

  whole : (after : List Step) → at.after ≡ after → s.steps ≡ at.before ++ at.current ∷ after
  whole after e = at.split ∙ ap (λ l. at.before ++ at.current ∷ l) e

  within-Polled : inside ≡ true → Polled s n (steps_next s n)
  within-Polled h = rw (within s n at h) (
    sym (rate_at-IsAt s n at ∙ rate_at-within at.current at.after n h),
    refl,
    record {
      before = at.before;
      current = at.current;
      after = at.after;
      split = at.split;
      cursor = at.cursor;
      contiguous = at.contiguous;
      begun = ground arith;
      near = inl (ground arith);
    },
  )

  past_last-Polled : inside ≡ false → at.after ≡ [] → Polled s n (steps_next s n)
  past_last-Polled h e = rw (past_last s n at e h) (
    ap last_rate (whole [] e)
        ∙ last_rate-snoc at.before at.current
        ∙ sym (rate_at-IsAt s n at ∙ ap (λ l. rate_at (at.current ∷ l) n) e),
    refl,
    record {
      before = at.before;
      current = at.current;
      after = at.after;
      split = at.split;
      cursor = at.cursor;
      contiguous = at.contiguous;
      begun = omega (arith, at.begun);
      near = inr e;
    },
  )

  due :
      (t : Step) (rest : List Step)
      → inside ≡ false
      → at.after ≡ t ∷ rest
      → Contiguous at.current.start (at.current ∷ t ∷ rest)
      → (leb t.start n && leb n t.end) ≡ true
  due t rest h e tail = ground (arith, at.near, at.begun)

  moves_on-Polled :
      (t : Step) (rest : List Step)
      → inside ≡ false
      → at.after ≡ t ∷ rest
      → Polled s n (steps_next s n)
  moves_on-Polled t rest h e =
      let split' : s.steps ≡ (at.before ++ at.current ∷ []) ++ t ∷ rest =
        rw append_assoc (whole (t ∷ rest) e) in
      let tail =
        Contiguous-drop 0 at.before at.current (t ∷ rest)
          (subst (Contiguous 0) (whole (t ∷ rest) e) at.contiguous) in
      let now : (leb t.start n && leb n t.end) ≡ true = due t rest h e tail in
      rw (moves_on s n at t (rw e refl) h) (
        sym (
            rate_at-IsAt s n at
            ∙ ap (λ l. rate_at (at.current ∷ l) n) e
            ∙ rate_at-next at.current t rest n h now),
        refl,
        record {
          before = at.before ++ at.current ∷ [];
          current = t;
          after = rest;
          split = split';
          cursor = omega (arith, at.cursor, length-append {0} at.before (at.current ∷ []));
          contiguous = at.contiguous;
          begun = (bounds_of t n now).0;
          near = inl (bounds_of t n now).1;
        },
      )

  cases-Polled : (after : List Step) → at.after ≡ after → Polled s n (steps_next s n)
  cases-Polled after e = elim (Bool-cases inside) [
    | inl h ↦ within-Polled h
    | inr h ↦ outside after e h
  ]
    where
      outside :
          (after : List Step) → at.after ≡ after → inside ≡ false → Polled s n (steps_next s n)
      outside [] e h = past_last-Polled h e
      outside (t ∷ rest) e h = moves_on-Polled t rest h e

  -- A poll answers with the rate of its second, and leaves the cursor right for the next second.
  pub steps_next-Polled : Polled s n (steps_next s n)
  steps_next-Polled = cases-Polled at.after refl

-- An accepted specification starts with the cursor right.
pub IsAccepted-IsAt : (given : List Step) (s : Steps) → IsAccepted given s → IsAt s 0
IsAccepted-IsAt given s a = go s.steps refl
  where
    go : (xs : List Step) → s.steps ≡ xs → IsAt s 0
    go [] e = absurd (ground (arith, a.several, e))
    go (x ∷ xs) e = record {
      before = [];
      current = x;
      after = xs;
      split = e;
      cursor = a.fresh;
      contiguous = a.contiguous;
      begun = omega (arith, (subst (Contiguous 0) e a.contiguous).0);
      near = inl (omega arith);
    }
