-- ===== src/Common/Ensures.antt =====
-- What a computation that may fail ensures of its result, with a rule for each construct.
use overload.Common.Monads.{◌>>=◌}
use overload.Common.Tests.{if◌then◌else◌}
use mathlib.Core.Bool.{Bool, true, false}
use mathlib.Core.Option.{Option, none, some}

-- Whatever a computation returns satisfies `P`.
pub data Ensures {A : Type 0} (P : A → Type 0) : Option A → Type 0 where
  fails : Ensures P none
  gives : {a : A} → P a → Ensures P (some a)

pub value_of : {A : Type 0} {P : A → Type 0} {a : A} → Ensures P (some a) → P a
value_of (gives p) = p

pub Ensures-if :
    {A : Type 0} {P : A → Type 0} (b : Bool) {m n : Option A}
    → Ensures P m
    → Ensures P n
    → Ensures P (if b then m else n)
Ensures-if true h k = h
Ensures-if false h k = k

infixl 5 ◌⟫◌
pub ◌⟫◌ :
    {A B : Type 0} {P : A → Type 0} {Q : B → Type 0} {m : Option A} {f : A → Option B}
    → Ensures P m
    → ((a : A) → P a → Ensures Q (f a))
    → Ensures Q (m >>= f)
fails ⟫ k = fails
(gives p) ⟫ k = k _ p

pub anything : {A : Type 0} (m : Option A) → Ensures (λ _. Unit {0}) m
anything none = fails
anything (some a) = gives tt

-- A computation returns, and its result satisfies `P`.
pub data Returns {A : Type 0} (P : A → Type 0) : Option A → Type 0 where
  returns : {a : A} → P a → Returns P (some a)

infixl 5 ◌⟫=◌
pub ◌⟫=◌ :
    {A B : Type 0} {P : A → Type 0} {Q : B → Type 0} {m : Option A} {f : A → Option B}
    → Returns P m
    → ((a : A) → P a → Returns Q (f a))
    → Returns Q (m >>= f)
(returns p) ⟫= k = k _ p

pub weaken :
    {A : Type 0} {P Q : A → Type 0} {m : Option A}
    → Returns P m
    → ((a : A) → P a → Q a)
    → Returns Q m
weaken (returns p) k = returns (k _ p)
