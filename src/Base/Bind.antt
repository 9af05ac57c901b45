-- ===== src/Base/Bind.antt =====
-- `Option` as the monad of code that may panic, and the predicate "returns, with ...".
use mathlib.Core.Option.{Option, none, some}
use mathlib.Core.Path.{◌≡◌, refl}

infixl 5 ◌>>=◌
abbrev pub ◌>>=◌ {ℓ κ} : {A : Type ℓ} {B : Type κ} → Option A → (A → Option B) → Option B
none >>= f = none
some a >>= f = f a

-- The computation does not panic, and `P` holds of its result.
abbrev pub Returns : {A : Type 0} → (A → Type 0) → Option A → Type 0
Returns P none = ⊥
Returns P (some a) = P a

pub Returns-some :
    {A : Type 0} {r : Option A} (P : A → Type 0) (a : A) → r ≡ some a → P a → Returns P r
Returns-some P a e p = rw e p

-- A step after a step.
pub Returns->>= :
    {A B : Type 0} (P : A → Type 0) (Q : B → Type 0) (r : Option A) (f : A → Option B)
    → Returns P r
    → ((a : A) → P a → Returns Q (f a))
    → Returns Q (r >>= f)
Returns->>= P Q none f h k = elim h [ ]
Returns->>= P Q (some a) f h k = k a h

pub Returns-map :
    {A : Type 0} (P Q : A → Type 0) (r : Option A)
    → Returns P r
    → ((a : A) → P a → Q a)
    → Returns Q r
Returns-map P Q none h k = elim h [ ]
Returns-map P Q (some a) h k = k a h

pub >>=-assoc :
    {A B C : Type 0} (r : Option A) (f : A → Option B) (g : B → Option C)
    → (r >>= f >>= g) ≡ (r >>= λ a. f a >>= g)
>>=-assoc none f g = refl
>>=-assoc (some a) f g = refl

pub >>=-cong :
    {A B : Type 0} (r : Option A) (f g : A → Option B)
    → ((a : A) → f a ≡ g a)
    → (r >>= f) ≡ (r >>= g)
>>=-cong none f g h = refl
>>=-cong (some a) f g h = h a

-- The computation, with the equation that it gives.
pub Returns-self :
    {A : Type 0} (r : Option A) (P : A → Type 0) → Returns P r → Returns (λ t. P t × (r ≡ some t)) r
Returns-self none P h = h
Returns-self (some t) P h = (h, refl)
