-- ===== src/Base/Outcome.antt =====
-- What a piece of C++ comes to: a result, an access outside the memory it has (which the language
-- leaves undefined), or no end within the fuel that its loops are given.
use mathlib.Core.Path.{◌≡◌, refl, subst}
use mathlib.Core.Bool.{Bool, true, false}
use chatting_server.Base.Tests.{if◌then◌else◌}

pub data Outcome {ℓ} (A : Type ℓ) : Type ℓ where
  done : A → Outcome A
  overrun : Outcome A
  timed_out : Outcome A

infixl 5 ◌>>=◌
abbrev pub ◌>>=◌ {ℓ κ} : {A : Type ℓ} {B : Type κ} → Outcome A → (A → Outcome B) → Outcome B
done a >>= f = f a
overrun >>= f = overrun
timed_out >>= f = timed_out

-- If there is a result, it has the property.
abbrev pub Ensures {ℓ} : {A : Type ℓ} → Outcome A → (A → Type 0) → Type 0
Ensures (done a) P = P a
Ensures overrun P = Unit {0}
Ensures timed_out P = Unit {0}

pub then_Ensures {ℓ κ} :
    {A : Type ℓ} {B : Type κ} (o : Outcome A) (f : A → Outcome B) (P : B → Type 0)
    → ((a : A) → Ensures (f a) P)
    → Ensures (o >>= f) P
then_Ensures (done a) f P h = h a
then_Ensures overrun f P h = tt
then_Ensures timed_out f P h = tt

pub if_Ensures {ℓ} :
    {A : Type ℓ} (c : Bool) (a b : Outcome A) (P : A → Type 0)
    → (c ≡ true → Ensures a P)
    → (c ≡ false → Ensures b P)
    → Ensures (if c then a else b) P
if_Ensures true a b P h k = h refl
if_Ensures false a b P h k = k refl

pub map_Ensures {ℓ κ} :
    {A : Type ℓ} {B : Type κ} (o : Outcome A) (f : A → B) (P : A → Type 0) (Q : B → Type 0)
    → ((a : A) → P a → Q (f a))
    → Ensures o P
    → Ensures (o >>= λ a. done (f a)) Q
map_Ensures (done a) f P Q h k = h a k
map_Ensures overrun f P Q h k = tt
map_Ensures timed_out f P Q h k = tt

-- What holds of the first result is there for the second step.
pub both_Ensures {ℓ κ} :
    {A : Type ℓ} {B : Type κ} (o : Outcome A) (f : A → Outcome B) (P : A → Type 0) (Q : B → Type 0)
    → ((a : A) → P a → Ensures (f a) Q)
    → Ensures o P
    → Ensures (o >>= f) Q
both_Ensures (done a) f P Q h k = h a k
both_Ensures overrun f P Q h k = tt
both_Ensures timed_out f P Q h k = tt

pub done_Ensures {ℓ} :
    {A : Type ℓ} {o : Outcome A} {a : A} (P : A → Type 0) → o ≡ done a → Ensures o P → P a
done_Ensures P e h = subst (λ o. Ensures o P) e h
