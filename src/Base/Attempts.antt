-- ===== src/Base/Attempts.antt =====
use mathlib.Core.Path.{◌≡◌, refl}
use mathlib.Core.Bool.{Bool, true, false}
use mathlib.Core.Option.{Option, none, some}

-- What a method returns that may throw one of the errors `E`.
pub data Attempt {ℓ κ} (E : Type ℓ) (A : Type κ) : Type (ℓ ⊔ κ) where
  throws : E → Attempt E A
  returns : A → Attempt E A

infixl 5 ◌>>=◌
abbrev pub ◌>>=◌ {ℓ κ μ} :
    {E : Type ℓ} {A : Type κ} {B : Type μ} → Attempt E A → (A → Attempt E B) → Attempt E B
throws e >>= continue = throws e
returns a >>= continue = continue a

abbrev pub check {ℓ} : {E : Type ℓ} → Bool → E → Attempt E (Unit {0})
check true e = returns tt
check false e = throws e

abbrev pub present {ℓ κ} : {E : Type ℓ} {A : Type κ} → Option A → E → Attempt E A
present (some a) e = returns a
present none e = throws e

-- A transaction over a state: an error leaves the state as it was.
abbrev pub transact {ℓ κ μ} :
    {E : Type ℓ} {A : Type κ} {S : Type μ} → S → Attempt E (A × S) → Attempt E A × S
transact s (throws e) = (throws e, s)
transact s (returns (a, s')) = (returns a, s')

module _ {ℓ κ} {E : Type ℓ} {A : Type κ} where
  pub returns_injective : (a b : A) → ◌≡◌ {A = Attempt E A} (returns a) (returns b) → a ≡ b
  returns_injective a b e = cc

  pub check_returns :
      (t : Bool) (error : E) (continue : Unit {0} → Attempt E A) (a : A)
      → (check t error >>= continue) ≡ returns a
      → (t ≡ true) × (continue tt ≡ returns a)
  check_returns true error continue a e = (refl, e)
  check_returns false error continue a e = cc

  pub present_returns {μ} :
      {B : Type μ} (o : Option B) (error : E) (continue : B → Attempt E A) (a : A)
      → (present o error >>= continue) ≡ returns a
      → (b : B) × (o ≡ some b) × (continue b ≡ returns a)
  present_returns none error continue a e = cc
  present_returns (some b) error continue a e = (b, refl, e)

  pub transact_returns {μ} :
      {S : Type μ} (s s' : S) (m : Attempt E (A × S)) (a : A)
      → transact s m ≡ (returns a, s')
      → m ≡ returns (a, s')
  transact_returns s s' (throws error) a e = cc
  transact_returns s s' (returns (b, t)) a e = cc
