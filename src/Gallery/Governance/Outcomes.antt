-- ===== src/Gallery/Governance/Outcomes.antt =====
-- governance.ts: what a result that is not an error says of the parts of a transaction.
use share_slices.Base.{◌≡◌, refl, Bool, true, false, Option, none, some, if◌then◌else◌}
use share_slices.Gallery.Governance.{
  GovernanceErrorCode, GovernanceTables, Outcome, failed, done, ◌>>=◌, ensure, found_or,
  settle_transaction,
}

module _ {ℓ κ} {A : Type ℓ} {B : Type κ} where
  pub bind_done :
      (m : Outcome A) (continue : A → Outcome B) (b : B)
      → (m >>= continue) ≡ done b
      → (a : A) × (m ≡ done a) × (continue a ≡ done b)
  bind_done (failed code) continue b e = cc
  bind_done (done a) continue b e = (a, refl, e)

  pub found_done :
      (o : Option A) (code : GovernanceErrorCode) (continue : A → Outcome B) (b : B)
      → (found_or o code >>= continue) ≡ done b
      → (a : A) × (o ≡ some a) × (continue a ≡ done b)
  found_done none code continue b e = cc
  found_done (some a) code continue b e = (a, refl, e)

module _ {ℓ} {A : Type ℓ} where
  pub done_injective : (a b : A) → Outcome.done a ≡ done b → a ≡ b
  done_injective a b e = cc

  pub ensure_done :
      (t : Bool) (code : GovernanceErrorCode) (continue : Unit {0} → Outcome A) (b : A)
      → (ensure t code >>= continue) ≡ done b
      → (t ≡ true) × (continue tt ≡ done b)
  ensure_done true code continue b e = (refl, e)
  ensure_done false code continue b e = cc

  pub unless_done :
      (t : Bool) (code : GovernanceErrorCode) (a b : A)
      → (if t then failed code else done a) ≡ done b
      → (t ≡ false) × (a ≡ b)
  unless_done true code a b e = cc
  unless_done false code a b e = (refl, done_injective a b e)

  pub settle_done :
      (g g' : GovernanceTables) (m : Outcome (A × GovernanceTables)) (a : A)
      → settle_transaction g m ≡ (done a, g')
      → m ≡ done (a, g')
  settle_done g g' (failed code) a e = cc
  settle_done g g' (done (b, h)) a e = cc

  pub settle_failed :
      (g g' : GovernanceTables) (m : Outcome (A × GovernanceTables)) (code : GovernanceErrorCode)
      → settle_transaction g m ≡ (failed code, g')
      → g' ≡ g
  settle_failed g g' (failed c) code e = cc
  settle_failed g g' (done (b, h)) code e = cc
