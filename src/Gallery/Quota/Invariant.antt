-- ===== src/Gallery/Quota/Invariant.antt =====
-- What holds of the quota tables between two calls of quota-accounting.ts.
use share_slices.Base.{String, ◌≡◌}
use share_slices.Gallery.Quota.{conclude, QuotaTables, Result, ok, err, held_total}
use share_slices.Gallery.Quota.Ledger.{Distinct, OneEach, figure}

-- The ledger: each account's reserved figures are the sums over the user's held reservations, and
-- the two primary keys hold.
pub record Inv (s : QuotaTables) : Type 0 where
  pub artifacts_match :
      (u : String)
      → figure (λ a. a.artifact_reserved) u s.accounts
        ≡ held_total (λ r. r.artifact_count) u s.reservations
  pub bytes_match :
      (u : String)
      → figure (λ a. a.storage_bytes_reserved) u s.accounts
        ≡ held_total (λ r. r.storage_bytes) u s.reservations
  pub distinct : Distinct s.reservations
  pub one_each : OneEach s.accounts

-- A property of the tables that a transaction's body leaves, if it does not fail.
abbrev pub After {ℓ} : {A : Type ℓ} → (QuotaTables → Type 0) → Result (A × QuotaTables) → Type 0
After P (ok (r, s')) = P s'
After P (err e) = Unit {0}

pub conclude-After {ℓ} :
    {A : Type ℓ} (P : QuotaTables → Type 0) (s : QuotaTables) (m : Result (A × QuotaTables))
    → P s
    → After P m
    → P (conclude s m).1
conclude-After P s (ok (a, s')) h k = k
conclude-After P s (err e) h k = h
