-- ===== src/Gallery/Copy/Repeating.antt =====
-- copy.ts: what a request is told that comes a second time.
use share_slices.Base.{ℕ, ◌≡◌, refl, subst, String, str_eq, eq_iff, true, some, none, trim}
use share_slices.Base.Attempts.{returns}
use share_slices.Gallery.Listing.{ListingRow}
use share_slices.Gallery.Quota.{QuotaPolicy, new_reservation}
use share_slices.Gallery.Copy.{
  CopyTables, GalleryCopyOutcome, CopyInput, CopyContext, CopyIds, reserve_input, new_job, enqueue,
}
use share_slices.Gallery.Copy.Calls.{accept, accept_work, recover}
use share_slices.Gallery.Copy.Accepting.{accept-Accepted, previous}

str_eq_refl : (s : String) → str_eq s s ≡ true
str_eq_refl s = (eq_iff s s).1 refl

pub joined-enqueue :
    (x : CopyContext) (ids : CopyIds) (i : CopyInput) (l : ListingRow) (version : String)
    (p : QuotaPolicy) (bytes : ℕ) (t : CopyTables)
    → previous x i (enqueue x ids i l version p bytes t)
      ≡ some (new_job x ids i l version, new_reservation (reserve_input ids i bytes) p)
joined-enqueue x ids i l version p bytes t =
    let user = str_eq_refl i.copier_user_id in
    let key = str_eq_refl (x.key_digest i.idempotency_key) in
    let row = str_eq_refl ids.reservation_id in rw (user, key, row)

-- Where an accepted request found no job, the same user, slug, title and key get the same answer
-- once more, whatever identifiers and time the second call has; it changes no table, and `recover`
-- finds that answer too.
pub accept_again :
    (x : CopyContext) (ids later : CopyIds) (i : CopyInput) (t t' : CopyTables)
    (o : GalleryCopyOutcome)
    → accept x ids i t ≡ (returns o, t')
    → previous x i t ≡ none
    → (accept x later i t' ≡ (returns o, t'))
      × (recover x i.copier_user_id i.slug i.title i.idempotency_key t' ≡ returns (some o))
unfolding accept accept_work recover
accept_again x ids later i t t' o e fresh =
    let (good, a) = accept-Accepted x ids i t t' o e fresh in
    let found = joined-enqueue x ids i a.listing a.revision.version_id a.policy a.bytes t in
    let left =
      subst
        (λ s.
          previous x i s
          ≡ some (
            new_job x ids i a.listing a.revision.version_id,
            new_reservation (reserve_input ids i a.bytes) a.policy,
          ))
        a.tables found in
    let same = str_eq_refl (x.fingerprint i.slug (trim i.title)) in
    (rw (good, left, same, a.answer), rw (left, same, a.answer))
