-- ===== src/Gallery/Copy/Reserving.antt =====
-- copy.ts and quota-accounting.ts: the queries that `accept` writes out for the quota, against the
-- method `reserve` of the quota service.
use mathlib.Core.Option
use share_slices.Base.{
  ℕ, ◌+◌, ltb, ◌≡◌, ◌∙◌, sym, ap, subst, Bool-cases, inl, inr, false, some, none, List, [], ◌∷◌,
  arith, find_where, select_where, is_some,
}
use share_slices.Base.Attempts.{returns}
use share_slices.Gallery.Quota.{
  QuotaPolicy, PolicyRow, Account, QuotaTables, ok, reserved, only_row, current_policy, has_id,
  of_user, reserve, reserve_work, decide_reserve, record_hold,
}
use share_slices.Gallery.Copy.{
  CopyTables, GalleryCopyOutcome, CopyInput, CopyContext, CopyIds, size_of, reserve_input, book,
  with_account,
}
use share_slices.Gallery.Copy.Calls.{accept}
use share_slices.Gallery.Copy.Accepting.{accept-Accepted, previous}

only_row_injective :
    (row : PolicyRow) (rows : List PolicyRow) (p : QuotaPolicy)
    → only_row (row ∷ rows) ≡ ok p
    → row.policy ≡ p
only_row_injective row [] p e = cc
only_row_injective row (next ∷ rows) p e = cc

enabled_row :
    (rows : List PolicyRow) (p : QuotaPolicy)
    → only_row (select_where (λ r. r.active) rows) ≡ ok p
    → Option.map (λ (r : PolicyRow). r.policy) (find_where (λ r. r.active) rows) ≡ some p
enabled_row [] p e = cc
enabled_row (row ∷ rows) p e =
    let same = only_row_injective row (select_where (λ r. r.active) rows) p in
    let later = enabled_row rows p in
    elim (Bool-cases row.active) [
      | inl on ↦ ground (arith, on, same, e)
      | inr off ↦ ground (arith, off, later, e)
    ]

book-reserve :
    (ids : CopyIds) (i : CopyInput) (bytes : ℕ) (q : QuotaTables) (p : QuotaPolicy) (a : Account)
    → current_policy q ≡ ok p
    → find_where (of_user i.copier_user_id) (with_account i p q).accounts ≡ some a
    → ltb p.artifact_limit (a.artifact_usage + a.artifact_reserved + 1) ≡ false
    → ltb p.storage_bytes_limit (a.storage_bytes_usage + a.storage_bytes_reserved + bytes) ≡ false
    → is_some (find_where (has_id ids.reservation_id) q.reservations) ≡ false
    → reserve (reserve_input ids i bytes) q ≡ (
      ok (reserved ids.reservation_id p),
      book (reserve_input ids i bytes) p (with_account i p q),
    )
unfolding reserve reserve_work decide_reserve record_hold
book-reserve ids i bytes q p a has_p has_a fits stores unused =
    ground (arith, has_p, has_a, fits, stores, unused)

-- An accepted request for which no job stood reserves exactly as the quota service's `reserve` of
-- one artifact and of the bytes of the answered source version for one hour: where the policy table
-- has one active row, that call on the tables before succeeds and leaves the same quota tables.
pub accept_reserves :
    (x : CopyContext) (ids : CopyIds) (i : CopyInput) (t t' : CopyTables) (o : GalleryCopyOutcome)
    (p : QuotaPolicy)
    → accept x ids i t ≡ (returns o, t')
    → previous x i t ≡ none
    → current_policy t.quota ≡ ok p
    → reserve (reserve_input ids i (size_of x o.source_version_id)) t.quota
      ≡ (ok (reserved ids.reservation_id p), t'.quota)
unfolding current_policy
accept_reserves x ids i t t' o p e fresh has_p =
    let (good, a) = accept-Accepted x ids i t t' o e fresh in
    let shared = enabled_row t.quota.policies p has_p in
    let same : a.policy ≡ p = cc (shared, a.has_policy) in
    let source : a.revision.version_id ≡ o.source_version_id =
      ap (λ y. y.source_version_id) a.answer in
    let bytes : a.bytes ≡ size_of x o.source_version_id = a.of_version ∙ ap (size_of x) source in
    let booked =
      book-reserve ids i a.bytes t.quota a.policy a.account (has_p ∙ ap ok (sym same)) a.has_account
        a.artifact_fits a.storage_fits a.unused in
    let left : book (reserve_input ids i a.bytes) a.policy (with_account i a.policy t.quota)
        ≡ t'.quota =
      ap (λ y. y.quota) a.tables in
    let reached : reserve (reserve_input ids i a.bytes) t.quota
        ≡ (ok (reserved ids.reservation_id a.policy), t'.quota) =
      booked ∙ ap (λ q. (ok (reserved ids.reservation_id a.policy), q)) left in
    let renamed : reserve (reserve_input ids i (size_of x o.source_version_id)) t.quota
        ≡ (ok (reserved ids.reservation_id a.policy), t'.quota) =
      subst
        (λ n.
          reserve (reserve_input ids i n) t.quota
          ≡ (ok (reserved ids.reservation_id a.policy), t'.quota))
        bytes reached in
    subst
      (λ q.
        reserve (reserve_input ids i (size_of x o.source_version_id)) t.quota
        ≡ (ok (reserved ids.reservation_id q), t'.quota))
      same renamed
