-- ===== src/Gallery/Quota/Settling.antt =====
-- `finish` keeps the ledger, and the check constraints never stop it.
use share_slices.Base.{
  ℕ, ◌-◌, String, eq_iff, ◌≡◌, refl, true, false, Option, none, some, find_where, update_where,
  find_where_holds, arith, inl, inr, Option-cases, sym, subst,
}
use share_slices.Gallery.Quota.{
  Account, Reservation, ReservationState, QuotaTables, of_user, has_id, is_held, close, covers_all,
  settle, settle_held, finish_found, finish_work,
}
use share_slices.Gallery.Quota.Ledger.{
  OneEach-update, covers_all-found, Distinct-close, share, held_total-close, find_of_user-update,
  figure,
}
use share_slices.Gallery.Quota.Invariant.{Inv, After}

module _ (o : ReservationState) (closing : is_held o ≡ false) (s : QuotaTables) (v : Inv s)
    (r : Reservation) (found : find_where (has_id r.id) s.reservations ≡ some r)
    (live : is_held r.state ≡ true) where
  figure-settle :
      (f : Account → ℕ) (w : Reservation → ℕ) (u : String)
      → ((b : Account) → f (settle o r b) ≡ f b - w r)
      → figure f u (update_where (of_user r.user_id) (settle o r) s.accounts)
        ≡ figure f u s.accounts - share w u r
  figure-settle f w u step = elim (Option-cases (find_where (of_user u) s.accounts)) [
    | inl missing ↦
        ground (arith, find_of_user-update r.user_id u (settle o r) s.accounts (λ b. refl))
    | inr (b, there) ↦
        ground (arith, step b, find_of_user-update r.user_id u (settle o r) s.accounts (λ b. refl))
  ]

  settled-Inv : Inv (record s {
    accounts = update_where (of_user r.user_id) (settle o r) s.accounts;
    reservations = update_where (has_id r.id) (close o) s.reservations;
  })
  settled-Inv = record {
    artifacts_match = λ u. omega (
      arith,
      v.artifacts_match u,
      figure-settle (λ b. b.artifact_reserved) (λ x. x.artifact_count) u (λ b. refl),
      held_total-close (λ x. x.artifact_count) u r.id o s.reservations r closing v.distinct found
          live,
    );
    bytes_match = λ u. omega (
      arith,
      v.bytes_match u,
      figure-settle (λ b. b.storage_bytes_reserved) (λ x. x.storage_bytes) u (λ b. refl),
      held_total-close (λ x. x.storage_bytes) u r.id o s.reservations r closing v.distinct found
          live,
    );
    distinct = Distinct-close r.id o s.reservations v.distinct;
    one_each = OneEach-update r.user_id (settle o r) s.accounts (λ b. refl) v.one_each;
  }

  holder_share : (w : Reservation → ℕ) → share w r.user_id r ≡ w r
  holder_share w = ground (arith, eq_iff r.user_id r.user_id)

  -- The check constraints never refuse the settlement of a held reservation.
  pub covers_all-held : covers_all r s.accounts ≡ true
  covers_all-held =
      covers_all-found r s.accounts v.one_each
        (omega (
          arith,
          v.artifacts_match r.user_id,
          holder_share (λ x. x.artifact_count),
          held_total-close (λ x. x.artifact_count) r.user_id r.id o s.reservations r closing
              v.distinct found live,
        ))
        (omega (
          arith,
          v.bytes_match r.user_id,
          holder_share (λ x. x.storage_bytes),
          held_total-close (λ x. x.storage_bytes) r.user_id r.id o s.reservations r closing
              v.distinct found live,
        ))

  settle_held-Inv : After Inv (settle_held o r s)
  unfolding settle_held
  settle_held-Inv = rw covers_all-held settled-Inv

pub finish_work-Inv :
    (o : ReservationState) (id : String) (s : QuotaTables)
    → is_held o ≡ false
    → Inv s
    → After Inv (finish_work o id s)
unfolding finish_work
finish_work-Inv o id s closing v = by_row (find_where (has_id id) s.reservations) refl
  where
    by_row :
        (row : Option Reservation)
        → find_where (has_id id) s.reservations ≡ row
        → After Inv (finish_found o row s)
    by_row none e = v
    by_row (some r) e =
        let same = (eq_iff r.id id).0 (find_where_holds (has_id id) s.reservations r e) in
        ground (
          arith,
          settle_held-Inv o closing s v r
              (subst (λ j. find_where (has_id j) s.reservations ≡ some r) (sym same) e),
        )
