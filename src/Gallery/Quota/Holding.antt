-- ===== src/Gallery/Quota/Holding.antt =====
-- `reserve` keeps the ledger.
use share_slices.Base.{
  ℕ, ◌+◌, String, str_eq, eq_iff, ◌≡◌, refl, Option, none, some, List, ◌∷◌, find_where,
  update_where, if◌then◌else◌, arith, inl, inr, Option-cases, Bool-cases, ◌∙◌, ltb,
}
use share_slices.Gallery.Quota.{
  QuotaPolicy, Account, QuotaTables, account_missing, Result, ok, err, ◌>>=◌, of_user, has_id, hold,
  ReserveInput, record_hold, decide_reserve, reserve_work, open_account, current_policy,
  new_account, new_reservation, or_fail,
}
use share_slices.Gallery.Quota.Ledger.{OneEach-update, OneEach-open, find_of_user-update, figure}
use share_slices.Gallery.Quota.Invariant.{Inv, After}

figure-open_account :
    (f : Account → ℕ) (user revision u : String) (accounts : List Account)
    → f (new_account user revision) ≡ 0
    → figure f u (open_account user revision accounts) ≡ figure f u accounts
figure-open_account f user revision u accounts z = ground (arith, eq_iff user u)

module _ (i : ReserveInput) (policy : QuotaPolicy) (a : Account) (s : QuotaTables) (v : Inv s)
    (found : find_where (of_user i.user_id) s.accounts ≡ some a) where
  figure-hold :
      (f : Account → ℕ) (n : ℕ) (u : String)
      → ((b : Account) → f (hold i b) ≡ f b + n)
      → figure f u (update_where (of_user i.user_id) (hold i) s.accounts)
        ≡ figure f u s.accounts + (if str_eq i.user_id u then n else 0)
  figure-hold f n u step = elim (Option-cases (find_where (of_user u) s.accounts)) [
    | inl missing ↦
        ground (
          arith,
          eq_iff i.user_id u,
          find_of_user-update i.user_id u (hold i) s.accounts (λ b. refl),
        )
    | inr (b, there) ↦
        ground (arith, step b, find_of_user-update i.user_id u (hold i) s.accounts (λ b. refl))
  ]

  added-Inv :
      find_where (has_id i.reservation_id) s.reservations ≡ none
      → Inv (record s {
        accounts = update_where (of_user i.user_id) (hold i) s.accounts;
        reservations = new_reservation i policy ∷ s.reservations;
      })
  added-Inv fresh = record {
    artifacts_match = λ u. ground (
      arith,
      v.artifacts_match u,
      figure-hold (λ b. b.artifact_reserved) i.artifact_count u (λ b. refl),
    );
    bytes_match = λ u. ground (
      arith,
      v.bytes_match u,
      figure-hold (λ b. b.storage_bytes_reserved) i.storage_bytes u (λ b. refl),
    );
    distinct = (fresh, v.distinct);
    one_each = OneEach-update i.user_id (hold i) s.accounts (λ b. refl) v.one_each;
  }

  record_hold-Inv : After Inv (record_hold i policy s)
  unfolding record_hold
  record_hold-Inv = elim (Option-cases (find_where (has_id i.reservation_id) s.reservations)) [
    | inr (r, e) ↦ rw (e, record_hold) tt
    | inl fresh ↦
        rw (fresh, record_hold)
          (elim (Bool-cases (ltb 0 i.artifact_count)) [
            | inl positive ↦ rw positive (added-Inv fresh)
            | inr zeroed ↦ rw zeroed tt
          ])
  ]

  decide_reserve-Inv : After Inv (decide_reserve i policy a s)
  unfolding decide_reserve
  decide_reserve-Inv = ground (arith, record_hold-Inv)

pub reserve_work-Inv : (i : ReserveInput) (s : QuotaTables) → Inv s → After Inv (reserve_work i s)
unfolding reserve_work
reserve_work-Inv i s v = by_policy (current_policy s)
  where
    opened-Inv :
        (revision : String)
        → Inv (record s { accounts = open_account i.user_id revision s.accounts })
    opened-Inv revision = record {
      artifacts_match =
          λ u. figure-open_account _ i.user_id revision u s.accounts refl ∙ v.artifacts_match u;
      bytes_match =
          λ u. figure-open_account _ i.user_id revision u s.accounts refl ∙ v.bytes_match u;
      distinct = v.distinct;
      one_each = OneEach-open i.user_id revision s.accounts v.one_each;
    }

    by_account :
        (policy : QuotaPolicy) (s' : QuotaTables)
        → Inv s'
        → (found : Option Account) → find_where (of_user i.user_id) s'.accounts ≡ found
        → After Inv (or_fail found account_missing >>= λ a. decide_reserve i policy a s')
    by_account policy s' v' none e = tt
    by_account policy s' v' (some a) e = decide_reserve-Inv i policy a s' v' e

    by_policy :
        (m : Result QuotaPolicy)
        → After Inv (
            m >>= λ policy.
            let opened : QuotaTables = record s {
              accounts = open_account i.user_id policy.revision s.accounts;
            } in
            or_fail (find_where (of_user i.user_id) opened.accounts) account_missing >>= λ a.
            decide_reserve i policy a opened)
    by_policy (err e) = tt
    by_policy (ok policy) = by_account policy _ (opened-Inv policy.revision) _ refl
