-- ===== src/Gallery/Quota/Rebuilding.antt =====
-- `reconcile` and `activatePolicy` keep the ledger.
use share_slices.Base.{
  ℕ, ◌+◌, String, str_eq, eq_iff, ◌≡◌, refl, List, find_where, if◌then◌else◌, arith, inl, inr,
  Option-cases,
}
use share_slices.Gallery.Quota.{
  QuotaPolicy, Account, QuotaTables, Result, ok, err, ◌>>=◌, of_user, Usage, reconcile_work,
  rebuilt, activate_policy_work, current_policy, new_account, rebuild, upsert_account,
}
use share_slices.Gallery.Quota.Ledger.{OneEach, OneEach-update, find_of_user-update, figure}
use share_slices.Gallery.Quota.Invariant.{Inv, After}

figure-upsert :
    (f : Account → ℕ) (user u : String) (write : Account → Account) (n : ℕ)
    (accounts : List Account)
    → ((b : Account) → (write b).user_id ≡ b.user_id)
    → ((b : Account) (k : ℕ) → f (record (write b) { revision = k }) ≡ n)
    → f (write (new_account user "")) ≡ n
    → figure f u (upsert_account user write accounts)
      ≡ (if str_eq user u then n else figure f u accounts)
figure-upsert f user u write n accounts keep step fresh =
    elim (Option-cases (find_where (of_user user) accounts)) [
      | inl missing ↦ ground (arith, keep (new_account user ""), fresh, eq_iff user u)
      | inr (b, there) ↦ elim (Option-cases (find_where (of_user u) accounts)) [
        | inl gone ↦ ground (
          arith,
          eq_iff user u,
          find_of_user-update user u (λ a. record (write a) { revision = a.revision + 1 }) accounts
              keep,
        )
        | inr (c, here) ↦ ground (
          arith,
          step c (c.revision + 1),
          find_of_user-update user u (λ a. record (write a) { revision = a.revision + 1 }) accounts
              keep,
        )
      ]
    ]

OneEach-upsert :
    (user : String) (write : Account → Account) (accounts : List Account)
    → ((b : Account) → (write b).user_id ≡ b.user_id)
    → OneEach accounts
    → OneEach (upsert_account user write accounts)
OneEach-upsert user write accounts keep d =
    elim (Option-cases (find_where (of_user user) accounts)) [
      | inl missing ↦ ground (arith, keep (new_account user ""))
      | inr (b, there) ↦ ground (
        arith,
        OneEach-update user (λ a. record (write a) { revision = a.revision + 1 }) accounts keep d,
      )
    ]

rebuilt-Inv :
    (user : String) (usage : Usage) (policy : QuotaPolicy) (s : QuotaTables)
    → Inv s
    → Inv (rebuilt user usage policy s)
rebuilt-Inv user usage policy s v = record {
  artifacts_match = λ u. ground (
    arith,
    eq_iff user u,
    v.artifacts_match u,
    figure-upsert (λ b. b.artifact_reserved) user u
        (rebuild user usage s.reservations policy.revision) _ s.accounts (λ b. refl) (λ b k. refl)
        refl,
  );
  bytes_match = λ u. ground (
    arith,
    eq_iff user u,
    v.bytes_match u,
    figure-upsert (λ b. b.storage_bytes_reserved) user u
        (rebuild user usage s.reservations policy.revision) _ s.accounts (λ b. refl) (λ b k. refl)
        refl,
  );
  distinct = v.distinct;
  one_each =
      OneEach-upsert user (rebuild user usage s.reservations policy.revision) s.accounts (λ b. refl)
        v.one_each;
}

pub reconcile_work-Inv :
    (user : String) (usage : Usage) (s : QuotaTables)
    → Inv s
    → After Inv (reconcile_work user usage s)
unfolding reconcile_work
reconcile_work-Inv user usage s v = by_policy (current_policy s)
  where
    by_policy :
        (m : Result QuotaPolicy)
        → After {A = Unit {0}} Inv (m >>= λ policy. ok (tt, rebuilt user usage policy s))
    by_policy (err e) = tt
    by_policy (ok policy) = rebuilt-Inv user usage policy s v

-- Activating a policy touches neither account nor reservation.
pub activate_policy_work-Inv :
    (policy : QuotaPolicy) (s : QuotaTables) → Inv s → After Inv (activate_policy_work policy s)
unfolding activate_policy_work
activate_policy_work-Inv policy s v = ground arith
