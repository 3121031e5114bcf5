-- ===== src/Gallery/Quota.antt =====
-- api/src/application/gallery/quota-accounting.ts: the storage quota of each user. The tables are
-- those of db/migrations/0016_gallery_copy_quota_foundation.sql; a write that a primary key or a
-- check constraint refuses is an error, and a transaction that fails leaves the tables as they
-- were. `reconcile` is taken as one step, although it reads its
-- sums before it locks the account. `expires_at` is a number of milliseconds; the time stamps that nothing reads are left out.
pub mod Ledger
pub mod Invariant
pub mod Holding
pub mod Settling
pub mod Rebuilding
pub mod History
pub mod Limits
mod Tests
use share_slices.Base.{
  ℕ, ◌+◌, ◌-◌, String, str_eq, Bool, true, false, not, ◌&&◌, Option, none, some, List, [], ◌∷◌,
  find_where, select_where, update_where, sum_of, ltb, leb, ◌==◌, if◌then◌else◌, is_some, length,
}

pub record QuotaPolicy : Type 0 where
  pub revision : String
  pub artifact_limit : ℕ
  pub storage_bytes_limit : ℕ
  pub copy_rate_limit : ℕ
  pub copy_rate_window_seconds : ℕ

pub record PolicyRow : Type 0 where
  pub policy : QuotaPolicy
  pub active : Bool

pub record Account : Type 0 where
  pub user_id : String
  pub policy_revision : String
  pub artifact_usage : ℕ
  pub storage_bytes_usage : ℕ
  pub artifact_reserved : ℕ
  pub storage_bytes_reserved : ℕ
  pub revision : ℕ

pub data ReservationState : Type 0 where
  held committed released : ReservationState

pub record Reservation : Type 0 where
  pub id : String
  pub user_id : String
  pub policy_revision : String
  pub artifact_count : ℕ
  pub storage_bytes : ℕ
  pub state : ReservationState
  pub expires_at : ℕ

pub record QuotaTables : Type 0 where
  pub policies : List PolicyRow
  pub accounts : List Account
  pub reservations : List Reservation

pub data QuotaError : Type 0 where
  quota_policy_unavailable account_missing unique_violation check_violation : QuotaError

pub data Result {ℓ} (A : Type ℓ) : Type ℓ where
  ok : A → Result A
  err : QuotaError → Result A

infixl 5 ◌>>=◌ ◌>>◌
abbrev pub ◌>>=◌ {ℓ κ} : {A : Type ℓ} {B : Type κ} → Result A → (A → Result B) → Result B
err failed >>= rest = err failed
ok a >>= rest = rest a

abbrev pub ◌>>◌ {ℓ} : {B : Type ℓ} → Result (Unit {0}) → Result B → Result B
checked >> rest = checked >>= λ _. rest

abbrev pub require : Bool → QuotaError → Result (Unit {0})
require false failed = err failed
require true failed = ok tt

abbrev pub or_fail {ℓ} : {A : Type ℓ} → Option A → QuotaError → Result A
or_fail none e = err e
or_fail (some a) e = ok a

-- The wrapper `transaction`: commit on success, roll back and rethrow on an error.
abbrev pub conclude {ℓ} :
    {A : Type ℓ} → QuotaTables → Result (A × QuotaTables) → Result A × QuotaTables
conclude s (ok (a, s')) = (ok a, s')
conclude s (err e) = (err e, s)

abbrev pub transaction {ℓ} :
    {A : Type ℓ} → (QuotaTables → Result (A × QuotaTables)) → QuotaTables → Result A × QuotaTables
transaction work s = conclude s (work s)

abbrev pub of_user : String → Account → Bool
of_user user a = str_eq a.user_id user

abbrev pub has_id : String → Reservation → Bool
has_id id r = str_eq r.id id

abbrev pub is_held : ReservationState → Bool
is_held held = true
is_held _ = false

abbrev pub is_committed : ReservationState → Bool
is_committed committed = true
is_committed _ = false

-- `rows.length !== 1` is an error.
abbrev pub only_row : List PolicyRow → Result QuotaPolicy
only_row (row ∷ []) = ok row.policy
only_row _ = err quota_policy_unavailable

unfoldable pub current_policy : QuotaTables → Result QuotaPolicy
current_policy s = only_row (select_where (λ r. r.active) s.policies)

pub data QuotaReservationResult : Type 0 where
  reserved : String → QuotaPolicy → QuotaReservationResult
  insufficient_artifacts insufficient_storage : QuotaPolicy → QuotaReservationResult

pub record ReserveInput : Type 0 where
  pub reservation_id : String
  pub user_id : String
  pub artifact_count : ℕ
  pub storage_bytes : ℕ
  pub expires_at : ℕ

abbrev pub new_account : String → String → Account
new_account user policy_revision = record {
  user_id = user;
  policy_revision = policy_revision;
  artifact_usage = 0;
  storage_bytes_usage = 0;
  artifact_reserved = 0;
  storage_bytes_reserved = 0;
  revision = 1;
}

-- `insert … on conflict (user_id) do nothing`.
abbrev pub open_account : String → String → List Account → List Account
open_account user policy_revision accounts =
    if is_some (find_where (of_user user) accounts)
    then accounts
    else new_account user policy_revision ∷ accounts

abbrev pub new_reservation : ReserveInput → QuotaPolicy → Reservation
new_reservation i policy = record {
  id = i.reservation_id;
  user_id = i.user_id;
  policy_revision = policy.revision;
  artifact_count = i.artifact_count;
  storage_bytes = i.storage_bytes;
  state = held;
  expires_at = i.expires_at;
}

abbrev pub hold : ReserveInput → Account → Account
hold i a = record a {
  artifact_reserved = a.artifact_reserved + i.artifact_count;
  storage_bytes_reserved = a.storage_bytes_reserved + i.storage_bytes;
  revision = a.revision + 1;
}

-- The two inserts at the end of `reserve`; the table wants a new id and a positive count.
unfoldable pub record_hold :
    ReserveInput → QuotaPolicy → QuotaTables → Result (QuotaReservationResult × QuotaTables)
record_hold i policy s = do
  require (not (is_some (find_where (has_id i.reservation_id) s.reservations))) unique_violation
  require (ltb 0 i.artifact_count) check_violation
  ok (
    reserved i.reservation_id policy,
    record s {
      accounts = update_where (of_user i.user_id) (hold i) s.accounts;
      reservations = new_reservation i policy ∷ s.reservations;
    },
  )

unfoldable pub decide_reserve :
    ReserveInput
    → QuotaPolicy
    → Account
    → QuotaTables
    → Result (QuotaReservationResult × QuotaTables)
decide_reserve i policy a s =
    if ltb policy.artifact_limit (a.artifact_usage + a.artifact_reserved + i.artifact_count)
    then ok (insufficient_artifacts policy, s)
    else if ltb policy.storage_bytes_limit
        (a.storage_bytes_usage + a.storage_bytes_reserved + i.storage_bytes)
    then ok (insufficient_storage policy, s)
    else record_hold i policy s

unfoldable pub reserve_work :
    ReserveInput → QuotaTables → Result (QuotaReservationResult × QuotaTables)
reserve_work i s = do
  policy ← current_policy s
  let opened = record s { accounts = open_account i.user_id policy.revision s.accounts }
  account ← or_fail (find_where (of_user i.user_id) opened.accounts) account_missing
  decide_reserve i policy account opened

unfoldable pub reserve : ReserveInput → QuotaTables → Result QuotaReservationResult × QuotaTables
unfolding reserve_work
reserve i = transaction (reserve_work i)

-- What the `case when $4 = 'committed'` of the account's update adds to the usage.
abbrev pub settle : ReservationState → Reservation → Account → Account
settle outcome r a = record a {
  artifact_reserved = a.artifact_reserved - r.artifact_count;
  storage_bytes_reserved = a.storage_bytes_reserved - r.storage_bytes;
  artifact_usage = a.artifact_usage + (if is_committed outcome then r.artifact_count else 0);
  storage_bytes_usage =
      a.storage_bytes_usage + (if is_committed outcome then r.storage_bytes else 0);
  revision = a.revision + 1;
}

-- The checks `artifact_reserved >= 0` and `storage_bytes_reserved >= 0` on every row written.
abbrev pub covers : Reservation → Account → Bool
covers r a =
    leb r.artifact_count a.artifact_reserved && leb r.storage_bytes a.storage_bytes_reserved

abbrev pub covers_all : Reservation → List Account → Bool
covers_all r [] = true
covers_all r (a ∷ accounts) =
    (if of_user r.user_id a then covers r a else true) && covers_all r accounts

abbrev pub close : ReservationState → Reservation → Reservation
close outcome r = record r { state = outcome }

pub settle_held : ReservationState → Reservation → QuotaTables → Result (Bool × QuotaTables)
settle_held outcome r s = do
  require (covers_all r s.accounts) check_violation
  ok (
    true,
    record s {
      accounts = update_where (of_user r.user_id) (settle outcome r) s.accounts;
      reservations = update_where (has_id r.id) (close outcome) s.reservations;
    },
  )

abbrev pub finish_found :
    ReservationState → Option Reservation → QuotaTables → Result (Bool × QuotaTables)
finish_found outcome none s = ok (false, s)
finish_found outcome (some r) s = if is_held r.state then settle_held outcome r s else ok (false, s)

pub finish_work : ReservationState → String → QuotaTables → Result (Bool × QuotaTables)
finish_work outcome id s = finish_found outcome (find_where (has_id id) s.reservations) s

pub finish : ReservationState → String → QuotaTables → Result Bool × QuotaTables
unfolding finish_work
finish outcome id = transaction (finish_work outcome id)

pub commit : String → QuotaTables → Result Bool × QuotaTables
unfolding finish
commit id = finish committed id

pub release : String → QuotaTables → Result Bool × QuotaTables
unfolding finish
release id = finish released id

-- The sums over the held reservations of a user.
abbrev pub held_by : String → Reservation → Bool
held_by user r = str_eq r.user_id user && is_held r.state

abbrev pub held_total : (Reservation → ℕ) → String → List Reservation → ℕ
held_total w user = sum_of (λ r. if held_by user r then w r else 0)

-- What the query of `reconcile` counts in the artifact tables, which are not quota state.
pub record Usage : Type 0 where
  pub artifacts : ℕ
  pub bytes : ℕ

abbrev pub rebuild : String → Usage → List Reservation → String → Account → Account
rebuild user usage reservations policy_revision a = record a {
  policy_revision = policy_revision;
  artifact_usage = usage.artifacts;
  storage_bytes_usage = usage.bytes;
  artifact_reserved = held_total (λ r. r.artifact_count) user reservations;
  storage_bytes_reserved = held_total (λ r. r.storage_bytes) user reservations;
}

-- `insert … on conflict (user_id) do update`, with a new revision for a row that was there.
abbrev pub upsert_account : String → (Account → Account) → List Account → List Account
upsert_account user write accounts =
    if is_some (find_where (of_user user) accounts)
    then update_where (of_user user) (λ a. record (write a) { revision = a.revision + 1 }) accounts
    else write (new_account user "") ∷ accounts

abbrev pub rebuilt : String → Usage → QuotaPolicy → QuotaTables → QuotaTables
rebuilt user usage policy s = record s {
  accounts = upsert_account user (rebuild user usage s.reservations policy.revision) s.accounts;
}

pub reconcile_work : String → Usage → QuotaTables → Result (Unit {0} × QuotaTables)
reconcile_work user usage s = do policy ← current_policy s; ok (tt, rebuilt user usage policy s)

pub reconcile : String → Usage → QuotaTables → Result (Unit {0}) × QuotaTables
unfolding reconcile_work
reconcile user usage = transaction (reconcile_work user usage)

abbrev pub deactivate : PolicyRow → PolicyRow
deactivate r = record r { active = false }

pub activate_policy_work : QuotaPolicy → QuotaTables → Result (Unit {0} × QuotaTables)
activate_policy_work policy s = do
  require (not (is_some (find_where (λ r. str_eq r.policy.revision policy.revision) s.policies)))
      unique_violation
  require
      (ltb 0 policy.artifact_limit
        && ltb 0 policy.storage_bytes_limit
        && ltb 0 policy.copy_rate_limit
        && ltb 0 policy.copy_rate_window_seconds)
      check_violation
  ok (
    tt,
    record s {
      policies =
          record { policy = policy; active = true }
          ∷ update_where (λ r. r.active) deactivate s.policies;
    },
  )

pub activate_policy : QuotaPolicy → QuotaTables → Result (Unit {0}) × QuotaTables
unfolding activate_policy_work
activate_policy policy = transaction (activate_policy_work policy)

-- A caller of the class `GalleryQuotaAccounting`: the tables after a sequence of calls.
pub data Op : Type 0 where
  reserves : ReserveInput → Op
  commits releases : String → Op
  reconciles : String → Usage → Op
  activates : QuotaPolicy → Op

pub step : QuotaTables → Op → QuotaTables
step s (reserves i) = (reserve i s).1
step s (commits id) = (commit id s).1
step s (releases id) = (release id s).1
step s (reconciles user usage) = (reconcile user usage s).1
step s (activates policy) = (activate_policy policy s).1

pub run : QuotaTables → List Op → QuotaTables
run s [] = s
run s (op ∷ ops) = run (step s op) ops
