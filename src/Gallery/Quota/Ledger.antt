-- ===== src/Gallery/Quota/Ledger.antt =====
-- What the writes of quota-accounting.ts do to one account and to the sums over reservations.
use mathlib.Core.Option
use share_slices.Base.{
  ℕ, ◌+◌, ◌≤◌, String, str_eq, eq_iff, ◌≡◌, refl, true, false, Option, none, some, List, [], ◌∷◌,
  find_where, update_where, find_where-update_where, update_where_missing, if◌then◌else◌, arith,
  ◌∙◌,
}
use share_slices.Gallery.Quota.{
  Account, Reservation, ReservationState, of_user, has_id, is_held, close, held_total, open_account,
  covers_all,
}

-- Reservation ids are a primary key.
abbrev pub Distinct : List Reservation → Type 0
Distinct [] = Unit {0}
Distinct (r ∷ rs) = (find_where (has_id r.id) rs ≡ none) × Distinct rs

find_has_id-close :
    (j id : String) (outcome : ReservationState) (rs : List Reservation)
    → find_where (has_id j) rs ≡ none
    → find_where (has_id j) (update_where (has_id id) (close outcome) rs) ≡ none
find_has_id-close j id outcome rs h =
    find_where-update_where (has_id j) (has_id id) (close outcome) (λ r. refl) rs ∙ (rw h)

pub Distinct-close :
    (id : String) (outcome : ReservationState) (rs : List Reservation)
    → Distinct rs
    → Distinct (update_where (has_id id) (close outcome) rs)
Distinct-close id outcome [] d = tt
Distinct-close id outcome (r ∷ rs) d =
    ground (arith, find_has_id-close r.id id outcome rs d.0, Distinct-close id outcome rs d.1)

abbrev pub share : (Reservation → ℕ) → String → Reservation → ℕ
share w user r = if str_eq r.user_id user then w r else 0

-- Closing a held reservation takes its share, and nothing else, off the sums.
pub held_total-close :
    (w : Reservation → ℕ) (user id : String) (outcome : ReservationState) (rs : List Reservation)
    (r : Reservation)
    → is_held outcome ≡ false
    → Distinct rs
    → find_where (has_id id) rs ≡ some r
    → is_held r.state ≡ true
    → held_total w user rs
      ≡ held_total w user (update_where (has_id id) (close outcome) rs) + share w user r
held_total-close w user id outcome [] r o d f h = cc
held_total-close w user id outcome (x ∷ rs) r o d f h = ground (
  arith,
  eq_iff x.id id,
  held_total-close w user id outcome rs r o d.1,
  update_where_missing (has_id id) (close outcome) rs,
)

pub find_of_user-update :
    (user u : String) (g : Account → Account) (accounts : List Account)
    → ((a : Account) → (g a).user_id ≡ a.user_id)
    → find_where (of_user u) (update_where (of_user user) g accounts) ≡ (
        if str_eq user u
        then Option.map g (find_where (of_user u) accounts)
        else find_where (of_user u) accounts)
find_of_user-update user u g [] keep = ground arith
find_of_user-update user u g (a ∷ accounts) keep = ground (
  arith,
  eq_iff a.user_id u,
  eq_iff a.user_id user,
  eq_iff user u,
  keep a,
  find_of_user-update user u g accounts keep,
)

-- A figure of the user's account; 0 where the user has none.
abbrev pub figure_of : (Account → ℕ) → Option Account → ℕ
figure_of f none = 0
figure_of f (some a) = f a

abbrev pub figure : (Account → ℕ) → String → List Account → ℕ
figure f user accounts = figure_of f (find_where (of_user user) accounts)

-- User ids are a primary key of the accounts.
abbrev pub OneEach : List Account → Type 0
OneEach [] = Unit {0}
OneEach (a ∷ accounts) = (find_where (of_user a.user_id) accounts ≡ none) × OneEach accounts

pub OneEach-update :
    (user : String) (g : Account → Account) (accounts : List Account)
    → ((a : Account) → (g a).user_id ≡ a.user_id)
    → OneEach accounts
    → OneEach (update_where (of_user user) g accounts)
OneEach-update user g [] keep h = tt
OneEach-update user g (a ∷ accounts) keep h = ground (
  arith,
  keep a,
  find_of_user-update user a.user_id g accounts keep,
  OneEach-update user g accounts keep h.1,
)

pub OneEach-open :
    (user revision : String) (accounts : List Account)
    → OneEach accounts
    → OneEach (open_account user revision accounts)
OneEach-open user revision accounts h = ground arith

covers_all_missing :
    (r : Reservation) (accounts : List Account)
    → find_where (of_user r.user_id) accounts ≡ none
    → covers_all r accounts ≡ true
covers_all_missing r [] h = refl
covers_all_missing r (a ∷ accounts) h = ground (arith, covers_all_missing r accounts)

-- With one account for each user, only the holder's account is looked at.
pub covers_all-found :
    (r : Reservation) (accounts : List Account)
    → OneEach accounts
    → r.artifact_count ≤ figure (λ a. a.artifact_reserved) r.user_id accounts
    → r.storage_bytes ≤ figure (λ a. a.storage_bytes_reserved) r.user_id accounts
    → covers_all r accounts ≡ true
covers_all-found r [] d h k = refl
covers_all-found r (a ∷ accounts) d h k = ground (
  arith,
  eq_iff a.user_id r.user_id,
  covers_all_missing r accounts,
  covers_all-found r accounts d.1,
)
