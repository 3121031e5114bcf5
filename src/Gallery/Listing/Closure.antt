-- ===== src/Gallery/Listing/Closure.antt =====
-- source-closure.ts: `closeAccount`. The appeals that it makes moot are in
-- Gallery/Governance/Closing.antt; the listings, proposals, events, tombstones and the profile are
-- here.
use share_slices.Base.{
  ℕ, ◌+◌, String, str_eq, Bool, true, false, Option, ◌&&◌, ◌||◌, none, some, List, [], ◌∷◌, ◌++◌,
  select_where, update_where, if◌then◌else◌, is_some, map, some_of,
}
use share_slices.Gallery.Listing.{
  withdrawn, GalleryClosureReason, closed, ListingRow, ProfileRow, LifecycleEvent, system,
  ListingTables, TombstoneRow, is_withdrawn, is_removed, is_administrator_removal, is_open_proposal,
}
use share_slices.Gallery.Listing.Transitions.{is_open}

-- The `where` clause that the event insert and the update share.
abbrev pub closes_with_account : String → ListingRow → Bool
closes_with_account user r =
    str_eq r.owner_user_id user
    && (is_open r.lifecycle_state
        || (is_removed r.lifecycle_state && is_administrator_removal r.closure_reason))

abbrev pub closure_event : (String → String) → ListingRow → LifecycleEvent
closure_event event_id r = record {
  id = event_id r.id;
  listing_id = r.id;
  from_lifecycle_state = r.lifecycle_state;
  to_lifecycle_state = withdrawn;
  closure_reason = some GalleryClosureReason.account_deleted;
  base_listing_revision = some r.listing_revision;
  committed_listing_revision = r.listing_revision + 1;
  actor_kind = system;
  actor_id = none;
}

abbrev pub withdraw_row : ℕ → ListingRow → ListingRow
withdraw_row now r = record r {
  lifecycle_state = withdrawn;
  closure_reason = some GalleryClosureReason.account_deleted;
  listing_revision = r.listing_revision + 1;
  closed_at = some now;
}

-- The join of a proposal with a listing of the user.
abbrev pub owns_listing : String → String → List ListingRow → Bool
owns_listing user listing [] = false
owns_listing user listing (r ∷ rows) =
    (str_eq r.id listing && str_eq r.owner_user_id user) || owns_listing user listing rows

abbrev pub retire : ℕ → ProfileRow → ProfileRow
retire now profile = record profile {
  retired_at = if is_some profile.retired_at then profile.retired_at else some now;
}

-- The listings that the insert of tombstones selects.
abbrev pub is_account_deleted : Option GalleryClosureReason → Bool
is_account_deleted (some GalleryClosureReason.account_deleted) = true
is_account_deleted _ = false

abbrev pub is_buried : String → ListingRow → Bool
is_buried user r =
    str_eq r.owner_user_id user
    && is_withdrawn r.lifecycle_state
    && is_account_deleted r.closure_reason

abbrev pub tombstone_of : ℕ → ListingRow → TombstoneRow
tombstone_of now r = record {
  listing_id = r.id;
  was_ever_public = is_some r.current_revision_id;
  terminal_lifecycle_state = withdrawn;
  closure_reason = GalleryClosureReason.account_deleted;
  source_deleted_at = some now;
  permanently_non_restorable_at = some now;
}

abbrev pub has_tombstone : List TombstoneRow → ListingRow → Bool
has_tombstone tombstones r = some_of (λ (s : TombstoneRow). str_eq s.listing_id r.id) tombstones

abbrev pub closed_tables : String → ℕ → (String → String) → ListingTables → ListingTables
closed_tables user now event_id t =
    let rows = update_where (closes_with_account user) (withdraw_row now) t.listings in
    record t {
      closed_accounts =
          if some_of (λ u. str_eq u user) t.closed_accounts
          then t.closed_accounts
          else user ∷ t.closed_accounts;
      events =
          map (closure_event event_id) (select_where (closes_with_account user) t.listings)
          ++ t.events;
      listings = rows;
      proposals =
          update_where (λ p. owns_listing user p.listing_id rows && is_open_proposal p.state)
            (λ p. record p { state = closed; closed_at = some now }) t.proposals;
      profiles = update_where (λ profile. str_eq profile.user_id user) (retire now) t.profiles;
      tombstones = map (tombstone_of now) (select_where (is_buried user) rows) ++ t.tombstones;
    }

-- `on conflict(listing_id) do update`: where a tombstone is there already, the update is refused
-- by the trigger, and the transaction is rolled back with that exception (`false`).
unfoldable pub close_account : String → ℕ → (String → String) → ListingTables → Bool × ListingTables
close_account user now event_id t =
    if some_of (has_tombstone t.tombstones) (
      select_where (is_buried user)
        (update_where (closes_with_account user) (withdraw_row now) t.listings))
    then (false, t)
    else (true, closed_tables user now event_id t)
