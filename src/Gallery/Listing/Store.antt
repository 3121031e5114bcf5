-- ===== src/Gallery/Listing/Store.antt =====
-- `PostgresGalleryTransitionStore` of listing-transitions.ts. `now` and the random part of an
-- event's id are arguments; a thrown error rolls back, so it leaves the tables as they were.
use share_slices.Base.{
  ℕ, ◌+◌, String, str_eq, Bool, true, false, not, some_of, ◌&&◌, ◌||◌, Option, none, some, ◌∷◌,
  update_where, if◌then◌else◌, is_some, ◌==◌,
}
use share_slices.Gallery.Listing.{
  GalleryLifecycle, GalleryClosureReason, ListingRow, ProposalRow, closed, LifecycleEvent,
  ListingTables, Actor, is_row, row_of, is_withdrawn, is_removed, is_listed, is_open_proposal,
}
use share_slices.Gallery.Listing.Transitions.{
  GalleryListingState, GalleryTransitionCommand, artifact_deleted, account_deleted,
  TransitionCommit, ConflictReason, GalleryTransitionDecision, commit,
  preserve_terminal_with_source_event, conflict, is_open, decide_gallery_transition,
}

-- `loadForUpdate`.
abbrev pub state_of : ListingRow → GalleryListingState
state_of r = record {
  id = r.id;
  lifecycle = r.lifecycle_state;
  review_state = r.review_state;
  closure_reason = r.closure_reason;
  listing_revision = r.listing_revision;
  has_committed_revision = is_some r.current_revision_id;
  restoration_forfeited = is_some r.restoration_forfeited_at;
}

pub data CurrentReason : Type 0 where
  revision_conflict terminal_state_preserved : CurrentReason
  refused : ConflictReason → CurrentReason

pub data PersistedGalleryTransition : Type 0 where
  committed : GalleryListingState → PersistedGalleryTransition
  current_state : GalleryListingState → CurrentReason → PersistedGalleryTransition
  gallery_listing_not_found constraint_violation : PersistedGalleryTransition

pub record TransitionInput : Type 0 where
  pub listing_id : String
  pub expected_revision : ℕ
  pub command : GalleryTransitionCommand
  pub actor : Actor
  pub now : ℕ
  pub event_id : String

-- `event.endsWith("deleted") ? event : null`.
abbrev pub deletion_reason : GalleryTransitionCommand → Option GalleryClosureReason
deletion_reason artifact_deleted = some GalleryClosureReason.artifact_deleted
deletion_reason account_deleted = some GalleryClosureReason.account_deleted
deletion_reason _ = none

abbrev pub or_else {ℓ} : {A : Type ℓ} → Option A → Option A → Option A
or_else (some a) o = some a
or_else none o = o

-- `recordEvent`.
abbrev pub event_of : TransitionInput → GalleryListingState → GalleryListingState → LifecycleEvent
event_of i before after = record {
  id = i.event_id;
  listing_id = before.id;
  from_lifecycle_state = before.lifecycle;
  to_lifecycle_state = after.lifecycle;
  closure_reason = or_else after.closure_reason (deletion_reason i.command);
  base_listing_revision = some before.listing_revision;
  committed_listing_revision = after.listing_revision;
  actor_kind = i.actor.kind;
  actor_id = i.actor.id;
}

abbrev pub closed_at_for : GalleryLifecycle → ℕ → Option ℕ
closed_at_for l now = if is_removed l || is_withdrawn l then some now else none

abbrev pub next_state : GalleryListingState → TransitionCommit → GalleryListingState
next_state s d = record s {
  lifecycle = d.lifecycle;
  review_state = d.review_state;
  closure_reason = d.closure_reason;
  listing_revision = s.listing_revision + 1;
}

abbrev pub write_commit : GalleryListingState → TransitionCommit → ℕ → ListingRow → ListingRow
write_commit s d now r = record r {
  lifecycle_state = d.lifecycle;
  review_state = d.review_state;
  closure_reason = d.closure_reason;
  listing_revision = s.listing_revision + 1;
  closed_at = closed_at_for d.lifecycle now;
}

abbrev pub is_open_of : String → ProposalRow → Bool
is_open_of listing p = str_eq p.listing_id listing && is_open_proposal p.state

abbrev pub close_proposal : ℕ → ProposalRow → ProposalRow
close_proposal now p = record p { state = closed; closed_at = some now }

unfoldable pub apply_commit :
    TransitionInput → GalleryListingState → TransitionCommit → ListingTables → ListingTables
apply_commit i s d t = record t {
  listings = update_where (is_row i.listing_id) (write_commit s d i.now) t.listings;
  proposals =
      if d.close_proposals
      then update_where (is_open_of i.listing_id) (close_proposal i.now) t.proposals
      else t.proposals;
  events = event_of i s (next_state s d) ∷ t.events;
}

-- The row as it is written breaks gallery_listing_listed_revision_check: a listed one has a
-- committed revision.
abbrev pub breaks_listed_revision : GalleryListingState → TransitionCommit → Bool
breaks_listed_revision s d = is_listed d.lifecycle && not s.has_committed_revision

-- gallery_listing_one_open_per_artifact_idx: another pending or listed row of the artifact.
abbrev pub is_other_open : ListingRow → ListingRow → Bool
is_other_open r other =
    str_eq other.artifact_id r.artifact_id
    && not (str_eq other.id r.id)
    && is_open other.lifecycle_state

abbrev pub breaks_one_open : TransitionCommit → ListingRow → ListingTables → Bool
breaks_one_open d r t = is_open d.lifecycle && some_of (is_other_open r) t.listings

-- A write that a check constraint or the index refuses is rolled back.
unfoldable pub breaks_constraint : TransitionCommit → ListingRow → ListingTables → Bool
breaks_constraint d r t = breaks_listed_revision (state_of r) d || breaks_one_open d r t

abbrev pub write_if :
    Bool
    → TransitionInput
    → GalleryListingState
    → TransitionCommit
    → ListingTables
    → PersistedGalleryTransition × ListingTables
write_if true i s d t = (constraint_violation, t)
write_if false i s d t = (committed (next_state s d), apply_commit i s d t)

abbrev pub carry_out :
    TransitionInput
    → ListingRow
    → ListingTables
    → GalleryTransitionDecision
    → PersistedGalleryTransition × ListingTables
carry_out i r t (conflict reason) = (current_state (state_of r) (refused reason), t)
carry_out i r t preserve_terminal_with_source_event = (
  current_state (state_of r) terminal_state_preserved,
  record t { events = event_of i (state_of r) (state_of r) ∷ t.events },
)
carry_out i r t (commit d) = write_if (breaks_constraint d r t) i (state_of r) d t

abbrev pub transition_found :
    TransitionInput → ListingTables → Option ListingRow → PersistedGalleryTransition × ListingTables
transition_found i t none = (gallery_listing_not_found, t)
transition_found i t (some r) =
    if not (r.listing_revision == i.expected_revision)
    then (current_state (state_of r) revision_conflict, t)
    else carry_out i r t (decide_gallery_transition (state_of r) i.command)

unfoldable pub transition :
    TransitionInput → ListingTables → PersistedGalleryTransition × ListingTables
transition i t = transition_found i t (row_of i.listing_id t)
