-- ===== src/Gallery/Listing/Tests.antt =====
-- The listing theorems at a concrete listing.
use mathlib.Core.Option
use share_slices.Base.{◌≡◌, refl, true, false, none, some, List, [], ◌∷◌}
use share_slices.Gallery.Listing.{
  listed, withdrawn, removed, clear, reviewing, GalleryClosureReason, ListingRow, ProposalRow,
  ListingTables, row_of,
}
use share_slices.Gallery.Listing.Transitions.{
  GalleryListingState, GalleryTransitionCommand, decide_gallery_transition,
}
use share_slices.Gallery.Listing.Store.{
  breaks_constraint, state_of, revision_conflict, current_state, TransitionInput, close_proposal,
  apply_commit, transition,
}
use share_slices.Gallery.Listing.Promotion.{
  GovernanceFlags, ResolveInput, decide_proposal_resolution, apply_promotion, resolve,
}
use share_slices.Gallery.Listing.Closure.{close_account}
use share_slices.Gallery.Listing.Calls.{
  ListingCall, transitions, resolves, closes_account, step, run,
}
use share_slices.Gallery.Listing.{open_state, administrator}
use share_slices.Gallery.Listing.Promotion.{pass}
use share_slices.Gallery.Listing.Ending.{close_account_refused}
use share_slices.Gallery.Listing.Concurrency.{transition_race}

abbrev listed_row : ListingRow
listed_row = record {
  id = "l1";
  artifact_id = "a1";
  owner_user_id = "ann";
  creator_profile_id = "p1";
  lifecycle_state = listed;
  review_state = clear;
  closure_reason = none;
  listing_revision = 4;
  current_revision_id = some "v1";
  restoration_forfeited_at = none;
  created_at = 1;
  closed_at = none;
}

abbrev removed_row : ListingRow
removed_row = record listed_row {
  lifecycle_state = removed;
  closure_reason = some GalleryClosureReason.administrator_removal;
  closed_at = some 7;
}

abbrev withdrawn_row : ListingRow
withdrawn_row = record listed_row {
  lifecycle_state = withdrawn;
  closure_reason = some GalleryClosureReason.creator_withdrawal;
  closed_at = some 7;
}

abbrev offer : ProposalRow
offer = record {
  id = "q1";
  listing_id = "l1";
  base_listing_revision = 4;
  version_id = "v2";
  permission_acceptance_id = "g1";
  public_title = "Report";
  public_description = none;
  tags = [];
  state = open_state;
  closed_at = none;
}

abbrev tables : ListingRow → ListingTables
tables r = record {
  listings = r ∷ [];
  proposals = offer ∷ [];
  revisions = [];
  events = [];
  profiles = [];
  closed_accounts = [];
  tombstones = [];
}

abbrev command : GalleryTransitionCommand → TransitionInput
command c = record {
  listing_id = "l1";
  expected_revision = 4;
  command = c;
  actor = record { kind = administrator; id = some "root" };
  now = 50;
  event_id = "e1";
}

abbrev promotion : ResolveInput
promotion = record { proposal_id = "q1"; resolution = pass; now = 60; revision_id = "v2" }

abbrev no_governance : GovernanceFlags
no_governance = record {
  has_active_restriction = λ a. false;
  has_active_takedown = λ a. false;
  has_pending_appeal = λ l. false;
}

calls : Unit {0}
unfolding step run transition apply_commit decide_gallery_transition resolve
    decide_proposal_resolution apply_promotion close_account
calls = tt

promoted_row :
    Option.map
      (λ r. r.listing_revision)
      (row_of "l1" (resolve no_governance promotion (tables listed_row)).1)
    ≡ some 5
unfolding calls
promoted_row = refl

withdrawal_closes :
    (transition
      (command GalleryTransitionCommand.creator_withdrawal)
      (tables listed_row)).1.proposals
    ≡ close_proposal 50 offer ∷ []
unfolding breaks_constraint calls
withdrawal_closes = refl

abbrev history : List ListingCall
history =
    resolves no_governance promotion
    ∷ closes_account "ann" 70 (λ l. l)
    ∷ transitions (command GalleryTransitionCommand.administrator_restoration)
    ∷ []

abbrev restored_row : ListingRow
restored_row = record listed_row { listing_revision = 5 }

abbrev reviewing_state : GalleryListingState
reviewing_state = record (state_of listed_row) { review_state = reviewing; listing_revision = 5 }

transition_race_example :
    let i = command GalleryTransitionCommand.begin_review in
    let j = command GalleryTransitionCommand.creator_withdrawal in
    let t = tables listed_row in
    transition j (transition i t).1
    ≡ (current_state reviewing_state revision_conflict, (transition i t).1)
unfolding breaks_constraint calls
transition_race_example =
    transition_race (command GalleryTransitionCommand.begin_review)
      (command GalleryTransitionCommand.creator_withdrawal) (tables listed_row) reviewing_state refl
      refl refl

abbrev with_tombstone : ListingTables
with_tombstone = record (tables removed_row) {
  tombstones =
      record {
        listing_id = "l1";
        was_ever_public = true;
        terminal_lifecycle_state = removed;
        closure_reason = GalleryClosureReason.administrator_removal;
        source_deleted_at = none;
        permanently_non_restorable_at = none;
      }
      ∷ [];
}

close_account_refused_example :
    close_account "ann" 70 (λ l. l) with_tombstone ≡ (false, with_tombstone)
close_account_refused_example =
    close_account_refused "ann" "l1" 70 (λ l. l) with_tombstone removed_row refl refl refl
