-- ===== src/Gallery/Listing/Transitions.antt =====
-- The decision of listing-transitions.ts: `decideGalleryTransition`.
use share_slices.Base.{
  ℕ, String, Bool, true, false, not, ◌&&◌, ◌||◌, Option, none, some, if◌then◌else◌,
}
use share_slices.Gallery.Listing.{
  GalleryLifecycle, listed, withdrawn, removed, GalleryReviewState, clear, reviewing, restricted,
  GalleryClosureReason, is_pending, is_listed, is_withdrawn, is_removed, is_administrator_removal,
}

pub record GalleryListingState : Type 0 where
  pub id : String
  pub lifecycle : GalleryLifecycle
  pub review_state : GalleryReviewState
  pub closure_reason : Option GalleryClosureReason
  pub listing_revision : ℕ
  pub has_committed_revision : Bool
  pub restoration_forfeited : Bool

pub data GalleryTransitionCommand : Type 0 where
  promote_initial creator_withdrawal initial_policy_rejection initial_governance_block
        administrator_removal administrator_restoration artifact_deleted account_deleted
        begin_review clear_review restrict :
      GalleryTransitionCommand

pub record TransitionCommit : Type 0 where
  pub lifecycle : GalleryLifecycle
  pub review_state : GalleryReviewState
  pub closure_reason : Option GalleryClosureReason
  pub close_proposals : Bool

pub data ConflictReason : Type 0 where
  terminal_listing initial_promotion_not_allowed withdrawal_not_allowed initial_closure_not_allowed
        administrator_removal_not_allowed restoration_not_allowed :
      ConflictReason

pub data GalleryTransitionDecision : Type 0 where
  commit : TransitionCommit → GalleryTransitionDecision
  preserve_terminal_with_source_event : GalleryTransitionDecision
  conflict : ConflictReason → GalleryTransitionDecision

abbrev pub is_open : GalleryLifecycle → Bool
is_open l = is_pending l || is_listed l

-- The three review commands: the lifecycle and the closure reason stay.
abbrev pub review : GalleryListingState → GalleryReviewState → Bool → GalleryTransitionDecision
review s to close_proposals =
    if is_open s.lifecycle
    then commit (record {
      lifecycle = s.lifecycle;
      review_state = to;
      closure_reason = s.closure_reason;
      close_proposals = close_proposals;
    })
    else conflict terminal_listing

abbrev pub close_with :
    GalleryListingState → GalleryLifecycle → GalleryClosureReason → GalleryTransitionDecision
close_with s to reason = commit (record {
  lifecycle = to;
  review_state = s.review_state;
  closure_reason = some reason;
  close_proposals = true;
})

abbrev pub list_clear : GalleryTransitionDecision
list_clear = commit (record {
  lifecycle = listed;
  review_state = clear;
  closure_reason = none;
  close_proposals = true;
})

abbrev pub close_initial : GalleryListingState → GalleryClosureReason → GalleryTransitionDecision
close_initial s reason =
    if not (is_pending s.lifecycle) || s.has_committed_revision
    then conflict initial_closure_not_allowed
    else close_with s removed reason

-- The deletion of the source, at the end of the function.
abbrev pub close_source : GalleryListingState → GalleryClosureReason → GalleryTransitionDecision
close_source s reason =
    if is_removed s.lifecycle && not (is_administrator_removal s.closure_reason)
    then preserve_terminal_with_source_event
    else if is_withdrawn s.lifecycle
    then preserve_terminal_with_source_event
    else close_with s withdrawn reason

unfoldable pub decide_gallery_transition :
    GalleryListingState → GalleryTransitionCommand → GalleryTransitionDecision
decide_gallery_transition s begin_review = review s reviewing false
decide_gallery_transition s clear_review = review s clear false
decide_gallery_transition s restrict = review s restricted true
decide_gallery_transition s promote_initial =
    if is_pending s.lifecycle && not s.has_committed_revision
    then list_clear
    else conflict initial_promotion_not_allowed
decide_gallery_transition s creator_withdrawal =
    if is_open s.lifecycle
    then close_with s withdrawn GalleryClosureReason.creator_withdrawal
    else conflict withdrawal_not_allowed
decide_gallery_transition s initial_policy_rejection =
    close_initial s GalleryClosureReason.initial_policy_rejection
decide_gallery_transition s initial_governance_block =
    close_initial s GalleryClosureReason.initial_governance_block
decide_gallery_transition s administrator_removal =
    if is_listed s.lifecycle && s.has_committed_revision
    then close_with s removed GalleryClosureReason.administrator_removal
    else conflict administrator_removal_not_allowed
decide_gallery_transition s administrator_restoration =
    if is_removed s.lifecycle
      && is_administrator_removal s.closure_reason
      && s.has_committed_revision
      && not s.restoration_forfeited
    then list_clear
    else conflict restoration_not_allowed
decide_gallery_transition s artifact_deleted = close_source s GalleryClosureReason.artifact_deleted
decide_gallery_transition s account_deleted = close_source s GalleryClosureReason.account_deleted
