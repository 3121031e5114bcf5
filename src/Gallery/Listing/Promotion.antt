-- ===== src/Gallery/Listing/Promotion.antt =====
-- proposal-promotion.ts: what becomes of a proposal after its safety check. The flags that the
-- query reads in the governance tables are an argument.
use share_slices.Base.{
  ℕ, ◌+◌, String, str_eq, Bool, true, false, not, ◌&&◌, ◌||◌, Option, none, some, ◌∷◌, find_where,
  update_where, if◌then◌else◌, is_none, ◌==◌,
}
use share_slices.Gallery.Listing.{
  GalleryLifecycle, listed, removed, GalleryClosureReason, ProposalState, promoted, rejected,
  governance_blocked, stale, ListingRow, ProposalRow, RevisionRow, ProfileRow, ListingTables,
  is_row, row_of, is_removed, is_administrator_removal, is_open_proposal,
}
use share_slices.Gallery.Listing.Transitions.{is_open}

pub data ProposalResolution : Type 0 where
  pass reject governance_block : ProposalResolution

pub record ProposalContext : Type 0 where
  pub listing_lifecycle : GalleryLifecycle
  pub listing_revision : ℕ
  pub current_revision_id : Option String
  pub proposal_base_revision : ℕ
  pub proposal_state : ProposalState
  pub governance_is_blocked : Bool

pub data ProposalConflict : Type 0 where
  proposal_closed listing_closed : ProposalConflict

pub data ProposalDecision : Type 0 where
  promote : Bool → ProposalDecision
  close_initial : GalleryClosureReason → ProposalDecision
  close_update : ProposalState → ProposalDecision
  base_revision_mismatch : ProposalDecision
  conflict : ProposalConflict → ProposalDecision

abbrev pub is_governance_block : ProposalResolution → Bool
is_governance_block governance_block = true
is_governance_block _ = false

abbrev pub is_reject : ProposalResolution → Bool
is_reject reject = true
is_reject _ = false

unfoldable pub decide_proposal_resolution : ProposalContext → ProposalResolution → ProposalDecision
decide_proposal_resolution c resolution =
    if not (is_open_proposal c.proposal_state)
    then conflict proposal_closed
    else if not (is_open c.listing_lifecycle)
    then conflict listing_closed
    else if not (c.proposal_base_revision == c.listing_revision)
    then base_revision_mismatch
    else if c.governance_is_blocked || is_governance_block resolution
    then if is_none c.current_revision_id
      then close_initial GalleryClosureReason.initial_governance_block
      else close_update governance_blocked
    else if is_reject resolution
    then if is_none c.current_revision_id
      then close_initial GalleryClosureReason.initial_policy_rejection
      else close_update rejected
    else promote (is_none c.current_revision_id)

-- The governance tables, as the `exists` clauses of the query read them.
pub record GovernanceFlags : Type 0 where
  pub has_active_restriction : String → Bool
  pub has_active_takedown : String → Bool
  pub has_pending_appeal : String → Bool

abbrev pub governance_is_blocked_for : GovernanceFlags → ListingRow → Bool
governance_is_blocked_for g r =
    g.has_active_restriction r.artifact_id
    || g.has_active_takedown r.artifact_id
    || (is_removed r.lifecycle_state && is_administrator_removal r.closure_reason)
    || g.has_pending_appeal r.id

abbrev pub context_of : GovernanceFlags → ProposalRow → ListingRow → ProposalContext
context_of g p r = record {
  listing_lifecycle = r.lifecycle_state;
  listing_revision = r.listing_revision;
  current_revision_id = r.current_revision_id;
  proposal_base_revision = p.base_listing_revision;
  proposal_state = p.state;
  governance_is_blocked = governance_is_blocked_for g r;
}

pub record ResolveInput : Type 0 where
  pub proposal_id : String
  pub resolution : ProposalResolution
  pub now : ℕ
  pub revision_id : String

abbrev pub is_proposal : String → ProposalRow → Bool
is_proposal id p = str_eq p.id id

abbrev pub end_proposal : ProposalState → ℕ → ProposalRow → ProposalRow
end_proposal state now p = record p { state = state; closed_at = some now }

abbrev pub end_in : ResolveInput → ProposalState → ListingTables → ListingTables
end_in i state t = record t {
  proposals = update_where (is_proposal i.proposal_id) (end_proposal state i.now) t.proposals;
}

abbrev pub is_policy_rejection : GalleryClosureReason → Bool
is_policy_rejection GalleryClosureReason.initial_policy_rejection = true
is_policy_rejection _ = false

abbrev pub remove_row : GalleryClosureReason → ℕ → ListingRow → ListingRow
remove_row reason now r = record r {
  lifecycle_state = removed;
  closure_reason = some reason;
  closed_at = some now;
  listing_revision = r.listing_revision + 1;
}

abbrev pub list_row : String → ℕ → ListingRow → ListingRow
list_row revision_id revision r = record r {
  lifecycle_state = listed;
  closure_reason = none;
  current_revision_id = some revision_id;
  listing_revision = revision;
  closed_at = none;
}

abbrev pub revision_row : ResolveInput → ProposalRow → ListingRow → RevisionRow
revision_row i p r = record {
  id = i.revision_id;
  listing_id = r.id;
  revision = r.listing_revision + 1;
  version_id = p.version_id;
  permission_acceptance_id = p.permission_acceptance_id;
  public_title = p.public_title;
  public_description = p.public_description;
  tags = p.tags;
}

abbrev pub coalesce : Option ℕ → ℕ → Option ℕ
coalesce (some a) b = some a
coalesce none b = some b

abbrev pub make_public : ℕ → ProfileRow → ProfileRow
make_public now profile = record profile { public_at = coalesce profile.public_at now }

unfoldable pub apply_promotion :
    ResolveInput → ProposalRow → ListingRow → Bool → ListingTables → ListingTables
apply_promotion i p r initial t = record t {
  listings =
      update_where (is_row r.id) (list_row i.revision_id (r.listing_revision + 1)) t.listings;
  revisions = revision_row i p r ∷ t.revisions;
  profiles =
      if initial
      then update_where (λ profile. str_eq profile.id r.creator_profile_id) (make_public i.now)
          t.profiles
      else t.profiles;
  proposals = update_where (is_proposal i.proposal_id) (end_proposal promoted i.now) t.proposals;
}

abbrev pub settle_proposal :
    ResolveInput → ProposalRow → ListingRow → ListingTables → ProposalDecision → ListingTables
settle_proposal i p r t (promote initial) = apply_promotion i p r initial t
settle_proposal i p r t (close_initial reason) =
    let ended = end_in i (if is_policy_rejection reason then rejected else governance_blocked) t in
    record ended { listings = update_where (is_row r.id) (remove_row reason i.now) t.listings }
settle_proposal i p r t (close_update state) = end_in i state t
settle_proposal i p r t base_revision_mismatch = end_in i stale t
settle_proposal i p r t (conflict reason) = t

-- The inner join of the proposal with its listing; no row is the error
-- `gallery_proposal_not_found`, which is `none`.
abbrev pub resolve_joined :
    GovernanceFlags
    → ResolveInput
    → ListingTables
    → Option ProposalRow
    → Option ListingRow
    → Option ProposalDecision × ListingTables
resolve_joined g i t (some p) (some r) =
    let d = decide_proposal_resolution (context_of g p r) i.resolution in
    (some d, settle_proposal i p r t d)
resolve_joined g i t _ _ = (none, t)

abbrev pub listing_of : Option ProposalRow → ListingTables → Option ListingRow
listing_of none t = none
listing_of (some p) t = row_of p.listing_id t

unfoldable pub resolve :
    GovernanceFlags → ResolveInput → ListingTables → Option ProposalDecision × ListingTables
resolve g i t =
    let proposal = find_where (is_proposal i.proposal_id) t.proposals in
    resolve_joined g i t proposal (listing_of proposal t)
