-- ===== src/Gallery/Listing.antt =====
-- The Gallery listing: api/src/application/gallery/domain.ts and the tables that
-- listing-transitions.ts, proposal-promotion.ts and source-closure.ts write
-- (db/migrations/0014_gallery_listing_foundation.sql). Times are milliseconds; `updated_at`, which
-- nothing reads, is left out.
pub mod Transitions
pub mod Store
pub mod Promotion
pub mod Closure
pub mod Calls
pub mod Concurrency
pub mod Rows
pub mod Sealed
pub mod Ending
mod Tests
use share_slices.Base.{
  ℕ, String, str_eq, Bool, true, false, Option, none, some, List, find_where, is_some,
  if◌then◌else◌,
}

pub data GalleryLifecycle : Type 0 where
  pending listed withdrawn removed : GalleryLifecycle

pub data GalleryReviewState : Type 0 where
  clear reviewing restricted : GalleryReviewState

pub data GalleryClosureReason : Type 0 where
  creator_withdrawal artifact_deleted account_deleted initial_policy_rejection
        initial_governance_block administrator_removal :
      GalleryClosureReason

pub data ProposalState : Type 0 where
  open_state promoted rejected governance_blocked stale closed : ProposalState

pub data ActorKind : Type 0 where
  creator administrator system : ActorKind

pub record Actor : Type 0 where
  pub kind : ActorKind
  pub id : Option String

pub record ListingRow : Type 0 where
  pub id : String
  pub artifact_id : String
  pub owner_user_id : String
  pub creator_profile_id : String
  pub lifecycle_state : GalleryLifecycle
  pub review_state : GalleryReviewState
  pub closure_reason : Option GalleryClosureReason
  pub listing_revision : ℕ
  pub current_revision_id : Option String
  pub restoration_forfeited_at : Option ℕ
  pub created_at : ℕ
  pub closed_at : Option ℕ

pub record ProposalRow : Type 0 where
  pub id : String
  pub listing_id : String
  pub base_listing_revision : ℕ
  pub version_id : String
  pub permission_acceptance_id : String
  pub public_title : String
  pub public_description : Option String
  pub tags : List String
  pub state : ProposalState
  pub closed_at : Option ℕ

pub record RevisionRow : Type 0 where
  pub id : String
  pub listing_id : String
  pub revision : ℕ
  pub version_id : String
  pub permission_acceptance_id : String
  pub public_title : String
  pub public_description : Option String
  pub tags : List String

pub record LifecycleEvent : Type 0 where
  pub id : String
  pub listing_id : String
  pub from_lifecycle_state : GalleryLifecycle
  pub to_lifecycle_state : GalleryLifecycle
  pub closure_reason : Option GalleryClosureReason
  pub base_listing_revision : Option ℕ
  pub committed_listing_revision : ℕ
  pub actor_kind : ActorKind
  pub actor_id : Option String

pub record ProfileRow : Type 0 where
  pub id : String
  pub user_id : String
  pub public_at : Option ℕ
  pub retired_at : Option ℕ

-- gallery_listing_closure_tombstone. A trigger of 0014_gallery_listing_foundation.sql refuses
-- every update of a row.
pub record TombstoneRow : Type 0 where
  pub listing_id : String
  pub was_ever_public : Bool
  pub terminal_lifecycle_state : GalleryLifecycle
  pub closure_reason : GalleryClosureReason
  pub source_deleted_at : Option ℕ
  pub permanently_non_restorable_at : Option ℕ

-- Events, revisions and tombstones are only ever inserted: the newest stands first.
pub record ListingTables : Type 0 where
  pub listings : List ListingRow
  pub proposals : List ProposalRow
  pub revisions : List RevisionRow
  pub events : List LifecycleEvent
  pub profiles : List ProfileRow
  pub closed_accounts : List String
  pub tombstones : List TombstoneRow

abbrev pub is_row : String → ListingRow → Bool
is_row id r = str_eq r.id id

abbrev pub row_of : String → ListingTables → Option ListingRow
row_of id t = find_where (is_row id) t.listings

abbrev pub is_pending : GalleryLifecycle → Bool
is_pending pending = true
is_pending _ = false

abbrev pub is_listed : GalleryLifecycle → Bool
is_listed listed = true
is_listed _ = false

abbrev pub is_withdrawn : GalleryLifecycle → Bool
is_withdrawn withdrawn = true
is_withdrawn _ = false

abbrev pub is_removed : GalleryLifecycle → Bool
is_removed removed = true
is_removed _ = false

-- `state.closureReason === "administrator_removal"`.
abbrev pub is_administrator_removal : Option GalleryClosureReason → Bool
is_administrator_removal (some administrator_removal) = true
is_administrator_removal _ = false

abbrev pub is_open_proposal : ProposalState → Bool
is_open_proposal open_state = true
is_open_proposal _ = false
