-- ===== src/Gallery/Governance/Measures.antt =====
-- governance.ts: restrictions, takedowns and review bases, and what they do to the listings:
-- `propagateRestriction`, `closeBlockedProposals` and `recomputeArtifact`.
use mathlib.Core.Option
use share_slices.Base.{
  ℕ, ◌+◌, String, str_eq, Bool, true, false, not, ◌&&◌, ◌||◌, Option, none, some, List, [], ◌∷◌,
  ◌++◌, if◌then◌else◌, is_none, map, some_of, find_where, select_where, update_where, Text,
}
use share_slices.Gallery.Listing.{
  pending, removed, GalleryReviewState, clear, reviewing, restricted, GalleryClosureReason,
  ListingRow, ProposalRow, ProposalState, RevisionRow, LifecycleEvent, administrator, TombstoneRow,
  ListingTables, is_pending, is_removed, is_open_proposal,
}
use share_slices.Gallery.Listing.Transitions.{is_open}
use share_slices.Gallery.Governance.{
  MeasureRow, MeasureState, active, BasisRow, BasisKind, restriction_basis, DecisionRow,
  ProvenanceRow, GovernanceTables, Outcome, failed, done, database_error, is_active,
}

abbrev pub is_for : String → MeasureRow → Bool
is_for artifact m = str_eq m.artifact_id artifact

abbrev pub is_active_for : String → MeasureRow → Bool
is_active_for artifact m = is_for artifact m && is_active m.state

abbrev pub has_source : String → MeasureRow → Bool
has_source decision m = str_eq m.source_decision_id decision

abbrev pub has_root : String → MeasureRow → Bool
has_root decision m = str_eq m.source_root_decision_id decision

abbrev pub ended_by : String → MeasureRow → Bool
ended_by decision m = elim m.ending_decision_id [ none ↦ false | some d ↦ str_eq d decision ]

abbrev pub new_measure : String → String → Text → MeasureRow
new_measure artifact decision rule = record {
  artifact_id = artifact;
  source_decision_id = decision;
  source_root_decision_id = decision;
  rule_code = rule;
  state = active;
  ended_at = none;
  ending_decision_id = none;
}

abbrev pub end_measure : MeasureState → ℕ → String → MeasureRow → MeasureRow
end_measure state now decision m = record m {
  state = state;
  ended_at = some now;
  ending_decision_id = some decision;
}

-- The unique indexes: one active restriction of an artifact, one row of an artifact and a source.
abbrev pub conflicts_with : MeasureRow → MeasureRow → Bool
conflicts_with m r =
    is_for m.artifact_id r && (is_active r.state || has_source m.source_decision_id r)

abbrev pub insert_restriction : MeasureRow → List MeasureRow → Outcome (List MeasureRow)
insert_restriction m rows =
    if some_of (conflicts_with m) rows then failed database_error else done (m ∷ rows)

-- One active takedown of an artifact, one takedown of a source.
abbrev pub takedown_conflicts_with : MeasureRow → MeasureRow → Bool
takedown_conflicts_with m r =
    (is_for m.artifact_id r && is_active r.state) || has_source m.source_decision_id r

abbrev pub insert_takedown : MeasureRow → List MeasureRow → Outcome (List MeasureRow)
insert_takedown m rows =
    if some_of (takedown_conflicts_with m) rows then failed database_error else done (m ∷ rows)

-- `on conflict do nothing`.
unfoldable pub insert_missing : List MeasureRow → List MeasureRow → List MeasureRow
insert_missing [] rows = rows
insert_missing (m ∷ ms) rows =
    insert_missing ms (if some_of (conflicts_with m) rows then rows else m ∷ rows)

abbrev pub copies : String → String → ProvenanceRow → Bool
copies listing version p =
    (str_eq p.immediate_listing_id listing && str_eq p.immediate_version_id version)
    || (str_eq p.root_listing_id listing && str_eq p.root_version_id version)

abbrev pub has_revision_id : String → RevisionRow → Bool
has_revision_id id r = str_eq r.id id

abbrev pub revision_of : ListingTables → Option String → Option RevisionRow
revision_of t none = none
revision_of t (some id) = find_where (has_revision_id id) t.revisions

abbrev pub copied_from : List ProvenanceRow → ListingRow → Option RevisionRow → List String
copied_from provenance source none = []
copied_from provenance source (some r) =
    map (λ (p : ProvenanceRow). p.artifact_id)
      (select_where (copies source.id r.version_id) provenance)

-- The artifacts that were copied from a source artifact's current revisions.
unfoldable pub copied_artifacts :
    ListingTables → List ProvenanceRow → String → List ListingRow → List String
copied_artifacts t provenance artifact [] = []
copied_artifacts t provenance artifact (source ∷ rows) =
    (if str_eq source.artifact_id artifact
      then copied_from provenance source (revision_of t source.current_revision_id)
      else [])
    ++ copied_artifacts t provenance artifact rows

abbrev pub is_open_listing_of : String → ListingRow → Bool
is_open_listing_of artifact l = str_eq l.artifact_id artifact && is_open l.lifecycle_state

abbrev pub root_is : String → Option String → Bool
root_is decision none = false
root_is decision (some d) = str_eq d decision

abbrev pub is_active_basis_of : String → String → BasisRow → Bool
is_active_basis_of artifact decision b =
    str_eq b.artifact_id artifact && root_is decision b.source_root_decision_id && is_active b.state

abbrev pub needs_basis : String → List BasisRow → MeasureRow → Bool
needs_basis decision bases m =
    has_root decision m && not (some_of (is_active_basis_of m.artifact_id decision) bases)

abbrev pub basis_for : BasisKind → String → Option String → String → String → BasisRow
basis_for kind artifact listing case_id decision = record {
  artifact_id = artifact;
  listing_id = listing;
  case_id = case_id;
  basis_kind = kind;
  source_decision_id = some decision;
  source_root_decision_id = some decision;
  state = active;
  ended_at = none;
  ending_decision_id = none;
}

abbrev pub id_of_listing : Option ListingRow → Option String
id_of_listing o = Option.map (λ (l : ListingRow). l.id) o

abbrev pub derived_basis : List ListingRow → String → String → MeasureRow → BasisRow
derived_basis listings case_id decision m =
    basis_for restriction_basis m.artifact_id
      (id_of_listing (find_where (is_open_listing_of m.artifact_id) listings)) case_id decision

abbrev pub has_decision_id : String → DecisionRow → Bool
has_decision_id id d = str_eq d.id id

abbrev pub derived_bases : GovernanceTables → String → Option DecisionRow → List BasisRow
derived_bases g decision none = []
derived_bases g decision (some d) =
    map (derived_basis g.listing_tables.listings d.case_id decision)
      (select_where (needs_basis decision g.bases) g.restrictions)

abbrev pub with_listings : List ListingRow → GovernanceTables → GovernanceTables
with_listings rows g = record g { listing_tables = record g.listing_tables { listings = rows } }

abbrev pub restrict_row : ListingRow → ListingRow
restrict_row l = record l { review_state = restricted }

abbrev pub is_restricted_by : String → List MeasureRow → String → Bool
is_restricted_by decision restrictions artifact =
    some_of (λ m. is_active_for artifact m && has_root decision m) restrictions

abbrev pub spread_restrictions : String → String → Text → GovernanceTables → GovernanceTables
spread_restrictions artifact decision rule g = record g {
  restrictions =
      insert_missing
        (map (λ copy. new_measure copy decision rule)
          (copied_artifacts g.listing_tables g.provenance artifact g.listing_tables.listings))
        g.restrictions;
}

abbrev pub spread_bases : String → GovernanceTables → GovernanceTables
spread_bases decision g = record g {
  bases = derived_bases g decision (find_where (has_decision_id decision) g.decisions) ++ g.bases;
}

abbrev pub project_restricted : String → GovernanceTables → GovernanceTables
project_restricted decision g =
    with_listings
      (update_where
        (λ l. is_restricted_by decision g.restrictions l.artifact_id && is_open l.lifecycle_state)
        restrict_row g.listing_tables.listings)
      g

unfoldable pub propagate_restriction : String → String → Text → GovernanceTables → GovernanceTables
propagate_restriction artifact decision rule g =
    project_restricted decision
      (spread_bases decision (spread_restrictions artifact decision rule g))

-- The join of a proposal with a listing of the artifact.
abbrev pub is_proposal_of : String → List ListingRow → ProposalRow → Bool
is_proposal_of artifact listings p =
    some_of (λ (l : ListingRow). str_eq l.id p.listing_id && str_eq l.artifact_id artifact) listings
    && is_open_proposal p.state

abbrev pub block_proposal : ℕ → ProposalRow → ProposalRow
block_proposal now p = record p { state = ProposalState.governance_blocked; closed_at = some now }

abbrev pub is_initial_of : String → ListingRow → Bool
is_initial_of artifact l =
    str_eq l.artifact_id artifact && is_pending l.lifecycle_state && is_none l.current_revision_id

abbrev pub block_initial : ℕ → ListingRow → ListingRow
block_initial now l = record l {
  lifecycle_state = removed;
  closure_reason = some GalleryClosureReason.initial_governance_block;
  closed_at = some now;
  listing_revision = l.listing_revision + 1;
}

abbrev pub is_governance_block : Option GalleryClosureReason → Bool
is_governance_block (some GalleryClosureReason.initial_governance_block) = true
is_governance_block _ = false

abbrev pub is_blocked_listing : String → ListingRow → Bool
is_blocked_listing artifact l =
    str_eq l.artifact_id artifact
    && is_removed l.lifecycle_state
    && is_governance_block l.closure_reason

abbrev pub block_event : (String → String) → String → ListingRow → LifecycleEvent
block_event event_id decision l = record {
  id = event_id l.id;
  listing_id = l.id;
  from_lifecycle_state = pending;
  to_lifecycle_state = removed;
  closure_reason = some GalleryClosureReason.initial_governance_block;
  base_listing_revision = none;
  committed_listing_revision = l.listing_revision;
  actor_kind = administrator;
  actor_id = some decision;
}

abbrev pub bury : Bool → GalleryClosureReason → ListingRow → TombstoneRow
bury was_public reason l = record {
  listing_id = l.id;
  was_ever_public = was_public;
  terminal_lifecycle_state = removed;
  closure_reason = reason;
  source_deleted_at = none;
  permanently_non_restorable_at = none;
}

abbrev pub lies_in : List TombstoneRow → ListingRow → Bool
lies_in tombstones l = some_of (λ (s : TombstoneRow). str_eq s.listing_id l.id) tombstones

-- `on conflict(listing_id) do nothing`, for rows of different ids.
abbrev pub bury_missing :
    Bool → GalleryClosureReason → List ListingRow → List TombstoneRow → List TombstoneRow
bury_missing was_public reason rows tombstones =
    map (bury was_public reason) (select_where (λ l. not (lies_in tombstones l)) rows) ++ tombstones

unfoldable pub close_blocked_proposals :
    ℕ → (String → String) → String → String → GovernanceTables → GovernanceTables
close_blocked_proposals now event_id artifact decision g =
    let t = g.listing_tables in
    let rows = update_where (is_initial_of artifact) (block_initial now) t.listings in
    let blocked = select_where (is_blocked_listing artifact) rows in
    record g {
      listing_tables = record t {
        proposals =
            update_where (is_proposal_of artifact t.listings) (block_proposal now) t.proposals;
        listings = rows;
        events = map (block_event event_id decision) blocked ++ t.events;
        tombstones =
            bury_missing false GalleryClosureReason.initial_governance_block blocked t.tombstones;
      };
    }

-- The `case` of `recomputeArtifact`.
abbrev pub is_basis_active_for : String → BasisRow → Bool
is_basis_active_for artifact b = str_eq b.artifact_id artifact && is_active b.state

unfoldable pub review_state_for : GovernanceTables → String → GalleryReviewState
review_state_for g artifact =
    if some_of (is_active_for artifact) g.restrictions
    then restricted
    else if some_of (is_basis_active_for artifact) g.bases
        || some_of (is_active_for artifact) g.takedowns
    then reviewing
    else clear

abbrev pub set_review : GalleryReviewState → ListingRow → ListingRow
set_review state l = record l { review_state = state }

unfoldable pub recompute_artifact : String → GovernanceTables → GovernanceTables
recompute_artifact artifact g =
    with_listings
      (update_where (is_open_listing_of artifact) (set_review (review_state_for g artifact))
        g.listing_tables.listings)
      g

unfoldable pub recompute_all : List String → GovernanceTables → GovernanceTables
recompute_all [] g = g
recompute_all (artifact ∷ rest) g = recompute_all rest (recompute_artifact artifact g)
