-- ===== src/Gallery/Governance/Effects.antt =====
-- governance.ts: `applyDecision`, the branches dismiss, remove, restore, restrict and takedown.
-- `now` is the transaction's `now()`, and the event identifiers are given for each listing.
use share_slices.Base.{
  ℕ, ◌+◌, String, str_eq, Bool, true, false, not, ◌&&◌, Option, none, some, List, ◌∷◌, ◌++◌, ltb,
  if◌then◌else◌, is_some, is_none, map, some_of, find_where, select_where, update_where, Text,
}
use share_slices.Gallery.Listing.{
  GalleryLifecycle, listed, removed, clear, GalleryClosureReason, ListingRow, LifecycleEvent,
  administrator, is_row, is_listed, is_removed, is_administrator_removal,
}
use share_slices.Gallery.Governance.{
  CaseRow, MeasureRow, MeasureState, cleared, BasisRow, takedown_basis, restriction_basis,
  GovernanceTables, Outcome, failed, done, ◌>>=◌, ensure, found_or, invalid_decision,
  database_error, is_active,
}
use share_slices.Gallery.Governance.Measures.{
  new_measure, insert_restriction, insert_takedown, basis_for, propagate_restriction,
  close_blocked_proposals, bury_missing, is_open_listing_of,
}

-- What a decision is applied with.
pub record DecisionContext : Type 0 where
  pub governance_case : CaseRow
  pub decision_id : String
  pub rule_code : Text
  pub actor_user_id : String
  pub now : ℕ
  pub event_id : String → String

abbrev pub end_basis : MeasureState → ℕ → String → BasisRow → BasisRow
end_basis state now decision b = record b {
  state = state;
  ended_at = some now;
  ending_decision_id = some decision;
}

abbrev pub is_basis_of_case : String → BasisRow → Bool
is_basis_of_case case_id b = str_eq b.case_id case_id && is_active b.state

abbrev pub apply_dismiss : DecisionContext → GovernanceTables → GovernanceTables
apply_dismiss c g = record g {
  bases =
      update_where (is_basis_of_case c.governance_case.id) (end_basis cleared c.now c.decision_id)
        g.bases;
}

abbrev pub administrator_event :
    DecisionContext
    → GalleryLifecycle
    → GalleryLifecycle
    → Option GalleryClosureReason
    → ListingRow
    → LifecycleEvent
administrator_event c from to reason l = record {
  id = c.event_id l.id;
  listing_id = l.id;
  from_lifecycle_state = from;
  to_lifecycle_state = to;
  closure_reason = reason;
  base_listing_revision = none;
  committed_listing_revision = l.listing_revision;
  actor_kind = administrator;
  actor_id = some c.actor_user_id;
}

abbrev pub is_removable : String → ListingRow → Bool
is_removable id l = is_row id l && is_listed l.lifecycle_state && is_some l.current_revision_id

abbrev pub remove_listing : ℕ → ListingRow → ListingRow
remove_listing now l = record l {
  lifecycle_state = removed;
  review_state = clear;
  closure_reason = some GalleryClosureReason.administrator_removal;
  listing_revision = l.listing_revision + 1;
  closed_at = some now;
}

abbrev pub without_listing : DecisionContext → String → GovernanceTables → GovernanceTables
without_listing c id g =
    let t = g.listing_tables in
    let rows = update_where (is_removable id) (remove_listing c.now) t.listings in
    let written = select_where (is_row id) rows in
    record g {
      listing_tables = record t {
        listings = rows;
        events =
            map
              (administrator_event c listed removed
                (some GalleryClosureReason.administrator_removal))
              written
            ++ t.events;
        tombstones =
            bury_missing true GalleryClosureReason.administrator_removal written t.tombstones;
      };
    }

abbrev pub apply_remove : DecisionContext → String → GovernanceTables → Outcome GovernanceTables
apply_remove c id g =
    if not (is_some (find_where (is_removable id) g.listing_tables.listings))
    then failed invalid_decision
    else done (without_listing c id g)

-- `replacement.created_at > listing.closed_at`, which is not true of a null.
abbrev pub comes_after : ℕ → Option ℕ → Bool
comes_after created none = false
comes_after created (some closed) = ltb closed created

abbrev pub replaces : ListingRow → ListingRow → Bool
replaces l other =
    str_eq other.artifact_id l.artifact_id
    && not (str_eq other.id l.id)
    && comes_after other.created_at l.closed_at

abbrev pub is_restorable : List ListingRow → String → ListingRow → Bool
is_restorable rows id l =
    is_row id l
    && is_removed l.lifecycle_state
    && is_administrator_removal l.closure_reason
    && is_none l.restoration_forfeited_at
    && not (some_of (replaces l) rows)

abbrev pub restore_listing : ListingRow → ListingRow
restore_listing l = record l {
  lifecycle_state = listed;
  review_state = clear;
  closure_reason = none;
  listing_revision = l.listing_revision + 1;
  closed_at = none;
}

abbrev pub with_restored : DecisionContext → String → GovernanceTables → GovernanceTables
with_restored c id g =
    let t = g.listing_tables in
    let rows = update_where (is_restorable t.listings id) restore_listing t.listings in
    record g {
      listing_tables = record t {
        listings = rows;
        events =
            map (administrator_event c removed listed none) (select_where (is_row id) rows)
            ++ t.events;
      };
    }

-- The unique index gallery_listing_one_open_per_artifact_idx refuses a second open listing.
abbrev pub apply_restore : DecisionContext → String → GovernanceTables → Outcome GovernanceTables
apply_restore c id g = do
  l ←
      found_or (find_where (is_restorable g.listing_tables.listings id) g.listing_tables.listings)
        invalid_decision
  _ ←
      ensure (not (some_of (is_open_listing_of l.artifact_id) g.listing_tables.listings))
        database_error
  done (with_restored c id g)

abbrev pub with_basis : BasisRow → GovernanceTables → GovernanceTables
with_basis b g = record g { bases = b ∷ g.bases }

abbrev pub block_artifact : DecisionContext → String → GovernanceTables → GovernanceTables
block_artifact c artifact g =
    close_blocked_proposals c.now c.event_id artifact c.decision_id
      (propagate_restriction artifact c.decision_id c.rule_code g)

abbrev pub with_restriction :
    DecisionContext → String → List MeasureRow → GovernanceTables → GovernanceTables
with_restriction c artifact rows g =
    with_basis
      (basis_for restriction_basis artifact c.governance_case.listing_id c.governance_case.id
        c.decision_id)
      (record g { restrictions = rows })

abbrev pub with_takedown :
    DecisionContext → String → List MeasureRow → GovernanceTables → GovernanceTables
with_takedown c artifact rows g =
    with_basis
      (basis_for takedown_basis artifact c.governance_case.listing_id c.governance_case.id
        c.decision_id)
      (record g { takedowns = rows })

abbrev pub apply_restrict : DecisionContext → String → GovernanceTables → Outcome GovernanceTables
apply_restrict c artifact g = do
  rows ← insert_restriction (new_measure artifact c.decision_id c.rule_code) g.restrictions
  done (block_artifact c artifact (with_restriction c artifact rows g))

abbrev pub apply_takedown : DecisionContext → String → GovernanceTables → Outcome GovernanceTables
apply_takedown c artifact g = do
  rows ← insert_takedown (new_measure artifact c.decision_id c.rule_code) g.takedowns
  done (block_artifact c artifact (with_takedown c artifact rows g))
