-- ===== src/Gallery/Governance/Closing.antt =====
-- source-closure.ts: `closeAccount` with the appeals, which the listing tables do not hold.
use share_slices.Base.{
  ℕ, String, str_eq, Bool, true, false, ◌&&◌, none, some, some_of, update_where, List,
}
use share_slices.Gallery.Listing.{ListingRow, ListingTables}
use share_slices.Gallery.Listing.Closure
use share_slices.Gallery.Governance.{
  CaseRow, DecisionRow, AppealRow, moot, GovernanceTables, is_pending_appeal,
}
use share_slices.Gallery.Governance.Measures.{has_decision_id}
use share_slices.Gallery.Governance.Decisions.{has_case_id}

abbrev pub is_listing_of : String → String → ListingRow → Bool
is_listing_of user listing l = str_eq l.id listing && str_eq l.owner_user_id user

-- The case's listing belongs to the user.
abbrev pub concerns : String → List ListingRow → CaseRow → Bool
concerns user listings k = elim k.listing_id [
  | none ↦ false
  | some id ↦ some_of (is_listing_of user id) listings
]

abbrev pub decides_about : String → GovernanceTables → DecisionRow → Bool
decides_about user g d =
    some_of (λ k. has_case_id d.case_id k && concerns user g.listing_tables.listings k) g.cases

abbrev pub is_mooted_by : String → GovernanceTables → AppealRow → Bool
is_mooted_by user g a =
    is_pending_appeal a.state
    && some_of (λ d. has_decision_id a.decision_id d && decides_about user g d) g.decisions

abbrev pub moot_row : ℕ → AppealRow → AppealRow
moot_row now a = record a { state = moot; resolved_at = some now }

abbrev pub closed_governance :
    String → ℕ → Bool × ListingTables → GovernanceTables → GovernanceTables
closed_governance user now (true, t) g = record g {
  listing_tables = t;
  appeals = update_where (is_mooted_by user g) (moot_row now) g.appeals;
}
closed_governance user now (false, t) g = g

-- The exception of the tombstones rolls the appeals back too.
unfoldable pub close_account : String → ℕ → (String → String) → GovernanceTables → GovernanceTables
close_account user now event_id g =
    closed_governance user now (Closure.close_account user now event_id g.listing_tables) g
