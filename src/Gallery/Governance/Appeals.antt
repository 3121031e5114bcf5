-- ===== src/Gallery/Governance/Appeals.antt =====
-- governance.ts: `appeal`.
use mathlib.Core.Option
use share_slices.Base.{
  ℕ, String, str_eq, Bool, true, false, not, ◌&&◌, ◌||◌, Option, none, some, ◌∷◌, leb, some_of,
  find_where, Text,
}
use share_slices.Gallery.Listing.{ListingRow, is_removed, is_administrator_removal}
use share_slices.Gallery.Governance.{
  GovernanceDecisionKind, remove, CaseRow, appeal_case, open_case, DecisionRow, AppealRow, pending,
  GovernanceTables, Outcome, done, ◌>>=◌, ensure, found_or, settle_transaction, safe_text,
  appeal_unavailable, appeal_forbidden, appeal_expired, decision_conflict,
}
use share_slices.Gallery.Governance.Measures.{has_decision_id}
use share_slices.Gallery.Governance.Reversals.{is_active_from}
use share_slices.Gallery.Governance.Decisions.{Digests, Fresh, has_case_id, listing_at}

pub record AppealInput : Type 0 where
  pub user_id : String
  pub decision_id : String
  pub statement : Text
  pub idempotency_key : String

pub record AppealReceipt : Type 0 where
  pub appeal_id : String
  pub policy_version : String
  pub decision_at : ℕ
  pub deadline_at : ℕ

-- The columns that the query joins to the decision. The owner of the listing, or else of the
-- artifact, comes from the table `artifact`, and is given for each artifact.
pub record JoinedDecision : Type 0 where
  pub decision : DecisionRow
  pub governance_case : CaseRow
  pub owner_user_id : Option String
  pub in_force : Bool

abbrev pub is_removed_row : Option ListingRow → Bool
is_removed_row none = false
is_removed_row (some l) = is_removed l.lifecycle_state && is_administrator_removal l.closure_reason

abbrev pub is_remove : GovernanceDecisionKind → Bool
is_remove remove = true
is_remove _ = false

abbrev pub is_in_force : GovernanceTables → DecisionRow → CaseRow → Bool
is_in_force g d k =
    some_of (is_active_from d.id) g.restrictions
    || some_of (is_active_from d.id) g.takedowns
    || (is_remove d.decision_kind && is_removed_row (listing_at k.listing_id g.listing_tables))

abbrev pub owner_of : (String → Option String) → CaseRow → Option ListingRow → Option String
owner_of artifact_owner k (some l) = some l.owner_user_id
owner_of artifact_owner k none = elim k.artifact_id [ none ↦ none | some a ↦ artifact_owner a ]

abbrev pub join_case :
    (String → Option String) → GovernanceTables → DecisionRow → CaseRow → JoinedDecision
join_case artifact_owner g d k = record {
  decision = d;
  governance_case = k;
  owner_user_id = owner_of artifact_owner k (listing_at k.listing_id g.listing_tables);
  in_force = is_in_force g d k;
}

abbrev pub join_decision :
    (String → Option String) → GovernanceTables → Option DecisionRow → Option JoinedDecision
join_decision artifact_owner g none = none
join_decision artifact_owner g (some d) =
    Option.map (join_case artifact_owner g d) (find_where (has_case_id d.case_id) g.cases)

-- The policy's version and deadline; a check constraint sets both or none.
abbrev pub appeal_terms : DecisionRow → Option (String × ℕ)
appeal_terms d = elim d.appeal_policy_version [
  | none ↦ none
  | some version ↦ Option.map (λ deadline. (version, deadline)) d.appeal_deadline_at
]

abbrev pub belongs_to : String → Option String → Bool
belongs_to user none = false
belongs_to user (some owner) = str_eq owner user

abbrev pub is_replayed_appeal : String → String → AppealRow → Bool
is_replayed_appeal user key a =
    str_eq a.appellant_user_id user && str_eq a.idempotency_key_digest key

abbrev pub is_appeal_against : String → String → AppealRow → Bool
is_appeal_against decision user a = str_eq a.decision_id decision && str_eq a.appellant_user_id user

abbrev pub appeal_case_row : Digests → Fresh → JoinedDecision → String × ℕ → Text → CaseRow
appeal_case_row h f j terms statement = record {
  id = f.case_id;
  case_kind = appeal_case;
  listing_id = j.governance_case.listing_id;
  artifact_id = j.governance_case.artifact_id;
  parent_case_id = some j.decision.case_id;
  state = open_case;
  evidence_digest = h.evidence j.decision.id terms.0 terms.1 statement;
  closed_at = none;
}

abbrev pub appeal_row : Digests → Fresh → AppealInput → String × ℕ → Text → AppealRow
appeal_row h f i terms statement = record {
  id = f.id;
  case_id = f.case_id;
  decision_id = i.decision_id;
  appellant_user_id = i.user_id;
  policy_version = terms.0;
  deadline_at = terms.1;
  statement = statement;
  idempotency_key_digest = h.key i.idempotency_key;
  input_fingerprint = h.appeal i.decision_id statement;
  state = pending;
  resolved_at = none;
  resolution_decision_id = none;
}

abbrev pub receipt : String → JoinedDecision → String × ℕ → AppealReceipt
receipt id j terms = record {
  appeal_id = id;
  policy_version = terms.0;
  decision_at = j.decision.created_at;
  deadline_at = terms.1;
}

abbrev pub appeal_once :
    Digests
    → Fresh
    → AppealInput
    → JoinedDecision
    → String × ℕ
    → Text
    → Option AppealRow
    → GovernanceTables
    → Outcome (AppealReceipt × GovernanceTables)
appeal_once h f i j terms statement (some a) g = do
  _ ← ensure (str_eq a.input_fingerprint (h.appeal i.decision_id statement)) decision_conflict
  done (receipt a.id j terms, g)
appeal_once h f i j terms statement none g = do
  _ ←
      ensure (not (some_of (is_appeal_against i.decision_id i.user_id) g.appeals))
        appeal_unavailable
  done (
    receipt f.id j terms,
    record g {
      cases = appeal_case_row h f j terms statement ∷ g.cases;
      appeals = appeal_row h f i terms statement ∷ g.appeals;
    },
  )

-- `clock` is the server's clock at the test of the deadline.
unfoldable pub appeal_work :
    Digests
    → Fresh
    → (clock : ℕ) → (String → Option String)
    → AppealInput
    → GovernanceTables
    → Outcome (AppealReceipt × GovernanceTables)
appeal_work h f clock artifact_owner i g = do
  statement ← safe_text 8000 i.statement
  j ←
      found_or
        (join_decision artifact_owner g (find_where (has_decision_id i.decision_id) g.decisions))
        appeal_unavailable
  terms ← found_or (appeal_terms j.decision) appeal_unavailable
  _ ← ensure j.in_force appeal_unavailable
  _ ← ensure (belongs_to i.user_id j.owner_user_id) appeal_forbidden
  _ ← ensure (not (leb terms.1 clock)) appeal_expired
  appeal_once h f i j terms statement
      (find_where (is_replayed_appeal i.user_id (h.key i.idempotency_key)) g.appeals) g

unfoldable pub appeal :
    Digests
    → Fresh
    → (clock : ℕ) → (String → Option String)
    → AppealInput
    → GovernanceTables
    → Outcome AppealReceipt × GovernanceTables
appeal h f clock artifact_owner i g =
    settle_transaction g (appeal_work h f clock artifact_owner i g)
