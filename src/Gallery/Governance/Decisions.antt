-- ===== src/Gallery/Governance/Decisions.antt =====
-- governance.ts: `decide` with `allowedDecisions` and `decisionResponse`. The digests are library
-- calls and are parameters; a transaction that fails leaves all tables, audit events included.
use mathlib.Core.Option
use share_slices.Base.{
  ℕ, ◌+◌, ◌*◌, String, str_eq, Bool, true, false, not, ◌&&◌, ◌||◌, Option, none, some, List, [],
  ◌∷◌, ◌++◌, ◌==◌, if◌then◌else◌, is_some, some_of, find_where, update_where, Text, is_empty,
}
use share_slices.Gallery.Listing.{restricted, ListingRow, ListingTables, row_of, is_listed}
use share_slices.Gallery.Governance.{
  MeasureRow, GovernanceDecisionKind, dismiss, remove, restore, restrict, clear_restriction,
  takedown, clear_takedown, uphold_appeal, reverse_appeal, approve, reject, CaseKind, proposal_case,
  report_case, removal_case, restriction_case, takedown_case, appeal_case, CaseState, open_case,
  decided_case, CaseRow, AppealPolicy, DecisionRow, GovernanceTables, decision_action, Outcome,
  done, ◌>>=◌, ensure, found_or, settle_transaction, case_not_found, case_closed, invalid_decision,
  decision_conflict, database_error, safe_text,
}
use share_slices.Gallery.Governance.Authority.{require}
use share_slices.Gallery.Governance.Measures.{is_active_for, has_decision_id}
use share_slices.Gallery.Governance.Effects.{DecisionContext}
use share_slices.Gallery.Governance.Chain.{apply_decision}

abbrev pub kind_number : GovernanceDecisionKind → ℕ
kind_number approve = 0
kind_number reject = 1
kind_number dismiss = 2
kind_number remove = 3
kind_number restore = 4
kind_number restrict = 5
kind_number clear_restriction = 6
kind_number takedown = 7
kind_number clear_takedown = 8
kind_number uphold_appeal = 9
kind_number reverse_appeal = 10

abbrev pub allowed_decisions : CaseKind → List GovernanceDecisionKind
allowed_decisions report_case = dismiss ∷ remove ∷ restrict ∷ takedown ∷ []
allowed_decisions proposal_case = approve ∷ reject ∷ restrict ∷ takedown ∷ []
allowed_decisions appeal_case = uphold_appeal ∷ reverse_appeal ∷ []
allowed_decisions removal_case = restore ∷ []
allowed_decisions restriction_case = clear_restriction ∷ []
allowed_decisions takedown_case = clear_takedown ∷ []

abbrev pub decision_allowed : CaseRow → GovernanceDecisionKind → Bool
decision_allowed k kind =
    some_of (λ x. kind_number x == kind_number kind) (allowed_decisions k.case_kind)

pub record DecideInput : Type 0 where
  pub actor_user_id : String
  pub case_id : String
  pub kind : GovernanceDecisionKind
  pub rule_code : Text
  pub rationale : Text
  pub idempotency_key : String
  pub expected_listing_revision : Option ℕ

-- `digest` on the two objects of `decide` and of `appeal` and on a key.
pub record Digests : Type 0 where
  pub key : String → String
  pub decision : String → GovernanceDecisionKind → Text → Text → Option ℕ → String
  pub appeal : String → Text → String
  pub evidence : String → String → ℕ → Text → String

-- The clock of the transaction and the identifiers that it makes.
pub record Fresh : Type 0 where
  pub now : ℕ
  pub id : String
  pub case_id : String
  pub event_id : String → String

abbrev pub is_open_case : CaseState → Bool
is_open_case open_case = true
is_open_case _ = false

abbrev pub has_case_id : String → CaseRow → Bool
has_case_id id k = str_eq k.id id

abbrev pub is_replay_of : String → String → DecisionRow → Bool
is_replay_of actor key d = str_eq d.actor_user_id actor && str_eq d.idempotency_key_digest key

abbrev pub is_appealable : GovernanceDecisionKind → Bool
is_appealable remove = true
is_appealable restrict = true
is_appealable takedown = true
is_appealable _ = false

-- The revision that the caller saw, where the case has a listing.
abbrev pub revision_matches : Option ℕ → Option ListingRow → Bool
revision_matches none o = false
revision_matches (some expected) none = false
revision_matches (some expected) (some l) = l.listing_revision == expected

abbrev pub listing_matches : DecideInput → Option String → GovernanceTables → Bool
listing_matches i none g = true
listing_matches i (some listing) g =
    revision_matches i.expected_listing_revision (row_of listing g.listing_tables)

abbrev pub active_policy : GovernanceTables → Option AppealPolicy
active_policy g = find_where (λ (p : AppealPolicy). p.active) g.policies

abbrev pub policy_for : GovernanceDecisionKind → GovernanceTables → Option AppealPolicy
policy_for kind g = if is_appealable kind then active_policy g else none

abbrev pub new_decision :
    Digests → Fresh → DecideInput → Text → Text → CaseRow → Option AppealPolicy → DecisionRow
new_decision h f i rule rationale k policy = record {
  id = f.id;
  case_id = i.case_id;
  actor_user_id = i.actor_user_id;
  decision_kind = i.kind;
  rule_code = rule;
  rationale = rationale;
  evidence_digest = k.evidence_digest;
  appeal_policy_version = Option.map (λ (p : AppealPolicy). p.version) policy;
  appeal_deadline_at = Option.map (λ (p : AppealPolicy). f.now + p.deadline_seconds * 1000) policy;
  idempotency_key_digest = h.key i.idempotency_key;
  input_fingerprint = h.decision i.case_id i.kind rule rationale i.expected_listing_revision;
  created_at = f.now;
}

abbrev pub context_for : Fresh → DecideInput → Text → CaseRow → DecisionContext
context_for f i rule k = record {
  governance_case = k;
  decision_id = f.id;
  rule_code = rule;
  actor_user_id = i.actor_user_id;
  now = f.now;
  event_id = f.event_id;
}

abbrev pub decide_case_row : ℕ → CaseRow → CaseRow
decide_case_row now k = record k { state = decided_case; closed_at = some now }

abbrev pub close_case : ℕ → String → GovernanceTables → GovernanceTables
close_case now id g = record g {
  cases = update_where (has_case_id id) (decide_case_row now) g.cases;
}

pub data Hindrance : Type 0 where
  not_listed public_sharing_restricted artifact_takedown : Hindrance

pub record DecisionResponse : Type 0 where
  pub decision_id : String
  pub committed_at : ℕ
  pub policy_version : Option String
  pub deadline_at : Option ℕ
  pub accessible : Bool
  pub restrictions : List Hindrance

abbrev pub note_if : Bool → Hindrance → List Hindrance
note_if true h = h ∷ []
note_if false h = []

abbrev pub is_listed_row : Option ListingRow → Bool
is_listed_row none = false
is_listed_row (some l) = is_listed l.lifecycle_state

abbrev pub is_restricted_row : Option ListingRow → Bool
is_restricted_row none = false
is_restricted_row (some l) = elim l.review_state [ restricted ↦ true | _ ↦ false ]

abbrev pub artifact_measured : Option String → List MeasureRow → Bool
artifact_measured none rows = false
artifact_measured (some artifact) rows = some_of (is_active_for artifact) rows

abbrev pub listing_at : Option String → ListingTables → Option ListingRow
listing_at none t = none
listing_at (some id) t = row_of id t

abbrev pub hindrances : CaseRow → GovernanceTables → List Hindrance
hindrances k g =
    note_if (not (is_listed_row (listing_at k.listing_id g.listing_tables))) not_listed
    ++ note_if
        (is_restricted_row (listing_at k.listing_id g.listing_tables)
          || artifact_measured k.artifact_id g.restrictions)
        public_sharing_restricted
    ++ note_if (artifact_measured k.artifact_id g.takedowns) artifact_takedown

abbrev pub response_of : GovernanceTables → DecisionRow → CaseRow → DecisionResponse
response_of g d k = record {
  decision_id = d.id;
  committed_at = d.created_at;
  policy_version = d.appeal_policy_version;
  deadline_at = d.appeal_deadline_at;
  accessible = is_empty (hindrances k g);
  restrictions = hindrances k g;
}

-- `record` is undefined where a row of the join is missing: the access to it throws, which is
-- `database_error` here.
unfoldable pub decision_response : String → GovernanceTables → Outcome DecisionResponse
decision_response id g = do
  d ← found_or (find_where (has_decision_id id) g.decisions) database_error
  k ← found_or (find_where (has_case_id d.case_id) g.cases) database_error
  done (response_of g d k)

abbrev pub with_decision : DecisionRow → GovernanceTables → GovernanceTables
with_decision d g = record g { decisions = d ∷ g.decisions }

abbrev pub respond : String → GovernanceTables → Outcome (DecisionResponse × GovernanceTables)
respond id g = do r ← decision_response id g; done (r, g)

abbrev pub decide_open :
    Digests
    → Fresh
    → DecideInput
    → Text
    → Text
    → CaseRow
    → GovernanceTables
    → Outcome (DecisionResponse × GovernanceTables)
decide_open h f i rule rationale k g = do
  _ ← ensure (is_open_case k.state) case_closed
  _ ← ensure (decision_allowed k i.kind) invalid_decision
  _ ← ensure (listing_matches i k.listing_id g) decision_conflict
  _ ← ensure (not (is_appealable i.kind) || is_some (active_policy g)) invalid_decision
  g' ←
      apply_decision (context_for f i rule k) i.kind
        (with_decision (new_decision h f i rule rationale k (policy_for i.kind g)) g)
  respond f.id (close_case f.now i.case_id g')

abbrev pub decide_once :
    Digests
    → Fresh
    → DecideInput
    → Text
    → Text
    → Option DecisionRow
    → GovernanceTables
    → Outcome (DecisionResponse × GovernanceTables)
decide_once h f i rule rationale (some d) g = do
  _ ←
      ensure
        (str_eq d.input_fingerprint
          (h.decision i.case_id i.kind rule rationale i.expected_listing_revision))
        decision_conflict
  respond d.id g
decide_once h f i rule rationale none g = do
  k ← found_or (find_where (has_case_id i.case_id) g.cases) case_not_found
  decide_open h f i rule rationale k g

unfoldable pub decide_work :
    Digests → Fresh → DecideInput → GovernanceTables → Outcome (DecisionResponse × GovernanceTables)
decide_work h f i g = do
  rationale ← safe_text 8000 i.rationale
  rule ← safe_text 200 i.rule_code
  g' ← require i.actor_user_id decision_action (some i.case_id) g
  decide_once h f i rule rationale
      (find_where (is_replay_of i.actor_user_id (h.key i.idempotency_key)) g'.decisions) g'

unfoldable pub decide :
    Digests → Fresh → DecideInput → GovernanceTables → Outcome DecisionResponse × GovernanceTables
decide h f i g = settle_transaction g (decide_work h f i g)
