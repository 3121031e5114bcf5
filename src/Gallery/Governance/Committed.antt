-- ===== src/Gallery/Governance/Committed.antt =====
-- governance.ts: what it says of the tables before and after that `decide` has answered.
use share_slices.Base.{
  false, ◌≢◌, ◌⊎◌, ◌≤◌, List, [], ◌∷◌, All, ℕ, String, Text, str_eq, eq_iff, ◌≡◌, refl, sym, ap,
  subst, ◌∙◌, Bool, true, not, ◌||◌, Option, none, some, arith, is_empty, trim, ltb, length,
  some_of, is_some, find_where, find_where_holds,
}
use share_slices.Gallery.Governance.{
  GovernanceDecisionKind, remove, restrict, takedown, AppealPolicy, CaseRow, DecisionRow,
  GovernanceErrorCode, AdministratorAction, decision_action, GovernanceTables, Outcome, failed,
  done, ◌>>=◌, ensure, found_or, invalid_text, is_control, safe_text, administrator_forbidden,
  case_not_found, case_closed, invalid_decision, decision_conflict, database_error,
}
use share_slices.Gallery.Governance.Outcomes.{
  bind_done, found_done, done_injective, ensure_done, unless_done, settle_done, settle_failed,
}
use share_slices.Gallery.Governance.Authority.{has_authority, note, require}
use share_slices.Gallery.Governance.Measures.{has_decision_id}
use share_slices.Gallery.Governance.Effects.{DecisionContext}
use share_slices.Gallery.Governance.Chain.{follow_up, apply_decision}
use share_slices.Gallery.Governance.Steps.{Effect, apply_decision-Effect}
use share_slices.Gallery.Governance.Decisions.{
  DecideInput, Digests, Fresh, decision_allowed, is_open_case, has_case_id, is_replay_of,
  is_appealable, listing_matches, active_policy, policy_for, new_decision, context_for, close_case,
  DecisionResponse, response_of, decision_response, with_decision, respond, decide_open,
  decide_once, decide_work, decide,
}

abbrev pub fingerprint : Digests → DecideInput → String
fingerprint h i =
    h.decision i.case_id i.kind (trim i.rule_code) (trim i.rationale) i.expected_listing_revision

-- The tables after the audit event of the authorization.
abbrev pub audited : DecideInput → GovernanceTables → GovernanceTables
audited i g =
    note
      (record {
        actor_user_id = i.actor_user_id;
        action = decision_action;
        resource_id = some i.case_id;
        subject_user_id = none;
      })
      g

abbrev pub context : Fresh → DecideInput → CaseRow → DecisionContext
context f i k = context_for f i (trim i.rule_code) k

-- The tables after the insertion of the decision, to which it is then applied.
abbrev pub recorded : Digests → Fresh → DecideInput → CaseRow → GovernanceTables → GovernanceTables
recorded h f i k g =
    with_decision
      (new_decision h f i (trim i.rule_code) (trim i.rationale) k (policy_for i.kind (audited i g)))
      (audited i g)

-- The three kinds of decision that the creator can appeal against need a policy for appeals.
abbrev pub is_one_to_appeal : GovernanceDecisionKind → Bool
is_one_to_appeal remove = true
is_one_to_appeal restrict = true
is_one_to_appeal takedown = true
is_one_to_appeal _ = false

-- A text that is given: trimmed, it has from 1 to `maximum` code units, and none of them is a
-- control character other than a tab, a line feed or a carriage return.
pub record IsSafeText (maximum : ℕ) (value : Text) : Type 0 where
  pub there : trim value ≢ []
  pub short : length (trim value) ≤ maximum
  pub printable : All (λ c. (c ≡ 9) ⊎ (c ≡ 10) ⊎ (c ≡ 13) ⊎ (32 ≤ c)) (trim value)

-- The two ways to answer: again with an earlier decision, or with a new one.
pub data Answers (h : Digests) (f : Fresh) (i : DecideInput) (g : GovernanceTables)
    (answer : String) : GovernanceTables → Type 0 where
  replayed :
      (d : DecisionRow)
      → find_where (is_replay_of i.actor_user_id (h.key i.idempotency_key)) g.decisions ≡ some d
      → d.input_fingerprint ≡ fingerprint h i
      → answer ≡ d.id
      → Answers h f i g answer (audited i g)
  committed :
      (k : CaseRow) (applied : GovernanceTables)
      → find_where (has_case_id i.case_id) g.cases ≡ some k
      → is_open_case k.state ≡ true
      → decision_allowed k i.kind ≡ true
      → listing_matches i k.listing_id g ≡ true
      → (not (is_one_to_appeal i.kind) || some_of (λ p. p.active) g.policies) ≡ true
      → Effect (context f i k) (recorded h f i k g) i.kind applied
      → answer ≡ f.id
      → Answers h f i g answer
          (close_case f.now i.case_id (follow_up (context f i k) i.kind applied))

controls-All :
    (t : Text)
    → some_of is_control t ≡ false
    → All (λ c. (c ≡ 9) ⊎ (c ≡ 10) ⊎ (c ≡ 13) ⊎ (32 ≤ c)) t
controls-All [] e = tt
controls-All (c ∷ t) e = (ground (arith, e), controls-All t (ground (arith, e)))

safe_text-IsSafeText :
    (maximum : ℕ) (value text : Text)
    → safe_text maximum value ≡ done text
    → IsSafeText maximum value
unfolding safe_text
safe_text-IsSafeText maximum value text e =
    let passed =
      (unless_done
        (is_empty (trim value)
          || ltb maximum (length (trim value))
          || some_of is_control (trim value))
        invalid_text (trim value) text e).0 in
    record {
      there = λ k. ground (arith, passed, ap is_empty k);
      short = ground (arith, passed);
      printable = controls-All (trim value) (ground (arith, passed));
    }

safe_text_done :
    (maximum : ℕ) (value text : Text) → safe_text maximum value ≡ done text → trim value ≡ text
unfolding safe_text
safe_text_done maximum value text e =
    (unless_done
      (is_empty (trim value)
        || ltb maximum (length (trim value))
        || some_of is_control (trim value))
      invalid_text (trim value) text e).1

pub require_done :
    (user : String) (action : AdministratorAction) (resource : Option String)
    (g g' : GovernanceTables)
    → require user action resource g ≡ done g'
    → (is_some (find_where (has_authority user) g.authorities) ≡ true)
      × (note
            (record {
              actor_user_id = user;
              action = action;
              resource_id = resource;
              subject_user_id = none;
            })
            g
          ≡ g')
unfolding require
require_done user action resource g g' e =
    let (known, same) =
      unless_done (not (is_some (find_where (has_authority user) g.authorities)))
        administrator_forbidden
        (note
          (record {
            actor_user_id = user;
            action = action;
            resource_id = resource;
            subject_user_id = none;
          })
          g)
        g' e in
    (ground (arith, known), same)

response_id :
    (id : String) (g : GovernanceTables) (r : DecisionResponse)
    → decision_response id g ≡ done r
    → r.decision_id ≡ id
unfolding decision_response
response_id id g r e =
    let (d, found, rest) =
      found_done (find_where (has_decision_id id) g.decisions) database_error
        (λ d.
          found_or (find_where (has_case_id d.case_id) g.cases) database_error
          >>= (λ k. done (response_of g d k)))
        r e in
    let (k, there, last) =
      found_done (find_where (has_case_id d.case_id) g.cases) database_error
        (λ k. done (response_of g d k)) r rest in
    let same : r ≡ response_of g d k = sym (done_injective (response_of g d k) r last) in
    let named : str_eq d.id id ≡ true = find_where_holds (has_decision_id id) g.decisions d found in
    ap (λ x. x.decision_id) same ∙ ground (arith, eq_iff d.id id, named)

respond_done :
    (id : String) (g g' : GovernanceTables) (r : DecisionResponse)
    → respond id g ≡ done (r, g')
    → (r.decision_id ≡ id) × (g ≡ g')
respond_done id g g' r e =
    let (s, answered, last) = bind_done (decision_response id g) (λ r. done (r, g)) (r, g') e in
    let same : (s, g) ≡ (r, g') = done_injective (s, g) (r, g') last in
    (
      response_id id g r
          (subst (λ x. decision_response id g ≡ done x) (ap (λ x. x.0) same) answered),
      ap (λ x. x.1) same,
    )

open-Answers :
    (h : Digests) (f : Fresh) (i : DecideInput) (k : CaseRow) (g g' : GovernanceTables)
    (r : DecisionResponse)
    → find_where (has_case_id i.case_id) g.cases ≡ some k
    → decide_open h f i (trim i.rule_code) (trim i.rationale) k (audited i g) ≡ done (r, g')
    → Answers h f i g r.decision_id g'
open-Answers h f i k g g' r found e =
    let applied : GovernanceTables → Outcome (DecisionResponse × GovernanceTables) =
      λ x. respond f.id (close_case f.now i.case_id x) in
    let write : Outcome GovernanceTables =
      apply_decision (context f i k) i.kind (recorded h f i k g) in
    let guarded : Unit {0} → Outcome (DecisionResponse × GovernanceTables) =
      λ _. write >>= applied in
    let has_policy : Bool = not (is_appealable i.kind) || is_some (active_policy (audited i g)) in
    let (opened, rest) =
      ensure_done (is_open_case k.state) case_closed
        (λ _. ensure (decision_allowed k i.kind) invalid_decision >>= (λ _.
          ensure (listing_matches i k.listing_id (audited i g)) decision_conflict
          >>= (λ _. ensure has_policy invalid_decision >>= guarded)))
        (r, g') e in
    let (allowed, rest2) =
      ensure_done (decision_allowed k i.kind) invalid_decision
        (λ _.
          ensure (listing_matches i k.listing_id (audited i g)) decision_conflict
          >>= (λ _. ensure has_policy invalid_decision >>= guarded))
        (r, g') rest in
    let (matches, rest3) =
      ensure_done (listing_matches i k.listing_id (audited i g)) decision_conflict
        (λ _. ensure has_policy invalid_decision >>= guarded) (r, g') rest2 in
    let (known, rest4) = ensure_done has_policy invalid_decision guarded (r, g') rest3 in
    let (x, written, last) = bind_done write applied (r, g') rest4 in
    let (y, effect, followed) =
      apply_decision-Effect (context f i k) i.kind (recorded h f i k g) x written in
    let (named, same) = respond_done f.id (close_case f.now i.case_id x) g' r last in
    subst (λ z. Answers h f i g r.decision_id z) (ap (close_case f.now i.case_id) followed ∙ same)
      (committed k y found opened allowed (listing_same i k.listing_id g ∙ matches)
        (policy_known i.kind g.policies known) effect named)
  where
    policy_there :
        (rows : List AppealPolicy)
        → is_some (find_where (λ (p : AppealPolicy). p.active) rows) ≡ some_of (λ p. p.active) rows
    policy_there [] = refl
    policy_there (p ∷ rows) = ground (arith, policy_there rows)

    policy_known :
        (kind : GovernanceDecisionKind) (rows : List AppealPolicy)
        → (not (is_appealable kind) || is_some (find_where (λ (p : AppealPolicy). p.active) rows))
          ≡ true
        → (not (is_one_to_appeal kind) || some_of (λ p. p.active) rows) ≡ true
    policy_known kind rows e = ground (arith, e, policy_there rows)

    listing_same :
        (i : DecideInput) (o : Option String) (g : GovernanceTables)
        → listing_matches i o g ≡ listing_matches i o (audited i g)
    listing_same i none g = refl
    listing_same i (some l) g = refl

once-Answers :
    (h : Digests) (f : Fresh) (i : DecideInput) (o : Option DecisionRow) (g g' : GovernanceTables)
    (r : DecisionResponse)
    → find_where (is_replay_of i.actor_user_id (h.key i.idempotency_key)) g.decisions ≡ o
    → decide_once h f i (trim i.rule_code) (trim i.rationale) o (audited i g) ≡ done (r, g')
    → Answers h f i g r.decision_id g'
once-Answers h f i (some d) g g' r found e =
    let (same, rest) =
      ensure_done (str_eq d.input_fingerprint (fingerprint h i)) decision_conflict
        (λ _. respond d.id (audited i g)) (r, g') e in
    let (named, kept) = respond_done d.id (audited i g) g' r rest in
    subst (λ z. Answers h f i g r.decision_id z) kept
      (replayed d found (ground (arith, eq_iff d.input_fingerprint (fingerprint h i), same)) named)
once-Answers h f i none g g' r found e =
    let (k, there, rest) =
      found_done (find_where (has_case_id i.case_id) g.cases) case_not_found
        (λ k. decide_open h f i (trim i.rule_code) (trim i.rationale) k (audited i g)) (r, g') e in
    open-Answers h f i k g g' r there rest

texts-Answers :
    (h : Digests) (f : Fresh) (i : DecideInput) (rationale rule : Text) (g x g' : GovernanceTables)
    (r : DecisionResponse)
    → trim i.rationale ≡ rationale
    → trim i.rule_code ≡ rule
    → audited i g ≡ x
    → decide_once h f i rule rationale
        (find_where (is_replay_of i.actor_user_id (h.key i.idempotency_key)) x.decisions)
        x
      ≡ done (r, g')
    → Answers h f i g r.decision_id g'
texts-Answers h f i rationale rule g x g' r same_rationale same_rule audit e =
    let earlier : GovernanceTables → Option DecisionRow =
      λ y. find_where (is_replay_of i.actor_user_id (h.key i.idempotency_key)) y.decisions in
    once-Answers h f i (earlier g) g g' r refl (
      subst
        (λ y. decide_once h f i (trim i.rule_code) (trim i.rationale) (earlier y) y ≡ done (r, g'))
        (sym audit)
        (subst (λ y. decide_once h f i y (trim i.rationale) (earlier x) x ≡ done (r, g'))
          (sym same_rule)
          (subst (λ y. decide_once h f i rule y (earlier x) x ≡ done (r, g')) (sym same_rationale)
            e)))

pub decide-Answers :
    (h : Digests) (f : Fresh) (i : DecideInput) (g g' : GovernanceTables) (r : DecisionResponse)
    → decide h f i g ≡ (done r, g')
    → (is_some (find_where (has_authority i.actor_user_id) g.authorities) ≡ true)
      × IsSafeText 8000 i.rationale
      × IsSafeText 200 i.rule_code
      × Answers h f i g r.decision_id g'
unfolding decide decide_work
decide-Answers h f i g g' r e =
    let once : Text → Text → GovernanceTables → Outcome (DecisionResponse × GovernanceTables) =
      λ rationale rule x.
        decide_once h f i rule rationale
          (find_where (is_replay_of i.actor_user_id (h.key i.idempotency_key)) x.decisions) x in
    let authorized : Outcome GovernanceTables =
      require i.actor_user_id decision_action (some i.case_id) g in
    let worked = settle_done g g' (decide_work h f i g) r e in
    let (rationale, is_rationale, rest) =
      bind_done (safe_text 8000 i.rationale)
        (λ rationale. safe_text 200 i.rule_code >>= (λ rule. authorized >>= once rationale rule))
        (r, g') worked in
    let (rule, is_rule, rest2) =
      bind_done (safe_text 200 i.rule_code) (λ rule. authorized >>= once rationale rule) (r, g')
        rest in
    let (x, known, rest3) = bind_done authorized (once rationale rule) (r, g') rest2 in
    let (admitted, audit) =
      require_done i.actor_user_id decision_action (some i.case_id) g x known in
    (
      admitted,
      safe_text-IsSafeText 8000 i.rationale rationale is_rationale,
      safe_text-IsSafeText 200 i.rule_code rule is_rule,
      texts-Answers h f i rationale rule g x g' r
          (safe_text_done 8000 i.rationale rationale is_rationale)
          (safe_text_done 200 i.rule_code rule is_rule) audit rest3,
    )

pub decide_failed :
    (h : Digests) (f : Fresh) (i : DecideInput) (g g' : GovernanceTables)
    (code : GovernanceErrorCode)
    → decide h f i g ≡ (failed code, g')
    → g' ≡ g
unfolding decide
decide_failed h f i g g' code e = settle_failed g g' (decide_work h f i g) code e

-- Under a key that was not used before, an answer comes from a new decision.
pub decide_committed :
    (h : Digests) (f : Fresh) (i : DecideInput) (g g' : GovernanceTables) (r : DecisionResponse)
    (k : CaseRow)
    → decide h f i g ≡ (done r, g')
    → find_where (is_replay_of i.actor_user_id (h.key i.idempotency_key)) g.decisions ≡ none
    → find_where (has_case_id i.case_id) g.cases ≡ some k
    → (applied : GovernanceTables) × Effect (context f i k) (recorded h f i k g) i.kind applied
      × (close_case f.now i.case_id (follow_up (context f i k) i.kind applied) ≡ g')
decide_committed h f i g g' r k e fresh found = new g' (decide-Answers h f i g g' r e).3
  where
    new :
        (x : GovernanceTables)
        → Answers h f i g r.decision_id x
        → (applied : GovernanceTables) × Effect (context f i k) (recorded h f i k g) i.kind applied
          × (close_case f.now i.case_id (follow_up (context f i k) i.kind applied) ≡ x)
    new x (replayed d there same named) = ground (arith, fresh, there)
    new x (committed k2 y there opened allowed matches policy effect named) =
        let same : k2 ≡ k = ground (arith, there, found) in
        (
          y,
          subst (λ z. Effect (context f i z) (recorded h f i z g) i.kind y) same effect,
          ap (λ z. close_case f.now i.case_id (follow_up (context f i z) i.kind y)) (sym same),
        )
