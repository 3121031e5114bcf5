-- ===== src/Gallery/Governance/Reversals.antt =====
-- governance.ts: the branches of `applyDecision` that end a restriction or a takedown, with
-- `closeDerivedBasesAndRecompute`, and `resolveAppeal`.
use share_slices.Base.{
  ℕ, String, str_eq, Bool, true, false, ◌&&◌, ◌||◌, Option, none, some, List, ◌∷◌, ◌++◌, map,
  some_of, find_where, select_where, update_where,
}
use share_slices.Gallery.Governance.{
  MeasureRow, cleared, reversed, BasisRow, AppealRow, AppealState, upheld, appeal_reversed, moot,
  NotificationRow, appeal_decision, GovernanceTables, Outcome, done, ◌>>=◌, found_or,
  invalid_decision, is_active, is_pending_appeal,
}
use share_slices.Gallery.Governance.Measures.{
  is_active_for, has_source, has_root, ended_by, end_measure, root_is, recompute_all,
}
use share_slices.Gallery.Governance.Effects.{DecisionContext, end_basis}

-- The roots of the restrictions and takedowns that a decision has ended.
abbrev pub ends_root : String → List MeasureRow → String → Bool
ends_root decision rows root = some_of (λ m. ended_by decision m && has_root root m) rows

abbrev pub is_ended_root : GovernanceTables → String → String → Bool
is_ended_root g decision root =
    ends_root decision g.restrictions root || ends_root decision g.takedowns root

abbrev pub challenges_ended : GovernanceTables → String → AppealRow → Bool
challenges_ended g decision a = is_pending_appeal a.state && is_ended_root g decision a.decision_id

abbrev pub resolve_row : AppealState → ℕ → String → AppealRow → AppealRow
resolve_row state now decision a = record a {
  state = state;
  resolved_at = some now;
  resolution_decision_id = some decision;
}

abbrev pub appeal_notice : String → AppealRow → NotificationRow
appeal_notice decision a = record {
  recipient_user_id = a.appellant_user_id;
  case_id = a.case_id;
  decision_id = decision;
  category = appeal_decision;
  appeal_policy_version = none;
  appeal_deadline_at = none;
}

abbrev pub moot_appeals : DecisionContext → GovernanceTables → GovernanceTables
moot_appeals c g = record g {
  notifications =
      map (appeal_notice c.decision_id) (select_where (challenges_ended g c.decision_id) g.appeals)
      ++ g.notifications;
  appeals =
      update_where (challenges_ended g c.decision_id) (resolve_row moot c.now c.decision_id)
        g.appeals;
}

abbrev pub has_ended_root : GovernanceTables → String → Option String → Bool
has_ended_root g decision none = false
has_ended_root g decision (some root) = is_ended_root g decision root

abbrev pub is_derived_basis : GovernanceTables → String → BasisRow → Bool
is_derived_basis g decision b =
    has_ended_root g decision b.source_root_decision_id && is_active b.state

abbrev pub close_bases : DecisionContext → GovernanceTables → GovernanceTables
close_bases c g = record g {
  bases =
      update_where (is_derived_basis g c.decision_id) (end_basis cleared c.now c.decision_id)
        g.bases;
}

abbrev pub affected : DecisionContext → GovernanceTables → List String
affected c g =
    map (λ (b : BasisRow). b.artifact_id) (select_where (is_derived_basis g c.decision_id) g.bases)

-- `closeDerivedBasesAndRecompute` with the state `closed`, the only one that is passed.
unfoldable pub close_derived : DecisionContext → GovernanceTables → GovernanceTables
close_derived c g = let g' = moot_appeals c g in recompute_all (affected c g') (close_bases c g')

abbrev pub end_active : DecisionContext → String → List MeasureRow → List MeasureRow
end_active c artifact rows =
    update_where (is_active_for artifact) (end_measure cleared c.now c.decision_id) rows

-- The root of a restriction of the artifact that this decision has ended.
abbrev pub shares_root : String → String → List MeasureRow → MeasureRow → Bool
shares_root artifact decision rows m =
    some_of
      (λ r.
        str_eq r.artifact_id artifact
        && ended_by decision r
        && has_root m.source_root_decision_id r)
      rows
    && is_active m.state

abbrev pub end_descendants : DecisionContext → String → List MeasureRow → List MeasureRow
end_descendants c artifact rows =
    update_where (shares_root artifact c.decision_id rows) (end_measure cleared c.now c.decision_id)
      rows

unfoldable pub apply_clear_restriction :
    DecisionContext → String → GovernanceTables → GovernanceTables
apply_clear_restriction c artifact g =
    close_derived c (record g {
      restrictions = end_descendants c artifact (end_active c artifact g.restrictions);
    })

unfoldable pub apply_clear_takedown : DecisionContext → String → GovernanceTables → GovernanceTables
apply_clear_takedown c artifact g =
    close_derived c (record g { takedowns = end_active c artifact g.takedowns })

abbrev pub is_appeal_of : String → AppealRow → Bool
is_appeal_of case_id a = str_eq a.case_id case_id && is_pending_appeal a.state

abbrev pub has_appeal_id : String → AppealRow → Bool
has_appeal_id id a = str_eq a.id id

abbrev pub is_active_from : String → MeasureRow → Bool
is_active_from decision m = has_source decision m && is_active m.state

abbrev pub is_active_root : String → BasisRow → Bool
is_active_root decision b = root_is decision b.source_root_decision_id && is_active b.state

abbrev pub reverse_measures : DecisionContext → String → GovernanceTables → GovernanceTables
reverse_measures c challenged g = record g {
  restrictions =
      update_where (is_active_from challenged) (end_measure reversed c.now c.decision_id)
        g.restrictions;
  takedowns =
      update_where (is_active_from challenged) (end_measure reversed c.now c.decision_id)
        g.takedowns;
  bases = update_where (is_active_root challenged) (end_basis reversed c.now c.decision_id) g.bases;
}

abbrev pub reverse_challenged : DecisionContext → String → GovernanceTables → GovernanceTables
reverse_challenged c challenged g =
    recompute_all
      (map (λ (m : MeasureRow). m.artifact_id)
        (select_where (is_active_from challenged) g.restrictions))
      (reverse_measures c challenged g)

abbrev pub close_appeal :
    DecisionContext → AppealState → AppealRow → GovernanceTables → GovernanceTables
close_appeal c state a g = record g {
  appeals = update_where (has_appeal_id a.id) (resolve_row state c.now c.decision_id) g.appeals;
  notifications = appeal_notice c.decision_id a ∷ g.notifications;
}

abbrev pub settle_appeal : DecisionContext → Bool → AppealRow → GovernanceTables → GovernanceTables
settle_appeal c true a g = reverse_challenged c a.decision_id (close_appeal c appeal_reversed a g)
settle_appeal c false a g = close_appeal c upheld a g

unfoldable pub resolve_appeal : DecisionContext → Bool → GovernanceTables → Outcome GovernanceTables
resolve_appeal c reverses g = do
  a ← found_or (find_where (is_appeal_of c.governance_case.id) g.appeals) invalid_decision
  done (settle_appeal c reverses a g)
