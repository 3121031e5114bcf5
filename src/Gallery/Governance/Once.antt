-- ===== src/Gallery/Governance/Once.antt =====
-- governance.ts: a case is decided once.
use share_slices.Base.{
  ℕ, String, false, none, some, List, [], ◌∷◌, ◌≡◌, refl, ap, subst, ◌∙◌, arith, find_where,
  update_where,
}
use share_slices.Gallery.Governance.{CaseRow, DecisionRow, GovernanceTables, done}
use share_slices.Gallery.Governance.Chain.{follow_up}
use share_slices.Gallery.Governance.Decisions.{
  DecideInput, Digests, Fresh, DecisionResponse, is_open_case, has_case_id, is_replay_of,
  decide_case_row, decide,
}
use share_slices.Gallery.Governance.Committed.{
  context, fingerprint, audited, Answers, replayed, committed, decide-Answers, decide_committed,
}

closed_for_good :
    (id : String) (k : CaseRow) (now : ℕ) (rows : List CaseRow)
    → find_where (has_case_id id) (update_where (has_case_id id) (decide_case_row now) rows)
      ≡ some k
    → is_open_case k.state ≡ false
closed_for_good id k now [] e = cc
closed_for_good id k now (x ∷ rows) e = ground (arith, closed_for_good id k now rows, e)

-- When a new decision has been made on a case, a further decision on the case is answered with
-- success only as the replay of a decision that was stored before under the same key and with the
-- same fingerprint; it then changes nothing but the audit log. There is no second decision.
pub decided_once :
    (h : Digests) (f f2 : Fresh) (i i2 : DecideInput) (g g' g2 : GovernanceTables)
    (r r2 : DecisionResponse) (k : CaseRow)
    → decide h f i g ≡ (done r, g')
    → find_where (is_replay_of i.actor_user_id (h.key i.idempotency_key)) g.decisions ≡ none
    → find_where (has_case_id i.case_id) g.cases ≡ some k
    → decide h f2 i2 g' ≡ (done r2, g2)
    → i2.case_id ≡ i.case_id
    → (d : DecisionRow) × (find_where
          (is_replay_of i2.actor_user_id (h.key i2.idempotency_key))
          g'.decisions
        ≡ some d)
      × (d.input_fingerprint ≡ fingerprint h i2)
      × (r2.decision_id ≡ d.id)
      × (g2 ≡ audited i2 g')
decided_once h f f2 i i2 g g' g2 r r2 k e fresh found e2 same =
    let (y, effect, ends) = decide_committed h f i g g' r k e fresh found in
    replays
      (λ k2 there. closed_for_good i.case_id k2 f.now (follow_up (context f i k) i.kind y).cases (
        ap (λ x. find_where (has_case_id i.case_id) x.cases) ends
        ∙ subst (λ x. find_where (has_case_id x) g'.cases ≡ some k2) same there))
      g2 (decide-Answers h f2 i2 g' g2 r2 e2).3
  where
    replays :
        ((k2 : CaseRow)
          → find_where (has_case_id i2.case_id) g'.cases ≡ some k2
          → is_open_case k2.state ≡ false)
        → (x : GovernanceTables) → Answers h f2 i2 g' r2.decision_id x
        → (d : DecisionRow) × (find_where
              (is_replay_of i2.actor_user_id (h.key i2.idempotency_key))
              g'.decisions
            ≡ some d)
          × (d.input_fingerprint ≡ fingerprint h i2)
          × (r2.decision_id ≡ d.id)
          × (x ≡ audited i2 g')
    replays closed x (replayed d there print named) = (d, there, print, named, refl)
    replays closed x (committed k2 y there opened allowed matches known effect named) =
        ground (arith, closed k2 there, opened)
