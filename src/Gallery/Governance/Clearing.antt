-- ===== src/Gallery/Governance/Clearing.antt =====
-- governance.ts: which restrictions are active after a restriction or a takedown was cleared.
use share_slices.Base.{
  ℕ, String, str_eq, eq_iff, Bool, true, false, ◌&&◌, none, some, List, [], ◌∷◌, ◌≡◌, refl, sym, ap,
  ◌∙◌, arith, some_of, find_where, update_where,
}
use share_slices.Gallery.Governance.{
  GovernanceDecisionKind, takedown, clear_restriction, clear_takedown, MeasureRow, cleared, CaseRow,
  GovernanceTables, done, is_active,
}
use share_slices.Gallery.Governance.Measures.{
  is_active_for, has_source, has_root, ended_by, end_measure, recompute_all, recompute_artifact,
}
use share_slices.Gallery.Governance.Effects.{DecisionContext}
use share_slices.Gallery.Governance.Reversals.{
  end_active, end_descendants, shares_root, close_derived, close_bases, affected, moot_appeals,
  apply_clear_restriction, apply_clear_takedown,
}
use share_slices.Gallery.Governance.Steps.{
  is_idle, Effect, nothing, dismisses, removes, restores, restricts, takes_down, clears_restriction,
  clears_takedown, upholds, reverses,
}
use share_slices.Gallery.Governance.Decisions.{
  DecideInput, Digests, Fresh, DecisionResponse, is_replay_of, has_case_id, decide,
}
use share_slices.Gallery.Governance.Committed.{context, recorded, decide_committed}
use share_slices.Gallery.Governance.Following.{follow_up-restrictions}
use share_slices.Gallery.Governance.Reach.{is_blocking, is_copied_from, reaches_copied}

abbrev pub is_active_with_root : String → MeasureRow → Bool
is_active_with_root root m = has_root root m && is_active m.state

end_active-none :
    (c : DecisionContext) (artifact : String) (rows : List MeasureRow)
    → some_of (is_active_for artifact) (end_active c artifact rows) ≡ false
end_active-none c artifact [] = refl
end_active-none c artifact (m ∷ rows) = ground (arith, end_active-none c artifact rows)

-- Ending rows makes none of them active.
ending-none :
    (q : MeasureRow → Bool) (now : ℕ) (d artifact : String) (rows : List MeasureRow)
    → some_of (is_active_for artifact) rows ≡ false
    → some_of (is_active_for artifact) (update_where q (end_measure cleared now d) rows) ≡ false
ending-none q now d artifact [] e = refl
ending-none q now d artifact (m ∷ rows) e = ground (arith, ending-none q now d artifact rows, e)

-- A row of the artifact that was active is ended by the decision, with its root.
ended-root :
    (c : DecisionContext) (artifact root : String) (rows : List MeasureRow)
    → some_of (λ m. is_active_for artifact m && has_root root m) rows ≡ true
    → some_of
        (λ r. str_eq r.artifact_id artifact && ended_by c.decision_id r && has_root root r)
        (end_active c artifact rows)
      ≡ true
ended-root c artifact root [] e = cc
ended-root c artifact root (m ∷ rows) e =
    ground (arith, ended-root c artifact root rows, e, eq_iff c.decision_id c.decision_id)

covered-none :
    (q : MeasureRow → Bool) (now : ℕ) (d root : String) (rows : List MeasureRow)
    → ((m : MeasureRow) → is_active_with_root root m ≡ true → q m ≡ true)
    → some_of (is_active_with_root root) (update_where q (end_measure cleared now d) rows) ≡ false
covered-none q now d root [] covers = refl
covered-none q now d root (m ∷ rows) covers =
    ground (arith, covers m, covered-none q now d root rows covers)

descendants-none :
    (c : DecisionContext) (artifact root : String) (rows : List MeasureRow)
    → some_of
        (λ r. str_eq r.artifact_id artifact && ended_by c.decision_id r && has_root root r)
        rows
      ≡ true
    → some_of (is_active_with_root root) (end_descendants c artifact rows) ≡ false
descendants-none c artifact root rows e =
    covered-none (shares_root artifact c.decision_id rows) c.now c.decision_id root rows
      (λ m active_root.
        let same : m.source_root_decision_id ≡ root =
          ground (arith, active_root, eq_iff m.source_root_decision_id root) in
        rw same (ground (arith, e, active_root)))

recompute_all-restrictions :
    (artifacts : List String) (g : GovernanceTables)
    → (recompute_all artifacts g).restrictions ≡ g.restrictions
unfolding recompute_all recompute_artifact
recompute_all-restrictions [] g = refl
recompute_all-restrictions (a ∷ rest) g = recompute_all-restrictions rest (recompute_artifact a g)

close_derived-restrictions :
    (c : DecisionContext) (g : GovernanceTables) → (close_derived c g).restrictions ≡ g.restrictions
unfolding close_derived
close_derived-restrictions c g =
    recompute_all-restrictions (affected c (moot_appeals c g)) (close_bases c (moot_appeals c g))

clear_restriction_busy :
    (c : DecisionContext) (kind : GovernanceDecisionKind)
    → kind ≡ clear_restriction
    → is_idle c kind ≡ true
    → c.governance_case.artifact_id ≡ none
clear_restriction_busy c kind is_kind idle = ground arith

clear_restriction-applied :
    (c : DecisionContext) (kind : GovernanceDecisionKind) (g g' : GovernanceTables)
    (artifact : String)
    → Effect c g kind g'
    → kind ≡ clear_restriction
    → c.governance_case.artifact_id ≡ some artifact
    → apply_clear_restriction c artifact g ≡ g'
clear_restriction-applied c kind g g' artifact (nothing idle) is_kind about =
    ground (arith, clear_restriction_busy c kind is_kind idle, about)
clear_restriction-applied c kind g g' artifact dismisses is_kind about = cc
clear_restriction-applied c kind g g' artifact (removes id found same) is_kind about = cc
clear_restriction-applied c kind g g' artifact (restores id l found free subject) is_kind about = cc
clear_restriction-applied c kind g g' artifact (restricts a rows inserted same) is_kind about = cc
clear_restriction-applied c kind g g' artifact (takes_down a rows inserted same) is_kind about = cc
clear_restriction-applied c kind g g' artifact (clears_restriction a same) is_kind about =
    ap (λ x. apply_clear_restriction c x g) (ground (arith, same, about))
clear_restriction-applied c kind g g' artifact (clears_takedown a same) is_kind about = cc
clear_restriction-applied c kind g g' artifact (upholds a found) is_kind about = cc
clear_restriction-applied c kind g g' artifact (reverses a found) is_kind about = cc

clear_takedown_busy :
    (c : DecisionContext) (kind : GovernanceDecisionKind)
    → kind ≡ clear_takedown
    → is_idle c kind ≡ true
    → c.governance_case.artifact_id ≡ none
clear_takedown_busy c kind is_kind idle = ground arith

clear_takedown-applied :
    (c : DecisionContext) (kind : GovernanceDecisionKind) (g g' : GovernanceTables)
    (artifact : String)
    → Effect c g kind g'
    → kind ≡ clear_takedown
    → c.governance_case.artifact_id ≡ some artifact
    → apply_clear_takedown c artifact g ≡ g'
clear_takedown-applied c kind g g' artifact (nothing idle) is_kind about =
    ground (arith, clear_takedown_busy c kind is_kind idle, about)
clear_takedown-applied c kind g g' artifact dismisses is_kind about = cc
clear_takedown-applied c kind g g' artifact (removes id found same) is_kind about = cc
clear_takedown-applied c kind g g' artifact (restores id l found free subject) is_kind about = cc
clear_takedown-applied c kind g g' artifact (restricts a rows inserted same) is_kind about = cc
clear_takedown-applied c kind g g' artifact (takes_down a rows inserted same) is_kind about = cc
clear_takedown-applied c kind g g' artifact (clears_restriction a same) is_kind about = cc
clear_takedown-applied c kind g g' artifact (clears_takedown a same) is_kind about =
    ap (λ x. apply_clear_takedown c x g) (ground (arith, same, about))
clear_takedown-applied c kind g g' artifact (upholds a found) is_kind about = cc
clear_takedown-applied c kind g g' artifact (reverses a found) is_kind about = cc

-- A new decision that clears the restrictions of an artifact leaves no active restriction of it,
-- and for every restriction of it that was active, no active restriction of any artifact with the
-- same root decision: it reaches the copies that were restricted with it.
pub decide_clears_restriction :
    (h : Digests) (f : Fresh) (i : DecideInput) (g g' : GovernanceTables) (r : DecisionResponse)
    (k : CaseRow) (artifact root : String)
    → decide h f i g ≡ (done r, g')
    → find_where (is_replay_of i.actor_user_id (h.key i.idempotency_key)) g.decisions ≡ none
    → find_where (has_case_id i.case_id) g.cases ≡ some k
    → i.kind ≡ clear_restriction
    → k.artifact_id ≡ some artifact
    → some_of (λ m. is_active_for artifact m && has_root root m) g.restrictions ≡ true
    → (some_of (is_active_for artifact) g'.restrictions ≡ false)
      × (some_of (is_active_with_root root) g'.restrictions ≡ false)
unfolding apply_clear_restriction
decide_clears_restriction h f i g g' r k artifact root e fresh found kind about restricted =
    let (y, effect, ends) = decide_committed h f i g g' r k e fresh found in
    let c = context f i k in
    let rows = end_active c artifact g.restrictions in
    let ended : List MeasureRow = end_descendants c artifact rows in
    let applied : apply_clear_restriction c artifact (recorded h f i k g) ≡ y =
      clear_restriction-applied c i.kind (recorded h f i k g) y artifact effect kind about in
    let same : g'.restrictions ≡ ended =
      sym (ap (λ x. x.restrictions) ends)
      ∙ follow_up-restrictions c i.kind y
      ∙ sym (ap (λ x. x.restrictions) applied)
      ∙ close_derived-restrictions c (record (recorded h f i k g) { restrictions = ended }) in
    (
      ap (some_of (is_active_for artifact)) same
          ∙ ending-none (shares_root artifact c.decision_id rows) c.now c.decision_id artifact rows
              (end_active-none c artifact g.restrictions),
      ap (some_of (is_active_with_root root)) same
          ∙ descendants-none c artifact root rows
              (ended-root c artifact root g.restrictions restricted),
    )

-- A new decision that clears a takedown changes no restriction.
clear_takedown-restrictions :
    (h : Digests) (f : Fresh) (i : DecideInput) (g g' : GovernanceTables) (r : DecisionResponse)
    (k : CaseRow) (artifact : String)
    → decide h f i g ≡ (done r, g')
    → find_where (is_replay_of i.actor_user_id (h.key i.idempotency_key)) g.decisions ≡ none
    → find_where (has_case_id i.case_id) g.cases ≡ some k
    → i.kind ≡ clear_takedown
    → k.artifact_id ≡ some artifact
    → g'.restrictions ≡ g.restrictions
unfolding apply_clear_takedown
clear_takedown-restrictions h f i g g' r k artifact e fresh found kind about =
    let (y, effect, ends) = decide_committed h f i g g' r k e fresh found in
    let c = context f i k in
    let before = recorded h f i k g in
    sym (ap (λ x. x.restrictions) ends)
    ∙ follow_up-restrictions c i.kind y
    ∙ sym (
        ap (λ x. x.restrictions)
          (clear_takedown-applied c i.kind before y artifact effect kind about))
    ∙ close_derived-restrictions c
        (record before { takedowns = end_active c artifact before.takedowns })

-- When an artifact is taken down, and a further decision clears the takedown, then every artifact
-- that had been copied from it still has an active restriction: clearing the takedown does not
-- reach the copies that the takedown restricted.
pub takedown_outlasts_clearing :
    (h : Digests) (f f2 : Fresh) (i i2 : DecideInput) (g g' g2 : GovernanceTables)
    (r r2 : DecisionResponse) (k k2 : CaseRow) (artifact copy : String)
    → decide h f i g ≡ (done r, g')
    → find_where (is_replay_of i.actor_user_id (h.key i.idempotency_key)) g.decisions ≡ none
    → find_where (has_case_id i.case_id) g.cases ≡ some k
    → i.kind ≡ takedown
    → k.artifact_id ≡ some artifact
    → some_of (has_source f.id) g.restrictions ≡ false
    → is_copied_from g artifact copy ≡ true
    → decide h f2 i2 g' ≡ (done r2, g2)
    → find_where (is_replay_of i2.actor_user_id (h.key i2.idempotency_key)) g'.decisions ≡ none
    → find_where (has_case_id i2.case_id) g'.cases ≡ some k2
    → i2.kind ≡ clear_takedown
    → k2.artifact_id ≡ some artifact
    → some_of (is_active_for copy) g2.restrictions ≡ true
takedown_outlasts_clearing h f f2 i i2 g g' g2 r r2 k k2 artifact copy e fresh found kind about
      unused among e2 fresh2 found2 kind2 about2 =
    ap (some_of (is_active_for copy))
      (clear_takedown-restrictions h f2 i2 g' g2 r2 k2 artifact e2 fresh2 found2 kind2 about2)
    ∙ reaches_copied h f i g g' r k artifact copy e fresh found (ap is_blocking kind) about unused
        among
