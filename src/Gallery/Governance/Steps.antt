-- ===== src/Gallery/Governance/Steps.antt =====
-- governance.ts: the ways in which `applyDecision` succeeds, as a step relation on the tables, by
-- the branches of its chain.
use share_slices.Base.{
  ◌≡◌, refl, subst, Bool, true, false, not, String, Option, none, some, List, find_where, is_some,
  is_none, some_of, ap, arith, ◌⊎◌, inl, inr,
}
use share_slices.Gallery.Listing.{ListingRow}
use share_slices.Gallery.Governance.{
  GovernanceDecisionKind, approve, reject, dismiss, remove, restore, restrict, clear_restriction,
  takedown, clear_takedown, uphold_appeal, reverse_appeal, MeasureRow, AppealRow, GovernanceTables,
  Outcome, done, ◌>>=◌, ensure, invalid_decision, database_error,
}
use share_slices.Gallery.Governance.Outcomes.{
  bind_done, found_done, done_injective, ensure_done, unless_done,
}
use share_slices.Gallery.Governance.Measures.{
  is_open_listing_of, new_measure, insert_restriction, insert_takedown,
}
use share_slices.Gallery.Governance.Effects.{
  DecisionContext, apply_dismiss, is_removable, without_listing, apply_remove, is_restorable,
  with_restored, apply_restore, with_restriction, with_takedown, block_artifact, apply_restrict,
  apply_takedown,
}
use share_slices.Gallery.Governance.Reversals.{
  apply_clear_restriction, apply_clear_takedown, is_appeal_of, settle_appeal, resolve_appeal,
}
use share_slices.Gallery.Governance.Chain.{with_subject, take_effect, follow_up, apply_decision}

-- No branch of the chain is taken: its kind has none, or its subject is missing.
abbrev pub is_idle : DecisionContext → GovernanceDecisionKind → Bool
is_idle c approve = true
is_idle c reject = true
is_idle c dismiss = false
is_idle c remove = is_none c.governance_case.listing_id
is_idle c restore = is_none c.governance_case.listing_id
is_idle c uphold_appeal = is_none c.governance_case.parent_case_id
is_idle c reverse_appeal = is_none c.governance_case.parent_case_id
is_idle c restrict = is_none c.governance_case.artifact_id
is_idle c clear_restriction = is_none c.governance_case.artifact_id
is_idle c takedown = is_none c.governance_case.artifact_id
is_idle c clear_takedown = is_none c.governance_case.artifact_id

pub data Effect (c : DecisionContext) (g : GovernanceTables)
    : GovernanceDecisionKind → GovernanceTables → Type 0 where
  nothing : {kind : GovernanceDecisionKind} → is_idle c kind ≡ true → Effect c g kind g
  dismisses : Effect c g dismiss (apply_dismiss c g)
  removes :
      (id : String)
      → is_some (find_where (is_removable id) g.listing_tables.listings) ≡ true
      → c.governance_case.listing_id ≡ some id
      → Effect c g remove (without_listing c id g)
  restores :
      (id : String) (l : ListingRow)
      → find_where (is_restorable g.listing_tables.listings id) g.listing_tables.listings ≡ some l
      → some_of (is_open_listing_of l.artifact_id) g.listing_tables.listings ≡ false
      → c.governance_case.listing_id ≡ some id
      → Effect c g restore (with_restored c id g)
  restricts :
      (artifact : String) (rows : List MeasureRow)
      → insert_restriction (new_measure artifact c.decision_id c.rule_code) g.restrictions
        ≡ done rows
      → c.governance_case.artifact_id ≡ some artifact
      → Effect c g restrict (block_artifact c artifact (with_restriction c artifact rows g))
  takes_down :
      (artifact : String) (rows : List MeasureRow)
      → insert_takedown (new_measure artifact c.decision_id c.rule_code) g.takedowns ≡ done rows
      → c.governance_case.artifact_id ≡ some artifact
      → Effect c g takedown (block_artifact c artifact (with_takedown c artifact rows g))
  clears_restriction :
      (artifact : String)
      → c.governance_case.artifact_id ≡ some artifact
      → Effect c g clear_restriction (apply_clear_restriction c artifact g)
  clears_takedown :
      (artifact : String)
      → c.governance_case.artifact_id ≡ some artifact
      → Effect c g clear_takedown (apply_clear_takedown c artifact g)
  upholds :
      (a : AppealRow)
      → find_where (is_appeal_of c.governance_case.id) g.appeals ≡ some a
      → Effect c g uphold_appeal (settle_appeal c false a g)
  reverses :
      (a : AppealRow)
      → find_where (is_appeal_of c.governance_case.id) g.appeals ≡ some a
      → Effect c g reverse_appeal (settle_appeal c true a g)

stays :
    (c : DecisionContext) (kind : GovernanceDecisionKind) (g g' : GovernanceTables)
    → is_idle c kind ≡ true
    → Outcome.done g ≡ done g'
    → Effect c g kind g'
stays c kind g g' idle e = subst (λ x. Effect c g kind x) (done_injective g g' e) (nothing idle)

remove-Effect :
    (c : DecisionContext) (id : String) (g g' : GovernanceTables)
    → c.governance_case.listing_id ≡ some id
    → apply_remove c id g ≡ done g'
    → Effect c g remove g'
remove-Effect c id g g' about e =
    let (found, same) =
      unless_done (not (is_some (find_where (is_removable id) g.listing_tables.listings)))
        invalid_decision (without_listing c id g) g' e in
    subst (λ x. Effect c g remove x) same (removes id (ground (arith, found)) about)

restore-Effect :
    (c : DecisionContext) (id : String) (g g' : GovernanceTables)
    → c.governance_case.listing_id ≡ some id
    → apply_restore c id g ≡ done g'
    → Effect c g restore g'
restore-Effect c id g g' about e =
    let rows = g.listing_tables.listings in
    let (l, found, rest) =
      found_done (find_where (is_restorable rows id) rows) invalid_decision
        (λ x.
          ensure (not (some_of (is_open_listing_of x.artifact_id) rows)) database_error
          >>= (λ _. done (with_restored c id g)))
        g' e in
    let (free, last) =
      ensure_done (not (some_of (is_open_listing_of l.artifact_id) rows)) database_error
        (λ _. done (with_restored c id g)) g' rest in
    subst (λ x. Effect c g restore x) (done_injective (with_restored c id g) g' last)
      (restores id l found (ground (arith, free)) about)

restrict-Effect :
    (c : DecisionContext) (artifact : String) (g g' : GovernanceTables)
    → c.governance_case.artifact_id ≡ some artifact
    → apply_restrict c artifact g ≡ done g'
    → Effect c g restrict g'
restrict-Effect c artifact g g' about e =
    let (rows, inserted, last) =
      bind_done (insert_restriction (new_measure artifact c.decision_id c.rule_code) g.restrictions)
        (λ rows. done (block_artifact c artifact (with_restriction c artifact rows g))) g' e in
    subst (λ x. Effect c g restrict x)
      (done_injective (block_artifact c artifact (with_restriction c artifact rows g)) g' last)
      (restricts artifact rows inserted about)

takedown-Effect :
    (c : DecisionContext) (artifact : String) (g g' : GovernanceTables)
    → c.governance_case.artifact_id ≡ some artifact
    → apply_takedown c artifact g ≡ done g'
    → Effect c g takedown g'
takedown-Effect c artifact g g' about e =
    let (rows, inserted, last) =
      bind_done (insert_takedown (new_measure artifact c.decision_id c.rule_code) g.takedowns)
        (λ rows. done (block_artifact c artifact (with_takedown c artifact rows g))) g' e in
    subst (λ x. Effect c g takedown x)
      (done_injective (block_artifact c artifact (with_takedown c artifact rows g)) g' last)
      (takes_down artifact rows inserted about)

settled :
    (c : DecisionContext) (b : Bool) (g g' : GovernanceTables)
    → resolve_appeal c b g ≡ done g'
    → (a : AppealRow) × (find_where (is_appeal_of c.governance_case.id) g.appeals ≡ some a)
      × (settle_appeal c b a g ≡ g')
unfolding resolve_appeal
settled c b g g' e =
    let (a, found, last) =
      found_done (find_where (is_appeal_of c.governance_case.id) g.appeals) invalid_decision
        (λ a. done (settle_appeal c b a g)) g' e in
    (a, found, done_injective (settle_appeal c b a g) g' last)

subject_done :
    (o : Option String) (effect : String → GovernanceTables → Outcome GovernanceTables)
    (g g' : GovernanceTables)
    → with_subject o effect g ≡ done g'
    → ((o ≡ none) × (Outcome.done g ≡ done g'))
      ⊎ ((id : String) × (o ≡ some id) × (effect id g ≡ done g'))
subject_done none effect g g' e = inl (refl, e)
subject_done (some id) effect g g' e = inr (id, refl, e)

pub take_effect-Effect :
    (c : DecisionContext) (kind : GovernanceDecisionKind) (g g' : GovernanceTables)
    → take_effect c kind g ≡ done g'
    → Effect c g kind g'
take_effect-Effect c dismiss g g' e =
    subst (λ x. Effect c g dismiss x) (done_injective (apply_dismiss c g) g' e) dismisses
take_effect-Effect c remove g g' e =
    elim (subject_done c.governance_case.listing_id (apply_remove c) g g' e) [
      | inl (absent, k) ↦ stays c remove g g' (ap is_none absent) k
      | inr (id, about, k) ↦ remove-Effect c id g g' about k
    ]
take_effect-Effect c restore g g' e =
    elim (subject_done c.governance_case.listing_id (apply_restore c) g g' e) [
      | inl (absent, k) ↦ stays c restore g g' (ap is_none absent) k
      | inr (id, about, k) ↦ restore-Effect c id g g' about k
    ]
take_effect-Effect c restrict g g' e =
    elim (subject_done c.governance_case.artifact_id (apply_restrict c) g g' e) [
      | inl (absent, k) ↦ stays c restrict g g' (ap is_none absent) k
      | inr (id, about, k) ↦ restrict-Effect c id g g' about k
    ]
take_effect-Effect c clear_restriction g g' e =
    elim (subject_done c.governance_case.artifact_id (λ a x. done (apply_clear_restriction c a x)) g
      g' e) [
        | inl (absent, k) ↦ stays c clear_restriction g g' (ap is_none absent) k
        | inr (id, about, k) ↦
            subst (λ x. Effect c g clear_restriction x)
              (done_injective (apply_clear_restriction c id g) g' k) (clears_restriction id about)
      ]
take_effect-Effect c takedown g g' e =
    elim (subject_done c.governance_case.artifact_id (apply_takedown c) g g' e) [
      | inl (absent, k) ↦ stays c takedown g g' (ap is_none absent) k
      | inr (id, about, k) ↦ takedown-Effect c id g g' about k
    ]
take_effect-Effect c clear_takedown g g' e =
    elim (subject_done c.governance_case.artifact_id (λ a x. done (apply_clear_takedown c a x)) g g'
      e) [
        | inl (absent, k) ↦ stays c clear_takedown g g' (ap is_none absent) k
        | inr (id, about, k) ↦
            subst (λ x. Effect c g clear_takedown x)
              (done_injective (apply_clear_takedown c id g) g' k) (clears_takedown id about)
      ]
take_effect-Effect c uphold_appeal g g' e =
    elim (subject_done c.governance_case.parent_case_id (λ parent. resolve_appeal c false) g g' e) [
      | inl (absent, k) ↦ stays c uphold_appeal g g' (ap is_none absent) k
      | inr (id, about, k) ↦
          let (a, found, same) = settled c false g g' k in
          subst (λ x. Effect c g uphold_appeal x) same (upholds a found)
    ]
take_effect-Effect c reverse_appeal g g' e =
    elim (subject_done c.governance_case.parent_case_id (λ parent. resolve_appeal c true) g g' e) [
      | inl (absent, k) ↦ stays c reverse_appeal g g' (ap is_none absent) k
      | inr (id, about, k) ↦
          let (a, found, same) = settled c true g g' k in
          subst (λ x. Effect c g reverse_appeal x) same (reverses a found)
    ]
take_effect-Effect c approve g g' e = stays c approve g g' refl e
take_effect-Effect c reject g g' e = stays c reject g g' refl e

-- `applyDecision` is one of these steps and what it does after every one of them.
pub apply_decision-Effect :
    (c : DecisionContext) (kind : GovernanceDecisionKind) (g g' : GovernanceTables)
    → apply_decision c kind g ≡ done g'
    → (h : GovernanceTables) × Effect c g kind h × (follow_up c kind h ≡ g')
unfolding apply_decision
apply_decision-Effect c kind g g' e =
    let (h, taken, last) = bind_done (take_effect c kind g) (λ x. done (follow_up c kind x)) g' e in
    (h, take_effect-Effect c kind g h taken, done_injective (follow_up c kind h) g' last)
