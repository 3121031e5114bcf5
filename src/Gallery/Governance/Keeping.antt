-- ===== src/Gallery/Governance/Keeping.antt =====
-- governance.ts: what every decision keeps of the listing rows. A property of rows that the four
-- row writes of `applyDecision` keep is kept by `decide`.
use mathlib.Core.Option
use share_slices.Base.{
  ℕ, String, ◌≡◌, refl, sym, ap, subst, ◌∙◌, inl, inr, Bool, true, Option, none, some, List, [],
  ◌∷◌, arith, if◌then◌else◌, map, Bool-cases, find_where, select_where, update_where,
  find_where-update_where, Text,
}
use share_slices.Gallery.Listing.{
  GalleryReviewState, ListingRow, is_row, row_of, is_listed, is_removed, is_pending,
  is_administrator_removal,
}
use share_slices.Gallery.Listing.Transitions.{is_open}
use share_slices.Gallery.Governance.{
  GovernanceDecisionKind, MeasureRow, GovernanceTables, Outcome, failed, done, appeal_reversed,
}
use share_slices.Gallery.Governance.Steps.{
  Effect, nothing, dismisses, removes, restores, restricts, takes_down, clears_restriction,
  clears_takedown, upholds, reverses,
}
use share_slices.Gallery.Governance.Decisions.{
  DecideInput, Digests, Fresh, DecisionResponse, decide,
}
use share_slices.Gallery.Governance.Committed.{
  context, recorded, Answers, replayed, committed, decide-Answers, decide_failed,
}
use share_slices.Gallery.Governance.Following.{follow_up-Adorns}
use share_slices.Gallery.Governance.Measures.{
  restrict_row, block_initial, set_review, is_initial_of, is_open_listing_of, propagate_restriction,
  close_blocked_proposals, recompute_artifact, recompute_all, review_state_for,
}
use share_slices.Gallery.Governance.Effects.{
  DecisionContext, remove_listing, is_removable, restore_listing, is_restorable, block_artifact,
  with_restriction, with_takedown,
}
use share_slices.Gallery.Governance.Reversals.{
  close_derived, apply_clear_restriction, apply_clear_takedown, reverse_challenged, close_bases,
  affected, reverse_measures, close_appeal, end_active, end_descendants, is_active_from,
  moot_appeals,
}
use share_slices.Gallery.Governance.Chain.{recompute_subject, follow_up}

-- Every listing with the property is found afterwards, and has it.
abbrev pub Keeps : (ListingRow → Type 0) → GovernanceTables → GovernanceTables → Type 0
Keeps P g g' =
    (l : String) (r : ListingRow)
    → row_of l g.listing_tables ≡ some r
    → P r
    → (r' : ListingRow) × (row_of l g'.listing_tables ≡ some r') × P r'

pub Keeps-trans :
    (P : ListingRow → Type 0) (f g h : GovernanceTables) → Keeps P f g → Keeps P g h → Keeps P f h
Keeps-trans P f g h first second l r here p =
    let (r', there, p') = first l r here p in second l r' there p'

pub written_here :
    (P : ListingRow → Type 0) (q : ListingRow → Bool) (f : ListingRow → ListingRow) (l : String)
    (rows : List ListingRow) (r : ListingRow)
    → ((x : ListingRow) → is_row l (f x) ≡ is_row l x)
    → (q r ≡ true → P (f r))
    → find_where (is_row l) rows ≡ some r
    → P r
    → (r' : ListingRow) × (find_where (is_row l) (update_where q f rows) ≡ some r') × P r'
written_here P q f l rows r same keeps here p =
    let there : find_where (is_row l) (update_where q f rows) ≡ some (if q r then f r else r) =
      find_where-update_where (is_row l) q f same rows
      ∙ ap (Option.map (λ x. if q x then f x else x)) here in
    elim (Bool-cases (q r)) [
      | inl e ↦ (f r, there ∙ rw e refl, keeps e)
      | inr e ↦ (r, there ∙ rw e refl, p)
    ]

written :
    (P : ListingRow → Type 0) (q : ListingRow → Bool) (f : ListingRow → ListingRow) (l : String)
    (rows : List ListingRow) (r : ListingRow)
    → ((x : ListingRow) → is_row l (f x) ≡ is_row l x)
    → ((x : ListingRow) → q x ≡ true → P x → P (f x))
    → find_where (is_row l) rows ≡ some r
    → P r
    → (r' : ListingRow) × (find_where (is_row l) (update_where q f rows) ≡ some r') × P r'
written P q f l rows r same keeps here p =
    written_here P q f l rows r same (λ e. keeps r e p) here p

module _ (P : ListingRow → Type 0)
    (removes_row : (now : ℕ) (r : ListingRow)
      → is_listed r.lifecycle_state ≡ true
      → P r
      → P (remove_listing now r))
    (restores_row : (r : ListingRow)
      → is_removed r.lifecycle_state ≡ true
      → is_administrator_removal r.closure_reason ≡ true
      → P r
      → P (restore_listing r))
    (blocks : (now : ℕ) (r : ListingRow)
      → is_pending r.lifecycle_state ≡ true
      → P r
      → P (block_initial now r))
    (reviews : (state : GalleryReviewState) (r : ListingRow)
      → is_open r.lifecycle_state ≡ true
      → P r
      → P (set_review state r)) where
  recompute_artifact-Keeps :
      (artifact : String) (g : GovernanceTables) → Keeps P g (recompute_artifact artifact g)
  unfolding recompute_artifact
  recompute_artifact-Keeps artifact g l r here p =
      written P (is_open_listing_of artifact) (set_review (review_state_for g artifact)) l
        g.listing_tables.listings r (λ x. refl)
        (λ x e k. reviews (review_state_for g artifact) x (ground arith) k) here p

  recompute_all-Keeps :
      (artifacts : List String) (g : GovernanceTables) → Keeps P g (recompute_all artifacts g)
  unfolding recompute_all
  recompute_all-Keeps [] g = λ l r here p. (r, here, p)
  recompute_all-Keeps (a ∷ rest) g =
      Keeps-trans P g (recompute_artifact a g) (recompute_all rest (recompute_artifact a g))
        (recompute_artifact-Keeps a g) (recompute_all-Keeps rest (recompute_artifact a g))

  propagate_restriction-Keeps :
      (artifact decision : String) (rule : Text) (g : GovernanceTables)
      → Keeps P g (propagate_restriction artifact decision rule g)
  unfolding propagate_restriction
  propagate_restriction-Keeps artifact decision rule g l r here p =
      written P _ restrict_row l g.listing_tables.listings r (λ x. refl)
        (λ x e k. reviews GalleryReviewState.restricted x (ground (arith, e)) k) here p

  close_blocked_proposals-Keeps :
      (now : ℕ) (event_id : String → String) (artifact decision : String) (g : GovernanceTables)
      → Keeps P g (close_blocked_proposals now event_id artifact decision g)
  unfolding close_blocked_proposals
  close_blocked_proposals-Keeps now event_id artifact decision g l r here p =
      written P (is_initial_of artifact) (block_initial now) l g.listing_tables.listings r
        (λ x. refl) (λ x e k. blocks now x (ground (arith, e)) k) here p

  block_artifact-Keeps :
      (c : DecisionContext) (artifact : String) (g : GovernanceTables)
      → Keeps P g (block_artifact c artifact g)
  block_artifact-Keeps c artifact g =
      Keeps-trans P g (propagate_restriction artifact c.decision_id c.rule_code g)
        (block_artifact c artifact g)
        (propagate_restriction-Keeps artifact c.decision_id c.rule_code g)
        (close_blocked_proposals-Keeps c.now c.event_id artifact c.decision_id
          (propagate_restriction artifact c.decision_id c.rule_code g))

  close_derived-Keeps : (c : DecisionContext) (g : GovernanceTables) → Keeps P g (close_derived c g)
  unfolding close_derived
  close_derived-Keeps c g l r here p =
      recompute_all-Keeps (affected c (moot_appeals c g)) (close_bases c (moot_appeals c g)) l r
        here p

  reverse_challenged-Keeps :
      (c : DecisionContext) (d : String) (g : GovernanceTables)
      → Keeps P g (reverse_challenged c d g)
  reverse_challenged-Keeps c d g =
      recompute_all-Keeps
        (map (λ (m : MeasureRow). m.artifact_id) (select_where (is_active_from d) g.restrictions))
        (reverse_measures c d g)

  Effect-Keeps :
      (c : DecisionContext) (kind : GovernanceDecisionKind) (g g' : GovernanceTables)
      → Effect c g kind g'
      → Keeps P g g'
  unfolding apply_clear_restriction apply_clear_takedown
  Effect-Keeps c kind g g' (nothing idle) = λ l r here p. (r, here, p)
  Effect-Keeps c kind g g' dismisses = λ l r here p. (r, here, p)
  Effect-Keeps c kind g g' (removes id found about) = λ l r here p.
      written P (is_removable id) (remove_listing c.now) l g.listing_tables.listings r (λ x. refl)
        (λ x q z. removes_row c.now x (ground (arith, q)) z) here p
  Effect-Keeps c kind g g' (restores id x found free subject) = λ l r here p.
      written P (is_restorable g.listing_tables.listings id) restore_listing l
        g.listing_tables.listings r (λ x. refl)
        (λ x q z. restores_row x (ground (arith, q)) (ground (arith, q)) z) here p
  Effect-Keeps c kind g g' (restricts artifact rows inserted about) =
      block_artifact-Keeps c artifact (with_restriction c artifact rows g)
  Effect-Keeps c kind g g' (takes_down artifact rows inserted about) =
      block_artifact-Keeps c artifact (with_takedown c artifact rows g)
  Effect-Keeps c kind g g' (clears_restriction artifact about) = close_derived-Keeps c (record g {
    restrictions = end_descendants c artifact (end_active c artifact g.restrictions);
  })
  Effect-Keeps c kind g g' (clears_takedown artifact about) =
      close_derived-Keeps c (record g { takedowns = end_active c artifact g.takedowns })
  Effect-Keeps c kind g g' (upholds a found) = λ l r here p. (r, here, p)
  Effect-Keeps c kind g g' (reverses a found) =
      reverse_challenged-Keeps c a.decision_id (close_appeal c appeal_reversed a g)

  recompute_subject-Keeps :
      (o : Option String) (g : GovernanceTables) → Keeps P g (recompute_subject o g)
  recompute_subject-Keeps none g = λ l r here p. (r, here, p)
  recompute_subject-Keeps (some artifact) g = recompute_artifact-Keeps artifact g

  follow_up-Keeps :
      (c : DecisionContext) (kind : GovernanceDecisionKind) (g : GovernanceTables)
      → Keeps P g (follow_up c kind g)
  follow_up-Keeps c kind g l r here p =
      let (r', there, p') = recompute_subject-Keeps c.governance_case.artifact_id g l r here p in
      (r', ap (λ x. row_of l x.listing_tables) (follow_up-Adorns c kind g).3 ∙ there, p')

  Answers-Keeps :
      (h : Digests) (f : Fresh) (i : DecideInput) (g g' : GovernanceTables) (answer : String)
      → Answers h f i g answer g'
      → Keeps P g g'
  Answers-Keeps h f i g g' answer (replayed d found same named) = λ l r here p. (r, here, p)
  Answers-Keeps h f i g g' answer
        (committed k applied found opened allowed matches known effect named) =
      λ l r here p.
        let (r', there, p') =
          Effect-Keeps (context f i k) i.kind (recorded h f i k g) applied effect l r here p in
        follow_up-Keeps (context f i k) i.kind applied l r' there p'

  -- A property of listing rows that the four row writes keep is kept by `decide`, whatever it
  -- answers.
  pub decide-Keeps :
      (h : Digests) (f : Fresh) (i : DecideInput) (g : GovernanceTables)
      → Keeps P g (decide h f i g).1
  decide-Keeps h f i g = by_answer (decide h f i g) refl
    where
      by_answer :
          (answer : Outcome DecisionResponse × GovernanceTables)
          → decide h f i g ≡ answer
          → Keeps P g answer.1
      by_answer (failed code, g') e =
          subst (λ x. Keeps P g x) (sym (decide_failed h f i g g' code e))
            (λ l r here p. (r, here, p))
      by_answer (done r, g') e =
          Answers-Keeps h f i g g' r.decision_id (decide-Answers h f i g g' r e).3
