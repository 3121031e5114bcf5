-- ===== src/Gallery/Governance/Following.antt =====
-- governance.ts: what `applyDecision` does after the branch of the decision's kind: the listings of
-- the case's artifact get their review state again, and only featured rows and notifications are
-- written after that.
use share_slices.Base.{
  ◌↔◌, ◌⊎◌, false, [], ◌∷◌, eq_iff, subst, All, some_of, ||-eq-false, String, Bool, true, Option,
  none, some, List, ◌≡◌, refl, sym, ap, ◌∙◌, inl, inr, arith, Bool-cases, Option-cases, find_where,
  update_where, find_where-update_where,
}
use share_slices.Gallery.Listing.{
  pending, listed, clear, reviewing, restricted, GalleryReviewState, ListingRow, is_row, row_of,
}
use share_slices.Gallery.Governance.{
  MeasureRow, BasisRow, active, GovernanceDecisionKind, FeaturedRow, FeaturedEvent, NotificationRow,
  CaseRow, GovernanceTables, done,
}
use share_slices.Gallery.Governance.Measures.{
  is_active_for, is_basis_active_for, is_open_listing_of, set_review, review_state_for,
  recompute_artifact,
}
use share_slices.Gallery.Governance.Effects.{DecisionContext}
use share_slices.Gallery.Governance.Chain.{
  recompute_subject, is_featurable, features, unfeature, unfeature_row,
  remove_featured_if_ineligible, follow_up,
}
use share_slices.Gallery.Governance.Decisions.{
  DecideInput, Digests, Fresh, DecisionResponse, is_replay_of, has_case_id, decide,
}
use share_slices.Gallery.Governance.Committed.{context, decide_committed}

abbrev pub adorned :
    List FeaturedRow
    → List FeaturedEvent
    → List NotificationRow
    → GovernanceTables
    → GovernanceTables
adorned rows events notices g = record g {
  featured = rows;
  featured_audit = events;
  notifications = notices;
}

-- The tables are equal but for featured rows, their audit and notifications.
abbrev pub Adorns : GovernanceTables → GovernanceTables → Type 0
Adorns g g' =
    (rows : List FeaturedRow) × (events : List FeaturedEvent) × (notices : List NotificationRow)
    × (g' ≡ adorned rows events notices g)

unfeature_row-Adorns :
    (actor listing : String) (o : Option ListingRow) (g : GovernanceTables)
    → Adorns g (unfeature_row actor listing o g)
unfeature_row-Adorns actor listing none g = (g.featured, g.featured_audit, g.notifications, refl)
unfeature_row-Adorns actor listing (some l) g = elim (Bool-cases (is_featurable g l)) [
  | inl e ↦ (g.featured, g.featured_audit, g.notifications, rw e refl)
  | inr e ↦
      let taken = taken_out (find_where (features listing) g.featured) in
      (taken.0, taken.1, taken.2, rw e taken.3)
]
  where
    taken_out : (o : Option FeaturedRow) → Adorns g (unfeature actor listing o g)
    taken_out none = (g.featured, g.featured_audit, g.notifications, refl)
    taken_out (some f) = (
      (unfeature actor listing (some f) g).featured,
      (unfeature actor listing (some f) g).featured_audit,
      g.notifications,
      refl,
    )

eligible-Adorns :
    (actor : String) (o : Option String) (g : GovernanceTables)
    → Adorns g (remove_featured_if_ineligible actor o g)
eligible-Adorns actor none g = (g.featured, g.featured_audit, g.notifications, refl)
eligible-Adorns actor (some id) g = unfeature_row-Adorns actor id (row_of id g.listing_tables) g

pub follow_up-Adorns :
    (c : DecisionContext) (kind : GovernanceDecisionKind) (g : GovernanceTables)
    → Adorns (recompute_subject c.governance_case.artifact_id g) (follow_up c kind g)
follow_up-Adorns c kind g =
    let base = recompute_subject c.governance_case.artifact_id g in
    let (rows, events, notices, same) =
      eligible-Adorns c.actor_user_id c.governance_case.listing_id base in
    (
      rows,
      events,
      (follow_up c kind g).notifications,
      ap {A = GovernanceTables}
          (λ x. record x { notifications = (follow_up c kind g).notifications }) same,
    )

projected :
    (q : ListingRow → Bool) (state : GalleryReviewState) (l : String) (rows : List ListingRow)
    (r : ListingRow)
    → ((x : ListingRow) → q (set_review state x) ≡ q x)
    → find_where (is_row l) (update_where q (set_review state) rows) ≡ some r
    → q r ≡ true
    → r.review_state ≡ state
projected q state l rows r keeps here open_row = elim (Option-cases (find_where (is_row l) rows)) [
  | inl e ↦
      ground
        (arith, find_where-update_where (is_row l) q (set_review state) (λ x. refl) rows, e, here)
  | inr (x, e) ↦ ground (
    arith,
    find_where-update_where (is_row l) q (set_review state) (λ x. refl) rows,
    e,
    here,
    keeps x,
  )
]

recompute-projects :
    (artifact : String) (g : GovernanceTables) (l : String) (r : ListingRow)
    → row_of l (recompute_artifact artifact g).listing_tables ≡ some r
    → is_open_listing_of artifact r ≡ true
    → r.review_state ≡ review_state_for g artifact
unfolding recompute_artifact
recompute-projects artifact g l r here open_row =
    projected (is_open_listing_of artifact) (review_state_for g artifact) l
      g.listing_tables.listings r (λ x. refl) here open_row

subject-restrictions :
    (o : Option String) (g : GovernanceTables)
    → (recompute_subject o g).restrictions ≡ g.restrictions
unfolding recompute_artifact
subject-restrictions none g = refl
subject-restrictions (some a) g = refl

-- The projection itself changes nothing that it is computed from.
unaltered :
    (rows : List FeaturedRow) (events : List FeaturedEvent) (notices : List NotificationRow)
    (artifact : String) (g : GovernanceTables)
    → review_state_for (adorned rows events notices (recompute_artifact artifact g)) artifact
      ≡ review_state_for g artifact
unfolding review_state_for recompute_artifact
unaltered rows events notices artifact g = refl

decide_projects_lem :
    (h : Digests) (f : Fresh) (i : DecideInput) (g g' : GovernanceTables) (r : DecisionResponse)
    (k : CaseRow) (artifact l : String) (row : ListingRow)
    → decide h f i g ≡ (done r, g')
    → find_where (is_replay_of i.actor_user_id (h.key i.idempotency_key)) g.decisions ≡ none
    → find_where (has_case_id i.case_id) g.cases ≡ some k
    → k.artifact_id ≡ some artifact
    → row_of l g'.listing_tables ≡ some row
    → is_open_listing_of artifact row ≡ true
    → row.review_state ≡ review_state_for g' artifact
unfolding review_state_for
decide_projects_lem h f i g g' r k artifact l row e fresh found about here open_row =
    let (y, effect, ends) = decide_committed h f i g g' r k e fresh found in
    let (rows, events, notices, shape) = follow_up-Adorns (context f i k) i.kind y in
    let same : follow_up (context f i k) i.kind y
        ≡ adorned rows events notices (recompute_artifact artifact y) =
      shape ∙ ap (λ o. adorned rows events notices (recompute_subject o y)) about in
    recompute-projects artifact y l row
      (sym (ap (λ z. row_of l z.listing_tables) same)
        ∙ ap (λ z. row_of l z.listing_tables) ends
        ∙ here)
      open_row
    ∙ sym (
        sym (ap (λ z. review_state_for z artifact) ends)
        ∙ ap (λ z. review_state_for z artifact) same
        ∙ unaltered rows events notices artifact y)

-- A restriction or takedown, or a review basis, that is active on the artifact.
abbrev pub StandsOn : String → MeasureRow → Type 0
StandsOn artifact m = (m.artifact_id ≡ artifact) × (m.state ≡ active)

abbrev pub BasisStandsOn : String → BasisRow → Type 0
BasisStandsOn artifact b = (b.artifact_id ≡ artifact) × (b.state ≡ active)

abbrev pub NoneStands : String → List MeasureRow → Type 0
NoneStands artifact rows = All (λ m. ¬ StandsOn artifact m) rows

-- What the tables call for: each state with exactly the rows that ask for it.
pub data CalledFor (artifact : String) (g : GovernanceTables) : GalleryReviewState → Type 0 where
  calls_restricted : ¬ NoneStands artifact g.restrictions → CalledFor artifact g restricted
  calls_reviewing :
      NoneStands artifact g.restrictions
      → (¬ All (λ b. ¬ BasisStandsOn artifact b) g.bases) ⊎ (¬ NoneStands artifact g.takedowns)
      → CalledFor artifact g reviewing
  calls_clear :
      NoneStands artifact g.restrictions
      → All (λ b. ¬ BasisStandsOn artifact b) g.bases
      → NoneStands artifact g.takedowns
      → CalledFor artifact g clear

none_of-All {ℓ} :
    {A : Type ℓ} (p : A → Bool) (P : A → Type 0) (rows : List A)
    → ((r : A) → (p r ≡ true) ↔ P r)
    → (some_of p rows ≡ false) ↔ All (λ r. ¬ P r) rows
none_of-All p P [] agree = (λ e. tt, λ h. refl)
none_of-All p P (r ∷ rows) agree =
    let rest = none_of-All p P rows agree in
    (
      λ e. (
        λ h. cc ((agree r).1 h, (||-eq-false (p r) (some_of p rows) e).0),
        rest.0 (||-eq-false (p r) (some_of p rows) e).1,
      ),
      λ h. elim (Bool-cases (p r)) [
        | inl on ↦ absurd (h.0 ((agree r).0 on))
        | inr off ↦ ground (arith, off, rest.1 h.1)
      ],
    )

measure_stands :
    (artifact : String) (m : MeasureRow) → (is_active_for artifact m ≡ true) ↔ StandsOn artifact m
measure_stands artifact m = (
  λ e. ((eq_iff m.artifact_id artifact).0 (ground (arith, e)), ground (arith, e)),
  λ h. ground (arith, (eq_iff m.artifact_id artifact).1 h.0, h.1),
)

basis_stands :
    (artifact : String) (b : BasisRow)
    → (is_basis_active_for artifact b ≡ true) ↔ BasisStandsOn artifact b
basis_stands artifact b = (
  λ e. ((eq_iff b.artifact_id artifact).0 (ground (arith, e)), ground (arith, e)),
  λ h. ground (arith, (eq_iff b.artifact_id artifact).1 h.0, h.1),
)

review_state_for-CalledFor :
    (g : GovernanceTables) (artifact : String) → CalledFor artifact g (review_state_for g artifact)
unfolding review_state_for
review_state_for-CalledFor g artifact =
    let none_restricts =
      none_of-All (is_active_for artifact) (StandsOn artifact) g.restrictions
        (measure_stands artifact) in
    let none_bases =
      none_of-All (is_basis_active_for artifact) (BasisStandsOn artifact) g.bases
        (basis_stands artifact) in
    let none_takes =
      none_of-All (is_active_for artifact) (StandsOn artifact) g.takedowns
        (measure_stands artifact) in
    elim (Bool-cases (some_of (is_active_for artifact) g.restrictions)) [
      | inl on ↦ rw on (calls_restricted (λ h. cc (on, none_restricts.1 h)))
      | inr off ↦ elim (Bool-cases (some_of (is_basis_active_for artifact) g.bases)) [
        | inl on ↦
            rw (off, on)
              (calls_reviewing (none_restricts.0 off) (inl (λ h. cc (on, none_bases.1 h))))
        | inr no_basis ↦ elim (Bool-cases (some_of (is_active_for artifact) g.takedowns)) [
          | inl on ↦
              rw (off, no_basis, on)
                (calls_reviewing (none_restricts.0 off) (inr (λ h. cc (on, none_takes.1 h))))
          | inr no_takedown ↦
              rw (off, no_basis, no_takedown)
                (calls_clear (none_restricts.0 off) (none_bases.0 no_basis)
                  (none_takes.0 no_takedown))
        ]
      ]
    ]

-- After a decision on an artifact (one that was not made before under the same key), the review
-- state of every open listing of the artifact is the one that the tables call for: restricted
-- exactly if a restriction of the artifact is active, else reviewing exactly if a review basis or
-- a takedown is active, else clear.
pub decide_projects :
    (h : Digests) (f : Fresh) (i : DecideInput) (g g' : GovernanceTables) (r : DecisionResponse)
    (k : CaseRow) (artifact l : String) (row : ListingRow)
    → decide h f i g ≡ (done r, g')
    → find_where (is_replay_of i.actor_user_id (h.key i.idempotency_key)) g.decisions ≡ none
    → find_where (has_case_id i.case_id) g.cases ≡ some k
    → k.artifact_id ≡ some artifact
    → row_of l g'.listing_tables ≡ some row
    → row.artifact_id ≡ artifact
    → (row.lifecycle_state ≡ pending) ⊎ (row.lifecycle_state ≡ listed)
    → CalledFor artifact g' row.review_state
decide_projects h f i g g' r k artifact l row e fresh found about here own opened =
    let open_row : is_open_listing_of artifact row ≡ true =
      ground (arith, (eq_iff row.artifact_id artifact).1 own, opened) in
    subst (CalledFor artifact g')
      (sym (decide_projects_lem h f i g g' r k artifact l row e fresh found about here open_row))
      (review_state_for-CalledFor g' artifact)

-- What follows a decision changes no restriction.
pub follow_up-restrictions :
    (c : DecisionContext) (kind : GovernanceDecisionKind) (g : GovernanceTables)
    → (follow_up c kind g).restrictions ≡ g.restrictions
follow_up-restrictions c kind g =
    ap (λ z. z.restrictions) (follow_up-Adorns c kind g).3
    ∙ subject-restrictions c.governance_case.artifact_id g
