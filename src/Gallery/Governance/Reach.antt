-- ===== src/Gallery/Governance/Reach.antt =====
-- governance.ts: which restrictions are active after a decision, on the artifact and on its copies.
use share_slices.Base.{
  Option, ◌⊎◌, select_where, some_of-append, ℕ, String, str_eq, eq_iff, Text, Bool, true, false,
  not, ◌&&◌, ◌||◌, none, some, List, [], ◌∷◌, ◌≡◌, refl, sym, ap, subst, ◌∙◌, inl, inr, arith, map,
  Bool-cases, every, some_of, find_where,
}
use share_slices.Gallery.Listing.{ListingRow, RevisionRow, ListingTables, is_row, row_of}
use share_slices.Gallery.Governance.{
  ProvenanceRow, active, GovernanceDecisionKind, restrict, takedown, MeasureRow, CaseRow,
  GovernanceTables, done, is_active, database_error,
}
use share_slices.Gallery.Governance.Outcomes.{unless_done}
use share_slices.Gallery.Governance.Measures.{
  copies, copied_from, revision_of, is_for, is_active_for, has_source, new_measure, conflicts_with,
  insert_missing, copied_artifacts, propagate_restriction, close_blocked_proposals,
}
use share_slices.Gallery.Governance.Effects.{
  DecisionContext, with_restriction, with_takedown, block_artifact,
}
use share_slices.Gallery.Governance.Steps.{
  is_idle, Effect, nothing, dismisses, removes, restores, restricts, takes_down, clears_restriction,
  clears_takedown, upholds, reverses,
}
use share_slices.Gallery.Governance.Decisions.{
  DecideInput, Digests, Fresh, DecisionResponse, is_replay_of, has_case_id, decide,
}
use share_slices.Gallery.Governance.Committed.{context, recorded, decide_committed}
use share_slices.Gallery.Governance.Following.{follow_up-restrictions}

-- The rows of a source are all active.
abbrev pub is_sound : String → List MeasureRow → Bool
is_sound d rows = every (λ r. not (has_source d r) || is_active r.state) rows

-- A row that conflicts with a new one of the source is an active one of the same artifact.
conflict-active :
    (d : String) (m : MeasureRow) (rows : List MeasureRow)
    → m.source_decision_id ≡ d
    → is_sound d rows ≡ true
    → some_of (conflicts_with m) rows ≡ true
    → some_of (is_active_for m.artifact_id) rows ≡ true
conflict-active d m [] same sound e = cc
conflict-active d m (r ∷ rows) same sound e =
    ground (arith, conflict-active d m rows same, sound, e, same)

missing-keeps :
    (a : String) (ms rows : List MeasureRow)
    → some_of (is_active_for a) rows ≡ true
    → some_of (is_active_for a) (insert_missing ms rows) ≡ true
unfolding insert_missing
missing-keeps a [] rows e = e
missing-keeps a (m ∷ ms) rows e = elim (Bool-cases (some_of (conflicts_with m) rows)) [
  | inl k ↦ rw k (missing-keeps a ms rows e)
  | inr k ↦ rw k (missing-keeps a ms (m ∷ rows) (ground (arith, e)))
]

abbrev pub is_new_of : String → MeasureRow → Bool
is_new_of d m = has_source d m && is_active m.state

missing-reaches :
    (d copy : String) (ms rows : List MeasureRow)
    → every (is_new_of d) ms ≡ true
    → some_of (is_for copy) ms ≡ true
    → is_sound d rows ≡ true
    → some_of (is_active_for copy) (insert_missing ms rows) ≡ true
unfolding insert_missing
missing-reaches d copy [] rows fresh among sound = cc
missing-reaches d copy (m ∷ ms) rows fresh among sound =
    elim (Bool-cases (some_of (conflicts_with m) rows)) [
      | inl k ↦ rw k (elim (Bool-cases (is_for copy m)) [
        | inl here ↦ missing-keeps copy ms rows (
            ground (
              arith,
              here,
              conflict-active d m rows,
              fresh,
              sound,
              k,
              eq_iff m.artifact_id copy,
              eq_iff m.source_decision_id d,
            ))
        | inr other ↦
            missing-reaches d copy ms rows (ground (arith, fresh)) (ground (arith, among, other))
              sound
      ])
      | inr k ↦ rw k (elim (Bool-cases (is_for copy m)) [
        | inl here ↦ missing-keeps copy ms (m ∷ rows) (ground (arith, here, fresh))
        | inr other ↦
            missing-reaches d copy ms (m ∷ rows) (ground (arith, fresh))
              (ground (arith, among, other)) (ground (arith, fresh, sound))
      ])
    ]

measures_new :
    (d : String) (rule : Text) (artifacts : List String)
    → every (is_new_of d) (map (λ a. new_measure a d rule) artifacts) ≡ true
measures_new d rule [] = refl
measures_new d rule (a ∷ artifacts) = ground (arith, measures_new d rule artifacts, eq_iff d d)

measures_among :
    (d copy : String) (rule : Text) (artifacts : List String)
    → some_of (λ a. str_eq a copy) artifacts ≡ true
    → some_of (is_for copy) (map (λ a. new_measure a d rule) artifacts) ≡ true
measures_among d copy rule [] among = cc
measures_among d copy rule (a ∷ artifacts) among =
    ground (arith, measures_among d copy rule artifacts, among)

-- The artifacts that were copied from the current revisions of an artifact's listings.
abbrev pub is_copied_from : GovernanceTables → String → String → Bool
is_copied_from g artifact copy =
    some_of (λ a. str_eq a copy)
      (copied_artifacts g.listing_tables g.provenance artifact g.listing_tables.listings)

propagate-reaches :
    (artifact d copy : String) (rule : Text) (g : GovernanceTables)
    → is_sound d g.restrictions ≡ true
    → is_copied_from g artifact copy ≡ true
    → some_of (is_active_for copy) (propagate_restriction artifact d rule g).restrictions ≡ true
unfolding propagate_restriction
propagate-reaches artifact d copy rule g sound among =
    let artifacts =
      copied_artifacts g.listing_tables g.provenance artifact g.listing_tables.listings in
    missing-reaches d copy (map (λ a. new_measure a d rule) artifacts) g.restrictions
      (measures_new d rule artifacts) (measures_among d copy rule artifacts among) sound

propagate-keeps :
    (artifact d a : String) (rule : Text) (g : GovernanceTables)
    → some_of (is_active_for a) g.restrictions ≡ true
    → some_of (is_active_for a) (propagate_restriction artifact d rule g).restrictions ≡ true
unfolding propagate_restriction
propagate-keeps artifact d a rule g e =
    missing-keeps a
      (map (λ x. new_measure x d rule)
        (copied_artifacts g.listing_tables g.provenance artifact g.listing_tables.listings))
      g.restrictions e

-- A source without rows is sound.
unused_sound :
    (d : String) (rows : List MeasureRow)
    → some_of (has_source d) rows ≡ false
    → is_sound d rows ≡ true
unused_sound d [] e = refl
unused_sound d (r ∷ rows) e = ground (arith, unused_sound d rows, e)

close_blocked_proposals-restrictions :
    (now : ℕ) (event_id : String → String) (artifact d : String) (g : GovernanceTables)
    → (close_blocked_proposals now event_id artifact d g).restrictions ≡ g.restrictions
unfolding close_blocked_proposals
close_blocked_proposals-restrictions now event_id artifact d g = refl

blocked-reaches :
    (c : DecisionContext) (artifact copy : String) (g : GovernanceTables)
    → is_sound c.decision_id g.restrictions ≡ true
    → is_copied_from g artifact copy ≡ true
    → some_of (is_active_for copy) (block_artifact c artifact g).restrictions ≡ true
blocked-reaches c artifact copy g sound among =
    ap (some_of (is_active_for copy)) (
      close_blocked_proposals-restrictions c.now c.event_id artifact c.decision_id
        (propagate_restriction artifact c.decision_id c.rule_code g))
    ∙ propagate-reaches artifact c.decision_id copy c.rule_code g sound among

-- Whether a decision blocks the artifact and its copies.
abbrev pub is_blocking : GovernanceDecisionKind → Bool
is_blocking restrict = true
is_blocking takedown = true
is_blocking _ = false

idle_blocking :
    (c : DecisionContext) (kind : GovernanceDecisionKind)
    → is_idle c kind ≡ true
    → is_blocking kind ≡ true
    → c.governance_case.artifact_id ≡ none
idle_blocking c kind idle blocking = ground arith

Effect-reaches :
    (c : DecisionContext) (kind : GovernanceDecisionKind) (g g' : GovernanceTables)
    (artifact copy : String)
    → Effect c g kind g'
    → is_blocking kind ≡ true
    → c.governance_case.artifact_id ≡ some artifact
    → some_of (has_source c.decision_id) g.restrictions ≡ false
    → is_copied_from g artifact copy ≡ true
    → some_of (is_active_for copy) g'.restrictions ≡ true
Effect-reaches c kind g g' artifact copy (nothing idle) blocking about unused among =
    ground (arith, idle_blocking c kind idle blocking, about)
Effect-reaches c kind g g' artifact copy (restricts a rows inserted same) blocking about unused
      among =
    let new = new_measure a c.decision_id c.rule_code in
    let artifact_same : a ≡ artifact = ground (arith, same, about) in
    let inserts : new ∷ g.restrictions ≡ rows =
      (unless_done (some_of (conflicts_with new) g.restrictions) database_error
        (new ∷ g.restrictions) rows inserted).1 in
    blocked-reaches c a copy (with_restriction c a rows g)
      (subst (λ x. is_sound c.decision_id x ≡ true) inserts
        (ground (arith, unused_sound c.decision_id g.restrictions unused)))
      (subst (λ x. is_copied_from g x copy ≡ true) (sym artifact_same) among)
Effect-reaches c kind g g' artifact copy (takes_down a rows inserted same) blocking about unused
      among =
    let artifact_same : a ≡ artifact = ground (arith, same, about) in
    blocked-reaches c a copy (with_takedown c a rows g)
      (unused_sound c.decision_id g.restrictions unused)
      (subst (λ x. is_copied_from g x copy ≡ true) (sym artifact_same) among)
Effect-reaches c kind g g' artifact copy dismisses blocking about unused among = cc
Effect-reaches c kind g g' artifact copy (removes id found same) blocking about unused among = cc
Effect-reaches c kind g g' artifact copy (restores id l found free subject) blocking about unused
      among =
    cc
Effect-reaches c kind g g' artifact copy (clears_restriction a same) blocking about unused among =
    cc
Effect-reaches c kind g g' artifact copy (clears_takedown a same) blocking about unused among = cc
Effect-reaches c kind g g' artifact copy (upholds a found) blocking about unused among = cc
Effect-reaches c kind g g' artifact copy (reverses a found) blocking about unused among = cc

pub reaches_copied :
    (h : Digests) (f : Fresh) (i : DecideInput) (g g' : GovernanceTables) (r : DecisionResponse)
    (k : CaseRow) (artifact copy : String)
    → decide h f i g ≡ (done r, g')
    → find_where (is_replay_of i.actor_user_id (h.key i.idempotency_key)) g.decisions ≡ none
    → find_where (has_case_id i.case_id) g.cases ≡ some k
    → is_blocking i.kind ≡ true
    → k.artifact_id ≡ some artifact
    → some_of (has_source f.id) g.restrictions ≡ false
    → is_copied_from g artifact copy ≡ true
    → some_of (is_active_for copy) g'.restrictions ≡ true
reaches_copied h f i g g' r k artifact copy e fresh found blocking about unused among =
    let (y, effect, ends) = decide_committed h f i g g' r k e fresh found in
    ap (λ x. some_of (is_active_for copy) x.restrictions) (sym ends)
    ∙ ap (some_of (is_active_for copy)) (follow_up-restrictions (context f i k) i.kind y)
    ∙ Effect-reaches (context f i k) i.kind (recorded h f i k g) y artifact copy effect blocking
        about unused among

first_active :
    (copy : String) (rows : List MeasureRow)
    → some_of (is_active_for copy) rows ≡ true
    → (m : MeasureRow) × (find_where (is_active_for copy) rows ≡ some m)
      × (m.artifact_id ≡ copy)
      × (m.state ≡ active)
first_active copy [] e = cc
first_active copy (r ∷ rows) e = elim (Bool-cases (is_active_for copy r)) [
  | inl on ↦ (
    r,
    ground (arith, on),
    (eq_iff r.artifact_id copy).0 (ground (arith, on)),
    ground (arith, on),
  )
  | inr off ↦
      let (m, found, own, live) = first_active copy rows (ground (arith, off, e)) in
      (m, ground (arith, off, found), own, live)
]

-- The artifact `copy` was copied from the version of a current revision of one of the artifact's
-- listings: its provenance names that listing with that version, as its immediate source or as its
-- root.
pub record IsCopy (artifact copy : String) (g : GovernanceTables) : Type 0 where
  pub source : ListingRow
  pub revision : RevisionRow
  pub provenance : ProvenanceRow
  pub listing : row_of source.id g.listing_tables ≡ some source
  pub of_artifact : source.artifact_id ≡ artifact
  pub current : source.current_revision_id ≡ some revision.id
  pub revised :
      find_where (λ (v : RevisionRow). str_eq v.id revision.id) g.listing_tables.revisions
      ≡ some revision
  pub copied :
      find_where (λ (p : ProvenanceRow). str_eq p.artifact_id copy) g.provenance ≡ some provenance
  pub names :
      ((provenance.immediate_listing_id ≡ source.id)
        × (provenance.immediate_version_id ≡ revision.version_id))
      ⊎ ((provenance.root_listing_id ≡ source.id)
          × (provenance.root_version_id ≡ revision.version_id))

selected-among :
    (copy : String) (q : ProvenanceRow → Bool) (rows : List ProvenanceRow) (p : ProvenanceRow)
    → find_where (λ (r : ProvenanceRow). str_eq r.artifact_id copy) rows ≡ some p
    → q p ≡ true
    → some_of
        (λ a. str_eq a copy)
        (map (λ (r : ProvenanceRow). r.artifact_id) (select_where q rows))
      ≡ true
selected-among copy q [] p e on = cc
selected-among copy q (r ∷ rows) p e on =
    let rest = selected-among copy q rows p in
    elim (Bool-cases (str_eq r.artifact_id copy)) [
      | inl own ↦
          let row : ◌≡◌ {A = Option ProvenanceRow} (some r) (some p) = ground (arith, own, e) in
          let same : r ≡ p = cc (row) in ground (arith, ap q same, on, own)
      | inr other ↦ ground (arith, other, rest, e, on)
    ]

listed-among :
    (t : ListingTables) (provenance : List ProvenanceRow) (artifact copy : String)
    (rows : List ListingRow) (l : String) (source : ListingRow)
    → find_where (is_row l) rows ≡ some source
    → source.artifact_id ≡ artifact
    → some_of
        (λ a. str_eq a copy)
        (copied_from provenance source (revision_of t source.current_revision_id))
      ≡ true
    → some_of (λ a. str_eq a copy) (copied_artifacts t provenance artifact rows) ≡ true
unfolding copied_artifacts
listed-among t provenance artifact copy [] l source e own there = cc
listed-among t provenance artifact copy (r ∷ rows) l source e own there =
    let rest = listed-among t provenance artifact copy rows l source in
    let test : String → Bool = λ a. str_eq a copy in
    let mine = copied_from provenance r (revision_of t r.current_revision_id) in
    let others = copied_artifacts t provenance artifact rows in
    elim (Bool-cases (is_row l r)) [
      | inl match ↦
          let row : ◌≡◌ {A = Option ListingRow} (some r) (some source) = ground (arith, match, e) in
          let same : r ≡ source = cc (row) in
          let at : str_eq r.artifact_id artifact ≡ true =
            (eq_iff r.artifact_id artifact).1 (ap (λ (x : ListingRow). x.artifact_id) same ∙ own) in
          let found : some_of test mine ≡ true =
            subst
              (λ (x : ListingRow).
                some_of test (copied_from provenance x (revision_of t x.current_revision_id))
                ≡ true)
              (sym same) there in
          ground (arith, at, found, some_of-append test mine others)
      | inr other ↦
          let later : some_of test others ≡ true = rest (ground (arith, other, e)) own there in
          elim (Bool-cases (str_eq r.artifact_id artifact)) [
            | inl at ↦ ground (arith, at, later, some_of-append test mine others)
            | inr off ↦ ground (arith, off, later)
          ]
    ]

IsCopy-copied :
    (artifact copy : String) (g : GovernanceTables)
    → IsCopy artifact copy g
    → is_copied_from g artifact copy ≡ true
IsCopy-copied artifact copy g c =
    let matches : copies c.source.id c.revision.version_id c.provenance ≡ true = elim c.names [
      | inl (a, b) ↦ ground (
        arith,
        (eq_iff c.provenance.immediate_listing_id c.source.id).1 a,
        (eq_iff c.provenance.immediate_version_id c.revision.version_id).1 b,
      )
      | inr (a, b) ↦ ground (
        arith,
        (eq_iff c.provenance.root_listing_id c.source.id).1 a,
        (eq_iff c.provenance.root_version_id c.revision.version_id).1 b,
      )
    ] in
    let revision : revision_of g.listing_tables c.source.current_revision_id ≡ some c.revision =
      ap (revision_of g.listing_tables) c.current ∙ c.revised in
    let among =
      selected-among copy (copies c.source.id c.revision.version_id) g.provenance c.provenance
        c.copied matches in
    listed-among g.listing_tables g.provenance artifact copy g.listing_tables.listings c.source.id
      c.source c.listing c.of_artifact
      (subst (λ o. some_of (λ a. str_eq a copy) (copied_from g.provenance c.source o) ≡ true)
        (sym revision) among)

-- A new decision that restricts an artifact or takes it down, under an identifier that no
-- restriction names yet, leaves an active public-sharing restriction on every artifact that was
-- copied from the version of a current revision of one of the artifact's listings, whether its
-- provenance names the listing as the immediate source or as the root.
pub decide_reaches_copies :
    (h : Digests) (f : Fresh) (i : DecideInput) (g g' : GovernanceTables) (r : DecisionResponse)
    (k : CaseRow) (artifact copy : String)
    → decide h f i g ≡ (done r, g')
    → find_where (is_replay_of i.actor_user_id (h.key i.idempotency_key)) g.decisions ≡ none
    → find_where (has_case_id i.case_id) g.cases ≡ some k
    → (i.kind ≡ restrict) ⊎ (i.kind ≡ takedown)
    → k.artifact_id ≡ some artifact
    → some_of (has_source f.id) g.restrictions ≡ false
    → IsCopy artifact copy g
    → (m : MeasureRow) × (find_where (is_active_for copy) g'.restrictions ≡ some m)
      × (m.artifact_id ≡ copy)
      × (m.state ≡ active)
decide_reaches_copies h f i g g' r k artifact copy e fresh found blocking about unused c =
    let blocks : is_blocking i.kind ≡ true = ground (arith, blocking) in
    let reached =
      reaches_copied h f i g g' r k artifact copy e fresh found blocks about unused
        (IsCopy-copied artifact copy g c) in
    first_active copy g'.restrictions reached
