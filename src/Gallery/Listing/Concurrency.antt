-- ===== src/Gallery/Listing/Concurrency.antt =====
-- What a caller of `PostgresGalleryTransitionStore.transition` learns, and what it may rely on.
use mathlib.Core.Option
use share_slices.Base.{
  is_none, not, ◌&&◌, some_of, str_eq, ◌+◌, ◌≡◌, refl, ap, subst, ◌∙◌, ◌≢◌, ◌⊎◌, inl, inr, true,
  false, Option, none, some, ◌∷◌, arith, ◌==◌, Bool-cases, find_where, find_where-update_where,
  find_where_holds, find_where-update_where_self, ==_iff,
}
use share_slices.Gallery.Listing.{ListingRow, ListingTables, is_row, row_of, is_listed}
use share_slices.Gallery.Listing.Transitions.{
  GalleryListingState, GalleryTransitionCommand, TransitionCommit, GalleryTransitionDecision,
  commit, conflict, preserve_terminal_with_source_event, is_open, decide_gallery_transition,
}
use share_slices.Gallery.Listing.Store.{
  state_of, revision_conflict, terminal_state_preserved, PersistedGalleryTransition, committed,
  current_state, TransitionInput, event_of, next_state, write_commit, is_open_of, close_proposal,
  apply_commit, breaks_constraint, carry_out, transition_found, transition,
}

-- What the tables hold after a transition that answered `committed s'`.
pub record IsCommitted (i : TransitionInput) (t t' : ListingTables) (s' : GalleryListingState)
    : Type 0 where
  pub before : ListingRow
  pub read : row_of i.listing_id t ≡ some before
  pub expected : before.listing_revision ≡ i.expected_revision
  pub advanced : s'.listing_revision ≡ i.expected_revision + 1
  pub written : Option.map state_of (row_of i.listing_id t') ≡ some s'
  pub audited : t'.events ≡ event_of i (state_of before) s' ∷ t.events
  pub listed_committed : (is_listed s'.lifecycle && is_none before.current_revision_id) ≡ false
  pub alone :
      (is_open s'.lifecycle
        && some_of
            (λ other.
              str_eq other.artifact_id before.artifact_id
              && not (str_eq other.id before.id)
              && is_open other.lifecycle_state)
            t.listings)
      ≡ false
  pub withdrawn_proposals :
      is_open s'.lifecycle ≡ false → find_where (is_open_of i.listing_id) t'.proposals ≡ none

closing-closes :
    (s : GalleryListingState) (c : GalleryTransitionCommand) (d : TransitionCommit)
    → decide_gallery_transition s c ≡ commit d
    → is_open d.lifecycle ≡ false
    → d.close_proposals ≡ true
unfolding decide_gallery_transition
closing-closes s c d e h = ground arith

no_open_left :
    (i : TransitionInput) (s : GalleryListingState) (d : TransitionCommit) (t : ListingTables)
    → d.close_proposals ≡ true
    → find_where (is_open_of i.listing_id) (apply_commit i s d t).proposals ≡ none
unfolding apply_commit
no_open_left i s d t h = rw h (
    find_where-update_where_self (is_open_of i.listing_id) (close_proposal i.now) t.proposals
      (λ p. ground arith))

row-apply_commit :
    (i : TransitionInput) (d : TransitionCommit) (t : ListingTables) (r : ListingRow)
    → row_of i.listing_id t ≡ some r
    → row_of i.listing_id (apply_commit i (state_of r) d t)
      ≡ some (write_commit (state_of r) d i.now r)
unfolding apply_commit
row-apply_commit i d t r here = ground (
  arith,
  find_where-update_where (is_row i.listing_id) (is_row i.listing_id)
      (write_commit (state_of r) d i.now) (λ x. refl) t.listings,
  find_where_holds (is_row i.listing_id) t.listings r here,
)

commit-IsCommitted :
    (i : TransitionInput) (t : ListingTables) (r : ListingRow) (d : TransitionCommit)
    → row_of i.listing_id t ≡ some r
    → r.listing_revision ≡ i.expected_revision
    → decide_gallery_transition (state_of r) i.command ≡ commit d
    → breaks_constraint d r t ≡ false
    → IsCommitted i t (apply_commit i (state_of r) d t) (next_state (state_of r) d)
unfolding apply_commit breaks_constraint
commit-IsCommitted i t r d here current e allows = record {
  before = r;
  read = here;
  expected = current;
  advanced = ground arith;
  written = rw (row-apply_commit i d t r here) refl;
  audited = refl;
  listed_committed = ground (arith, allows);
  alone = ground (arith, allows);
  withdrawn_proposals =
      λ h. no_open_left i (state_of r) d t (closing-closes (state_of r) i.command d e h);
}

pub transition_answer :
    (i : TransitionInput) (t : ListingTables)
    → ((s' : GalleryListingState) × ((transition i t).0 ≡ committed s')
        × IsCommitted i t (transition i t).1 s')
      ⊎ ((s : GalleryListingState) × ((transition i t).0 ≡ current_state s terminal_state_preserved)
          × ((transition i t).1 ≡ record t { events = event_of i s s ∷ t.events }))
      ⊎ (((transition i t).1 ≡ t)
          × ((s' : GalleryListingState) → (transition i t).0 ≢ committed s'))
unfolding transition
transition_answer i t = by_row (row_of i.listing_id t) refl
  where
    Answers : PersistedGalleryTransition × ListingTables → Type 0
    Answers a =
        ((s' : GalleryListingState) × (a.0 ≡ committed s') × IsCommitted i t a.1 s')
        ⊎ ((s : GalleryListingState) × (a.0 ≡ current_state s terminal_state_preserved)
            × (a.1 ≡ record t { events = event_of i s s ∷ t.events }))
        ⊎ ((a.1 ≡ t) × ((s' : GalleryListingState) → a.0 ≢ committed s'))

    by_decision :
        (r : ListingRow) (d : GalleryTransitionDecision)
        → row_of i.listing_id t ≡ some r
        → r.listing_revision ≡ i.expected_revision
        → decide_gallery_transition (state_of r) i.command ≡ d
        → Answers (carry_out i r t d)
    by_decision r (conflict reason) here c e = inr (inr (refl, λ s' k. cc))
    by_decision r preserve_terminal_with_source_event here c e = inr (inl (state_of r, refl, refl))
    by_decision r (commit d) here c e = elim (Bool-cases (breaks_constraint d r t)) [
      | inl refuses ↦ rw refuses (inr (inr (refl, λ s' k. cc)))
      | inr allows ↦
          rw allows
            (inl (next_state (state_of r) d, refl, commit-IsCommitted i t r d here c e allows))
    ]

    by_row : (o : Option ListingRow) → row_of i.listing_id t ≡ o → Answers (transition_found i t o)
    by_row none here = inr (inr (refl, λ s' k. cc))
    by_row (some r) here = elim (Bool-cases (r.listing_revision == i.expected_revision)) [
      | inl current ↦ rw current (by_decision r _ here ((==_iff _ _).0 current) refl)
      | inr outdated ↦ rw outdated (inr (inr (refl, λ s' k. cc)))
    ]

committed-IsCommitted :
    (i : TransitionInput) (t : ListingTables) (s' : GalleryListingState)
    → (transition i t).0 ≡ committed s'
    → IsCommitted i t (transition i t).1 s'
committed-IsCommitted i t s' e = elim (transition_answer i t) [
  | inl (s, k, c) ↦ subst (IsCommitted i t (transition i t).1) (cc) c
  | inr (inl (s, k, c)) ↦ absurd (cc)
  | inr (inr (k, refuted)) ↦ absurd (refuted s' e)
]

outdated_conflict :
    (j : TransitionInput) (t : ListingTables) (r : ListingRow)
    → row_of j.listing_id t ≡ some r
    → r.listing_revision ≢ j.expected_revision
    → transition j t ≡ (current_state (state_of r) revision_conflict, t)
unfolding transition
outdated_conflict j t r here h = rw here (ground arith)

-- Of two callers that read the same revision of a listing, the one that comes second is told of a
-- revision conflict and shown the state that the first one committed; it changes nothing.
pub transition_race :
    (i j : TransitionInput) (t : ListingTables) (s' : GalleryListingState)
    → j.listing_id ≡ i.listing_id
    → j.expected_revision ≡ i.expected_revision
    → (transition i t).0 ≡ committed s'
    → transition j (transition i t).1 ≡ (current_state s' revision_conflict, (transition i t).1)
transition_race i j t s' same_listing same_revision e =
    let c = committed-IsCommitted i t s' e in
    let (r, here, same) = (Option.map-eq-some_iff _ _).0 c.written in
    outdated_conflict j (transition i t).1 r (rw same_listing here)
      (ground (arith, c.advanced, ap (λ (s : GalleryListingState). s.listing_revision) same))
    ∙ ap (λ (s : GalleryListingState). (current_state s revision_conflict, (transition i t).1)) same
