-- ===== src/Gallery/Listing/Rows.antt =====
-- Each call seen from one row of the listing table: it stays, or makes one of four moves.
use mathlib.Core.Option
use share_slices.Base.{
  ℕ, ◌+◌, String, str_eq, eq_iff, ◌≡◌, refl, sym, ap, subst, ◌⊎◌, inl, inr, Bool, true, false,
  Option, none, some, List, [], ◌∷◌, arith, ◌==◌, if◌then◌else◌, Bool-cases, find_where,
  update_where, find_where-update_where, find_where_holds,
}
use share_slices.Gallery.Listing.{
  GalleryClosureReason, ListingRow, ProposalRow, ListingTables, is_row, row_of,
}
use share_slices.Gallery.Listing.Transitions.{
  GalleryTransitionCommand, TransitionCommit, GalleryTransitionDecision, commit, conflict,
  preserve_terminal_with_source_event, is_open, decide_gallery_transition,
}
use share_slices.Gallery.Listing.Store.{
  state_of, TransitionInput, write_commit, breaks_listed_revision, breaks_constraint, apply_commit,
  carry_out, transition_found, transition,
}
use share_slices.Gallery.Listing.Promotion.{
  ProposalContext, ProposalResolution, ProposalDecision, close_initial, close_update, promote,
  base_revision_mismatch, GovernanceFlags, ResolveInput, remove_row, list_row, context_of,
  decide_proposal_resolution, apply_promotion, settle_proposal, resolve_joined, listing_of, resolve,
}
use share_slices.Gallery.Listing.Closure.{
  closes_with_account, withdraw_row, closed_tables, close_account,
}
use share_slices.Gallery.Listing.Calls.{
  ListingCall, transitions, resolves, closes_account, step, run,
}

pub data Move (r : ListingRow) : ListingRow → Type 0 where
  stays : Move r r
  decided :
      (c : GalleryTransitionCommand) (d : TransitionCommit) (now : ℕ)
      → decide_gallery_transition (state_of r) c ≡ commit d
      → breaks_listed_revision (state_of r) d ≡ false
      → Move r (write_commit (state_of r) d now r)
  promotes :
      (revision_id : String)
      → is_open r.lifecycle_state ≡ true
      → Move r (list_row revision_id (r.listing_revision + 1) r)
  rejects :
      (reason : GalleryClosureReason) (now : ℕ)
      → is_open r.lifecycle_state ≡ true
      → r.current_revision_id ≡ none
      → (reason ≡ GalleryClosureReason.initial_policy_rejection)
        ⊎ (reason ≡ GalleryClosureReason.initial_governance_block)
      → Move r (remove_row reason now r)
  loses_account :
      (user : String) (now : ℕ) → closes_with_account user r ≡ true → Move r (withdraw_row now r)

abbrev pub Moved : ListingRow → Option ListingRow → Type 0
Moved r o = (r' : ListingRow) × (o ≡ some r') × Move r r'

-- A write to the row `k` is a move of the row `l`, if it is one of the row that is written.
write-Moved :
    (l k : String) (f : ListingRow → ListingRow) (rows : List ListingRow) (r s : ListingRow)
    → ((x : ListingRow) → (f x).id ≡ x.id)
    → find_where (is_row l) rows ≡ some r
    → find_where (is_row k) rows ≡ some s
    → Move s (f s)
    → Moved r (find_where (is_row l) (update_where (is_row k) f rows))
write-Moved l k f rows r s keep here there m = elim (Bool-cases (str_eq r.id k)) [
  | inr other ↦ (r, rw updated (ground arith), stays)
  | inl same ↦ (f s, rw updated (ground (arith, one same)), subst (λ x. Move x (f s)) (one same) m)
]
  where
    updated :
        find_where (is_row l) (update_where (is_row k) f rows)
        ≡ Option.map (λ x. if is_row k x then f x else x) (find_where (is_row l) rows)
    updated =
        find_where-update_where (is_row l) (is_row k) f (λ x. ap (λ id. str_eq id l) (keep x)) rows

    at_l : r.id ≡ l
    at_l = (eq_iff r.id l).0 (find_where_holds (is_row l) rows r here)

    one : str_eq r.id k ≡ true → s ≡ r
    one same = ground (arith, at_l, (eq_iff r.id k).0 same)

unrefused :
    (d : TransitionCommit) (s : ListingRow) (t : ListingTables)
    → breaks_constraint d s t ≡ false
    → breaks_listed_revision (state_of s) d ≡ false
unfolding breaks_constraint
unrefused d s t e = ground (arith, e)

pub transition-Moved :
    (i : TransitionInput) (t : ListingTables) (l : String) (r : ListingRow)
    → row_of l t ≡ some r
    → Moved r (row_of l (transition i t).1)
unfolding transition apply_commit
transition-Moved i t l r here = by_row (row_of i.listing_id t) refl
  where
    by_decision :
        (s : ListingRow) (d : GalleryTransitionDecision)
        → row_of i.listing_id t ≡ some s
        → decide_gallery_transition (state_of s) i.command ≡ d
        → Moved r (row_of l (carry_out i s t d).1)
    by_decision s (conflict reason) there e = (r, here, stays)
    by_decision s preserve_terminal_with_source_event there e = (r, here, stays)
    by_decision s (commit d) there e = elim (Bool-cases (breaks_constraint d s t)) [
      | inl refuses ↦ rw refuses (r, here, stays)
      | inr allows ↦ rw allows (
          write-Moved l i.listing_id (write_commit (state_of s) d i.now) t.listings r s (λ x. refl)
            here there (decided i.command d i.now e (unrefused d s t allows)))
    ]

    by_row :
        (o : Option ListingRow)
        → row_of i.listing_id t ≡ o
        → Moved r (row_of l (transition_found i t o).1)
    by_row none there = (r, here, stays)
    by_row (some s) there = elim (Bool-cases (s.listing_revision == i.expected_revision)) [
      | inl current ↦ rw current (by_decision s _ there refl)
      | inr outdated ↦ rw outdated (r, here, stays)
    ]

promote_open :
    (c : ProposalContext) (z : ProposalResolution) (initial : Bool)
    → decide_proposal_resolution c z ≡ promote initial
    → is_open c.listing_lifecycle ≡ true
unfolding decide_proposal_resolution
promote_open c z initial e = ground arith

close_initial_open :
    (c : ProposalContext) (z : ProposalResolution) (reason : GalleryClosureReason)
    → decide_proposal_resolution c z ≡ close_initial reason
    → (is_open c.listing_lifecycle ≡ true)
      × (c.current_revision_id ≡ none)
      × ((reason ≡ GalleryClosureReason.initial_policy_rejection)
          ⊎ (reason ≡ GalleryClosureReason.initial_governance_block))
unfolding decide_proposal_resolution
close_initial_open c z reason e = ground arith

module _ (g : GovernanceFlags) (i : ResolveInput) (t : ListingTables) (l : String) (r : ListingRow)
    (here : row_of l t ≡ some r) where
  settle-Moved :
      (p : ProposalRow) (s : ListingRow) (d : ProposalDecision)
      → find_where (is_row s.id) t.listings ≡ some s
      → decide_proposal_resolution (context_of g p s) i.resolution ≡ d
      → Moved r (row_of l (settle_proposal i p s t d))
  unfolding apply_promotion
  settle-Moved p s (promote initial) there e =
      write-Moved l s.id (list_row i.revision_id (s.listing_revision + 1)) t.listings r s
        (λ x. refl) here there (promotes i.revision_id (promote_open _ _ initial e))
  settle-Moved p s (close_initial reason) there e =
      let (opened, missing, initial) = close_initial_open _ _ reason e in
      write-Moved l s.id (remove_row reason i.now) t.listings r s (λ x. refl) here there
        (rejects reason i.now opened missing initial)
  settle-Moved p s (close_update closing) there e = (r, here, stays)
  settle-Moved p s base_revision_mismatch there e = (r, here, stays)
  settle-Moved p s (ProposalDecision.conflict reason) there e = (r, here, stays)

  joined-Moved :
      (po : Option ProposalRow) (so : Option ListingRow)
      → listing_of po t ≡ so
      → Moved r (row_of l (resolve_joined g i t po so).1)
  joined-Moved none so e = (r, here, stays)
  joined-Moved (some p) none e = (r, here, stays)
  joined-Moved (some p) (some s) e =
      settle-Moved p s _
        (subst (λ k. find_where (is_row k) t.listings ≡ some s)
          (sym
            ((eq_iff s.id p.listing_id).0 (find_where_holds (is_row p.listing_id) t.listings s e)))
          e)
        refl

  pub resolve-Moved : Moved r (row_of l (resolve g i t).1)
  unfolding resolve
  resolve-Moved = joined-Moved _ _ refl

closed_tables-Moved :
    (user : String) (now : ℕ) (event_id : String → String) (t : ListingTables) (l : String)
    (r : ListingRow)
    → row_of l t ≡ some r
    → Moved r (row_of l (closed_tables user now event_id t))
closed_tables-Moved user now event_id t l r here = elim (Bool-cases (closes_with_account user r)) [
  | inl closes ↦ (withdraw_row now r, rw updated (ground arith), loses_account user now closes)
  | inr remains ↦ (r, rw updated (ground arith), stays)
]
  where
    updated :
        find_where
          (is_row l)
          (update_where (closes_with_account user) (withdraw_row now) t.listings)
        ≡ Option.map
            (λ x. if closes_with_account user x then withdraw_row now x else x)
            (find_where (is_row l) t.listings)
    updated =
        find_where-update_where (is_row l) (closes_with_account user) (withdraw_row now) (λ x. refl)
          t.listings

pub close_account-Moved :
    (user : String) (now : ℕ) (event_id : String → String) (t : ListingTables) (l : String)
    (r : ListingRow)
    → row_of l t ≡ some r
    → Moved r (row_of l (close_account user now event_id t).1)
unfolding close_account
close_account-Moved user now event_id t l r here = either _ _ refl
  where
    either :
        (b : Bool) (x : Bool × ListingTables)
        → (if b then (false, t) else (true, closed_tables user now event_id t)) ≡ x
        → Moved r (row_of l x.1)
    either true x e =
        subst (λ (y : Bool × ListingTables). Moved r (row_of l y.1)) e (r, here, stays)
    either false x e =
        subst (λ (y : Bool × ListingTables). Moved r (row_of l y.1)) e
          (closed_tables-Moved user now event_id t l r here)

-- Whatever call is made, a row that is there before it is there after it, and has stayed or made
-- one move: a decided transition, a promotion or an initial rejection of a listing that was open,
-- or the withdrawal with its owner's account.
pub step-Moved :
    (t : ListingTables) (c : ListingCall) (l : String) (r : ListingRow)
    → row_of l t ≡ some r
    → Moved r (row_of l (step t c))
unfolding step
step-Moved t (transitions i) l r here = transition-Moved i t l r here
step-Moved t (resolves g i) l r here = resolve-Moved g i t l r here
step-Moved t (closes_account user now event_id) l r here =
    close_account-Moved user now event_id t l r here

-- A property of rows that every move keeps holds of a row after any sequence of calls.
pub run-Moved {ℓ} :
    (P : ListingRow → Type ℓ)
    → ((r r' : ListingRow) → Move r r' → P r → P r')
    → (t : ListingTables) (cs : List ListingCall) (l : String) (r : ListingRow)
    → row_of l t ≡ some r
    → P r
    → (r' : ListingRow) × (row_of l (run t cs) ≡ some r') × P r'
unfolding run
run-Moved P keep t [] l r here h = (r, here, h)
run-Moved P keep t (c ∷ cs) l r here h =
    let (r', there, m) = step-Moved t c l r here in
    run-Moved P keep (step t c) cs l r' there (keep r r' m h)
