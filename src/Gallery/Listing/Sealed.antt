-- ===== src/Gallery/Listing/Sealed.antt =====
-- What no sequence of calls undoes, and the check constraints of the listing table.
use share_slices.Base.{
  ℕ, ◌+◌, String, ◌≡◌, refl, sym, ap, subst, ◌∙◌, ◌≢◌, ◌⊎◌, inl, inr, Bool, true, false, not, ◌&&◌,
  ◌||◌, none, some, List, arith, is_none, is_some,
}
use share_slices.Gallery.Listing.{
  listed, removed, clear, GalleryClosureReason, ListingRow, ListingTables, row_of, is_pending,
  is_listed, is_withdrawn, is_removed, is_administrator_removal,
}
use share_slices.Gallery.Listing.Transitions.{
  GalleryTransitionCommand, TransitionCommit, commit, is_open, decide_gallery_transition,
}
use share_slices.Gallery.Listing.Store.{state_of, write_commit, breaks_listed_revision}
use share_slices.Gallery.Listing.Calls.{ListingCall, step, run}
use share_slices.Gallery.Listing.Rows.{
  Move, stays, decided, promotes, rejects, loses_account, step-Moved, run-Moved,
}

-- A listing that is withdrawn, or removed for another reason than an administrator's removal.
abbrev pub is_sealed : ListingRow → Bool
is_sealed r =
    is_withdrawn r.lifecycle_state
    || (is_removed r.lifecycle_state && not (is_administrator_removal r.closure_reason))

sealed-no_commit :
    (r : ListingRow) (c : GalleryTransitionCommand) (d : TransitionCommit)
    → is_sealed r ≡ true
    → decide_gallery_transition (state_of r) c ≢ commit d
unfolding decide_gallery_transition
sealed-no_commit r c d h = ground arith

pub Move-frozen : (r r' : ListingRow) → Move r r' → is_sealed r ≡ true → r' ≡ r
Move-frozen r r' stays h = refl
Move-frozen r r' (decided c d now e ok) h = absurd (sealed-no_commit r c d h e)
Move-frozen r r' (promotes revision_id o) h = ground arith
Move-frozen r r' (rejects reason now o n k) h = ground arith
Move-frozen r r' (loses_account user now k) h = ground arith

-- A withdrawn listing, and one that was removed for another reason than an administrator's
-- removal, is final: after any sequence of transitions, promotions and account closures its row
-- is exactly what it was.
run-sealed :
    (t : ListingTables) (cs : List ListingCall) (l : String) (r : ListingRow)
    → row_of l t ≡ some r
    → is_sealed r ≡ true
    → row_of l (run t cs) ≡ some r
run-sealed t cs l r here h =
    let (r', there, same) =
      run-Moved (λ x. x ≡ r)
        (λ x x' m e. Move-frozen x x' m (subst (λ y. is_sealed y ≡ true) (sym e) h) ∙ e) t cs l r
        here refl in
    there ∙ ap some same

decided-restores :
    (r : ListingRow) (c : GalleryTransitionCommand) (d : TransitionCommit)
    → is_open r.lifecycle_state ≡ false
    → is_open d.lifecycle ≡ true
    → decide_gallery_transition (state_of r) c ≡ commit d
    → (c ≡ GalleryTransitionCommand.administrator_restoration)
      × (r.lifecycle_state ≡ removed)
      × (r.closure_reason ≡ some GalleryClosureReason.administrator_removal)
      × (r.current_revision_id ≢ none)
      × (r.restoration_forfeited_at ≡ none)
      × (d.lifecycle ≡ listed)
      × (d.review_state ≡ clear)
      × (d.closure_reason ≡ none)
unfolding decide_gallery_transition
decided-restores r c d closed_now opened e = ground arith

-- The check constraints of the table on several columns: a closed listing, and only it, has a
-- closure reason and a closing time; a pending one has no committed revision, and a listed one has
-- one. So does one that an administrator has removed, which may be listed again.
pub record IsConsistent (r : ListingRow) : Type 0 where
  pub reason : is_open r.lifecycle_state ≡ is_none r.closure_reason
  pub closing : is_open r.lifecycle_state ≡ is_none r.closed_at
  pub uncommitted : (is_pending r.lifecycle_state && is_some r.current_revision_id) ≡ false
  pub committed :
      ((is_listed r.lifecycle_state || is_administrator_removal r.closure_reason)
        && is_none r.current_revision_id)
      ≡ false

decided-IsConsistent :
    (r : ListingRow) (c : GalleryTransitionCommand) (d : TransitionCommit) (now : ℕ)
    → decide_gallery_transition (state_of r) c ≡ commit d
    → breaks_listed_revision (state_of r) d ≡ false
    → IsConsistent r
    → IsConsistent (write_commit (state_of r) d now r)
unfolding decide_gallery_transition
decided-IsConsistent r c d now e ok h = ground arith

pub Move-IsConsistent : (r r' : ListingRow) → Move r r' → IsConsistent r → IsConsistent r'
Move-IsConsistent r r' stays h = h
Move-IsConsistent r r' (decided c d now e ok) h = decided-IsConsistent r c d now e ok h
Move-IsConsistent r r' (promotes revision_id o) h = ground arith
Move-IsConsistent r r' (rejects reason now o n k) h = ground arith
Move-IsConsistent r r' (loses_account user now k) h = ground arith

-- The table's check constraints (open, or closed with a reason and a time; pending without a
-- committed revision) hold of a row after any sequence of calls, if they hold before: no write
-- of the three services can violate them.
pub run-IsConsistent :
    (t : ListingTables) (cs : List ListingCall) (l : String) (r : ListingRow)
    → row_of l t ≡ some r
    → IsConsistent r
    → (r' : ListingRow) × (row_of l (run t cs) ≡ some r') × IsConsistent r'
run-IsConsistent = run-Moved IsConsistent Move-IsConsistent

-- The revision counts the writes that matter: a call never lowers it, and a call that changes the
-- lifecycle, the review state or the closure reason raises it by exactly one.
abbrev pub Advances : ListingRow → ListingRow → Type 0
Advances r r' = (r' ≡ r) ⊎ (r'.listing_revision ≡ r.listing_revision + 1)

Move-Advances : (r r' : ListingRow) → Move r r' → Advances r r'
Move-Advances r r' stays = inl refl
Move-Advances r r' (decided c d now e ok) = inr refl
Move-Advances r r' (promotes revision_id o) = inr refl
Move-Advances r r' (rejects reason now o n k) = inr refl
Move-Advances r r' (loses_account user now k) = inr refl

-- After any one call a row is unchanged, or its revision is one higher.
step-Advances :
    (t : ListingTables) (c : ListingCall) (l : String) (r : ListingRow)
    → row_of l t ≡ some r
    → (r' : ListingRow) × (row_of l (step t c) ≡ some r') × Advances r r'
step-Advances t c l r here =
    let (r', there, m) = step-Moved t c l r here in (r', there, Move-Advances r r' m)

Move-reopens :
    (r r' : ListingRow)
    → Move r r'
    → is_open r.lifecycle_state ≡ false
    → is_open r'.lifecycle_state ≡ true
    → (r.lifecycle_state ≡ removed)
      × (r.closure_reason ≡ some GalleryClosureReason.administrator_removal)
      × (r.current_revision_id ≢ none)
      × (r.restoration_forfeited_at ≡ none)
      × (r'.lifecycle_state ≡ listed)
      × (r'.review_state ≡ clear)
      × (r'.closure_reason ≡ none)
      × (r'.closed_at ≡ none)
Move-reopens r r' stays h k = cc
Move-reopens r r' (decided c d now e ok) h k = ground (arith, decided-restores r c d h k e)
Move-reopens r r' (promotes revision_id o) h k = cc
Move-reopens r r' (rejects reason now o n z) h k = cc
Move-reopens r r' (loses_account user now z) h k = cc

-- A closed listing is open after a call only if an administrator had removed it, a revision was
-- committed and the restoration was not forfeited; it is then listed, clear of review and without
-- closure reason or closing time.
step_reopens :
    (t : ListingTables) (c : ListingCall) (l : String) (r r' : ListingRow)
    → row_of l t ≡ some r
    → row_of l (step t c) ≡ some r'
    → is_open r.lifecycle_state ≡ false
    → is_open r'.lifecycle_state ≡ true
    → (r.lifecycle_state ≡ removed)
      × (r.closure_reason ≡ some GalleryClosureReason.administrator_removal)
      × (r.current_revision_id ≢ none)
      × (r.restoration_forfeited_at ≡ none)
      × (r'.lifecycle_state ≡ listed)
      × (r'.review_state ≡ clear)
      × (r'.closure_reason ≡ none)
      × (r'.closed_at ≡ none)
step_reopens t c l r r' here after h k =
    let (s, there, m) = step-Moved t c l r here in
    let same : s ≡ r' = ground (arith, there, after) in
    Move-reopens r r' (subst (λ x. Move r x) same m) h k
