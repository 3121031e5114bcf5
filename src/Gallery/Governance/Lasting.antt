-- ===== src/Gallery/Governance/Lasting.antt =====
-- What lasts of a listing through any sequence of calls of the listing and governance services.
use share_slices.Base.{
  ℕ, String, Bool, true, false, Option, some, List, [], ◌∷◌, ◌≡◌, refl, sym, ap, subst, ◌∙◌, arith,
}
use share_slices.Gallery.Listing.{
  GalleryReviewState, ListingRow, ListingTables, row_of, is_listed, is_removed, is_pending,
  is_administrator_removal,
}
use share_slices.Gallery.Listing.Transitions.{is_open}
use share_slices.Gallery.Listing.Closure
use share_slices.Gallery.Listing.Rows.{
  Move, Moved, transition-Moved, resolve-Moved, close_account-Moved,
}
use share_slices.Gallery.Governance.{GovernanceTables}
use share_slices.Gallery.Governance.Authority.{require, grant, revoke}
use share_slices.Gallery.Governance.Decisions.{Digests, Fresh}
use share_slices.Gallery.Governance.Appeals.{AppealInput, appeal_work, appeal}
use share_slices.Gallery.Governance.Featured.{set_featured, remove_featured}
use share_slices.Gallery.Governance.Closing.{closed_governance, close_account}
use share_slices.Gallery.Listing.Sealed.{is_sealed, IsConsistent, Move-frozen, Move-IsConsistent}
use share_slices.Gallery.Governance.Measures.{block_initial, set_review}
use share_slices.Gallery.Governance.Effects.{remove_listing, restore_listing}
use share_slices.Gallery.Governance.Keeping.{Keeps, Keeps-trans, decide-Keeps}
use share_slices.Gallery.Governance.Reporting.{submit-Keeps}
use share_slices.Gallery.Governance.Sequences.{
  reports, kept_or, GalleryCall, transitions, resolves, closes_account, decides, appeals, features,
  unfeatures, grants, revokes, step, run,
}

grant-listing_tables :
    (actor subject : String) (g : GovernanceTables)
    → (kept_or g (grant actor subject g)).listing_tables ≡ g.listing_tables
unfolding grant require
grant-listing_tables actor subject g = ground arith

revoke-listing_tables :
    (actor subject : String) (now : ℕ) (g : GovernanceTables)
    → (kept_or g (revoke actor subject now g)).listing_tables ≡ g.listing_tables
unfolding revoke require
revoke-listing_tables actor subject now g = ground arith

appeal-listing_tables :
    (h : Digests) (f : Fresh) (clock : ℕ) (artifact_owner : String → Option String)
    (i : AppealInput) (g : GovernanceTables)
    → (appeal h f clock artifact_owner i g).1.listing_tables ≡ g.listing_tables
unfolding appeal appeal_work
appeal-listing_tables h f clock artifact_owner i g = ground arith

set_featured-listing_tables :
    (actor listing : String) (position revision : ℕ) (g : GovernanceTables)
    → (set_featured actor listing position revision g).1.listing_tables ≡ g.listing_tables
unfolding set_featured require
set_featured-listing_tables actor listing position revision g = ground arith

remove_featured-listing_tables :
    (actor : String) (position : ℕ) (resource : String) (g : GovernanceTables)
    → (remove_featured actor position resource g).1.listing_tables ≡ g.listing_tables
unfolding remove_featured require
remove_featured-listing_tables actor position resource g = ground arith

same-Keeps :
    (P : ListingRow → Type 0) (g g' : GovernanceTables)
    → g'.listing_tables ≡ g.listing_tables
    → Keeps P g g'
same-Keeps P g g' same l r here p = (r, ap (row_of l) same ∙ here, p)

module _ (P : ListingRow → Type 0) (moves : (r r' : ListingRow) → Move r r' → P r → P r')
    (removes_row : (now : ℕ) (r : ListingRow)
      → is_listed r.lifecycle_state ≡ true
      → P r
      → P (remove_listing now r))
    (restores_row : (r : ListingRow)
      → is_removed r.lifecycle_state ≡ true
      → is_administrator_removal r.closure_reason ≡ true
      → P r
      → P (restore_listing r))
    (blocks : (now : ℕ) (r : ListingRow)
      → is_pending r.lifecycle_state ≡ true
      → P r
      → P (block_initial now r))
    (reviews : (state : GalleryReviewState) (r : ListingRow)
      → is_open r.lifecycle_state ≡ true
      → P r
      → P (set_review state r)) where
  moved :
      (r : ListingRow) (o : Option ListingRow)
      → Moved r o
      → P r
      → (r' : ListingRow) × (o ≡ some r') × P r'
  moved r o (r', there, m) p = (r', there, moves r r' m p)

  closed-Keeps :
      (user : String) (now : ℕ) (event_id : String → String) (g : GovernanceTables)
      → Keeps P g (close_account user now event_id g)
  unfolding close_account
  closed-Keeps user now event_id g =
      by_result (Closure.close_account user now event_id g.listing_tables)
        (λ l r here. close_account-Moved user now event_id g.listing_tables l r here)
    where
      by_result :
          (x : Bool × ListingTables)
          → ((l : String) (r : ListingRow)
              → row_of l g.listing_tables ≡ some r
              → Moved r (row_of l x.1))
          → Keeps P g (closed_governance user now x g)
      by_result (true, t) m = λ l r here p. moved r (row_of l t) (m l r here) p
      by_result (false, t) m = λ l r here p. (r, here, p)

  step-Keeps :
      (h : Digests) (artifact_owner : String → Option String) (g : GovernanceTables)
      (c : GalleryCall)
      → Keeps P g (step h artifact_owner g c)
  unfolding step
  step-Keeps h o g (transitions i) =
      λ l r here p. moved r _ (transition-Moved i g.listing_tables l r here) p
  step-Keeps h o g (resolves flags i) =
      λ l r here p. moved r _ (resolve-Moved flags i g.listing_tables l r here) p
  step-Keeps h o g (closes_account user now event_id) = closed-Keeps user now event_id g
  step-Keeps h o g (decides f i) = decide-Keeps P removes_row restores_row blocks reviews h f i g
  step-Keeps h o g (appeals f clock i) =
      same-Keeps P g (appeal h f clock o i g).1 (appeal-listing_tables h f clock o i g)
  step-Keeps h o g (features actor listing position revision) =
      same-Keeps P g (set_featured actor listing position revision g).1
        (set_featured-listing_tables actor listing position revision g)
  step-Keeps h o g (unfeatures actor position resource) =
      same-Keeps P g (remove_featured actor position resource g).1
        (remove_featured-listing_tables actor position resource g)
  step-Keeps h o g (reports x i) = submit-Keeps P reviews x i g
  step-Keeps h o g (grants actor subject) =
      same-Keeps P g (kept_or g (grant actor subject g)) (grant-listing_tables actor subject g)
  step-Keeps h o g (revokes actor subject now) =
      same-Keeps P g (kept_or g (revoke actor subject now g))
        (revoke-listing_tables actor subject now g)

  run-Keeps :
      (h : Digests) (artifact_owner : String → Option String) (g : GovernanceTables)
      (cs : List GalleryCall)
      → Keeps P g (run h artifact_owner g cs)
  unfolding run
  run-Keeps h o g [] = λ l r here p. (r, here, p)
  run-Keeps h o g (c ∷ cs) =
      Keeps-trans P g (step h o g c) (run h o (step h o g c) cs) (step-Keeps h o g c)
        (run-Keeps h o (step h o g c) cs)

-- A listing that is withdrawn, or removed for another reason than an administrator's removal,
-- stays exactly as it is through any sequence of transitions, promotions, account closures,
-- decisions of administrators, appeals, reports, changes of the featured listings and of authorities: no
-- decision restores it.
pub run_sealed :
    (h : Digests) (artifact_owner : String → Option String) (g : GovernanceTables)
    (cs : List GalleryCall) (l : String) (r : ListingRow)
    → row_of l g.listing_tables ≡ some r
    → is_sealed r ≡ true
    → row_of l (run h artifact_owner g cs).listing_tables ≡ some r
run_sealed h o g cs l r here k =
    let (r', there, same) =
      run-Keeps (λ x. x ≡ r)
        (λ x x' m e. Move-frozen x x' m (subst (λ y. is_sealed y ≡ true) (sym e) k) ∙ e)
        (λ now x e q. ground (arith, q, e, k)) (λ x e e2 q. ground (arith, q, e, e2, k))
        (λ now x e q. ground (arith, q, e, k)) (λ state x e q. ground (arith, q, e, k)) h o g cs l r
        here refl in
    there ∙ ap some same

-- The check constraints of the listing table that relate its columns (open, or closed with a reason
-- and a time; pending without a committed revision, listed with one), and that a listing that an
-- administrator has removed has a committed revision, hold of a row after any sequence of
-- transitions, promotions, account closures, decisions of administrators, appeals, reports, changes
-- of the featured listings and of authorities, if they hold of it before.
pub run-row_of-IsConsistent :
    (h : Digests) (artifact_owner : String → Option String) (g : GovernanceTables)
    (cs : List GalleryCall) (l : String) (r : ListingRow)
    → row_of l g.listing_tables ≡ some r
    → IsConsistent r
    → (r' : ListingRow) × (row_of l (run h artifact_owner g cs).listing_tables ≡ some r')
      × IsConsistent r'
run-row_of-IsConsistent h o g cs l r here k =
    run-Keeps IsConsistent Move-IsConsistent
      (λ now x e q. record {
        reason = refl;
        closing = refl;
        uncommitted = refl;
        committed = ground (arith, e, q.committed);
      })
      (λ x e e2 q. record {
        reason = refl;
        closing = refl;
        uncommitted = refl;
        committed = ground (arith, e, q.committed);
      })
      (λ now x e q. record { reason = refl; closing = refl; uncommitted = refl; committed = refl })
      (λ state x e q. record {
        reason = q.reason;
        closing = q.closing;
        uncommitted = q.uncommitted;
        committed = q.committed;
      })
      h o g cs l r here k
