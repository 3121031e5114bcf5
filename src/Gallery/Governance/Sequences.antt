-- ===== src/Gallery/Governance/Sequences.antt =====
-- Every call that writes listings or governance tables, of the transition, promotion, closure,
-- governance, report and authority services, and the tables after a sequence of them. A transaction locks
-- the rows that it writes, so calls on one listing take effect one after another.
use share_slices.Base.{ℕ, String, Option, List, [], ◌∷◌}
use share_slices.Gallery.Listing.{ListingTables}
use share_slices.Gallery.Listing.Store.{TransitionInput, transition}
use share_slices.Gallery.Listing.Promotion.{GovernanceFlags, ResolveInput, resolve}
use share_slices.Gallery.Governance.{GovernanceTables, Outcome, failed, done}
use share_slices.Gallery.Governance.Authority.{grant, revoke}
use share_slices.Gallery.Governance.Decisions.{DecideInput, Digests, Fresh, decide}
use share_slices.Gallery.Governance.Appeals.{AppealInput, appeal}
use share_slices.Gallery.Governance.Featured.{set_featured, remove_featured}
use share_slices.Gallery.Governance.Reports.{ReportContext, ReportInput, submit}
use share_slices.Gallery.Governance.Closing.{close_account}

pub data GalleryCall : Type 0 where
  transitions : TransitionInput → GalleryCall
  resolves : GovernanceFlags → ResolveInput → GalleryCall
  closes_account : String → ℕ → (String → String) → GalleryCall
  decides : Fresh → DecideInput → GalleryCall
  appeals : Fresh → ℕ → AppealInput → GalleryCall
  features : String → String → ℕ → ℕ → GalleryCall
  unfeatures : String → ℕ → String → GalleryCall
  reports : ReportContext → ReportInput → GalleryCall
  grants : String → String → GalleryCall
  revokes : String → String → ℕ → GalleryCall

abbrev pub on_listings : (ListingTables → ListingTables) → GovernanceTables → GovernanceTables
on_listings f g = record g { listing_tables = f g.listing_tables }

abbrev pub kept_or : GovernanceTables → Outcome GovernanceTables → GovernanceTables
kept_or g (failed code) = g
kept_or g (done g') = g'

module _ (h : Digests) (artifact_owner : String → Option String) where
  unfoldable pub step : GovernanceTables → GalleryCall → GovernanceTables
  step g (transitions i) = on_listings (λ t. (transition i t).1) g
  step g (resolves flags i) = on_listings (λ t. (resolve flags i t).1) g
  step g (closes_account user now event_id) = close_account user now event_id g
  step g (decides f i) = (decide h f i g).1
  step g (appeals f clock i) = (appeal h f clock artifact_owner i g).1
  step g (features actor listing position revision) =
      (set_featured actor listing position revision g).1
  step g (unfeatures actor position resource) = (remove_featured actor position resource g).1
  step g (reports x i) = (submit x i g).1
  step g (grants actor subject) = kept_or g (grant actor subject g)
  step g (revokes actor subject now) = kept_or g (revoke actor subject now g)

  unfoldable pub run : GovernanceTables → List GalleryCall → GovernanceTables
  run g [] = g
  run g (c ∷ cs) = run (step g c) cs
