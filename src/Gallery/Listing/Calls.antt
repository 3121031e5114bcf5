-- ===== src/Gallery/Listing/Calls.antt =====
-- Every call that writes listings, and the tables after a sequence of them. A transaction locks
-- the rows that it writes, so calls on one listing take effect one after another.
use share_slices.Base.{ℕ, String, List, [], ◌∷◌}
use share_slices.Gallery.Listing.{ListingTables}
use share_slices.Gallery.Listing.Store.{TransitionInput, transition}
use share_slices.Gallery.Listing.Promotion.{GovernanceFlags, ResolveInput, resolve}
use share_slices.Gallery.Listing.Closure.{close_account}

pub data ListingCall : Type 0 where
  transitions : TransitionInput → ListingCall
  resolves : GovernanceFlags → ResolveInput → ListingCall
  closes_account : String → ℕ → (String → String) → ListingCall

unfoldable pub step : ListingTables → ListingCall → ListingTables
step t (transitions i) = (transition i t).1
step t (resolves g i) = (resolve g i t).1
step t (closes_account user now event_id) = (close_account user now event_id t).1

unfoldable pub run : ListingTables → List ListingCall → ListingTables
run t [] = t
run t (c ∷ cs) = run (step t c) cs
