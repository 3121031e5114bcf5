-- ===== src/Gallery/Governance/Featured.antt =====
-- governance.ts: `setFeatured` and `removeFeatured`.
use share_slices.Base.{
  ℕ, String, str_eq, Bool, not, ◌&&◌, Option, none, some, List, ◌∷◌, ◌==◌, if◌then◌else◌, is_some,
  some_of, find_where, select_where, update_where,
}
use share_slices.Gallery.Listing.{ListingRow, is_row}
use share_slices.Gallery.Governance.{
  GovernanceTables, FeaturedRow, placed, taken_out, featured_change, Outcome, done, ◌>>=◌, ensure,
  found_or, settle_transaction, invalid_decision, database_error,
}
use share_slices.Gallery.Governance.Authority.{require}
use share_slices.Gallery.Governance.Chain.{is_featurable}

abbrev pub is_at : ℕ → FeaturedRow → Bool
is_at position f = f.position == position

abbrev pub may_feature : GovernanceTables → String → ℕ → ListingRow → Bool
may_feature g id revision l = is_row id l && l.listing_revision == revision && is_featurable g l

abbrev pub placement : ℕ → String → String → ℕ → FeaturedRow
placement position actor listing revision = record {
  position = position;
  listing_id = listing;
  set_by_user_id = actor;
  listing_revision = revision;
}

-- `listing_id` is unique: a listing that stands at another position is refused.
abbrev pub is_elsewhere : ℕ → String → FeaturedRow → Bool
is_elsewhere position listing f = str_eq f.listing_id listing && not (is_at position f)

abbrev pub place : FeaturedRow → List FeaturedRow → List FeaturedRow
place f rows =
    if is_some (find_where (is_at f.position) rows)
    then update_where (is_at f.position) (λ x. f) rows
    else f ∷ rows

unfoldable pub set_featured :
    String → String → ℕ → ℕ → GovernanceTables → Outcome (ℕ × String) × GovernanceTables
set_featured actor listing position revision g = settle_transaction g (do
  g' ← require actor featured_change (some listing) g
  l ←
      found_or (find_where (may_feature g' listing revision) g'.listing_tables.listings)
        invalid_decision
  _ ← ensure (not (some_of (is_elsewhere position listing) g'.featured)) database_error
  done (
    (position, listing),
    record g' {
      featured = place (placement position actor l.id l.listing_revision) g'.featured;
      featured_audit =
          record {
            actor_user_id = actor;
            listing_id = listing;
            position = position;
            action = placed;
          }
          ∷ g'.featured_audit;
    },
  ))

abbrev pub take_out : String → ℕ → Option FeaturedRow → GovernanceTables → GovernanceTables
take_out actor position none g = g
take_out actor position (some f) g = record g {
  featured = select_where (λ x. not (is_at position x)) g.featured;
  featured_audit =
      record {
        actor_user_id = actor;
        listing_id = f.listing_id;
        position = position;
        action = taken_out;
      }
      ∷ g.featured_audit;
}

-- `String(position)` is given as the resource.
unfoldable pub remove_featured :
    String → ℕ → String → GovernanceTables → Outcome (Unit {0}) × GovernanceTables
remove_featured actor position resource g = settle_transaction g (do
  g' ← require actor featured_change (some resource) g
  done (tt, take_out actor position (find_where (is_at position) g'.featured) g'))
