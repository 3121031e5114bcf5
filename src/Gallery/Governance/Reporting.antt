-- ===== src/Gallery/Governance/Reporting.antt =====
-- reports.ts: what a report that is accepted keeps of the listing rows.
use share_slices.Base.{
  String, eq_iff, ◌≡◌, refl, sym, ap, subst, ◌∙◌, Bool, true, not, Option, none, some, arith, leb,
  length, trim, find_where_holds, select_where,
}
use share_slices.Gallery.Listing.{
  GalleryReviewState, reviewing, ListingRow, RevisionRow, is_row, row_of,
}
use share_slices.Gallery.Listing.Transitions.{is_open}
use share_slices.Gallery.Governance.{
  GovernanceTables, Outcome, failed, done, ◌>>=◌, ensure, found_or, settle_transaction,
  rate_limited, not_found, invalid_report,
}
use share_slices.Gallery.Governance.Outcomes.{bind_done, found_done, done_injective, ensure_done}
use share_slices.Gallery.Governance.Measures.{revision_of, set_review}
use share_slices.Gallery.Governance.Reports.{
  ReportContext, ReportInput, verified, reporter_of, is_recent, is_reportable, listing_at_slug,
  report_row, starts_review, record_report, is_bad_detail, submit_work, submit,
}
use share_slices.Gallery.Governance.Keeping.{Keeps, written_here}

-- A report that is accepted is about the listing of its slug, which is open to the public.
submit_done :
    (x : ReportContext) (i : ReportInput) (g g' : GovernanceTables) (id : String)
    → submit_work x i g ≡ done (id, g')
    → (l : ListingRow) × (v : RevisionRow) × (listing_at_slug (x.listing_of_slug i.slug) g ≡ some l)
      × (is_reportable g l ≡ true)
      × (record_report x i l (report_row x i (trim i.detail) l v) g ≡ g')
unfolding submit_work
submit_done x i g g' id e =
    let limited : Bool =
      not (leb 10 (length (select_where (is_recent (x.digest (reporter_of i)) x.now) g.signals))) in
    let end : ListingRow → RevisionRow → Outcome (String × GovernanceTables) =
      λ l v. done (x.report_id, record_report x i l (report_row x i (trim i.detail) l v) g) in
    let about : Unit {0} → Outcome (String × GovernanceTables) = λ _.
      found_or (listing_at_slug (x.listing_of_slug i.slug) g) not_found >>= (λ l.
        found_or (revision_of g.listing_tables l.current_revision_id) not_found
        >>= (λ v. ensure (is_reportable g l) not_found >>= (λ _. end l v))) in
    let (text, rest) =
      ensure_done (not (is_bad_detail (trim i.detail))) invalid_report
        (λ _.
          verified i.reporter_user_id x.verification
          >>= (λ _. ensure limited rate_limited >>= about))
        (id, g') e in
    let (u, checked, rest2) =
      bind_done (verified i.reporter_user_id x.verification)
        (λ _. ensure limited rate_limited >>= about) (id, g') rest in
    let (few, rest3) = ensure_done limited rate_limited about (id, g') rest2 in
    let (l, found, rest4) =
      found_done (listing_at_slug (x.listing_of_slug i.slug) g) not_found
        (λ l.
          found_or (revision_of g.listing_tables l.current_revision_id) not_found
          >>= (λ v. ensure (is_reportable g l) not_found >>= (λ _. end l v)))
        (id, g') rest3 in
    let (v, revised, rest5) =
      found_done (revision_of g.listing_tables l.current_revision_id) not_found
        (λ v. ensure (is_reportable g l) not_found >>= (λ _. end l v)) (id, g') rest4 in
    let (open_row, last) =
      ensure_done (is_reportable g l) not_found (λ _. end l v) (id, g') rest5 in
    let whole = record_report x i l (report_row x i (trim i.detail) l v) g in
    (l, v, found, open_row, ap (λ y. y.1) (done_injective (x.report_id, whole) (id, g') last))

-- The row that is found under a slug is the one that is found under its identifier.
same_row :
    (o : Option String) (l0 : String) (l r : ListingRow) (g : GovernanceTables)
    → listing_at_slug o g ≡ some l
    → row_of l0 g.listing_tables ≡ some r
    → is_row l.id r ≡ true
    → r ≡ l
same_row none l0 l r g found here e = cc
same_row (some id) l0 l r g found here e =
    let r_named = find_where_holds (is_row l0) g.listing_tables.listings r here in
    let l_named = find_where_holds (is_row id) g.listing_tables.listings l found in
    let ids : l0 ≡ id =
      sym ((eq_iff r.id l0).0 r_named) ∙ (eq_iff r.id l.id).0 e ∙ (eq_iff l.id id).0 l_named in
    ground (arith, sym here ∙ ap (λ y. row_of y g.listing_tables) ids ∙ found)

pub submit-Keeps :
    (P : ListingRow → Type 0)
    → ((state : GalleryReviewState) (r : ListingRow)
        → is_open r.lifecycle_state ≡ true
        → P r
        → P (set_review state r))
    → (x : ReportContext) (i : ReportInput) (g : GovernanceTables) → Keeps P g (submit x i g).1
unfolding submit
submit-Keeps P reviews x i g = by_result (submit_work x i g) refl
  where
    by_result :
        (m : Outcome (String × GovernanceTables))
        → submit_work x i g ≡ m
        → Keeps P g (settle_transaction g m).1
    by_result (failed code) e = λ l r here p. (r, here, p)
    by_result (done (id, g')) e =
        let (l, v, found, open_row, same) = submit_done x i g g' id e in
        subst (λ y. Keeps P g y) same
          (λ l0 r here p.
            written_here P (starts_review l.id) (set_review reviewing) l0 g.listing_tables.listings
              r (λ y. refl)
              (λ q.
                reviews reviewing r
                  (ap (λ y. is_open y.lifecycle_state)
                      (same_row (x.listing_of_slug i.slug) l0 l r g found here (ground (arith, q)))
                    ∙ ground (arith, open_row))
                  p)
              here p)
