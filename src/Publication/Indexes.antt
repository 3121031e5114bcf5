-- ===== src/Publication/Indexes.antt =====
-- The writes of the repository keep its unique indexes.
use mathlib.Core.Option
use share_slices.Base.{
  ℕ, String, ◌≡◌, refl, ap, subst, ◌∙◌, Bool, true, Option, none, some, List, [], ◌∷◌, arith,
  if◌then◌else◌, Option-cases, Bool-cases, inl, inr, find_where, update_where,
  find_where-update_where,
}
use share_slices.Publication.Rows.{
  PublicationRow, ShareLinkRow, LinkMode, reuse, replace, is_open, is_current_of, is_active_of,
}
use share_slices.Publication.Store.{
  PublishInput, supersede, has_publication_id, has_slug, retire_link, has_link_id, new_link,
  insert_link, choose_link, end_current, new_publication, insert_publication,
}
use share_slices.Publication.Newest.{IsOneCurrent, IsOneActive, HasUniqueSlugs}

-- A write that keeps the artifact and opens no row keeps what the index on current rows says.
module _ (q : PublicationRow → Bool) (f : PublicationRow → PublicationRow)
    (keeps : (r : PublicationRow) → (f r).artifact_id ≡ r.artifact_id)
    (shuts : (r : PublicationRow) → is_open (f r) ≡ true → is_open r ≡ true) where
  pub written-none :
      (a : String) (rows : List PublicationRow)
      → find_where (is_current_of a) rows ≡ none
      → find_where (is_current_of a) (update_where q f rows) ≡ none
  written-none a [] h = refl
  written-none a (r ∷ rows) h = ground (arith, keeps r, shuts r, written-none a rows)

  pub written-IsOneCurrent :
      (rows : List PublicationRow) → IsOneCurrent rows → IsOneCurrent (update_where q f rows)
  written-IsOneCurrent [] v = tt
  written-IsOneCurrent (r ∷ rows) v = elim (Bool-cases (q r)) [
    | inl e ↦ rw e (
        rw (keeps r)
          (λ o. written-none r.artifact_id rows (v.0 (shuts r o)), written-IsOneCurrent rows v.1))
    | inr e ↦ rw e (λ o. written-none r.artifact_id rows (v.0 o), written-IsOneCurrent rows v.1)
  ]

pub retired-none :
    (id a : String) (now : ℕ) (rows : List ShareLinkRow)
    → find_where (is_active_of a) rows ≡ none
    → find_where (is_active_of a) (update_where (has_link_id id) (retire_link now) rows) ≡ none
retired-none id a now [] h = refl
retired-none id a now (r ∷ rows) h = ground (arith, retired-none id a now rows)

pub retired-IsOneActive :
    (id : String) (now : ℕ) (rows : List ShareLinkRow)
    → IsOneActive rows
    → IsOneActive (update_where (has_link_id id) (retire_link now) rows)
retired-IsOneActive id now [] v = tt
retired-IsOneActive id now (r ∷ rows) v = elim (Bool-cases (has_link_id id r)) [
  | inl e ↦ rw e (λ o. absurd (ground arith), retired-IsOneActive id now rows v.1)
  | inr e ↦
      rw e
        (λ o. retired-none id r.artifact_id now rows (v.0 o), retired-IsOneActive id now rows v.1)
]

pub retired-HasUniqueSlugs :
    (id : String) (now : ℕ) (rows : List ShareLinkRow)
    → HasUniqueSlugs rows
    → HasUniqueSlugs (update_where (has_link_id id) (retire_link now) rows)
retired-HasUniqueSlugs id now [] v = tt
retired-HasUniqueSlugs id now (r ∷ rows) v = (slug_kept, retired-HasUniqueSlugs id now rows v.1)
  where
    slug_kept :
        find_where
          (has_slug (if has_link_id id r then retire_link now r else r).slug)
          (update_where (has_link_id id) (retire_link now) rows)
        ≡ none
    slug_kept =
        let same : (if has_link_id id r then retire_link now r else r).slug ≡ r.slug =
          ground arith in
        rw same (
          find_where-update_where (has_slug r.slug) (has_link_id id) (retire_link now) (λ x. refl)
            rows
          ∙ ap (Option.map _) v.0)

abbrev pub AreLinks : List ShareLinkRow → Type 0
AreLinks rows = IsOneActive rows × HasUniqueSlugs rows

pub inserted-AreLinks :
    (i : PublishInput) (rows : List ShareLinkRow) (slug : String) (after : List ShareLinkRow)
    → AreLinks rows
    → insert_link i rows ≡ some (slug, after)
    → AreLinks after
inserted-AreLinks i rows slug after v e =
    let no_slug : find_where (has_slug i.slug) rows ≡ none =
      elim (Option-cases (find_where (has_slug i.slug) rows)) [
        | inl n ↦ n
        | inr (x, n) ↦ absurd (ground arith)
      ] in
    let no_active : find_where (is_active_of i.artifact_id) rows ≡ none =
      elim (Option-cases (find_where (is_active_of i.artifact_id) rows)) [
        | inl n ↦ n
        | inr (x, n) ↦ absurd (ground arith)
      ] in
    let same : new_link i ∷ rows ≡ after = ground arith in
    subst AreLinks same ((λ o. no_active, v.0), (no_slug, v.1))

pub chosen-AreLinks :
    (i : PublishInput) (o : Option ShareLinkRow) (mode : LinkMode) (rows : List ShareLinkRow)
    (slug : String) (after : List ShareLinkRow)
    → AreLinks rows
    → choose_link i o mode rows ≡ some (slug, after)
    → AreLinks after
chosen-AreLinks i none mode rows slug after v e = inserted-AreLinks i rows slug after v e
chosen-AreLinks i (some l) reuse rows slug after v e =
    let same : rows ≡ after = ground arith in subst AreLinks same v
chosen-AreLinks i (some l) replace rows slug after v e =
    inserted-AreLinks i (update_where (has_link_id l.id) (retire_link i.now) rows) slug after
      (retired-IsOneActive l.id i.now rows v.0, retired-HasUniqueSlugs l.id i.now rows v.1) e

pub ended-IsOneCurrent :
    (i : PublishInput) (o : Option PublicationRow) (rows : List PublicationRow)
    → IsOneCurrent rows
    → IsOneCurrent (end_current i o rows)
ended-IsOneCurrent i none rows v = v
ended-IsOneCurrent i (some p) rows v =
    written-IsOneCurrent (has_publication_id p.id) (supersede i.now) (λ r. refl)
      (λ r o. absurd (ground arith)) rows v

pub inserted-IsOneCurrent :
    (i : PublishInput) (rows after : List PublicationRow)
    → IsOneCurrent rows
    → insert_publication i rows ≡ some after
    → IsOneCurrent after
inserted-IsOneCurrent i rows after v e =
    let no_current : find_where (is_current_of i.artifact_id) rows ≡ none =
      elim (Option-cases (find_where (is_current_of i.artifact_id) rows)) [
        | inl n ↦ n
        | inr (x, n) ↦ absurd (ground arith)
      ] in
    let same : new_publication i ∷ rows ≡ after = ground arith in
    subst IsOneCurrent same ((λ o. no_current), v)
