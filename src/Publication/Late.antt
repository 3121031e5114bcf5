-- ===== src/Publication/Late.antt =====
-- A `publish` whose transaction began before the newest publication was created.
use mathlib.Core.Option
use share_slices.Base.{
  ℕ, ◌<◌, String, str_eq, eq_iff, ◌≡◌, refl, ap, ◌∙◌, Bool, true, false, Option, none, some, List,
  [], ◌∷◌, arith, if◌then◌else◌, Bool-cases, inl, inr, All, All-mono, find_where, select_where,
  update_where,
}
use share_slices.Publication.Rows.{
  PublicationRow, PublicationTables, newest, is_open, is_current_of, publication_of,
  publication_created, newest_publication, publication_view,
}
use share_slices.Publication.Store.{
  PublishInput, published, Cipher, supersede, has_publication_id, end_current, new_publication,
  publish,
}
use share_slices.Publication.Sharing.{
  resolve_share_slug, resolve_link, resolve_publication, unpublished,
}
use share_slices.Publication.Newest.{newest-All, select_where-All, select_where-holds}
use share_slices.Publication.Publishing.{
  IsWellFormed, IsFresh, MayPublish, Leads, published-as, published_tables, ended,
}

find_where-All :
    (p : PublicationRow → Bool) (rows : List PublicationRow)
    → find_where p rows ≡ none
    → All (λ r. p r ≡ false) rows
find_where-All p [] h = tt
find_where-All p (r ∷ rows) h = elim (Bool-cases (p r)) [
  | inl e ↦ absurd (ground arith)
  | inr e ↦ (e, find_where-All p rows (ground arith))
]

-- A write that keeps the artifact and the time of creation keeps the newest row's place.
newest-update_where :
    (a : String) (q : PublicationRow → Bool) (now : ℕ) (rows : List PublicationRow)
    → newest_publication (publication_of a) (update_where q (supersede now) rows)
      ≡ Option.map
          (λ r. if q r then supersede now r else r)
          (newest_publication (publication_of a) rows)
newest-update_where a q now [] = refl
newest-update_where a q now (r ∷ rows) = ground (arith, newest-update_where a q now rows)

newest-end_current :
    (i : PublishInput) (o : Option PublicationRow) (rows : List PublicationRow) (p : PublicationRow)
    → newest_publication (publication_of i.artifact_id) rows ≡ some p
    → (p' : PublicationRow) × (newest_publication
          (publication_of i.artifact_id)
          (end_current i o rows)
        ≡ some p')
      × (p'.created_at ≡ p.created_at)
newest-end_current i none rows p e = (p, e, refl)
newest-end_current i (some c) rows p e = (
  if has_publication_id c.id p then supersede i.now p else p,
  newest-update_where i.artifact_id (has_publication_id c.id) i.now rows ∙ ap (Option.map _) e,
  ground arith,
)

newest-later :
    (r : PublicationRow) (rows : List PublicationRow) (s : PublicationRow)
    → newest publication_created rows ≡ some s
    → r.created_at < s.created_at
    → newest publication_created (r ∷ rows) ≡ some s
newest-later r rows s e later = ground (arith, e, later)

shut-unpublished :
    (artifact slug : String) (now : ℕ) (t : PublicationTables) (p : PublicationRow)
    → Leads artifact slug t.links
    → newest_publication (publication_of artifact) t.publications ≡ some p
    → is_open p ≡ false
    → resolve_share_slug slug now t ≡ unpublished
unfolding resolve_share_slug
shut-unpublished artifact slug now t p l newest_one shut =
    let same : l.link.artifact_id ≡ artifact = (eq_iff _ _).0 l.same_artifact in
    rw (l.found, resolve_link)
      (rw l.is_live (rw same (rw (newest_one, resolve_publication) (ground (arith, shut)))))

-- The artifact's newest row after the call is not the new one, and it is ended.
late-newest :
    (i : PublishInput) (t : PublicationTables) (p : PublicationRow)
    → IsWellFormed t
    → IsFresh i t
    → newest_publication (publication_of i.artifact_id) t.publications ≡ some p
    → i.began < p.created_at
    → let o = newest_publication (is_current_of i.artifact_id) t.publications in
      (p' : PublicationRow) × (newest_publication
          (publication_of i.artifact_id)
          (new_publication i ∷ end_current i o t.publications)
        ≡ some p')
      × (is_open p' ≡ false)
late-newest i t p v f e late =
    let o = newest_publication (is_current_of i.artifact_id) t.publications in
    let rows = end_current i o t.publications in
    let (p', there, same) = newest-end_current i o t.publications p e in
    let own_new : str_eq i.artifact_id i.artifact_id ≡ true = (eq_iff _ _).1 refl in
    let ended_row : is_current_of i.artifact_id p' ≡ false =
      newest-All (λ r. is_current_of i.artifact_id r ≡ false) publication_created _ p'
        (select_where-All (publication_of i.artifact_id)
          (λ r. is_current_of i.artifact_id r ≡ false) rows
          (All-mono (λ r. is_current_of i.artifact_id r ≡ false) _ (λ r q k. q) rows
            (find_where-All (is_current_of i.artifact_id) rows (ended i t v f o refl).1)))
        there in
    let own_row : publication_of i.artifact_id p' ≡ true =
      newest-All (λ r. publication_of i.artifact_id r ≡ true) publication_created _ p'
        (select_where-holds (publication_of i.artifact_id) rows) there in
    (
      p',
      rw own_new (
          newest-later (new_publication i) (select_where (publication_of i.artifact_id) rows) p'
            there (omega (arith, same, late))),
      ground arith,
    )

-- A call of `publish` whose transaction began before the artifact's newest publication was created
-- (it waited for the artifact's lock) answers a publication as usual, but the slug that it answers
-- then resolves to `unpublished` at every time: the newest row is a superseded one.
pub late_publish :
    (c : Cipher) (i : PublishInput) (t : PublicationTables) (p : PublicationRow)
    → IsWellFormed t
    → IsFresh i t
    → MayPublish i t
    → newest_publication (publication_of i.artifact_id) t.publications ≡ some p
    → i.began < p.created_at
    → (slug : String) × (t' : PublicationTables) × (publish c i t
        ≡ (some (published (publication_view (new_publication i)) slug), t'))
      × ((later : ℕ) → resolve_share_slug slug later t' ≡ unpublished)
late_publish c i t p v f m e late =
    let (slug, links, done, l) = published-as c i t v f m in
    let (p', newest_one, shut) = late-newest i t p v f e late in
    (
      slug,
      published_tables c i slug links t,
      done,
      λ later.
          shut-unpublished i.artifact_id slug later (published_tables c i slug links t) p' l
            newest_one shut,
    )
