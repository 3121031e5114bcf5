-- ===== src/Publication/Publishing.antt =====
-- What `publish` does: a new publication is what the share link resolves to, and a repeated call
-- answers from its record.
use mathlib.Core.Option
use share_slices.Base.{
  ℕ, ◌<◌, String, str_eq, eq_iff, ◌≡◌, refl, ap, ◌∙◌, true, false, Option, none, some, List, ◌∷◌,
  arith, is_some, All, find_where, select_where, update_where, find_where-update_where,
}
use share_slices.Publication.Rows.{
  PublicationRow, ShareLinkRow, PublicationTables, LinkMode, reuse, replace, is_current_of,
  publication_of, publication_created, link_created, newest_publication, newest_link, is_active_of,
  is_active, is_blocked, expiration_values, has_expired, publication_view,
}
use share_slices.Publication.Store.{
  PublishInput, published, Cipher, is_owned, is_scope, is_ready_version, supersede,
  has_publication_id, has_slug, retire_link, has_link_id, new_link, insert_link, choose_link,
  end_current, new_publication, publish_ready, conclude_publish, publish,
}
use share_slices.Publication.Sharing.{resolve_share_slug, resolve_link, resolved}
use share_slices.Publication.Newest.{
  IsOneCurrent, IsOneActive, HasUniqueSlugs, superseded-current, retired-active, newest-none,
  newest-All, newest-cons, select_where-All, update_where-All, select_where-holds,
  select_where-Finds,
}

-- The unique indexes of the two tables: at most one current publication and one active link of an
-- artifact, and no slug twice.
pub record IsWellFormed (t : PublicationTables) : Type 0 where
  pub one_current : IsOneCurrent t.publications
  pub one_active : IsOneActive t.links
  pub unique_slugs : HasUniqueSlugs t.links

-- The random identifiers of a call are new.
pub record IsFresh (i : PublishInput) (t : PublicationTables) : Type 0 where
  pub id : find_where (has_publication_id i.id) t.publications ≡ none
  pub link_id : find_where (has_link_id i.link_id) t.links ≡ none
  pub slug : find_where (has_slug i.slug) t.links ≡ none

-- A slug that leads to an active link of the artifact.
pub record Leads (artifact slug : String) (rows : List ShareLinkRow) : Type 0 where
  pub link : ShareLinkRow
  pub found : find_where (has_slug slug) rows ≡ some link
  pub same_artifact : str_eq link.artifact_id artifact ≡ true
  pub is_live : is_active link.status ≡ true

module _ (i : PublishInput) where
  inserted-Leads :
      (rows : List ShareLinkRow)
      → find_where (has_link_id i.link_id) rows ≡ none
      → find_where (has_slug i.slug) rows ≡ none
      → find_where (is_active_of i.artifact_id) rows ≡ none
      → (insert_link i rows ≡ some (i.slug, new_link i ∷ rows))
        × Leads i.artifact_id i.slug (new_link i ∷ rows)
  inserted-Leads rows new_id new_slug none_active = (
    rw new_id (rw new_slug (rw none_active refl)),
    record {
      link = new_link i;
      found = ground (arith, eq_iff i.slug i.slug);
      same_artifact = ground (arith, eq_iff i.artifact_id i.artifact_id);
      is_live = refl;
    },
  )

  chosen :
      (t : PublicationTables)
      → IsWellFormed t
      → IsFresh i t
      → (mode : LinkMode) → (o : Option ShareLinkRow)
      → newest_link (is_active_of i.artifact_id) t.links ≡ o
      → (slug : String) × (rows : List ShareLinkRow) × (choose_link i o mode t.links
          ≡ some (slug, rows))
        × Leads i.artifact_id slug rows
  chosen t v f mode none e =
      let (done, leads) =
        inserted-Leads t.links f.link_id f.slug
          (newest-none (is_active_of i.artifact_id) link_created t.links e) in
      (i.slug, new_link i ∷ t.links, done, leads)
  chosen t v f reuse (some l) e =
      let holds : is_active_of i.artifact_id l ≡ true =
        newest-All (λ r. is_active_of i.artifact_id r ≡ true) link_created _ l
          (select_where-holds (is_active_of i.artifact_id) t.links) e in
      (
        l.slug,
        t.links,
        refl,
        record {
          link = l;
          found =
              newest-All (λ r. find_where (has_slug r.slug) t.links ≡ some r) link_created _ l
                (select_where-Finds (is_active_of i.artifact_id) t.links v.unique_slugs) e;
          same_artifact = ground arith;
          is_live = ground arith;
        },
      )
  chosen t v f replace (some l) e =
      let rows = update_where (has_link_id l.id) (retire_link i.now) t.links in
      let (done, leads) =
        inserted-Leads rows
          (find_where-update_where (has_link_id i.link_id) (has_link_id l.id) (retire_link i.now)
              (λ r. refl) t.links
            ∙ ap (Option.map _) f.link_id)
          (find_where-update_where (has_slug i.slug) (has_link_id l.id) (retire_link i.now)
              (λ r. refl) t.links
            ∙ ap (Option.map _) f.slug)
          (retired-active i.artifact_id i.now t.links l v.one_active e) in
      (i.slug, new_link i ∷ rows, done, leads)

  -- The rows after the end of the current publication: the id is still new, no publication is
  -- current, and the times of creation are what they were.
  pub ended :
      (t : PublicationTables)
      → IsWellFormed t
      → IsFresh i t
      → (o : Option PublicationRow)
      → newest_publication (is_current_of i.artifact_id) t.publications ≡ o
      → (find_where (has_publication_id i.id) (end_current i o t.publications) ≡ none)
        × (find_where (is_current_of i.artifact_id) (end_current i o t.publications) ≡ none)
  ended t v f none e =
      (f.id, newest-none (is_current_of i.artifact_id) publication_created t.publications e)
  ended t v f (some p) e = (
    find_where-update_where (has_publication_id i.id) (has_publication_id p.id) (supersede i.now)
          (λ r. refl) t.publications
        ∙ ap (Option.map _) f.id,
    superseded-current i.artifact_id i.now t.publications p v.one_current e,
  )

abbrev pub Earlier : PublishInput → PublicationRow → Type 0
Earlier i p = publication_of i.artifact_id p ≡ true → p.created_at < i.began

ended-Earlier :
    (i : PublishInput) (o : Option PublicationRow) (rows : List PublicationRow)
    → All (Earlier i) rows
    → All (Earlier i) (end_current i o rows)
ended-Earlier i none rows h = h
ended-Earlier i (some p) rows h =
    update_where-All (has_publication_id p.id) (supersede i.now) (Earlier i) rows (λ r k. k) h

-- The new row is the newest publication of its artifact.
new-newest :
    (i : PublishInput) (rows : List PublicationRow)
    → All (Earlier i) rows
    → newest_publication (publication_of i.artifact_id) (new_publication i ∷ rows)
      ≡ some (new_publication i)
new-newest i rows h =
    let own : str_eq i.artifact_id i.artifact_id ≡ true =
      (eq_iff i.artifact_id i.artifact_id).1 refl in
    rw own (
      newest-cons publication_created (new_publication i)
        (select_where (publication_of i.artifact_id) rows)
        (select_where-All (publication_of i.artifact_id) (λ p. p.created_at < i.began) rows h))

-- The tests that a call of `publish` passes: the caller owns the artifact, the key is not used, no
-- governance block, the version is ready and the expiry lies ahead.
pub record MayPublish (i : PublishInput) (t : PublicationTables) : Type 0 where
  pub owned : is_some (find_where (is_owned i.owner_user_id i.artifact_id) t.artifacts) ≡ true
  pub first : find_where (is_scope i) t.idempotency ≡ none
  pub unblocked : is_blocked i.artifact_id t ≡ false
  pub ready : is_some (find_where (is_ready_version i) t.versions) ≡ true
  pub ahead : has_expired (expiration_values i.expiration i.now).expires_at i.now ≡ false

publish-ready :
    (c : Cipher) (i : PublishInput) (t : PublicationTables)
    → MayPublish i t
    → publish c i t ≡ publish_ready c i t
unfolding publish
publish-ready c i t m = ground (arith, m.owned, m.first, m.unblocked, m.ready, m.ahead)

-- The tables of a call that has published.
abbrev pub published_tables :
    Cipher → PublishInput → String → List ShareLinkRow → PublicationTables → PublicationTables
published_tables c i slug links t =
    (conclude_publish c i t (some (slug, links)) (
      some (
        new_publication i
        ∷ end_current i (newest_publication (is_current_of i.artifact_id) t.publications)
            t.publications))).1

pub published-as :
    (c : Cipher) (i : PublishInput) (t : PublicationTables)
    → IsWellFormed t
    → IsFresh i t
    → MayPublish i t
    → (slug : String) × (links : List ShareLinkRow) × (publish c i t ≡ (
      some (published (publication_view (new_publication i)) slug),
      published_tables c i slug links t,
    ))
      × Leads i.artifact_id slug links
published-as c i t v f m =
    let (slug, links, chose, leads) = chosen i t v f i.link_mode _ refl in
    let (new_id, no_current) = ended i t v f _ refl in
    (
      slug,
      links,
      publish-ready c i t m ∙ rw (chose, publish_ready) (rw new_id (rw no_current refl)),
      leads,
    )

resolves-to :
    (i : PublishInput) (slug : String) (now : ℕ) (t : PublicationTables)
    → Leads i.artifact_id slug t.links
    → newest_publication (publication_of i.artifact_id) t.publications ≡ some (new_publication i)
    → is_blocked i.artifact_id t ≡ false
    → has_expired (expiration_values i.expiration i.now).expires_at now ≡ false
    → resolve_share_slug slug now t ≡ resolved i.id i.version_id
unfolding resolve_share_slug
resolves-to i slug now t l newest_one unblocked ahead =
    let same : l.link.artifact_id ≡ i.artifact_id = (eq_iff _ _).0 l.same_artifact in
    rw (l.found, resolve_link)
      (rw l.is_live (rw same (rw newest_one (rw ahead (rw unblocked refl)))))

-- On well-formed tables, with new identifiers and with all earlier publications of the artifact
-- created before this transaction began, a call of `publish` that passes the tests succeeds: it
-- answers the new publication and a slug, and that slug resolves to the new publication and its
-- version at every time before the expiry.
pub publish_resolves :
    (c : Cipher) (i : PublishInput) (t : PublicationTables)
    → IsWellFormed t
    → IsFresh i t
    → MayPublish i t
    → All (Earlier i) t.publications
    → (slug : String) × (t' : PublicationTables) × (publish c i t
        ≡ (some (published (publication_view (new_publication i)) slug), t'))
      × ((later : ℕ)
          → has_expired (expiration_values i.expiration i.now).expires_at later ≡ false
          → resolve_share_slug slug later t' ≡ resolved i.id i.version_id)
publish_resolves c i t v f m earlier =
    let (slug, links, e, leads) = published-as c i t v f m in
    (
      slug,
      published_tables c i slug links t,
      e,
      λ later ahead.
          resolves-to i slug later (published_tables c i slug links t) leads
            (new-newest i _ (ended-Earlier i _ t.publications earlier)) m.unblocked ahead,
    )
