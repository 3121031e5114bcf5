-- ===== src/Publication/Resolution.antt =====
-- When `resolveShareSlug` answers a publication, also after `unpublish`.
use share_slices.Base.{
  ◌≤◌, ◌<◌, ◌⊎◌, inl, inr, Bool-cases, Option-cases, subst, ltb, select_where, str_eq, ℕ, String,
  eq_iff, ◌≡◌, ◌≢◌, ◌↔◌, refl, sym, ap, ◌∙◌, Bool, true, false, Option, none, some, List, [], ◌∷◌,
  arith, is_some, All, All-mono, find_where, update_where,
}
use share_slices.Publication.Rows.{
  active, ended_unpublished, PublicationRow, ShareLinkRow, PublicationTables, is_open,
  publication_of, publication_created, newest_publication, is_active, is_blocked, has_expired,
  newest, is_listed_in,
}
use share_slices.Publication.Store.{is_owned, has_slug}
use share_slices.Publication.Sharing.{
  unpublish, is_open_publication, end_unpublished, is_unpublished, resolve_share_slug, resolve_link,
  resolve_publication, resolved,
}
use share_slices.Publication.Newest.{newest-All, select_where-All, select_where-holds}

-- The publication that a slug leads to, and that may be shown.
pub record Shows (slug id version : String) (now : ℕ) (t : PublicationTables) : Type 0 where
  pub link : ShareLinkRow
  pub publication : PublicationRow
  pub found : find_where (has_slug slug) t.links ≡ some link
  pub live : is_active link.status ≡ true
  pub newest_one :
      newest_publication (publication_of link.artifact_id) t.publications ≡ some publication
  pub reason : is_unpublished publication.end_reason ≡ false
  pub opened : is_open publication ≡ true
  pub ahead : has_expired publication.expires_at now ≡ false
  pub unblocked : is_blocked link.artifact_id t ≡ false
  pub same_id : publication.id ≡ id
  pub same_version : publication.version_id ≡ version

module _ (slug id version : String) (now : ℕ) (t : PublicationTables) where
  by_publication :
      (l : ShareLinkRow) (o : Option PublicationRow)
      → find_where (has_slug slug) t.links ≡ some l
      → is_active l.status ≡ true
      → newest_publication (publication_of l.artifact_id) t.publications ≡ o
      → resolve_publication l.artifact_id now t o ≡ resolved id version
      → Shows slug id version now t
  by_publication l none found live e h = absurd (ground arith)
  by_publication l (some p) found live e h = record {
    link = l;
    publication = p;
    found = found;
    live = live;
    newest_one = e;
    reason = ground arith;
    opened = ground arith;
    ahead = ground arith;
    unblocked = ground arith;
    same_id = ground arith;
    same_version = ground arith;
  }

  by_link :
      (o : Option ShareLinkRow)
      → find_where (has_slug slug) t.links ≡ o
      → resolve_link now t o ≡ resolved id version
      → Shows slug id version now t
  by_link none e h = absurd (ground arith)
  by_link (some l) e h = by_publication l _ e (ground arith) refl (ground arith)

  -- A slug resolves to a publication and its version exactly when an active link has the slug,
  -- the publication is the newest of the link's artifact, it is not ended and not expired, and the
  -- artifact has neither a sharing restriction nor a takedown.
  pub resolve_share_slug_iff :
      (resolve_share_slug slug now t ≡ resolved id version) ↔ Shows slug id version now t
  unfolding resolve_share_slug
  resolve_share_slug_iff = (
    by_link (find_where (has_slug slug) t.links) refl,
    λ w.
        rw (w.found, resolve_link)
          (rw w.live (
            rw (w.newest_one, resolve_publication)
              (rw w.reason (
                rw w.opened
                  (rw w.ahead (rw w.unblocked (rw w.same_id (rw w.same_version refl)))))))),
  )

newest-least :
    (rows : List PublicationRow) (p : PublicationRow)
    → newest publication_created rows ≡ some p
    → All (λ r. r.created_at ≤ p.created_at) rows
newest-least [] p e = tt
newest-least (r ∷ rows) p e = elim (Option-cases (newest publication_created rows)) [
  | inl alone ↦
      let same : ◌≡◌ {A = Option PublicationRow} (some r) (some p) = ground (arith, alone, e) in
      let row : r ≡ p = cc (same) in
      (ground (arith, ap publication_created row), no_newest rows p alone)
  | inr (x, found) ↦
      let older = newest-least rows x found in
      elim (Bool-cases (ltb r.created_at x.created_at)) [
        | inl on ↦
            let same : ◌≡◌ {A = Option PublicationRow} (some x) (some p) =
              ground (arith, found, on, e) in
            let row : x ≡ p = cc (same) in
            (
              ground (arith, on, ap publication_created row),
              subst (λ y. All (λ r. r.created_at ≤ y.created_at) rows) row older,
            )
        | inr off ↦
            let same : ◌≡◌ {A = Option PublicationRow} (some r) (some p) =
              ground (arith, found, off, e) in
            let row : r ≡ p = cc (same) in
            (
              ground (arith, ap publication_created row),
              All-mono (λ s. s.created_at ≤ x.created_at) (λ s. s.created_at ≤ p.created_at)
                  (λ s le. ground (arith, le, off, ap publication_created row)) rows older,
            )
      ]
]
  where
    no_newest :
        (rows : List PublicationRow) (p : PublicationRow)
        → newest publication_created rows ≡ none
        → All (λ r. r.created_at ≤ p.created_at) rows
    no_newest [] p e = tt
    no_newest (r ∷ rows) p e = elim (Option-cases (newest publication_created rows)) [
      | inl alone ↦ ground (arith, alone, e)
      | inr (x, found) ↦ elim (Bool-cases (ltb r.created_at x.created_at)) [
        | inl on ↦ ground (arith, found, on, e)
        | inr off ↦ ground (arith, found, off, e)
      ]
    ]

-- The row stands in the table.
abbrev pub Among : PublicationRow → List PublicationRow → Type 0
Among p [] = ⊥
Among p (r ∷ rows) = (r ≡ p) ⊎ Among p rows

newest-Among :
    (rows : List PublicationRow) (p : PublicationRow)
    → newest publication_created rows ≡ some p
    → Among p rows
newest-Among [] p e = cc
newest-Among (r ∷ rows) p e = elim (Option-cases (newest publication_created rows)) [
  | inl alone ↦
      let same : ◌≡◌ {A = Option PublicationRow} (some r) (some p) = ground (arith, alone, e) in
      inl (cc (same))
  | inr (x, found) ↦ elim (Bool-cases (ltb r.created_at x.created_at)) [
    | inl on ↦
        let same : ◌≡◌ {A = Option PublicationRow} (some x) (some p) =
          ground (arith, found, on, e) in
        inr (newest-Among rows p (found ∙ same))
    | inr off ↦
        let same : ◌≡◌ {A = Option PublicationRow} (some r) (some p) =
          ground (arith, found, off, e) in
        inl (cc (same))
  ]
]

select-Among :
    (artifact : String) (rows : List PublicationRow) (p : PublicationRow)
    → Among p (select_where (publication_of artifact) rows)
    → Among p rows
select-Among artifact [] p e = e
select-Among artifact (r ∷ rows) p e = elim (Bool-cases (publication_of artifact r)) [
  | inl on ↦
      let taken : Among p (r ∷ select_where (publication_of artifact) rows) =
        subst (λ s. Among p s) (select_taken on) e in
      elim taken [ inl same ↦ inl same | inr later ↦ inr (select-Among artifact rows p later) ]
  | inr off ↦ inr (select-Among artifact rows p (subst (λ s. Among p s) (select_left off) e))
]
  where
    select_taken :
        publication_of artifact r ≡ true
        → select_where (publication_of artifact) (r ∷ rows)
          ≡ r ∷ select_where (publication_of artifact) rows
    select_taken on = ground (arith, on)

    select_left :
        publication_of artifact r ≡ false
        → select_where (publication_of artifact) (r ∷ rows)
          ≡ select_where (publication_of artifact) rows
    select_left off = ground (arith, off)

-- The rows of other artifacts, and those that are not younger.
abbrev pub IsNoYounger : PublicationRow → PublicationRow → Type 0
IsNoYounger p r = (r.artifact_id ≢ p.artifact_id) ⊎ (r.created_at ≤ p.created_at)

select-IsNoYounger :
    (p : PublicationRow) (rows : List PublicationRow)
    → All (λ r. r.created_at ≤ p.created_at) (select_where (publication_of p.artifact_id) rows)
    → All (IsNoYounger p) rows
select-IsNoYounger p [] h = tt
select-IsNoYounger p (r ∷ rows) h = elim (Bool-cases (publication_of p.artifact_id r)) [
  | inl on ↦
      let taken : All (λ s. s.created_at ≤ p.created_at)
          (r ∷ select_where (publication_of p.artifact_id) rows) =
        subst (All (λ s. s.created_at ≤ p.created_at)) (select_taken on) h in
      (inr taken.0, select-IsNoYounger p rows taken.1)
  | inr off ↦ (
    inl (λ same. cc ((eq_iff r.artifact_id p.artifact_id).1 same, off)),
    select-IsNoYounger p rows (subst (All (λ s. s.created_at ≤ p.created_at)) (select_left off) h),
  )
]
  where
    select_taken :
        publication_of p.artifact_id r ≡ true
        → select_where (publication_of p.artifact_id) (r ∷ rows)
          ≡ r ∷ select_where (publication_of p.artifact_id) rows
    select_taken on = ground (arith, on)

    select_left :
        publication_of p.artifact_id r ≡ false
        → select_where (publication_of p.artifact_id) (r ∷ rows)
          ≡ select_where (publication_of p.artifact_id) rows
    select_left off = ground (arith, off)

unlisted-All :
    (artifact : String) (names : List String)
    → is_listed_in artifact names ≡ false
    → All (λ name. name ≢ artifact) names
unlisted-All artifact [] e = tt
unlisted-All artifact (name ∷ names) e = (
  λ same. ground (arith, (eq_iff name artifact).1 same, e),
  unlisted-All artifact names (ground (arith, e)),
)

-- What a visitor may be shown under a slug: the link, and the publication that is the newest of the
-- link's artifact, neither ended nor expired, of an artifact that nothing blocks.
pub record IsShown (slug id version : String) (now : ℕ) (t : PublicationTables) : Type 0 where
  pub link : ShareLinkRow
  pub publication : PublicationRow
  pub found : find_where (λ (l : ShareLinkRow). str_eq l.slug slug) t.links ≡ some link
  pub live : link.status ≡ active
  pub own : publication.artifact_id ≡ link.artifact_id
  pub stored : Among publication t.publications
  pub newest_one : All (IsNoYounger publication) t.publications
  pub unended : publication.ended_at ≡ none
  pub reason : publication.end_reason ≢ some ended_unpublished
  pub ahead :
      (publication.expires_at ≡ none) ⊎ ((at : ℕ) × (publication.expires_at ≡ some at) × (now < at))
  pub unrestricted : All (λ a. a ≢ link.artifact_id) t.restricted_artifacts
  pub untaken : All (λ a. a ≢ link.artifact_id) t.taken_down_artifacts
  pub same_id : publication.id ≡ id
  pub same_version : publication.version_id ≡ version

-- A slug resolves to a publication and its version only if the first link with the slug is active,
-- the publication is stored and none of the same artifact is younger, it is neither ended nor
-- expired, and the link's artifact has neither a sharing restriction nor a takedown.
pub resolve_share_slug-IsShown :
    (slug id version : String) (now : ℕ) (t : PublicationTables)
    → resolve_share_slug slug now t ≡ resolved id version
    → IsShown slug id version now t
resolve_share_slug-IsShown slug id version now t e =
    let w = (resolve_share_slug_iff slug id version now t).0 e in
    let rows = select_where (publication_of w.link.artifact_id) t.publications in
    let own : w.publication.artifact_id ≡ w.link.artifact_id =
      (eq_iff w.publication.artifact_id w.link.artifact_id).0 (
        newest-All (λ r. publication_of w.link.artifact_id r ≡ true) publication_created rows
          w.publication (select_where-holds (publication_of w.link.artifact_id) t.publications)
          w.newest_one) in
    let least = newest-least rows w.publication w.newest_one in
    let unlisted = blocked_parts w.link.artifact_id t w.unblocked in
    record {
      link = w.link;
      publication = w.publication;
      found = w.found;
      live = ground (arith, w.live);
      own = own;
      stored =
          select-Among w.link.artifact_id t.publications w.publication
            (newest-Among rows w.publication w.newest_one);
      newest_one = select-IsNoYounger w.publication t.publications (
          subst
            (λ a.
              All (λ r. r.created_at ≤ w.publication.created_at)
                (select_where (publication_of a) t.publications))
            (sym own) least);
      unended = ground (arith, w.opened);
      reason = λ k. ground (arith, w.reason, k);
      ahead = expiry w.publication.expires_at now w.ahead;
      unrestricted = unlisted-All w.link.artifact_id t.restricted_artifacts unlisted.0;
      untaken = unlisted-All w.link.artifact_id t.taken_down_artifacts unlisted.1;
      same_id = w.same_id;
      same_version = w.same_version;
    }
  where
    expiry :
        (o : Option ℕ) (clock : ℕ)
        → has_expired o clock ≡ false
        → (o ≡ none) ⊎ ((at : ℕ) × (o ≡ some at) × (clock < at))
    expiry none clock e = inl refl
    expiry (some at) clock e = inr (at, refl, ground (arith, e))

    blocked_parts :
        (artifact : String) (x : PublicationTables)
        → is_blocked artifact x ≡ false
        → (is_listed_in artifact x.restricted_artifacts ≡ false)
          × (is_listed_in artifact x.taken_down_artifacts ≡ false)
    blocked_parts artifact x e = (ground (arith, e), ground (arith, e))

unpublished-closed :
    (id artifact : String) (now : ℕ) (rows : List PublicationRow)
    → All
        (λ r. is_open_publication id artifact r ≡ false)
        (update_where (is_open_publication id artifact) (end_unpublished now) rows)
unpublished-closed id artifact now [] = tt
unpublished-closed id artifact now (r ∷ rows) =
    (ground arith, unpublished-closed id artifact now rows)

unpublish-tables :
    (owner artifact id : String) (now : ℕ) (t : PublicationTables)
    → is_some (find_where (is_owned owner artifact) t.artifacts) ≡ true
    → unpublish owner artifact id now t ≡ (
      true,
      record t {
        publications =
            update_where (is_open_publication id artifact) (end_unpublished now) t.publications;
      },
    )
unfolding unpublish
unpublish-tables owner artifact id now t owned = ground (arith, owned)

-- After the owner has unpublished a publication of an artifact, no slug of that artifact resolves
-- to it, at any time and with any version.
pub unpublish_hides :
    (owner artifact id slug version : String) (now later : ℕ) (l : ShareLinkRow)
    (t : PublicationTables)
    → is_some (find_where (is_owned owner artifact) t.artifacts) ≡ true
    → find_where (has_slug slug) t.links ≡ some l
    → l.artifact_id ≡ artifact
    → resolve_share_slug slug later (unpublish owner artifact id now t).1 ≢ resolved id version
unpublish_hides owner artifact id slug version now later l t owned found own e =
    let after : PublicationTables = record t {
      publications =
          update_where (is_open_publication id artifact) (end_unpublished now) t.publications;
    } in
    let shown : resolve_share_slug slug later after ≡ resolved id version =
      ap (λ (x : Bool × PublicationTables). resolve_share_slug slug later x.1)
        (sym (unpublish-tables owner artifact id now t owned))
      ∙ e in
    let w : Shows slug id version later after =
      (resolve_share_slug_iff slug id version later after).0 shown in
    let same : w.link.artifact_id ≡ artifact = ground (arith, w.found) in
    let closed : is_open_publication id artifact w.publication ≡ false =
      newest-All (λ r. is_open_publication id artifact r ≡ false) publication_created _
        w.publication
        (select_where-All (publication_of w.link.artifact_id)
          (λ r. is_open_publication id artifact r ≡ false) after.publications
          (All-mono (λ r. is_open_publication id artifact r ≡ false) _ (λ r q k. q) _
            (unpublished-closed id artifact now t.publications)))
        w.newest_one in
    let own_row : publication_of w.link.artifact_id w.publication ≡ true =
      newest-All (λ r. publication_of w.link.artifact_id r ≡ true) publication_created _
        w.publication (select_where-holds (publication_of w.link.artifact_id) after.publications)
        w.newest_one in
    ground (arith, w.opened, w.same_id, eq_iff w.publication.id id, same)
