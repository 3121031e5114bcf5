-- ===== src/Publication/Viewing.antt =====
-- What a viewer is given, and what a refused publication leaves.
use mathlib.Core.Option
use share_slices.Base.{
  ℕ, String, eq_iff, ◌≡◌, ◌⊎◌, refl, sym, ap, subst, ◌∙◌, true, Option, none, some, [], ◌∷◌, arith,
  Option-cases, inl, inr, is_some, find_where, find_where_holds, Text, text_eq_iff,
}
use share_slices.Publication.Rows.{VersionRow}
use share_slices.Publication.Store.{is_owned}
use share_slices.Publication.Sharing.{resolve_share_slug, ShareResolution, resolved}
use share_slices.Publication.Assets.{
  AssetRow, ManifestRow, ContentTables, ContentAsset, ReadyVersionAccess, asset_view, is_ready,
  is_owned_ready, is_in_bundle, is_asset_at, asset_of, manifest_of, asset_at_entry, find_asset,
  find_entry_asset, find_owned_ready_version,
}
use share_slices.Publication.Paths.{normalize_content_path, decode_uri_component}
use share_slices.Publication.Paths.Decoding.{IsContentPath, normalize_content_path_iff}
use share_slices.Publication.Viewer.{
  Answer, answered, failed, asset_at, requested_asset, preview, preview_found, resolve_viewer,
  resolve_asset, authorize, authorized,
}
use share_slices.Publication.Resolution.{Shows, resolve_share_slug_iff}

-- The asset is a file of the ready version's bundle.
pub record IsContent (version : String) (a : ContentAsset) (t : ContentTables) : Type 0 where
  pub row : VersionRow
  pub file : AssetRow
  pub ready : find_where (is_ready version) t.publication_tables.versions ≡ some row
  pub bundled : is_in_bundle row.content_bundle_id file.bundle_id ≡ true
  pub shown : a ≡ asset_view row.id file

-- It stands at the entry path of the bundle's manifest, or at the decoded path, a safe one.
abbrev pub IsRequested : String → Text → ContentAsset → ContentTables → Type 0
IsRequested version raw a t =
    ((raw ≡ [])
      × ((m : ManifestRow) × (manifest_of
              (find_where (is_ready version) t.publication_tables.versions) t.manifests
            ≡ some m)
          × (a.path ≡ m.entry_path)))
    ⊎ ((decode_uri_component raw ≡ some a.path) × IsContentPath a.path)

module _ (version : String) (a : ContentAsset) (t : ContentTables) where
  asset_of-IsContent :
      (path : Text) (o : Option VersionRow)
      → find_where (is_ready version) t.publication_tables.versions ≡ o
      → asset_of path t.assets o ≡ some a
      → IsContent version a t × (a.path ≡ path)
  asset_of-IsContent path none e h = absurd (ground arith)
  asset_of-IsContent path (some v) e h =
      let (f, found, same) = (Option.map-eq-some_iff _ _).0 h in
      let holds : is_asset_at v.content_bundle_id path f ≡ true =
        find_where_holds (is_asset_at v.content_bundle_id path) t.assets f found in
      (
        record { row = v; file = f; ready = e; bundled = ground arith; shown = sym same },
        ap (λ (x : ContentAsset). x.path) (sym same) ∙ (text_eq_iff f.path path).0 (ground arith),
      )

  entry-IsContent :
      (m : Option ManifestRow)
      → manifest_of (find_where (is_ready version) t.publication_tables.versions) t.manifests ≡ m
      → asset_at_entry (find_where (is_ready version) t.publication_tables.versions) t.assets m
        ≡ some a
      → IsContent version a t
        × ((n : ManifestRow) × (manifest_of
                (find_where (is_ready version) t.publication_tables.versions)
                t.manifests
              ≡ some n)
            × (a.path ≡ n.entry_path))
  entry-IsContent none e h = absurd (ground arith)
  entry-IsContent (some m) e h =
      let (content, same) = asset_of-IsContent m.entry_path _ refl h in (content, (m, e, same))

  at-IsContent :
      (raw : Text) (o : Option Text)
      → normalize_content_path raw ≡ o
      → asset_at version t o ≡ answered a
      → IsContent version a t × IsRequested version raw a t
  unfolding find_asset
  at-IsContent raw none e h = absurd (ground arith)
  at-IsContent raw (some p) e h =
      let found : find_asset version p t ≡ some a = elim (Option-cases (find_asset version p t)) [
        | inl n ↦ absurd (ground arith)
        | inr (x, n) ↦ ground arith
      ] in
      let (content, same) = asset_of-IsContent p _ refl found in
      let (decoded, path) = (normalize_content_path_iff raw p).0 e in
      (content, inr (rw same (decoded, path)))

  asset_for-IsContent :
      (raw : Text)
      → requested_asset version raw t ≡ answered a
      → IsContent version a t × IsRequested version raw a t
  unfolding find_entry_asset
  asset_for-IsContent [] h =
      let found : find_entry_asset version t ≡ some a =
        elim (Option-cases (find_entry_asset version t)) [
          | inl n ↦ absurd (ground arith)
          | inr (x, n) ↦ ground arith
        ] in
      let (content, entry) = entry-IsContent _ refl found in (content, inl (refl, entry))
  asset_for-IsContent (x ∷ raw) h = at-IsContent (x ∷ raw) _ refl h

authorized-IsContent :
    (slug raw : _) (now : ℕ) (t : ContentTables) (id : String) (a : ContentAsset)
    (r : ShareResolution)
    → resolve_share_slug slug now t.publication_tables ≡ r
    → resolve_asset raw t r ≡ answered (authorized id a)
    → (version : String) × Shows slug id version now t.publication_tables
      × IsContent version a t
      × IsRequested version raw a t
authorized-IsContent slug raw now t id a (resolved p v) e h =
    by_asset (requested_asset v raw t) refl (ground arith)
  where
    by_asset :
        (o : Answer ContentAsset)
        → requested_asset v raw t ≡ o
        → authorize p o ≡ answered (authorized id a)
        → (version : String) × Shows slug id version now t.publication_tables
          × IsContent version a t
          × IsRequested version raw a t
    by_asset (failed code) f g = absurd (ground arith)
    by_asset (answered b) f g =
        let same_id : p ≡ id = ground arith in
        let same : b ≡ a = ground arith in
        (
          v,
          (resolve_share_slug_iff slug id v now t.publication_tables).0
              (e ∙ ap (λ x. resolved x v) same_id),
          (asset_for-IsContent v a t raw (f ∙ ap answered same)).0,
          (asset_for-IsContent v a t raw (f ∙ ap answered same)).1,
        )
authorized-IsContent slug raw now t id a r e h = absurd (ground arith)

-- An asset that `resolveViewer` hands out for a share link is a file in the bundle of the version
-- that the link's current, unexpired and unblocked publication shows; for an empty path it stands at
-- the entry path of that version's manifest, and otherwise at the decoded path, which is safe.
pub resolve_viewer_asset :
    (slug : String) (raw : Text) (now : ℕ) (t : ContentTables) (id : String) (a : ContentAsset)
    → resolve_viewer slug raw now t ≡ answered (authorized id a)
    → (version : String) × Shows slug id version now t.publication_tables
      × IsContent version a t
      × IsRequested version raw a t
unfolding resolve_viewer
resolve_viewer_asset slug raw now t id a h = authorized-IsContent slug raw now t id a _ refl h

previewed-IsContent :
    (raw : Text) (t : ContentTables) (a : ContentAsset) (o : Option ReadyVersionAccess)
    → preview_found raw t o ≡ answered a
    → (v : ReadyVersionAccess) × (o ≡ some v) × IsContent v.id a t × IsRequested v.id raw a t
previewed-IsContent raw t a none h = absurd (ground arith)
previewed-IsContent raw t a (some v) h =
    let (content, requested) = asset_for-IsContent v.id a t raw h in (v, refl, content, requested)

owned-ready :
    (owner version : String) (t : ContentTables) (v : ReadyVersionAccess)
    → find_owned_ready_version owner version t ≡ some v
    → (v.id ≡ version)
      × (is_some (find_where (is_owned owner v.artifact_id) t.publication_tables.artifacts) ≡ true)
unfolding find_owned_ready_version
owned-ready owner version t v h =
    let (row, found, same) = (Option.map-eq-some_iff _ _).0 h in
    let holds : is_owned_ready owner version t.publication_tables row ≡ true =
      find_where_holds (is_owned_ready owner version t.publication_tables)
        t.publication_tables.versions row found in
    let own : is_some (find_where (is_owned owner row.artifact_id) t.publication_tables.artifacts)
        ≡ true =
      ground arith in
    (
      ap (λ (x : ReadyVersionAccess). x.id) (sym same) ∙ (eq_iff row.id version).0 (ground arith),
      subst
          (λ (x : ReadyVersionAccess).
            is_some (find_where (is_owned owner x.artifact_id) t.publication_tables.artifacts)
            ≡ true)
          same own,
    )

-- An asset that `preview` answers is a file in the bundle of the ready version that was asked for,
-- of an artifact that the caller owns; it stands at the entry path of that version's manifest for
-- an empty path, and otherwise at the decoded path, which is safe.
preview_asset :
    (owner version : String) (raw : Text) (t : ContentTables) (a : ContentAsset)
    → preview owner version raw t ≡ answered a
    → (artifact : String) × (is_some
          (find_where (is_owned owner artifact) t.publication_tables.artifacts)
        ≡ true)
      × IsContent version a t
      × IsRequested version raw a t
unfolding preview
preview_asset owner version raw t a h =
    let (v, found, content, requested) =
      previewed-IsContent raw t a (find_owned_ready_version owner version t) h in
    let (same, own) = owned-ready owner version t v found in
    (
      v.artifact_id,
      own,
      subst (λ x. IsContent x a t) same content,
      subst (λ x. IsRequested x raw a t) same requested,
    )
