-- ===== src/Publication/Assets.antt =====
-- The queries of publication-content-repository.ts on versions and their content:
-- `findOwnedReadyVersion`, `findAsset`, `findEntryAsset` and `findOwnedVersionExport`. An inner
-- join on a primary key is a lookup in the first table and then in the second.
use mathlib.Core.Option
use share_slices.Base.{
  ℕ, String, str_eq, Bool, false, ◌&&◌, Option, none, some, List, [], ◌∷◌, if◌then◌else◌, is_some,
  find_where, select_where, map, Text, text_eq,
}
use share_slices.Publication.Rows.{VersionRow, PublicationTables}
use share_slices.Publication.Store.{is_owned}

pub record AssetRow : Type 0 where
  pub bundle_id : String
  pub path : Text
  pub object_key : String
  pub size_bytes : ℕ
  pub content_type : String
  pub sha256 : Option String

pub record ManifestRow : Type 0 where
  pub bundle_id : String
  pub entry_path : Text

pub record ContentTables : Type 0 where
  pub publication_tables : PublicationTables
  pub assets : List AssetRow
  pub manifests : List ManifestRow

pub record ContentAsset : Type 0 where
  pub version_id : String
  pub path : Text
  pub object_key : String
  pub size_bytes : ℕ
  pub content_type : String
  pub sha256 : Option String

pub record ReadyVersionAccess : Type 0 where
  pub id : String
  pub artifact_id : String

pub record VersionExport : Type 0 where
  pub artifact_id : String
  pub artifact_name : String
  pub assets : List ContentAsset

abbrev pub asset_view : String → AssetRow → ContentAsset
asset_view version a = record {
  version_id = version;
  path = a.path;
  object_key = a.object_key;
  size_bytes = a.size_bytes;
  content_type = a.content_type;
  sha256 = a.sha256;
}

abbrev pub is_ready : String → VersionRow → Bool
is_ready version v = str_eq v.id version && v.ready

abbrev pub is_owned_ready : String → String → PublicationTables → VersionRow → Bool
is_owned_ready owner version t v =
    is_ready version v && is_some (find_where (is_owned owner v.artifact_id) t.artifacts)

unfoldable pub find_owned_ready_version :
    String → String → ContentTables → Option ReadyVersionAccess
find_owned_ready_version owner version t =
    Option.map (λ (v : VersionRow). record { id = v.id; artifact_id = v.artifact_id })
      (find_where (is_owned_ready owner version t.publication_tables) t.publication_tables.versions)

-- A version without a bundle joins with nothing.
abbrev pub is_in_bundle : Option String → String → Bool
is_in_bundle none bundle = false
is_in_bundle (some b) bundle = str_eq b bundle

abbrev pub is_asset_at : Option String → Text → AssetRow → Bool
is_asset_at bundle path a = is_in_bundle bundle a.bundle_id && text_eq a.path path

abbrev pub asset_of : Text → List AssetRow → Option VersionRow → Option ContentAsset
asset_of path assets none = none
asset_of path assets (some v) =
    Option.map (asset_view v.id) (find_where (is_asset_at v.content_bundle_id path) assets)

unfoldable pub find_asset : String → Text → ContentTables → Option ContentAsset
find_asset version path t =
    asset_of path t.assets (find_where (is_ready version) t.publication_tables.versions)

abbrev pub manifest_of : Option VersionRow → List ManifestRow → Option ManifestRow
manifest_of none manifests = none
manifest_of (some v) manifests =
    find_where (λ (m : ManifestRow). is_in_bundle v.content_bundle_id m.bundle_id) manifests

abbrev pub asset_at_entry :
    Option VersionRow → List AssetRow → Option ManifestRow → Option ContentAsset
asset_at_entry v assets none = none
asset_at_entry v assets (some m) = asset_of m.entry_path assets v

unfoldable pub find_entry_asset : String → ContentTables → Option ContentAsset
find_entry_asset version t =
    let v = find_where (is_ready version) t.publication_tables.versions in
    asset_at_entry v t.assets (manifest_of v t.manifests)

-- `orderBy(path)` in the collation of the database.
module _ (path_le : Text → Text → Bool) where
  pub insert_asset : ContentAsset → List ContentAsset → List ContentAsset
  insert_asset a [] = a ∷ []
  insert_asset a (b ∷ bs) =
      let rest = insert_asset a bs in if path_le a.path b.path then a ∷ b ∷ bs else b ∷ rest

  pub sort_assets : List ContentAsset → List ContentAsset
  sort_assets [] = []
  sort_assets (a ∷ rest) = insert_asset a (sort_assets rest)

  abbrev pub export_found : String → ContentTables → Option VersionRow → Option VersionExport
  export_found owner t none = none
  export_found owner t (some v) =
      Option.map
        (λ a. record {
          artifact_id = a.id;
          artifact_name = a.name;
          assets = sort_assets (
              map (asset_view v.id) (
                select_where (λ (r : AssetRow). is_in_bundle v.content_bundle_id r.bundle_id)
                  t.assets));
        })
        (find_where (is_owned owner v.artifact_id) t.publication_tables.artifacts)

  pub find_owned_version_export : String → String → ContentTables → Option VersionExport
  find_owned_version_export owner version t =
      export_found owner t (
        find_where (is_owned_ready owner version t.publication_tables)
          t.publication_tables.versions)
