-- ===== src/Publication/ViewerTests.antt =====
-- Runs of the viewer's service, and the examples of its theorems.
use share_slices.Base.{
  String, ◌≡◌, refl, Bool, false, none, [], ◌∷◌, units, text_eq, split_on, join_with,
}
use share_slices.Publication.Store.{PublishInput, publish}
use share_slices.Publication.Sharing.{resolve_share_slug}
use share_slices.Publication.Assets.{
  ContentTables, ContentAsset, find_asset, find_entry_asset, find_owned_ready_version,
}
use share_slices.Publication.Paths.{normalize_content_path, decode_uri_component, scan, decode}
use share_slices.Publication.Viewer.{
  answered, failed, invalid_request, preview, resolve_viewer, authorized, publish_version,
}
use share_slices.Publication.Viewing.{IsContent, IsRequested, resolve_viewer_asset}
use share_slices.Publication.Resolution.{Shows}
use share_slices.Publication.Refusals.{publish_version_failed}
use share_slices.Publication.Tests.{plain_cipher, site, first, after_first}

abbrev content : ContentTables
content = record {
  publication_tables = after_first;
  assets =
      record {
        bundle_id = "b1";
        path = units "css/x.css";
        object_key = "o1";
        size_bytes = 12;
        content_type = "text/css";
        sha256 = none;
      }
      ∷ record {
        bundle_id = "b1";
        path = units "index.html";
        object_key = "o2";
        size_bytes = 34;
        content_type = "text/html";
        sha256 = none;
      }
      ∷ [];
  manifests = record { bundle_id = "b1"; entry_path = units "index.html" } ∷ [];
}

abbrev style : ContentAsset
style = record {
  version_id = "v1";
  path = units "css/x.css";
  object_key = "o1";
  size_bytes = 12;
  content_type = "text/css";
  sha256 = none;
}

abbrev entry : ContentAsset
entry = record {
  version_id = "v1";
  path = units "index.html";
  object_key = "o2";
  size_bytes = 34;
  content_type = "text/html";
  sha256 = none;
}

style_shown :
    resolve_viewer "s1" (units "css%2Fx.css") 2000 content ≡ answered (authorized "p1" style)
unfolding resolve_viewer resolve_share_slug publish find_asset normalize_content_path
    decode_uri_component scan decode split_on join_with text_eq
style_shown = refl

entry_previewed : preview "ann" "v1" [] content ≡ answered entry
unfolding preview find_owned_ready_version publish find_entry_asset text_eq
entry_previewed = refl

resolve_viewer_asset_example :
    (version : String) × Shows "s1" "p1" version 2000 after_first
    × IsContent version style content
    × IsRequested version (units "css%2Fx.css") style content
resolve_viewer_asset_example =
    resolve_viewer_asset "s1" (units "css%2Fx.css") 2000 content "p1" style style_shown

abbrev url : String → String
url slug = slug

abbrev hash : PublishInput → Bool → String
hash i confirmed = i.version_id

unconfirmed :
    (publish_version plain_cipher url hash first false 1000 site).0 ≡ failed invalid_request
unfolding publish_version
unconfirmed = refl

publish_version_failed_example :
    (publish_version plain_cipher url hash first false 1000 site).1 ≡ site
publish_version_failed_example =
    publish_version_failed plain_cipher url hash first false 1000 site invalid_request unconfirmed
