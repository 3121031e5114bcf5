-- ===== src/Publication/Viewer.antt =====
-- The class `PublicationViewerService` of publication-viewer.ts over the repository. The request's
-- hash and the link's URL are computed by library calls and are parameters.
use share_slices.Base.{
  ℕ, String, str_eq, Bool, false, not, Option, none, some, leb, ◌==◌, if◌then◌else◌, Text,
}
use share_slices.Publication.Rows.{
  PublicationTables, PublicationView, PublicationExpiration, permanent, duration, exact, LinkMode,
  reuse, replace,
}
use share_slices.Publication.Store.{PublishInput, PublishResult, published, Cipher, publish}
use share_slices.Publication.Sharing.{
  unpublish, update_expiration, resolve_share_slug, ShareResolution, resolved,
}
use share_slices.Publication.Assets.{
  ContentTables, ContentAsset, ReadyVersionAccess, VersionExport, find_owned_ready_version,
  find_asset, find_entry_asset, find_owned_version_export,
}
use share_slices.Publication.Paths.{is_empty, normalize_content_path}

pub data ViewerErrorCode : Type 0 where
  artifact_not_found version_not_found version_not_ready asset_not_found : ViewerErrorCode
  operation_in_progress idempotency_conflict invalid_request : ViewerErrorCode
  invalid_expiration governance_blocked internal : ViewerErrorCode

-- A result, or a `PublicationViewerError` with its code; `internal` is any other exception.
pub data Answer {ℓ} (A : Type ℓ) : Type ℓ where
  answered : A → Answer A
  failed : ViewerErrorCode → Answer A

abbrev pub or_failed {ℓ} : {A : Type ℓ} → ViewerErrorCode → Option A → Answer A
or_failed code none = failed code
or_failed code (some a) = answered a

-- The asset at a normalized path, after the test on a path that was refused.
abbrev pub asset_at : String → ContentTables → Option Text → Answer ContentAsset
asset_at version t none = failed asset_not_found
asset_at version t (some path) = or_failed asset_not_found (find_asset version path t)

-- The part that `preview` and `resolveViewer` share: an empty path is the entry file.
abbrev pub requested_asset : String → Text → ContentTables → Answer ContentAsset
requested_asset version raw t =
    if is_empty raw
    then or_failed asset_not_found (find_entry_asset version t)
    else asset_at version t (normalize_content_path raw)

abbrev pub preview_found : Text → ContentTables → Option ReadyVersionAccess → Answer ContentAsset
preview_found raw t none = failed version_not_found
preview_found raw t (some v) = requested_asset v.id raw t

unfoldable pub preview : String → String → Text → ContentTables → Answer ContentAsset
preview owner version raw t = preview_found raw t (find_owned_ready_version owner version t)

abbrev pub is_other_artifact : Option String → VersionExport → Bool
is_other_artifact none e = false
is_other_artifact (some artifact) e = not (str_eq e.artifact_id artifact)

abbrev pub export_answer : Option String → Option VersionExport → Answer VersionExport
export_answer artifact none = failed version_not_found
export_answer artifact (some e) =
    if is_other_artifact artifact e then failed version_not_found else answered e

pub export_version :
    (Text → Text → Bool) → String → String → Option String → ContentTables → Answer VersionExport
export_version path_le owner version artifact t =
    export_answer artifact (find_owned_version_export path_le owner version t)

-- `durationSeconds <= 0`, or an exact time that is not in the future.
abbrev pub is_invalid_expiration : PublicationExpiration → ℕ → Bool
is_invalid_expiration permanent now = false
is_invalid_expiration (duration seconds) now = seconds == 0
is_invalid_expiration (exact at) now = leb at now

abbrev pub is_unconfirmed : LinkMode → Bool → Bool
is_unconfirmed replace confirm_retire = not confirm_retire
is_unconfirmed reuse confirm_retire = false

pub record PublishedView : Type 0 where
  pub publication : PublicationView
  pub url : String

-- The answer for each result of the repository.
abbrev pub publish_answer : (String → String) → Option PublishResult → Answer PublishedView
publish_answer share_url none = failed internal
publish_answer share_url (some (published p slug)) =
    answered (record { publication = p; url = share_url slug })
publish_answer share_url (some PublishResult.artifact_not_found) = failed artifact_not_found
publish_answer share_url (some PublishResult.version_not_ready) = failed version_not_ready
publish_answer share_url (some PublishResult.operation_in_progress) = failed operation_in_progress
publish_answer share_url (some PublishResult.idempotency_conflict) = failed idempotency_conflict
publish_answer share_url (some PublishResult.governance_blocked) = failed governance_blocked

abbrev pub answer_publish :
    (String → String)
    → Option PublishResult × PublicationTables
    → Answer PublishedView × PublicationTables
answer_publish share_url r = (publish_answer share_url r.0, r.1)

-- `checked` is the clock at the test of the expiry; the repository reads it again.
unfoldable pub publish_version :
    Cipher
    → (String → String)
    → (PublishInput → Bool → String)
    → PublishInput
    → Bool
    → ℕ
    → PublicationTables
    → Answer PublishedView × PublicationTables
publish_version c share_url request_hash i confirm_retire checked t =
    if is_unconfirmed i.link_mode confirm_retire
    then (failed invalid_request, t)
    else if is_invalid_expiration i.expiration checked
    then (failed invalid_expiration, t)
    else answer_publish share_url
        (publish c (record i { request_hash = request_hash i confirm_retire }) t)

abbrev pub answer_update :
    Option PublicationView × PublicationTables → Answer PublicationView × PublicationTables
answer_update r = (or_failed artifact_not_found r.0, r.1)

abbrev pub is_past : PublicationExpiration → ℕ → Bool
is_past (exact at) now = leb at now
is_past _ now = false

pub change_expiration :
    String
    → String
    → String
    → PublicationExpiration
    → (checked now : ℕ) → PublicationTables
    → Answer PublicationView × PublicationTables
change_expiration owner artifact id expiration checked now t =
    if is_past expiration checked
    then (failed invalid_expiration, t)
    else answer_update (update_expiration owner artifact id expiration now t)

abbrev pub answer_unpublish : Bool × PublicationTables → Answer (Unit {0}) × PublicationTables
answer_unpublish r = (if r.0 then answered tt else failed artifact_not_found, r.1)

pub withdraw_publication :
    String → String → String → ℕ → PublicationTables → Answer (Unit {0}) × PublicationTables
withdraw_publication owner artifact id now t = answer_unpublish (unpublish owner artifact id now t)

pub data ViewerResolution : Type 0 where
  not_shown : ShareResolution → ViewerResolution
  authorized : (publication_id : String) → ContentAsset → ViewerResolution

abbrev pub authorize : String → Answer ContentAsset → Answer ViewerResolution
authorize id (failed code) = failed code
authorize id (answered a) = answered (authorized id a)

abbrev pub resolve_asset : Text → ContentTables → ShareResolution → Answer ViewerResolution
resolve_asset raw t (resolved id version) = authorize id (requested_asset version raw t)
resolve_asset raw t r = answered (not_shown r)

unfoldable pub resolve_viewer : String → Text → ℕ → ContentTables → Answer ViewerResolution
resolve_viewer slug raw now t =
    resolve_asset raw t (resolve_share_slug slug now t.publication_tables)
