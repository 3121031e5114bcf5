-- ===== src/Publication/Sharing.antt =====
-- `unpublish`, `updateExpiration` and `resolveShareSlug` of `createPublicationContentRepository`.
use share_slices.Base.{
  ℕ, String, Bool, true, false, not, ◌&&◌, ◌||◌, Option, none, some, if◌then◌else◌, is_some,
  find_where, update_where,
}
use mathlib.Core.Option
use share_slices.Publication.Rows.{
  EndReason, PublicationExpiration, PublicationRow, ShareLinkRow, PublicationView, publication_view,
  PublicationTables, is_open, is_active, publication_of, newest_publication, is_blocked,
  ExpirationValues, expiration_values, has_expired, ended_unpublished,
}
use share_slices.Publication.Store.{is_owned, has_publication_id, has_slug}

abbrev pub is_open_publication : String → String → PublicationRow → Bool
is_open_publication id artifact p =
    has_publication_id id p && publication_of artifact p && is_open p

abbrev pub end_unpublished : ℕ → PublicationRow → PublicationRow
end_unpublished now p = record p { ended_at = some now; end_reason = some ended_unpublished }

unfoldable pub unpublish :
    String → String → String → ℕ → PublicationTables → Bool × PublicationTables
unpublish owner artifact id now t =
    if not (is_some (find_where (is_owned owner artifact) t.artifacts)) then (false, t) else (
      true,
      record t {
        publications =
            update_where (is_open_publication id artifact) (end_unpublished now) t.publications;
      },
    )

abbrev pub set_expiration : ExpirationValues → PublicationRow → PublicationRow
set_expiration values p = record p {
  expiration_kind = values.expiration_kind;
  duration_seconds = values.duration_seconds;
  expires_at = values.expires_at;
}

unfoldable pub update_expiration :
    String
    → String
    → String
    → PublicationExpiration
    → ℕ
    → PublicationTables
    → Option PublicationView × PublicationTables
update_expiration owner artifact id expiration now t =
    let values = expiration_values expiration now in
    let rows =
      update_where (is_open_publication id artifact) (set_expiration values) t.publications in
    if is_blocked artifact t
    then (none, t)
    else if not (is_some (find_where (is_owned owner artifact) t.artifacts))
    then (none, t)
    else if has_expired values.expires_at now
    then (none, t)
    else (
      Option.map (λ p. publication_view (set_expiration values p))
          (find_where (is_open_publication id artifact) t.publications),
      record t { publications = rows },
    )

pub data ShareResolution : Type 0 where
  unknown expired link_retired unpublished restricted : ShareResolution
  resolved : (publication_id version_id : String) → ShareResolution

abbrev pub is_unpublished : Option EndReason → Bool
is_unpublished (some ended_unpublished) = true
is_unpublished _ = false

abbrev pub resolve_publication :
    String → ℕ → PublicationTables → Option PublicationRow → ShareResolution
resolve_publication artifact now t none = unpublished
resolve_publication artifact now t (some p) =
    if is_unpublished p.end_reason || not (is_open p)
    then unpublished
    else if has_expired p.expires_at now
    then expired
    else if is_blocked artifact t
    then restricted
    else resolved p.id p.version_id

abbrev pub resolve_link : ℕ → PublicationTables → Option ShareLinkRow → ShareResolution
resolve_link now t none = unknown
resolve_link now t (some l) =
    if not (is_active l.status)
    then link_retired
    else resolve_publication l.artifact_id now t
        (newest_publication (publication_of l.artifact_id) t.publications)

unfoldable pub resolve_share_slug : String → ℕ → PublicationTables → ShareResolution
resolve_share_slug slug now t = resolve_link now t (find_where (has_slug slug) t.links)
