-- ===== src/Publication/Rows.antt =====
-- The rows of publication-content-repository.ts and the types of publication-viewer.ts. Times are
-- milliseconds.
use share_slices.Base.{
  ℕ, ◌+◌, ◌*◌, String, str_eq, Bool, true, false, ◌&&◌, Option, none, some, List, [], ◌∷◌, ltb, leb,
  if◌then◌else◌, is_some, select_where,
}

pub data ExpirationKind : Type 0 where
  permanent_kind duration_kind exact_kind : ExpirationKind

pub data EndReason : Type 0 where
  ended_unpublished superseded : EndReason

pub data PublicationExpiration : Type 0 where
  permanent : PublicationExpiration
  duration : (duration_seconds : ℕ) → PublicationExpiration
  exact : (expires_at : ℕ) → PublicationExpiration

pub data LinkMode : Type 0 where
  reuse replace : LinkMode

pub data LinkStatus : Type 0 where
  active retired : LinkStatus

pub record ArtifactRow : Type 0 where
  pub id : String
  pub owner_user_id : String
  pub name : String

pub record VersionRow : Type 0 where
  pub id : String
  pub artifact_id : String
  pub ready : Bool
  pub content_bundle_id : Option String

pub record PublicationRow : Type 0 where
  pub id : String
  pub artifact_id : String
  pub version_id : String
  pub created_at : ℕ
  pub expiration_kind : ExpirationKind
  pub duration_seconds : Option ℕ
  pub expires_at : Option ℕ
  pub ended_at : Option ℕ
  pub end_reason : Option EndReason

pub record ShareLinkRow : Type 0 where
  pub id : String
  pub artifact_id : String
  pub slug : String
  pub status : LinkStatus
  pub created_at : ℕ
  pub retired_at : Option ℕ

-- `publicationView`: the row without its artifact.
pub record PublicationView : Type 0 where
  pub id : String
  pub version_id : String
  pub published_at : ℕ
  pub expiration_kind : ExpirationKind
  pub duration_seconds : Option ℕ
  pub expires_at : Option ℕ
  pub ended_at : Option ℕ
  pub end_reason : Option EndReason

abbrev pub publication_view : PublicationRow → PublicationView
publication_view row = record {
  id = row.id;
  version_id = row.version_id;
  published_at = row.created_at;
  expiration_kind = row.expiration_kind;
  duration_seconds = row.duration_seconds;
  expires_at = row.expires_at;
  ended_at = row.ended_at;
  end_reason = row.end_reason;
}

pub record EncryptedEvidence : Type 0 where
  pub key_revision : String
  pub ciphertext : String

pub data RecordState : Type 0 where
  pending completed : RecordState

-- The stored response holds the view of an open publication, its dates as ISO texts, and the slug.
pub record ResponseBody : Type 0 where
  pub publication_id : String
  pub version_id : String
  pub published_at : ℕ
  pub expiration_kind : ExpirationKind
  pub duration_seconds : Option ℕ
  pub expires_at : Option ℕ
  pub share_slug : String

pub record IdempotencyRow : Type 0 where
  pub owner_user_id : String
  pub operation : String
  pub target_resource_id : String
  pub key : String
  pub request_evidence : Option EncryptedEvidence
  pub state : RecordState
  pub response_body : Option ResponseBody

-- The artifacts with an active public sharing restriction or takedown are given by their ids.
pub record PublicationTables : Type 0 where
  pub artifacts : List ArtifactRow
  pub versions : List VersionRow
  pub publications : List PublicationRow
  pub links : List ShareLinkRow
  pub idempotency : List IdempotencyRow
  pub restricted_artifacts : List String
  pub taken_down_artifacts : List String

abbrev pub is_open : PublicationRow → Bool
is_open p = if is_some p.ended_at then false else true

abbrev pub is_active : LinkStatus → Bool
is_active active = true
is_active retired = false

abbrev pub publication_of : String → PublicationRow → Bool
publication_of artifact p = str_eq p.artifact_id artifact

abbrev pub is_current_of : String → PublicationRow → Bool
is_current_of artifact p = publication_of artifact p && is_open p

abbrev pub is_active_of : String → ShareLinkRow → Bool
is_active_of artifact l = str_eq l.artifact_id artifact && is_active l.status

-- `orderBy desc(createdAt)` with `findFirst`; of two rows of one instant the one inserted
-- last is taken, where the database may answer either.
abbrev pub newest {ℓ} : {R : Type ℓ} → (R → ℕ) → List R → Option R
newest at [] = none
newest at (r ∷ rs) = elim (newest at rs) [
  | none ↦ some r
  | some s ↦ if ltb (at r) (at s) then some s else some r
]

abbrev pub publication_created : PublicationRow → ℕ
publication_created p = p.created_at

abbrev pub link_created : ShareLinkRow → ℕ
link_created l = l.created_at

abbrev pub newest_publication :
    (PublicationRow → Bool) → List PublicationRow → Option PublicationRow
newest_publication p rs = newest publication_created (select_where p rs)

abbrev pub newest_link : (ShareLinkRow → Bool) → List ShareLinkRow → Option ShareLinkRow
newest_link p rs = newest link_created (select_where p rs)

abbrev pub is_listed_in : String → List String → Bool
is_listed_in a [] = false
is_listed_in a (x ∷ xs) = if str_eq x a then true else is_listed_in a xs

-- The two `exists` of the query named `blocked`.
abbrev pub is_blocked : String → PublicationTables → Bool
is_blocked artifact t =
    if is_listed_in artifact t.restricted_artifacts
    then true
    else is_listed_in artifact t.taken_down_artifacts

-- `expirationValues`: the kind, the duration in seconds and the time of expiry.
pub record ExpirationValues : Type 0 where
  pub expiration_kind : ExpirationKind
  pub duration_seconds : Option ℕ
  pub expires_at : Option ℕ

abbrev pub expiration_values : PublicationExpiration → ℕ → ExpirationValues
expiration_values permanent now = record {
  expiration_kind = permanent_kind;
  duration_seconds = none;
  expires_at = none;
}
expiration_values (duration seconds) now = record {
  expiration_kind = duration_kind;
  duration_seconds = some seconds;
  expires_at = some (now + seconds * 1000);
}
expiration_values (exact at) now = record {
  expiration_kind = exact_kind;
  duration_seconds = none;
  expires_at = some at;
}

-- `expiresAt !== null && expiresAt <= now`.
abbrev pub has_expired : Option ℕ → ℕ → Bool
has_expired none now = false
has_expired (some at) now = leb at now
