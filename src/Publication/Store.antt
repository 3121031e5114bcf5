-- ===== src/Publication/Store.antt =====
-- `publish` of `createPublicationContentRepository`. It holds the artifact's row, so each operation
-- is one step. `began` is the database's `now()`, the start of the transaction, and `now` is the
-- server's clock. An answer `none` is an exception: the transaction is rolled back.
use share_slices.Base.{
  ℕ, String, str_eq, Bool, not, ◌&&◌, ◌||◌, Option, none, some, List, ◌∷◌, if◌then◌else◌, is_some,
  find_where, update_where,
}
use share_slices.Publication.Rows.{
  PublicationExpiration, LinkMode, ArtifactRow, VersionRow, PublicationRow, ShareLinkRow,
  PublicationView, publication_view, EncryptedEvidence, RecordState, ResponseBody, IdempotencyRow,
  PublicationTables, is_current_of, is_active_of, newest_publication, newest_link, is_blocked,
  expiration_values, has_expired, superseded, reuse, replace, active, retired, pending, completed,
}

pub record PublishInput : Type 0 where
  pub id : String
  pub owner_user_id : String
  pub artifact_id : String
  pub version_id : String
  pub idempotency_key : String
  pub request_hash : String
  pub expiration : PublicationExpiration
  pub link_mode : LinkMode
  pub link_id : String
  pub slug : String
  pub began : ℕ
  pub now : ℕ

pub data PublishResult : Type 0 where
  published : (publication : PublicationView) (share_slug : String) → PublishResult
  artifact_not_found version_not_ready operation_in_progress : PublishResult
  idempotency_conflict governance_blocked : PublishResult

-- The class `IdempotencyEvidenceCipher`; `none` is an exception of `decrypt`.
pub record Cipher : Type 0 where
  pub encrypt : String → EncryptedEvidence
  pub decrypt : EncryptedEvidence → Option String

abbrev pub is_owned : String → String → ArtifactRow → Bool
is_owned owner artifact a = str_eq a.id artifact && str_eq a.owner_user_id owner

abbrev pub is_scope : PublishInput → IdempotencyRow → Bool
is_scope i r =
    str_eq r.owner_user_id i.owner_user_id
    && str_eq r.operation "publish"
    && str_eq r.target_resource_id i.artifact_id
    && str_eq r.key i.idempotency_key

abbrev pub is_ready_version : PublishInput → VersionRow → Bool
is_ready_version i v = str_eq v.id i.version_id && str_eq v.artifact_id i.artifact_id && v.ready

-- The view that is rebuilt from the stored response.
abbrev pub stored_view : ResponseBody → PublicationView
stored_view b = record {
  id = b.publication_id;
  version_id = b.version_id;
  published_at = b.published_at;
  expiration_kind = b.expiration_kind;
  duration_seconds = b.duration_seconds;
  expires_at = b.expires_at;
  ended_at = none;
  end_reason = none;
}

abbrev pub compare_evidence : PublishInput → ResponseBody → Option String → Option PublishResult
compare_evidence i b none = none
compare_evidence i b (some evidence) =
    if not (str_eq evidence i.request_hash)
    then some idempotency_conflict
    else some (published (stored_view b) b.share_slug)

-- A record with the key is there already.
abbrev pub replay_response :
    Cipher → PublishInput → Option EncryptedEvidence → Option ResponseBody → Option PublishResult
replay_response c i evidence none = some operation_in_progress
replay_response c i none (some b) = none
replay_response c i (some evidence) (some b) = compare_evidence i b (c.decrypt evidence)

abbrev pub replay : Cipher → PublishInput → IdempotencyRow → RecordState → Option PublishResult
replay c i r pending = some operation_in_progress
replay c i r completed = replay_response c i r.request_evidence r.response_body

abbrev pub supersede : ℕ → PublicationRow → PublicationRow
supersede now p = record p { ended_at = some now; end_reason = some superseded }

abbrev pub has_publication_id : String → PublicationRow → Bool
has_publication_id id p = str_eq p.id id

abbrev pub end_current :
    PublishInput → Option PublicationRow → List PublicationRow → List PublicationRow
end_current i none rows = rows
end_current i (some current) rows =
    update_where (has_publication_id current.id) (supersede i.now) rows

abbrev pub retire_link : ℕ → ShareLinkRow → ShareLinkRow
retire_link now l = record l { status = retired; retired_at = some now }

abbrev pub has_link_id : String → ShareLinkRow → Bool
has_link_id id l = str_eq l.id id

abbrev pub has_slug : String → ShareLinkRow → Bool
has_slug slug l = str_eq l.slug slug

abbrev pub new_link : PublishInput → ShareLinkRow
new_link i = record {
  id = i.link_id;
  artifact_id = i.artifact_id;
  slug = i.slug;
  status = active;
  created_at = i.began;
  retired_at = none;
}

-- `insert` of a link: the primary key, the slug and the active link of an artifact are unique.
abbrev pub insert_link : PublishInput → List ShareLinkRow → Option (String × List ShareLinkRow)
insert_link i rows =
    if is_some (find_where (has_link_id i.link_id) rows)
      || is_some (find_where (has_slug i.slug) rows)
      || is_some (find_where (is_active_of i.artifact_id) rows)
    then none
    else some (i.slug, new_link i ∷ rows)

-- The link that is kept, or a new one; its slug and the rows after it.
abbrev pub choose_link :
    PublishInput
    → Option ShareLinkRow
    → LinkMode
    → List ShareLinkRow
    → Option (String × List ShareLinkRow)
choose_link i none mode rows = insert_link i rows
choose_link i (some link) reuse rows = some (link.slug, rows)
choose_link i (some link) replace rows =
    insert_link i (update_where (has_link_id link.id) (retire_link i.now) rows)

abbrev pub new_publication : PublishInput → PublicationRow
new_publication i = record {
  id = i.id;
  artifact_id = i.artifact_id;
  version_id = i.version_id;
  created_at = i.began;
  expiration_kind = (expiration_values i.expiration i.now).expiration_kind;
  duration_seconds = (expiration_values i.expiration i.now).duration_seconds;
  expires_at = (expiration_values i.expiration i.now).expires_at;
  ended_at = none;
  end_reason = none;
}

-- `insert` of a publication: its id and the current publication of an artifact are unique.
abbrev pub insert_publication : PublishInput → List PublicationRow → Option (List PublicationRow)
insert_publication i rows =
    if is_some (find_where (has_publication_id i.id) rows)
      || is_some (find_where (is_current_of i.artifact_id) rows)
    then none
    else some (new_publication i ∷ rows)

abbrev pub pending_record : PublishInput → IdempotencyRow
pending_record i = record {
  owner_user_id = i.owner_user_id;
  operation = "publish";
  target_resource_id = i.artifact_id;
  key = i.idempotency_key;
  request_evidence = none;
  state = pending;
  response_body = none;
}

abbrev pub body_of : PublicationView → String → ResponseBody
body_of p slug = record {
  publication_id = p.id;
  version_id = p.version_id;
  published_at = p.published_at;
  expiration_kind = p.expiration_kind;
  duration_seconds = p.duration_seconds;
  expires_at = p.expires_at;
  share_slug = slug;
}

abbrev pub complete : Cipher → PublishInput → ResponseBody → IdempotencyRow → IdempotencyRow
complete c i body r = record r {
  request_evidence = some (c.encrypt i.request_hash);
  state = completed;
  response_body = some body;
}

abbrev pub conclude_publish :
    Cipher
    → PublishInput
    → PublicationTables
    → Option (String × List ShareLinkRow)
    → Option (List PublicationRow)
    → Option PublishResult × PublicationTables
conclude_publish c i t none rows = (none, t)
conclude_publish c i t (some link) none = (none, t)
conclude_publish c i t (some (slug, links)) (some publications) = (
  some (published (publication_view (new_publication i)) slug),
  record t {
    publications = publications;
    links = links;
    idempotency =
        update_where (is_scope i)
          (complete c i (body_of (publication_view (new_publication i)) slug))
          (pending_record i ∷ t.idempotency);
  },
)

abbrev pub publish_ready :
    Cipher → PublishInput → PublicationTables → Option PublishResult × PublicationTables
publish_ready c i t =
    conclude_publish c i t
      (choose_link i (newest_link (is_active_of i.artifact_id) t.links) i.link_mode t.links)
      (insert_publication i (
        end_current i (newest_publication (is_current_of i.artifact_id) t.publications)
          t.publications))

abbrev pub publish_fresh :
    Cipher → PublishInput → PublicationTables → Option PublishResult × PublicationTables
publish_fresh c i t =
    if is_blocked i.artifact_id t
    then (some governance_blocked, t)
    else if not (is_some (find_where (is_ready_version i) t.versions))
    then (some version_not_ready, t)
    else if has_expired (expiration_values i.expiration i.now).expires_at i.now
    then (some version_not_ready, t)
    else publish_ready c i t

abbrev pub publish_scoped :
    Cipher
    → PublishInput
    → PublicationTables
    → Option IdempotencyRow
    → Option PublishResult × PublicationTables
publish_scoped c i t none = publish_fresh c i t
publish_scoped c i t (some r) = (replay c i r r.state, t)

unfoldable pub publish :
    Cipher → PublishInput → PublicationTables → Option PublishResult × PublicationTables
publish c i t =
    if not (is_some (find_where (is_owned i.owner_user_id i.artifact_id) t.artifacts))
    then (some artifact_not_found, t)
    else publish_scoped c i t (find_where (is_scope i) t.idempotency)
