-- ===== src/Publication/Refusals.antt =====
-- A publication that the service refuses.
use share_slices.Base.{
  ℕ, String, ◌≡◌, refl, Bool, true, false, not, Option, none, some, List, arith, if◌then◌else◌,
  Bool-cases, inl, inr, is_some, find_where,
}
use share_slices.Publication.Rows.{
  PublicationRow, PublicationTables, ShareLinkRow, IdempotencyRow, is_blocked, has_expired,
  expiration_values, newest_link, newest_publication, is_active_of, is_current_of,
}
use share_slices.Publication.Store.{
  PublishInput, PublishResult, Cipher, publish, is_owned, is_scope, is_ready_version,
  publish_scoped, publish_ready, conclude_publish, choose_link, insert_publication, end_current,
}
use share_slices.Publication.Viewer.{
  failed, ViewerErrorCode, publish_answer, publish_version, is_unconfirmed, is_invalid_expiration,
}

-- An error leaves the tables as they were.
abbrev Keeps :
    (String → String) → PublicationTables → Option PublishResult × PublicationTables → Type 0
Keeps url t r = (code : ViewerErrorCode) → publish_answer url r.0 ≡ failed code → r.1 ≡ t

module _ (c : Cipher) (url : String → String) (i : PublishInput) (t : PublicationTables) where
  concluded-Keeps :
      (ol : Option (String × List ShareLinkRow)) (or : Option (List PublicationRow))
      → Keeps url t (conclude_publish c i t ol or)
  concluded-Keeps none or code e = refl
  concluded-Keeps (some (slug, links)) none code e = refl
  concluded-Keeps (some (slug, links)) (some rows) code e = absurd (ground arith)

  either-Keeps :
      (b : Bool) (x y : Option PublishResult × PublicationTables)
      → Keeps url t x
      → Keeps url t y
      → Keeps url t (if b then x else y)
  either-Keeps true x y hx hy = hx
  either-Keeps false x y hx hy = hy

  ready-Keeps : Keeps url t (publish_ready c i t)
  ready-Keeps =
      concluded-Keeps
        (choose_link i (newest_link (is_active_of i.artifact_id) t.links) i.link_mode t.links)
        (insert_publication i (
          end_current i (newest_publication (is_current_of i.artifact_id) t.publications)
            t.publications))

  scoped-Keeps : (o : Option IdempotencyRow) → Keeps url t (publish_scoped c i t o)
  scoped-Keeps (some r) = λ code e. refl
  scoped-Keeps none =
      let refused : Option PublishResult × PublicationTables =
        (some PublishResult.version_not_ready, t) in
      let expires : Bool = has_expired (expiration_values i.expiration i.now).expires_at i.now in
      let missing : Bool = not (is_some (find_where (is_ready_version i) t.versions)) in
      let dated = if expires then refused else publish_ready c i t in
      either-Keeps (is_blocked i.artifact_id t) (some PublishResult.governance_blocked, t)
        (if missing then refused else dated) (λ code e. refl)
        (either-Keeps missing refused dated (λ code e. refl)
          (either-Keeps expires refused (publish_ready c i t) (λ code e. refl) ready-Keeps))

  publish-Keeps : Keeps url t (publish c i t)
  unfolding publish
  publish-Keeps =
      either-Keeps (not (is_some (find_where (is_owned i.owner_user_id i.artifact_id) t.artifacts)))
        (some PublishResult.artifact_not_found, t)
        (publish_scoped c i t (find_where (is_scope i) t.idempotency)) (λ code e. refl)
        (scoped-Keeps (find_where (is_scope i) t.idempotency))

-- Whatever error the service's `publish` ends with, the tables are as they were before the call.
pub publish_version_failed :
    (c : Cipher) (url : String → String) (hash : PublishInput → Bool → String) (i : PublishInput)
    (confirm_retire : Bool) (checked : ℕ) (t : PublicationTables) (code : ViewerErrorCode)
    → (publish_version c url hash i confirm_retire checked t).0 ≡ failed code
    → (publish_version c url hash i confirm_retire checked t).1 ≡ t
unfolding publish_version
publish_version_failed c url hash i confirm_retire checked t code e =
    elim (Bool-cases (is_unconfirmed i.link_mode confirm_retire)) [
      | inl u ↦ rw u refl
      | inr u ↦ elim (Bool-cases (is_invalid_expiration i.expiration checked)) [
        | inl x ↦ rw u (rw x refl)
        | inr x ↦ rw u (
            rw x (
              publish-Keeps c url (record i { request_hash = hash i confirm_retire }) t code
                (ground (arith, u, x, e))))
      ]
    ]
