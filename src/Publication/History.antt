-- ===== src/Publication/History.antt =====
-- Any sequence of calls of the publication repository.
use share_slices.Base.{
  ℕ, String, ◌≡◌, refl, Bool, true, false, not, Option, none, some, List, [], ◌∷◌, arith,
  if◌then◌else◌, Bool-cases, inl, inr, is_some, find_where,
}
use share_slices.Publication.Rows.{
  PublicationRow, ShareLinkRow, PublicationTables, PublicationExpiration, IdempotencyRow,
  is_blocked, expiration_values, has_expired,
}
use share_slices.Publication.Store.{
  PublishInput, PublishResult, Cipher, is_owned, is_scope, is_ready_version, conclude_publish,
  publish_ready, publish_scoped, publish, version_not_ready, governance_blocked, artifact_not_found,
}
use share_slices.Publication.Sharing.{
  unpublish, update_expiration, is_open_publication, end_unpublished, set_expiration,
}
use share_slices.Publication.Newest.{IsOneCurrent}
use share_slices.Publication.Publishing.{IsWellFormed}
use share_slices.Publication.Indexes.{
  written-IsOneCurrent, AreLinks, chosen-AreLinks, ended-IsOneCurrent, inserted-IsOneCurrent,
}

pub data PublicationCall : Type 0 where
  publishes : PublishInput → PublicationCall
  unpublishes : (owner artifact id : String) (now : ℕ) → PublicationCall
  updates :
      (owner artifact id : String) (expiration : PublicationExpiration) (now : ℕ) → PublicationCall

pub step : Cipher → PublicationTables → PublicationCall → PublicationTables
step c t (publishes i) = (publish c i t).1
step c t (unpublishes owner artifact id now) = (unpublish owner artifact id now t).1
step c t (updates owner artifact id expiration now) =
    (update_expiration owner artifact id expiration now t).1

pub run : Cipher → PublicationTables → List PublicationCall → PublicationTables
run c t [] = t
run c t (call ∷ calls) = run c (step c t call) calls

abbrev pub Holds : Option PublishResult × PublicationTables → Type 0
Holds a = IsWellFormed a.1

concluded-Holds :
    (c : Cipher) (i : PublishInput) (t : PublicationTables)
    (ol : Option (String × List ShareLinkRow)) (or : Option (List PublicationRow))
    → IsWellFormed t
    → ((slug : String) (links : List ShareLinkRow) → ol ≡ some (slug, links) → AreLinks links)
    → ((rows : List PublicationRow) → or ≡ some rows → IsOneCurrent rows)
    → Holds (conclude_publish c i t ol or)
concluded-Holds c i t none or v kl kr = v
concluded-Holds c i t (some (slug, links)) none v kl kr = v
concluded-Holds c i t (some (slug, links)) (some rows) v kl kr = record {
  one_current = kr rows refl;
  one_active = (kl slug links refl).0;
  unique_slugs = (kl slug links refl).1;
}

ready-Holds :
    (c : Cipher) (i : PublishInput) (t : PublicationTables)
    → IsWellFormed t
    → Holds (publish_ready c i t)
ready-Holds c i t v =
    concluded-Holds c i t _ _ v
      (λ slug links e.
        chosen-AreLinks i _ i.link_mode t.links slug links (v.one_active, v.unique_slugs) e)
      (λ rows e.
        inserted-IsOneCurrent i _ rows (ended-IsOneCurrent i _ t.publications v.one_current) e)

-- One of several answers, each of which leaves well-formed tables.
Holds-if :
    (b : Bool) (x y : Option PublishResult × PublicationTables)
    → Holds x
    → Holds y
    → Holds (if b then x else y)
Holds-if true x y hx hy = hx
Holds-if false x y hx hy = hy

scoped-Holds :
    (c : Cipher) (i : PublishInput) (t : PublicationTables) (o : Option IdempotencyRow)
    → IsWellFormed t
    → Holds (publish_scoped c i t o)
scoped-Holds c i t (some r) v = v
scoped-Holds c i t none v =
    let refused : Option PublishResult × PublicationTables = (some version_not_ready, t) in
    let expires : Bool = has_expired (expiration_values i.expiration i.now).expires_at i.now in
    let dated = if expires then refused else publish_ready c i t in
    let missing : Bool = not (is_some (find_where (is_ready_version i) t.versions)) in
    Holds-if (is_blocked i.artifact_id t) (some governance_blocked, t)
      (if missing then refused else dated) v
      (Holds-if missing refused dated v
        (Holds-if expires refused (publish_ready c i t) v (ready-Holds c i t v)))

publish-Holds :
    (c : Cipher) (i : PublishInput) (t : PublicationTables) → IsWellFormed t → Holds (publish c i t)
unfolding publish
publish-Holds c i t v =
    Holds-if (not (is_some (find_where (is_owned i.owner_user_id i.artifact_id) t.artifacts)))
      (some artifact_not_found, t) (publish_scoped c i t (find_where (is_scope i) t.idempotency)) v
      (scoped-Holds c i t (find_where (is_scope i) t.idempotency) v)

unpublish-IsWellFormed :
    (owner artifact id : String) (now : ℕ) (t : PublicationTables)
    → IsWellFormed t
    → IsWellFormed (unpublish owner artifact id now t).1
unfolding unpublish
unpublish-IsWellFormed owner artifact id now t v =
    elim (Bool-cases (is_some (find_where (is_owned owner artifact) t.artifacts))) [
      | inr e ↦ rw e v
      | inl e ↦ rw e (record {
        one_current =
            written-IsOneCurrent (is_open_publication id artifact) (end_unpublished now) (λ r. refl)
              (λ r o. absurd (ground arith)) t.publications v.one_current;
        one_active = v.one_active;
        unique_slugs = v.unique_slugs;
      })
    ]

update_expiration-IsWellFormed :
    (owner artifact id : String) (expiration : PublicationExpiration) (now : ℕ)
    (t : PublicationTables)
    → IsWellFormed t
    → IsWellFormed (update_expiration owner artifact id expiration now t).1
unfolding update_expiration
update_expiration-IsWellFormed owner artifact id expiration now t v =
    elim (Bool-cases (is_blocked artifact t)) [
      | inl b ↦ rw b v
      | inr b ↦ elim (Bool-cases (is_some (find_where (is_owned owner artifact) t.artifacts))) [
        | inr e ↦ rw b (rw e v)
        | inl e ↦
            elim (Bool-cases (has_expired (expiration_values expiration now).expires_at now)) [
              | inl h ↦ rw b (rw e (rw h v))
              | inr h ↦ rw b (
                  rw e (
                    rw h (record {
                      one_current =
                          written-IsOneCurrent (is_open_publication id artifact)
                            (set_expiration (expiration_values expiration now)) (λ r. refl)
                            (λ r o. o) t.publications v.one_current;
                      one_active = v.one_active;
                      unique_slugs = v.unique_slugs;
                    })))
            ]
      ]
    ]

step-IsWellFormed :
    (c : Cipher) (t : PublicationTables) (call : PublicationCall)
    → IsWellFormed t
    → IsWellFormed (step c t call)
unfolding step
step-IsWellFormed c t (publishes i) v = publish-Holds c i t v
step-IsWellFormed c t (unpublishes owner artifact id now) v =
    unpublish-IsWellFormed owner artifact id now t v
step-IsWellFormed c t (updates owner artifact id expiration now) v =
    update_expiration-IsWellFormed owner artifact id expiration now t v

-- If every artifact has at most one current publication and one active link and no slug is used
-- twice, then this holds after any sequence of publish, unpublish and updateExpiration calls,
-- refused and failing ones included.
run-IsWellFormed :
    (c : Cipher) (t : PublicationTables) (calls : List PublicationCall)
    → IsWellFormed t
    → IsWellFormed (run c t calls)
unfolding run
run-IsWellFormed c t [] v = v
run-IsWellFormed c t (call ∷ calls) v =
    run-IsWellFormed c (step c t call) calls (step-IsWellFormed c t call v)
