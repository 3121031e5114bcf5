-- ===== src/Publication/Replay.antt =====
-- What a second call of `publish` with the same key answers.
use mathlib.Core.Option
use share_slices.Base.{
  String, str_eq, eq_iff, ◌≡◌, refl, ap, subst, ◌∙◌, true, Option, none, some, List, ◌∷◌, arith,
  if◌then◌else◌, is_some, find_where, update_where, find_where-update_where,
}
use share_slices.Publication.Rows.{
  PublicationRow, ShareLinkRow, PublicationTables, PublicationView, IdempotencyRow, is_current_of,
  newest_publication, newest_link, is_active_of, publication_view,
}
use share_slices.Publication.Store.{
  PublishInput, published, idempotency_conflict, Cipher, is_owned, is_scope, choose_link,
  end_current, new_publication, insert_publication, conclude_publish, publish, pending_record,
  complete, body_of,
}

-- A first call that answers a publication has written what `conclude_publish` writes.
abbrev pub Wrote :
    Cipher
    → PublishInput
    → PublicationTables
    → PublicationView
    → String
    → PublicationTables
    → Type 0
Wrote c i t v s t' =
    (is_some (find_where (is_owned i.owner_user_id i.artifact_id) t.artifacts) ≡ true)
    × ((links : List ShareLinkRow) × (rows : List PublicationRow) × (v
          ≡ publication_view (new_publication i))
        × (t' ≡ (conclude_publish c i t (some (s, links)) (some rows)).1))

module _ (c : Cipher) (i : PublishInput) (t : PublicationTables) (v : PublicationView) (s : String)
    (t' : PublicationTables) where
  concluded-Wrote :
      (ol : Option (String × List ShareLinkRow)) (or : Option (List PublicationRow))
      → conclude_publish c i t ol or ≡ (some (published v s), t')
      → is_some (find_where (is_owned i.owner_user_id i.artifact_id) t.artifacts) ≡ true
      → Wrote c i t v s t'
  concluded-Wrote none or e o = absurd (ground arith)
  concluded-Wrote (some l) none e o = absurd (ground arith)
  concluded-Wrote (some (slug, links)) (some rows) e o =
      let same : slug ≡ s = ground arith in
      (
        o,
        (
          links,
          rows,
          ground arith,
          subst (λ x. t' ≡ (conclude_publish c i t (some (x, links)) (some rows)).1) same
              (ground arith),
        ),
      )

  publish-Wrote :
      find_where (is_scope i) t.idempotency ≡ none
      → publish c i t ≡ (some (published v s), t')
      → Wrote c i t v s t'
  unfolding publish
  publish-Wrote first e =
      let owned : is_some (find_where (is_owned i.owner_user_id i.artifact_id) t.artifacts) ≡ true =
        ground arith in
      concluded-Wrote
        (choose_link i (newest_link (is_active_of i.artifact_id) t.links) i.link_mode t.links)
        (insert_publication i (
          end_current i (newest_publication (is_current_of i.artifact_id) t.publications)
            t.publications))
        (ground arith) owned

-- The same user, artifact and key.
pub record SameKey (i j : PublishInput) : Type 0 where
  pub owner : j.owner_user_id ≡ i.owner_user_id
  pub artifact : j.artifact_id ≡ i.artifact_id
  pub key : j.idempotency_key ≡ i.idempotency_key

own_scope :
    (c : Cipher) (i : PublishInput) (s : String) (rows : List IdempotencyRow)
    → find_where (is_scope i) (
        update_where
          (is_scope i)
          (complete c i (body_of (publication_view (new_publication i)) s))
          (pending_record i ∷ rows))
      ≡ some (complete c i (body_of (publication_view (new_publication i)) s) (pending_record i))
own_scope c i s rows =
    let own : is_scope i (pending_record i) ≡ true = ground (
      arith,
      eq_iff i.owner_user_id i.owner_user_id,
      eq_iff i.artifact_id i.artifact_id,
      eq_iff i.idempotency_key i.idempotency_key,
    ) in
    let matches : find_where (is_scope i) (pending_record i ∷ rows) ≡ some (pending_record i) =
      ground arith in
    find_where-update_where (is_scope i) (is_scope i)
      (complete c i (body_of (publication_view (new_publication i)) s)) (λ r. refl)
      (pending_record i ∷ rows)
    ∙ ap (Option.map _) matches
    ∙ ap some (ground arith)

-- After a call of `publish` that answered a publication, a call with the same user, artifact and
-- key on the tables that it left changes nothing; it answers that publication again if its request
-- has the same hash, and a conflict otherwise. The cipher is assumed to decrypt what it encrypted.
pub publish_again :
    (c : Cipher) (i j : PublishInput) (t t' : PublicationTables) (v : PublicationView) (s : String)
    → c.decrypt (c.encrypt i.request_hash) ≡ some i.request_hash
    → find_where (is_scope i) t.idempotency ≡ none
    → publish c i t ≡ (some (published v s), t')
    → SameKey i j
    → publish c j t' ≡ (
      some (if str_eq i.request_hash j.request_hash then published v s else idempotency_conflict),
      t',
    )
unfolding publish
publish_again c i j t t' v s decrypts first e k =
    let (owned, (links, rows, view, after)) = publish-Wrote c i t v s t' first e in
    let there : find_where (is_scope i) t'.idempotency ≡ some _ =
      ap (λ (x : PublicationTables). find_where (is_scope i) x.idempotency) after
      ∙ own_scope c i s t.idempotency in
    let still : is_some (find_where (is_owned i.owner_user_id i.artifact_id) t'.artifacts) ≡ true =
      ap
        (λ (x : PublicationTables).
          is_some (find_where (is_owned i.owner_user_id i.artifact_id) x.artifacts))
        after
      ∙ owned in
    rw (k.owner)
      (rw (k.artifact) (rw (k.key) (rw still (rw there (rw decrypts (rw view (ground arith)))))))
