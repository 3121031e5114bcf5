-- ===== src/Publication/Tests.antt =====
-- Runs of the publication repository on small tables, and the examples of its theorems.
use share_slices.Base.{
  ℕ, ◌<◌, String, str_eq, ◌≡◌, ◌≢◌, ◌↔◌, refl, true, false, none, some, [], ◌∷◌, ◌++◌, ◌+◌, arith,
  split_on, join_with, if◌then◌else◌, is_some, All, find_where, units, Without, text_eq,
}
use share_slices.Publication.Rows.{
  PublicationTables, duration, replace, newest_publication, publication_of, publication_view,
  has_expired,
}
use share_slices.Publication.Store.{
  PublishInput, PublishResult, published, idempotency_conflict, Cipher, publish, has_slug, is_owned,
  new_publication, new_link,
}
use share_slices.Publication.Sharing.{
  unpublish, resolve_share_slug, ShareResolution, resolved, unpublished,
}
use share_slices.Publication.Publishing.{IsWellFormed, IsFresh, MayPublish, publish_resolves}
use share_slices.Publication.Replay.{publish_again}
use share_slices.Publication.Late.{late_publish}
use share_slices.Publication.Resolution.{IsShown, resolve_share_slug-IsShown, unpublish_hides}
use share_slices.Publication.Paths.{normalize_content_path, decode_uri_component, scan, decode}
use share_slices.Publication.Paths.Decoding.{IsContentPath, normalize_content_path_iff}

abbrev pub plain_cipher : Cipher
plain_cipher = record {
  encrypt = λ s. record { key_revision = "k1"; ciphertext = s };
  decrypt = λ e. some e.ciphertext;
}

abbrev pub site : PublicationTables
site = record {
  artifacts = record { id = "a"; owner_user_id = "ann"; name = "Notes" } ∷ [];
  versions =
      record { id = "v1"; artifact_id = "a"; ready = true; content_bundle_id = some "b1" } ∷ [];
  publications = [];
  links = [];
  idempotency = [];
  restricted_artifacts = [];
  taken_down_artifacts = "z" ∷ [];
}

abbrev pub request : String → String → String → ℕ → PublishInput
request id key slug began = record {
  id = id;
  owner_user_id = "ann";
  artifact_id = "a";
  version_id = "v1";
  idempotency_key = key;
  request_hash = "hash";
  expiration = duration 60;
  link_mode = replace;
  link_id = slug;
  slug = slug;
  began = began;
  now = began + 5;
}

abbrev pub first : PublishInput
first = request "p1" "key1" "s1" 1000

abbrev pub second : PublishInput
second = request "p2" "key2" "s2" 2000

-- A transaction that began before the first one.
abbrev slow : PublishInput
slow = request "p3" "key3" "s3" 900

abbrev first_view : PublishResult
first_view = published (publication_view (new_publication first)) "s1"

abbrev pub after_first : PublicationTables
after_first = (publish plain_cipher first site).1

first_published : (publish plain_cipher first site).0 ≡ some first_view
unfolding publish
first_published = refl

first_resolves : resolve_share_slug "s1" 2000 after_first ≡ resolved "p1" "v1"
unfolding publish resolve_share_slug
first_resolves = refl

first_expires : resolve_share_slug "s1" 61005 after_first ≡ ShareResolution.expired
unfolding publish resolve_share_slug
first_expires = refl

site-IsWellFormed : IsWellFormed site
site-IsWellFormed = record { one_current = tt; one_active = tt; unique_slugs = tt }

after_first-IsWellFormed : IsWellFormed after_first
unfolding publish
after_first-IsWellFormed = record {
  one_current = (λ o. refl, tt);
  one_active = (λ o. refl, tt);
  unique_slugs = (refl, tt);
}

second-IsFresh : IsFresh second after_first
unfolding publish
second-IsFresh = record { id = refl; link_id = refl; slug = refl }

second-MayPublish : MayPublish second after_first
unfolding publish
second-MayPublish = record {
  owned = refl;
  first = refl;
  unblocked = refl;
  ready = refl;
  ahead = refl;
}

second_earlier :
    All (λ p. publication_of "a" p ≡ true → p.created_at < 2000) after_first.publications
unfolding publish
second_earlier = (λ e. omega arith, tt)

publish_resolves_example :
    (slug : String) × (t' : PublicationTables) × (publish plain_cipher second after_first
      ≡ (some (published (publication_view (new_publication second)) slug), t'))
    × ((later : ℕ)
        → has_expired (some 62005) later ≡ false
        → resolve_share_slug slug later t' ≡ resolved "p2" "v1")
publish_resolves_example =
    publish_resolves plain_cipher second after_first after_first-IsWellFormed second-IsFresh
      second-MayPublish second_earlier

slow-IsFresh : IsFresh slow after_first
unfolding publish
slow-IsFresh = record { id = refl; link_id = refl; slug = refl }

slow-MayPublish : MayPublish slow after_first
unfolding publish
slow-MayPublish = record {
  owned = refl;
  first = refl;
  unblocked = refl;
  ready = refl;
  ahead = refl;
}

slow_newest :
    newest_publication (publication_of "a") after_first.publications ≡ some (new_publication first)
unfolding publish
slow_newest = refl

late_publish_example :
    (slug : String) × (t' : PublicationTables) × (publish plain_cipher slow after_first
      ≡ (some (published (publication_view (new_publication slow)) slug), t'))
    × ((later : ℕ) → resolve_share_slug slug later t' ≡ unpublished)
late_publish_example =
    late_publish plain_cipher slow after_first (new_publication first) after_first-IsWellFormed
      slow-IsFresh slow-MayPublish slow_newest (omega arith)

first_done : publish plain_cipher first site ≡ (some first_view, after_first)
unfolding publish
first_done = refl

publish_again_example :
    publish plain_cipher
      (record second { idempotency_key = "key1"; request_hash = "other" })
      after_first
    ≡ (some (if str_eq "hash" "other" then first_view else idempotency_conflict), after_first)
publish_again_example =
    publish_again plain_cipher first
      (record second { idempotency_key = "key1"; request_hash = "other" }) site after_first
      (publication_view (new_publication first)) "s1" refl refl first_done
      (record { owner = refl; artifact = refl; key = refl })

resolve_share_slug-IsShown_example : IsShown "s1" "p1" "v1" 2000 after_first
unfolding publish resolve_share_slug
resolve_share_slug-IsShown_example = resolve_share_slug-IsShown "s1" "p1" "v1" 2000 after_first refl

after_first_owned : is_some (find_where (is_owned "ann" "a") after_first.artifacts) ≡ true
unfolding publish
after_first_owned = refl

after_first_link : find_where (has_slug "s1") after_first.links ≡ some (new_link first)
unfolding publish
after_first_link = refl

unpublish_hides_example :
    resolve_share_slug "s1" 2000 (unpublish "ann" "a" "p1" 1500 after_first).1 ≢ resolved "p1" "v1"
unpublish_hides_example =
    unpublish_hides "ann" "a" "p1" "s1" "v1" 1500 2000 (new_link first) after_first
      after_first_owned after_first_link refl

escaped :
    normalize_content_path (units "a%2Fb%C3%A9.html") ≡ some (units "a/b" ++ 233 ∷ units ".html")
unfolding normalize_content_path decode_uri_component scan decode split_on join_with text_eq
escaped = refl

dots_refused : normalize_content_path (units "a/%2e%2E/b") ≡ none
unfolding normalize_content_path decode_uri_component scan decode split_on join_with text_eq
dots_refused = refl

overlong_refused : decode_uri_component (units "%C0%AF") ≡ none
unfolding decode_uri_component scan decode
overlong_refused = refl

normalize_content_path_iff_example :
    (normalize_content_path (units "a%2Fb") ≡ some (units "a/b"))
    ↔ ((decode_uri_component (units "a%2Fb") ≡ some (units "a/b")) × IsContentPath (units "a/b"))
normalize_content_path_iff_example = normalize_content_path_iff (units "a%2Fb") (units "a/b")

plain-IsContentPath : IsContentPath (units "a/b")
unfolding split_on text_eq
plain-IsContentPath = record {
  segments =
      ((λ k. cc (k), λ k. cc (k), λ k. cc (k)), ((λ k. cc (k), λ k. cc (k), λ k. cc (k)), tt));
  backslash = refl;
  nul = refl;
}

no_percent : Without 37 (units "a/b")
no_percent =
    (λ e. absurd (omega arith), (λ e. absurd (omega arith), (λ e. absurd (omega arith), tt)))
