-- ===== src/Storage.antt =====
-- api/src/storage/in-memory-object-storage.ts: the class `InMemoryObjectStorage`. A map from keys
-- is a list in insertion order, keys are lists of UTF-16 code units, and the SHA-256 of the
-- contents is a parameter.
pub mod Keys
pub mod Paging
mod Tests
use mathlib.Core.Option
use share_slices.Base.{
  ℕ, ◌+◌, Bool, true, false, not, ◌&&◌, ◌||◌, Option, none, some, List, [], ◌∷◌, ◌++◌, ltb,
  if◌then◌else◌, map, length, take, some_of, find_where, select_where, update_where, Text, text_eq,
  starts_with, ends_with_unit, is_empty,
}
use share_slices.Storage.Keys.{key_less, sort_keys}

-- A value of the map with its key.
pub record MemoryObject : Type 0 where
  pub key : Text
  pub bytes : List ℕ
  pub content_type : Option Text
  pub last_modified : ℕ

abbrev pub Objects : Type 0
Objects = List MemoryObject

abbrev pub is_at : Text → MemoryObject → Bool
is_at key o = text_eq o.key key

abbrev pub keys : Objects → List Text
keys objects = map (λ (o : MemoryObject). o.key) objects

-- `Map.prototype.set`: a key that is there keeps its place.
unfoldable pub set : MemoryObject → Objects → Objects
set o objects =
    if some_of (is_at o.key) objects
    then update_where (is_at o.key) (λ x. o) objects
    else objects ++ o ∷ []

unfoldable pub delete : Text → Objects → Objects
delete key objects = select_where (λ o. not (is_at key o)) objects

-- `body` is what has been collected of the stream.
pub record ObjectWrite : Type 0 where
  pub key : Text
  pub body : List ℕ
  pub content_type : Option Text

-- `input.contentType ? { contentType } : {}`
abbrev pub content_type_of : Option Text → Option Text
content_type_of none = none
content_type_of (some t) = if is_empty t then none else some t

abbrev pub object_of : ObjectWrite → ℕ → MemoryObject
object_of input now = record {
  key = input.key;
  bytes = input.body;
  content_type = content_type_of input.content_type;
  last_modified = now;
}

pub record StoredObjectResult : Type 0 where
  pub key : Text
  pub size_bytes : ℕ

pub record RawZipWriteResult : Type 0 where
  pub key : Text
  pub size_bytes : ℕ
  pub sha256 : Text

unfoldable pub write_raw_zip :
    (List ℕ → Text) → ObjectWrite → ℕ → Objects → RawZipWriteResult × Objects
write_raw_zip sha256 input now objects = (
  record { key = input.key; size_bytes = length input.body; sha256 = sha256 input.body },
  set (object_of input now) objects,
)

unfoldable pub write_staging_object : ObjectWrite → ℕ → Objects → StoredObjectResult × Objects
write_staging_object input now objects =
    (record { key = input.key; size_bytes = length input.body }, set (object_of input now) objects)

pub record CommittedObject : Type 0 where
  pub body : List ℕ
  pub size_bytes : ℕ
  pub content_type : Option Text

abbrev pub committed_of : MemoryObject → CommittedObject
committed_of o = record {
  body = o.bytes;
  size_bytes = length o.bytes;
  content_type = o.content_type;
}

-- None where the code throws that the object is not found.
unfoldable pub read_committed_object : Text → Objects → Option CommittedObject
read_committed_object key objects = Option.map committed_of (find_where (is_at key) objects)

pub record ObjectListInput : Type 0 where
  pub prefix : Text
  pub cursor : Option Text
  pub limit : ℕ

pub record StoredObjectSummary : Type 0 where
  pub key : Text
  pub last_modified : ℕ

pub record ObjectListResult : Type 0 where
  pub objects : List StoredObjectSummary
  pub next_cursor : Option Text

-- `!input.cursor || key > input.cursor`; the empty string counts as no cursor.
abbrev pub is_after : Option Text → Text → Bool
is_after none key = true
is_after (some c) key = is_empty c || key_less c key

abbrev pub is_wanted : Text → Option Text → Text → Bool
is_wanted prefix cursor key = starts_with key prefix && is_after cursor key

-- `at(-1)`, where it is neither undefined nor the empty string.
abbrev pub last_key : List Text → Option Text
last_key [] = none
last_key (k ∷ []) = if is_empty k then none else some k
last_key (k ∷ l ∷ ks) = last_key (l ∷ ks)

abbrev pub modified_of : Option MemoryObject → ℕ
modified_of none = 0
modified_of (some o) = o.last_modified

abbrev pub listed_of : Objects → Text → StoredObjectSummary
listed_of objects key = record {
  key = key;
  last_modified = modified_of (find_where (is_at key) objects);
}

abbrev pub page_of : Objects → ℕ → List Text → ObjectListResult
page_of objects limit sorted = record {
  objects = map (listed_of objects) (take limit sorted);
  next_cursor = if ltb limit (length sorted) then last_key (take limit sorted) else none;
}

unfoldable pub list_objects : ObjectListInput → Objects → ObjectListResult
list_objects input objects =
    page_of objects input.limit
      (sort_keys (select_where (is_wanted input.prefix input.cursor) (keys objects)))

-- `assertCleanupPrefix` for the root `staging` or `content-bundles`.
abbrev pub is_cleanup_prefix : Text → Text → Bool
is_cleanup_prefix root prefix =
    starts_with prefix (root ++ b'/' ∷ [])
    && ends_with_unit b'/' prefix
    && not (text_eq prefix (root ++ b'/' ∷ []))

unfoldable pub remove_prefix : Text → Objects → ℕ × Objects
remove_prefix prefix objects = (
  length (select_where (λ (o : MemoryObject). starts_with o.key prefix) objects),
  select_where (λ (o : MemoryObject). not (starts_with o.key prefix)) objects,
)

-- None where the assertion throws; `root` is "staging" or "content-bundles".
unfoldable pub remove_rooted_prefix : Text → Text → Objects → Option (ℕ × Objects)
remove_rooted_prefix root prefix objects =
    if is_cleanup_prefix root prefix then some (remove_prefix prefix objects) else none
