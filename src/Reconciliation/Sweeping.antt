-- ===== src/Reconciliation/Sweeping.antt =====
-- api/src/application/reconciliation/reconciliation.ts: which objects a sweep may delete.
use share_slices.Base.{
  ℕ, zero, suc, Bool, true, false, ◌&&◌, Option, none, some, List, [], ◌∷◌, ◌≡◌, refl, sym, ap, ◌∙◌,
  inl, inr, arith, ltb, if◌then◌else◌, Bool-cases, map, take, every, find_where, select_where, Text,
  text_eq, text_eq_iff, starts_with,
}
use share_slices.Storage.{
  MemoryObject, Objects, is_at, keys, delete, is_wanted, listed_of, modified_of, list_objects,
}
use share_slices.Storage.Keys.{sort_keys, has_key, insert-every}
use share_slices.Reconciliation.{
  ReconciliationWorkType, raw_objects, staging_objects, expired_leases, artifact_deletions,
  content_bundle_deletions, ReconciliationInput, ReconciliationReport, Repository, is_valid_limit,
  delete_all, prefixes, raw_prefix, staging_prefix, old_keys, page_for, sweep, work, run,
}

find-delete :
    (key k : Text) (objects : Objects)
    → text_eq k key ≡ false
    → find_where (is_at key) (delete k objects) ≡ find_where (is_at key) objects
unfolding delete
find-delete key k [] h = refl
find-delete key k (o ∷ objects) h = ground (
  arith,
  find-delete key k objects h,
  text_eq_iff o.key k,
  text_eq_iff o.key key,
  text_eq_iff k key,
  h,
)

find-delete_all :
    (key : Text) (ks : List Text) (objects : Objects)
    → has_key key ks ≡ false
    → find_where (is_at key) (delete_all ks objects) ≡ find_where (is_at key) objects
unfolding delete_all
find-delete_all key [] objects h = refl
find-delete_all key (k ∷ ks) objects h =
    find-delete_all key ks (delete k objects) (ground (arith, h))
    ∙ find-delete key k objects (ground (arith, h))

-- Keys that are all among others lack what the others lack.
among-lacks :
    (key : Text) (ks others : List Text)
    → every (λ k. has_key k others) ks ≡ true
    → has_key key others ≡ false
    → has_key key ks ≡ false
among-lacks key [] others all h = refl
among-lacks key (k ∷ ks) others all h = elim (Bool-cases (text_eq k key)) [
  | inl e ↦
      let same : k ≡ key = ground (arith, text_eq_iff k key, e) in
      ground (arith, ap (λ x. has_key x others) same, all, h)
  | inr e ↦ ground (arith, among-lacks key ks others, all, h, e)
]

sort-every : (p : Text → Bool) (ks : List Text) → every p ks ≡ true → every p (sort_keys ks) ≡ true
unfolding sort_keys
sort-every p [] h = refl
sort-every p (k ∷ ks) h =
    insert-every p k (sort_keys ks) (ground (arith, h)) (sort-every p ks (ground (arith, h)))

take-every :
    (p : Text → Bool) (n : ℕ) (ks : List Text) → every p ks ≡ true → every p (take n ks) ≡ true
take-every p zero ks h = refl
take-every p (suc n) [] h = refl
take-every p (suc n) (k ∷ ks) h = ground (arith, take-every p n ks, h)

wanted-every :
    (prefix : Text) (cursor : Option Text) (ks : List Text)
    → every (λ k. starts_with k prefix) (select_where (is_wanted prefix cursor) ks) ≡ true
wanted-every prefix cursor [] = refl
wanted-every prefix cursor (k ∷ ks) = ground (arith, wanted-every prefix cursor ks)

-- An object that is not old, or not below the prefix, is not among the old keys of a page.
old_keys-lack :
    (older_than : ℕ) (prefix key : Text) (o : MemoryObject) (objects : Objects) (ks : List Text)
    → find_where (is_at key) objects ≡ some o
    → (starts_with key prefix && ltb o.last_modified older_than) ≡ false
    → every (λ k. starts_with k prefix) ks ≡ true
    → has_key key (old_keys older_than (map (listed_of objects) ks)) ≡ false
old_keys-lack older_than prefix key o objects [] found spared below = refl
old_keys-lack older_than prefix key o objects (k ∷ ks) found spared below =
    elim (Bool-cases (text_eq k key)) [
      | inl e ↦
          let same : k ≡ key = ground (arith, text_eq_iff k key, e) in
          let age : modified_of (find_where (is_at k) objects) ≡ o.last_modified =
            ap (λ x. modified_of (find_where (is_at x) objects)) same ∙ ap modified_of found in
          let young : ltb (modified_of (find_where (is_at k) objects)) older_than ≡ false =
            ap (λ x. ltb x older_than) age
            ∙ ground (arith, spared, below, ap (λ x. starts_with x prefix) same) in
          ground
            (arith, young, old_keys-lack older_than prefix key o objects ks found spared, below)
      | inr e ↦
          ground (arith, old_keys-lack older_than prefix key o objects ks found spared, below, e)
    ]

-- What the repository answers is among what it was asked about.
abbrev pub IsSubsetAnswer : {R : Type 0} → (List Text → R → List Text) → Type 0
IsSubsetAnswer {R} find = (ks : List Text) (r : R) → every (λ k. has_key k ks) (find ks r) ≡ true

sweep-spares :
    {R : Type 0} (prefix : Text) (removable : List Text → R → List Text)
    (input : ReconciliationInput) (objects : Objects) (r : R) (key : Text) (o : MemoryObject)
    → IsSubsetAnswer removable
    → find_where (is_at key) objects ≡ some o
    → (starts_with key prefix && ltb o.last_modified input.older_than) ≡ false
    → find_where (is_at key) (sweep prefix removable input objects r).1 ≡ some o
unfolding list_objects
sweep-spares prefix removable input objects r key o lawful found spared =
    let wanted = select_where (is_wanted prefix input.cursor) (keys objects) in
    let asked = old_keys input.older_than (page_for prefix input objects).objects in
    find-delete_all key (removable asked r) objects (
      among-lacks key (removable asked r) asked (lawful asked r) (
        old_keys-lack input.older_than prefix key o objects (take input.limit (sort_keys wanted))
          found spared
          (take-every (λ k. starts_with k prefix) input.limit (sort_keys wanted)
            (sort-every (λ k. starts_with k prefix) wanted
              (wanted-every prefix input.cursor (keys objects))))))
    ∙ found

-- A reconciliation run of the raw or the staging objects leaves every stored object as it is that
-- does not lie below that work type's prefix or was modified at or after the cutoff, whatever the
-- repository calls removable among the keys that it is asked about.
pub run_spares :
    {R : Type 0} (repository : Repository R) (input : ReconciliationInput) (now : ℕ)
    (objects : Objects) (r : R) (prefix key : Text) (o : MemoryObject)
    (report : ReconciliationReport) (objects' : Objects) (r' : R)
    → IsSubsetAnswer repository.find_removable_raw_object_keys
    → IsSubsetAnswer repository.find_removable_staging_object_keys
    → prefixes input.work_type ≡ some prefix
    → find_where (is_at key) objects ≡ some o
    → (starts_with key prefix && ltb o.last_modified input.older_than) ≡ false
    → run repository input now objects r ≡ some (report, objects', r')
    → find_where (is_at key) objects' ≡ some o
unfolding run
run_spares {R} repository input now objects r prefix key o report objects' r' raw staging below
      found spared e =
    let (valid, same) =
      only (is_valid_limit input.limit) (work repository input.work_type input now objects r) e in
    ap (λ x. find_where (is_at key) x.1) (sym same) ∙ by_type input.work_type below
  where
    only :
        (b : Bool) (x : ReconciliationReport × Objects × R)
        → (if b then some x else none) ≡ some (report, objects', r')
        → (b ≡ true) × (x ≡ (report, objects', r'))
    only b x e = ground (arith, e)

    by_type :
        (t : ReconciliationWorkType)
        → prefixes t ≡ some prefix
        → find_where (is_at key) (work repository t input now objects r).1 ≡ some o
    by_type raw_objects p =
        sweep-spares raw_prefix repository.find_removable_raw_object_keys input objects r key o raw
          found (ground (arith, spared, p))
    by_type staging_objects p =
        sweep-spares staging_prefix repository.find_removable_staging_object_keys input objects r
          key o staging found (ground (arith, spared, p))
    by_type expired_leases p = cc
    by_type artifact_deletions p = cc
    by_type content_bundle_deletions p = cc
