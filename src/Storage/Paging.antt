-- ===== src/Storage/Paging.antt =====
-- api/src/storage/in-memory-object-storage.ts: following the cursors of `listObjects` from page to
-- page, as api/src/application/reconciliation/reconciliation.ts does from one run to the next.
use share_slices.Base.{
  ℕ, zero, suc, ◌≤◌, ◌<◌, Bool, true, false, ◌&&◌, ◌||◌, Option, none, some, List, [], ◌∷◌, ◌++◌,
  ◌≡◌, refl, sym, ap, subst, ◌∙◌, inl, inr, arith, ltb, if◌then◌else◌, Bool-cases, map, length,
  take, drop, some_of, every, select_where, text_eq, Text, starts_with, is_empty,
}
use share_slices.Storage.{
  Objects, keys, StoredObjectSummary, is_after, is_wanted, last_key, listed_of, page_of,
  list_objects,
}
use share_slices.Storage.Keys.{
  key_less, insert_key, sort_keys, key_less_irreflexive, key_less_trans, is_ascending, is_distinct,
  sort-ascending, select-sort,
}

abbrev pub listed_keys : List StoredObjectSummary → List Text
listed_keys objects = map (λ (o : StoredObjectSummary). o.key) objects

-- The keys of the pages from a cursor on; the number is the most pages that are asked for.
unfoldable pub follow : ℕ → Objects → Text → ℕ → Option Text → List Text
follow zero objects prefix limit cursor = []
follow (suc pages) objects prefix limit cursor =
    let page = list_objects (record { prefix = prefix; cursor = cursor; limit = limit }) objects in
    listed_keys page.objects
    ++ elim page.next_cursor [ none ↦ [] | some c ↦ follow pages objects prefix limit (some c) ]

listed_keys-map :
    (objects : Objects) (ks : List Text) → listed_keys (map (listed_of objects) ks) ≡ ks
listed_keys-map objects [] = refl
listed_keys-map objects (k ∷ ks) = ap (◌∷◌ k) (listed_keys-map objects ks)

take-drop : (n : ℕ) (ks : List Text) → take n ks ++ drop n ks ≡ ks
take-drop zero ks = refl
take-drop (suc n) [] = refl
take-drop (suc n) (k ∷ ks) = ap (◌∷◌ k) (take-drop n ks)

take_all : (n : ℕ) (ks : List Text) → ltb n (length ks) ≡ false → take n ks ≡ ks
take_all zero [] h = refl
take_all zero (k ∷ ks) h = ground (arith, h)
take_all (suc n) [] h = refl
take_all (suc n) (k ∷ ks) h = ap (◌∷◌ k) (take_all n ks (ground (arith, h)))

length-drop : (n : ℕ) (ks : List Text) → length (drop n ks) ≤ length ks
length-drop zero ks = omega arith
length-drop (suc n) [] = omega arith
length-drop (suc n) (k ∷ ks) = omega (arith, length-drop n ks)

append_nil : (ks : List Text) → ks ++ [] ≡ ks
append_nil [] = refl
append_nil (k ∷ ks) = ap (◌∷◌ k) (append_nil ks)

-- A longer list than the page has a last key on it.
last_key-some :
    (n : ℕ) (k : Text) (ks : List Text)
    → some_of is_empty (k ∷ ks) ≡ false
    → (c : Text) × (last_key (take (suc n) (k ∷ ks)) ≡ some c)
last_key-some zero k ks h = (k, ground (arith, h))
last_key-some (suc n) k [] h = (k, ground (arith, h))
last_key-some (suc n) k (l ∷ ks) h = last_key-some n l ks (ground (arith, h))

last_key-every :
    (p : Text → Bool) (n : ℕ) (ks : List Text) (c : Text)
    → last_key (take n ks) ≡ some c
    → every p ks ≡ true
    → p c ≡ true
last_key-every p zero ks c e h = cc
last_key-every p (suc n) [] c e h = cc
last_key-every p (suc zero) (k ∷ ks) c e h = ground (arith, e, h)
last_key-every p (suc (suc n)) (k ∷ []) c e h = ground (arith, e, h)
last_key-every p (suc (suc n)) (k ∷ l ∷ ks) c e h =
    last_key-every p (suc n) (l ∷ ks) c e (ground (arith, h))

last_key_nonempty : (ks : List Text) (c : Text) → last_key ks ≡ some c → is_empty c ≡ false
last_key_nonempty [] c e = cc
last_key_nonempty (k ∷ []) c e = ground (arith, e)
last_key_nonempty (k ∷ l ∷ ks) c e = last_key_nonempty (l ∷ ks) c e

select_all : (p : Text → Bool) (ks : List Text) → every p ks ≡ true → select_where p ks ≡ ks
select_all p [] h = refl
select_all p (k ∷ ks) h = ground (arith, select_all p ks, h)

-- In an ascending list the keys after the last one of a page are those behind the page.
select_after :
    (n : ℕ) (ks : List Text) (c : Text)
    → is_ascending ks ≡ true
    → last_key (take n ks) ≡ some c
    → select_where (key_less c) ks ≡ drop n ks
select_after zero ks c h e = cc
select_after (suc n) [] c h e = cc
select_after (suc zero) (k ∷ ks) c h e =
    ground (arith, select_all (key_less k) ks, key_less_irreflexive k, h, e)
select_after (suc (suc n)) (k ∷ []) c h e = ground (arith, key_less_irreflexive k, e)
select_after (suc (suc n)) (k ∷ l ∷ ks) c h e = ground (
  arith,
  select_after (suc n) (l ∷ ks) c,
  last_key-every (key_less k) (suc n) (l ∷ ks) c e,
  key_less_trans k c k,
  key_less_irreflexive k,
  h,
  e,
)

-- Selecting by a narrower test.
select_narrow :
    (p q : Text → Bool) (ks : List Text)
    → ((k : Text) → q k ≡ true → p k ≡ true)
    → select_where q (select_where p ks) ≡ select_where q ks
select_narrow p q [] narrow = refl
select_narrow p q (k ∷ ks) narrow = ground (arith, select_narrow p q ks narrow, narrow k)

select_both :
    (p q : Text → Bool) (ks : List Text)
    → select_where (λ k. p k && q k) ks ≡ select_where q (select_where p ks)
select_both p q [] = refl
select_both p q (k ∷ ks) = ground (arith, select_both p q ks)

select-holds : (p : Text → Bool) (ks : List Text) → every p (select_where p ks) ≡ true
select-holds p [] = refl
select-holds p (k ∷ ks) = ground (arith, select-holds p ks)

select-lacks :
    (p q : Text → Bool) (ks : List Text)
    → some_of q ks ≡ false
    → some_of q (select_where p ks) ≡ false
select-lacks p q [] h = refl
select-lacks p q (k ∷ ks) h = ground (arith, select-lacks p q ks, h)

select-distinct :
    (p : Text → Bool) (ks : List Text)
    → is_distinct ks ≡ true
    → is_distinct (select_where p ks) ≡ true
select-distinct p [] h = refl
select-distinct p (k ∷ ks) h =
    ground (arith, select-distinct p ks, select-lacks p (λ x. text_eq x k) ks, h)

-- The keys that a listing from the cursor on has to give, in order.
abbrev pub wanted_keys : Objects → Text → Option Text → List Text
wanted_keys objects prefix cursor =
    sort_keys (select_where (is_wanted prefix cursor) (keys objects))

abbrev pub all_keys : Objects → Text → List Text
all_keys objects prefix = sort_keys (select_where (λ k. starts_with k prefix) (keys objects))

wanted_after :
    (objects : Objects) (prefix : Text) (cursor : Option Text)
    → is_distinct (keys objects) ≡ true
    → wanted_keys objects prefix cursor ≡ select_where (is_after cursor) (all_keys objects prefix)
wanted_after objects prefix cursor h =
    ap sort_keys (select_both (λ k. starts_with k prefix) (is_after cursor) (keys objects))
    ∙ sym (
        select-sort (is_after cursor) (select_where (λ k. starts_with k prefix) (keys objects))
          (select-distinct (λ k. starts_with k prefix) (keys objects) h))

after_narrow :
    (cursor : Option Text) (c k : Text)
    → is_after cursor c ≡ true
    → key_less c k ≡ true
    → is_after cursor k ≡ true
after_narrow none c k h e = refl
after_narrow (some d) c k h e = ground (arith, key_less_trans d c k, h, e)

-- The cursor of a page asks for what the page has left out.
next_page :
    (objects : Objects) (prefix : Text) (n : ℕ) (cursor : Option Text) (c : Text)
    → is_distinct (keys objects) ≡ true
    → last_key (take n (wanted_keys objects prefix cursor)) ≡ some c
    → wanted_keys objects prefix (some c) ≡ drop n (wanted_keys objects prefix cursor)
next_page objects prefix n cursor c h e =
    let every_key = all_keys objects prefix in
    let ts = wanted_keys objects prefix cursor in
    let is_ts : ts ≡ select_where (is_after cursor) every_key =
      wanted_after objects prefix cursor h in
    let after_c : is_after cursor c ≡ true =
      last_key-every (is_after cursor) n ts c e
        (ap (every (is_after cursor)) is_ts ∙ select-holds (is_after cursor) every_key) in
    wanted_after objects prefix (some c) h
    ∙ ap (λ b. select_where (λ k. b || key_less c k) every_key) (last_key_nonempty (take n ts) c e)
    ∙ sym (
        select_narrow (is_after cursor) (key_less c) every_key
          (λ k less. after_narrow cursor c k after_c less))
    ∙ ap (select_where (key_less c)) (sym is_ts)
    ∙ select_after n ts c
        (sort-ascending (select_where (is_wanted prefix cursor) (keys objects))
          (select-distinct (is_wanted prefix cursor) (keys objects) h))
        e

drop_shorter :
    (n : ℕ) (ks : List Text) (c : Text)
    → last_key (take (suc n) ks) ≡ some c
    → length (drop (suc n) ks) < length ks
drop_shorter n [] c e = cc
drop_shorter n (k ∷ ks) c e = omega (arith, length-drop n ks)

some_key :
    (n : ℕ) (ks : List Text)
    → ltb n (length ks) ≡ true
    → (k : Text) × (l : List Text) × (ks ≡ k ∷ l)
some_key n [] h = ground (arith, h)
some_key n (k ∷ ks) h = (k, ks, refl)

-- A page and what its cursor gives are the whole list.
paged :
    (objects : Objects) (n : ℕ) (ts : List Text) (rest : Text → List Text)
    → some_of is_empty ts ≡ false
    → ((c : Text) → last_key (take (suc n) ts) ≡ some c → rest c ≡ drop (suc n) ts)
    → listed_keys (page_of objects (suc n) ts).objects
        ++ elim (page_of objects (suc n) ts).next_cursor [ none ↦ [] | some c ↦ rest c ]
      ≡ ts
paged objects n ts rest filled goes_on =
    subst (λ ks. ks ++ onward (if more then last_key page else none) ≡ ts)
      (sym (listed_keys-map objects page))
      (elim (Bool-cases more) [
        | inl e ↦
            subst (λ b. page ++ onward (if b then last_key page else none) ≡ ts) (sym e) (turn e)
        | inr e ↦
            subst (λ b. page ++ onward (if b then last_key page else none) ≡ ts) (sym e)
              (append_nil page ∙ take_all (suc n) ts e)
      ])
  where
    page : List Text
    page = take (suc n) ts

    more : Bool
    more = ltb (suc n) (length ts)

    onward : Option Text → List Text
    onward next = elim next [ none ↦ [] | some c ↦ rest c ]

    turn : ltb (suc n) (length ts) ≡ true → page ++ onward (last_key page) ≡ ts
    turn e =
        let (k, l, is_cons) = some_key (suc n) ts e in
        let (c, last) =
          last_key-some n k l (subst (λ x. some_of is_empty x ≡ false) is_cons filled) in
        let found : last_key page ≡ some c = ap (λ x. last_key (take (suc n) x)) is_cons ∙ last in
        subst (λ o. page ++ onward o ≡ ts) (sym found)
          (ap (λ x. page ++ x) (goes_on c found) ∙ take-drop (suc n) ts)

insert-some :
    (q : Text → Bool) (k : Text) (xs : List Text) → some_of q (insert_key k xs) ≡ some_of q (k ∷ xs)
insert-some q k [] = refl
insert-some q k (x ∷ xs) = ground (arith, insert-some q k xs)

sort-lacks :
    (q : Text → Bool) (ks : List Text) → some_of q ks ≡ false → some_of q (sort_keys ks) ≡ false
unfolding sort_keys
sort-lacks q [] h = refl
sort-lacks q (k ∷ ks) h = insert-some q k (sort_keys ks) ∙ ground (arith, sort-lacks q ks, h)

-- Following the cursors of the listing with a positive limit, from a cursor or from the start, ends
-- and gives exactly the sorted list of the keys with the prefix that come behind that cursor, with
-- none missing and none twice, when as many pages may be read as there are such keys, the stored
-- keys are different (they are a map's) and none of them is empty.
pub follow_lem :
    (pages : ℕ) (objects : Objects) (prefix : Text) (n : ℕ) (cursor : Option Text)
    → is_distinct (keys objects) ≡ true
    → some_of is_empty (keys objects) ≡ false
    → length (wanted_keys objects prefix cursor) ≤ pages
    → follow pages objects prefix (suc n) cursor ≡ wanted_keys objects prefix cursor
unfolding follow list_objects
follow_lem zero objects prefix n cursor h filled enough =
    no_keys (wanted_keys objects prefix cursor) enough
  where
    no_keys : (ts : List Text) → length ts ≤ 0 → [] ≡ ts
    no_keys [] enough = refl
    no_keys (t ∷ ts) enough = ground (arith, enough)
follow_lem (suc pages) objects prefix n cursor h filled enough =
    paged objects n (wanted_keys objects prefix cursor)
      (λ c. follow pages objects prefix (suc n) (some c))
      (sort-lacks is_empty (select_where (is_wanted prefix cursor) (keys objects))
        (select-lacks (is_wanted prefix cursor) is_empty (keys objects) filled))
      (λ c e.
        let next = next_page objects prefix (suc n) cursor c h e in
        let shorter = drop_shorter n (wanted_keys objects prefix cursor) c e in
        follow_lem pages objects prefix n (some c) h filled
          (omega (arith, ap length next, shorter, enough))
        ∙ next)
