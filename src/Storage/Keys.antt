-- ===== src/Storage/Keys.antt =====
-- api/src/storage/in-memory-object-storage.ts: the order of keys (`>` and `sort` compare UTF-16 code
-- units) and lists of keys in that order.
use share_slices.Base.{
  Bool, true, false, not, ◌&&◌, ◌||◌, List, [], ◌∷◌, ◌≡◌, refl, ap, ◌∙◌, inl, inr, arith, ltb, ◌==◌,
  if◌then◌else◌, Bool-cases, some_of, every, select_where, Text, text_eq,
}

unfoldable pub key_less : Text → Text → Bool
key_less [] [] = false
key_less [] (y ∷ ys) = true
key_less (x ∷ xs) [] = false
key_less (x ∷ xs) (y ∷ ys) = ltb x y || (x == y && key_less xs ys)

abbrev pub insert_key : Text → List Text → List Text
insert_key k [] = k ∷ []
insert_key k (x ∷ xs) = let rest = insert_key k xs in if key_less x k then x ∷ rest else k ∷ x ∷ xs

unfoldable pub sort_keys : List Text → List Text
sort_keys [] = []
sort_keys (k ∷ ks) = insert_key k (sort_keys ks)

pub key_less_irreflexive : (s : Text) → key_less s s ≡ false
unfolding key_less
key_less_irreflexive [] = refl
key_less_irreflexive (x ∷ xs) = ground (arith, key_less_irreflexive xs)

pub key_less_trans :
    (r s t : Text) → key_less r s ≡ true → key_less s t ≡ true → key_less r t ≡ true
unfolding key_less
key_less_trans [] [] t h k = cc
key_less_trans [] (y ∷ s) [] h k = cc
key_less_trans [] (y ∷ s) (z ∷ t) h k = refl
key_less_trans (x ∷ r) [] t h k = cc
key_less_trans (x ∷ r) (y ∷ s) [] h k = cc
key_less_trans (x ∷ r) (y ∷ s) (z ∷ t) h k = ground (arith, key_less_trans r s t, h, k)

-- Of two different keys one comes before the other.
pub key_less_total : (s t : Text) → key_less s t ≡ false → text_eq s t ≡ false → key_less t s ≡ true
unfolding key_less text_eq
key_less_total [] [] h k = cc
key_less_total [] (y ∷ t) h k = cc
key_less_total (x ∷ s) [] h k = refl
key_less_total (x ∷ s) (y ∷ t) h k = ground (arith, key_less_total s t, h, k)

-- Every key comes before those after it.
abbrev pub is_ascending : List Text → Bool
is_ascending [] = true
is_ascending (k ∷ ks) = every (key_less k) ks && is_ascending ks

abbrev pub has_key : Text → List Text → Bool
has_key k = some_of (λ x. text_eq x k)

abbrev pub is_distinct : List Text → Bool
is_distinct [] = true
is_distinct (k ∷ ks) = not (has_key k ks) && is_distinct ks

pub insert-every :
    (p : Text → Bool) (k : Text) (xs : List Text)
    → p k ≡ true
    → every p xs ≡ true
    → every p (insert_key k xs) ≡ true
insert-every p k [] h all = ground (arith, h)
insert-every p k (x ∷ xs) h all = ground (arith, insert-every p k xs h, h, all)

-- A key before the first of an ascending list is before all of it.
before_all :
    (k x : Text) (xs : List Text)
    → key_less k x ≡ true
    → every (key_less x) xs ≡ true
    → every (key_less k) xs ≡ true
before_all k x [] h all = refl
before_all k x (y ∷ xs) h all = ground (arith, before_all k x xs h, key_less_trans k x y h, all)

insert-ascending :
    (k : Text) (xs : List Text)
    → is_ascending xs ≡ true
    → has_key k xs ≡ false
    → is_ascending (insert_key k xs) ≡ true
insert-ascending k [] h new = refl
insert-ascending k (x ∷ xs) h new = ground (
  arith,
  insert-ascending k xs,
  insert-every (key_less x) k xs,
  before_all k x xs,
  key_less_total x k,
  h,
  new,
)

insert-has_key : (k x : Text) (xs : List Text) → has_key k (insert_key x xs) ≡ has_key k (x ∷ xs)
insert-has_key k x [] = refl
insert-has_key k x (y ∷ xs) = ground (arith, insert-has_key k x xs)

sort-has_key : (k : Text) (ks : List Text) → has_key k (sort_keys ks) ≡ has_key k ks
unfolding sort_keys
sort-has_key k [] = refl
sort-has_key k (x ∷ ks) =
    insert-has_key k x (sort_keys ks) ∙ ap (λ b. text_eq x k || b) (sort-has_key k ks)

pub sort-ascending : (ks : List Text) → is_distinct ks ≡ true → is_ascending (sort_keys ks) ≡ true
unfolding sort_keys
sort-ascending [] h = refl
sort-ascending (k ∷ ks) h =
    insert-ascending k (sort_keys ks) (sort-ascending ks (ground (arith, h)))
      (sort-has_key k ks ∙ ground (arith, h))

insert_first : (k : Text) (xs : List Text) → every (key_less k) xs ≡ true → insert_key k xs ≡ k ∷ xs
insert_first k [] h = refl
insert_first k (x ∷ xs) h = ground (arith, h, key_less_trans k x k, key_less_irreflexive k)

select-every :
    (p q : Text → Bool) (xs : List Text) → every q xs ≡ true → every q (select_where p xs) ≡ true
select-every p q [] h = refl
select-every p q (x ∷ xs) h = ground (arith, select-every p q xs, h)

select-insert :
    (p : Text → Bool) (k : Text) (xs : List Text)
    → is_ascending xs ≡ true
    → has_key k xs ≡ false
    → select_where p (insert_key k xs)
      ≡ (if p k then insert_key k (select_where p xs) else select_where p xs)
select-insert p k [] h new = ground arith
select-insert p k (x ∷ xs) h new = elim (Bool-cases (key_less x k)) [
  | inl e ↦ ground (arith, select-insert p k xs, h, new, e)
  | inr e ↦
      let less : key_less k x ≡ true = key_less_total x k e (ground (arith, new)) in
      ground (
        arith,
        insert_first k (select_where p xs)
            (select-every p (key_less k) xs (before_all k x xs less (ground (arith, h)))),
        e,
      )
]

-- Sorting and selecting commute on different keys.
pub select-sort :
    (p : Text → Bool) (ks : List Text)
    → is_distinct ks ≡ true
    → select_where p (sort_keys ks) ≡ sort_keys (select_where p ks)
unfolding sort_keys
select-sort p [] h = refl
select-sort p (k ∷ ks) h = ground (
  arith,
  select-insert p k (sort_keys ks) (sort-ascending ks (ground (arith, h)))
      (sort-has_key k ks ∙ ground (arith, h)),
  select-sort p ks,
  h,
)
