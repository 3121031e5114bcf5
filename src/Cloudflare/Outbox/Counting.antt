-- ===== src/Cloudflare/Outbox/Counting.antt =====
-- job-outbox.ts: how many rows a statement matches, and which row a round takes.
use share_slices.Base.{
  ◌+◌, ◌≤◌, ◌≡◌, refl, ap, Bool, true, false, ◌&&◌, Bool-cases, Option-cases, ◌⊎◌, inl, inr, none,
  some, List, [], ◌∷◌, arith, some_of, select_where, update_where,
}
use share_slices.Cloudflare.Outbox.{DispatchRow, count_where, least}

module _ (p g : DispatchRow → Bool) (f : DispatchRow → DispatchRow) where
  pub count_where-update_where :
      ((r : DispatchRow) → p (f r) ≡ p r)
      → (rows : List DispatchRow) → count_where p (update_where g f rows) ≡ count_where p rows
  count_where-update_where keep [] = refl
  count_where-update_where keep (r ∷ rows) =
      ground (arith, keep r, count_where-update_where keep rows)

  -- A write after which no row matches that did not match before.
  pub count_where-update_where_le :
      ((r : DispatchRow) → g r ≡ true → p (f r) ≡ true → p r ≡ true)
      → (rows : List DispatchRow) → count_where p (update_where g f rows) ≤ count_where p rows
  count_where-update_where_le keep [] = ground arith
  count_where-update_where_le keep (r ∷ rows) =
      ground (arith, keep r, count_where-update_where_le keep rows)

  -- A write that ends the match of some row, and brings no other.
  pub count_where-update_where_lt :
      ((r : DispatchRow) → p (f r) ≡ false)
      → (rows : List DispatchRow) → some_of (λ r. g r && p r) rows ≡ true
      → count_where p (update_where g f rows) + 1 ≤ count_where p rows
  count_where-update_where_lt ends [] e = cc
  count_where-update_where_lt ends (r ∷ rows) e =
      let rest = count_where-update_where_lt ends rows in
      let most = count_where-update_where_le (λ r on h. cc (ends r, h)) rows in
      ground (arith, ends r, rest, most, e)

  pub some_of-update_where :
      ((r : DispatchRow) → g r ≡ true → p (f r) ≡ true)
      → (rows : List DispatchRow) → some_of g rows ≡ true
      → some_of p (update_where g f rows) ≡ true
  some_of-update_where turns [] e = cc
  some_of-update_where turns (r ∷ rows) e =
      ground (arith, turns r, some_of-update_where turns rows, e)

module _ (p q : DispatchRow → Bool) where
  pub count_where_mono :
      ((r : DispatchRow) → p r ≡ true → q r ≡ true)
      → (rows : List DispatchRow) → count_where p rows ≤ count_where q rows
  count_where_mono imply [] = ground arith
  count_where_mono imply (r ∷ rows) = ground (arith, imply r, count_where_mono imply rows)

  pub some_of_mono :
      ((r : DispatchRow) → p r ≡ true → q r ≡ true)
      → (rows : List DispatchRow) → some_of p rows ≡ true
      → some_of q rows ≡ true
  some_of_mono imply [] e = cc
  some_of_mono imply (r ∷ rows) e = ground (arith, imply r, some_of_mono imply rows, e)

pub some_of-count :
    (p : DispatchRow → Bool) (rows : List DispatchRow)
    → some_of p rows ≡ true
    → 1 ≤ count_where p rows
some_of-count p [] e = cc
some_of-count p (r ∷ rows) e = ground (arith, some_of-count p rows, e)

module _ (before : DispatchRow → DispatchRow → Bool) where
  least_cons :
      (s r : DispatchRow) (rows : List DispatchRow)
      → least before (s ∷ rows) ≡ some r
      → (s ≡ r) ⊎ (least before rows ≡ some r)
  least_cons s r rows e = elim (Option-cases (least before rows)) [
    | inl alone ↦ inl (ground (arith, alone, e))
    | inr (t, found) ↦ elim (Bool-cases (before t s)) [
      | inl on ↦ inr (ground (arith, found, on, e))
      | inr off ↦ inl (ground (arith, found, off, e))
    ]
  ]

  -- The least row of a selection matches, and some row that matches passes every test that it
  -- passes.
  pub least_found :
      (p q : DispatchRow → Bool) (rows : List DispatchRow) (r : DispatchRow)
      → least before (select_where p rows) ≡ some r
      → q r ≡ true
      → (p r ≡ true) × (some_of (λ s. p s && q s) rows ≡ true)
  least_found p q [] r e on = cc
  least_found p q (s ∷ rows) r e on =
      let rest = least_found p q rows r in
      elim (Bool-cases (p s)) [
        | inl match ↦
            let first : least before (s ∷ select_where p rows) ≡ some r =
              ground (arith, match, e) in
            elim (least_cons s r (select_where p rows) first) [
              | inl same ↦ (cc (ap p same, match), ground (arith, match, ap q same, on))
              | inr later ↦ ((rest later on).0, ground (arith, (rest later on).1))
            ]
        | inr off ↦
            let later : least before (select_where p rows) ≡ some r = ground (arith, off, e) in
            ((rest later on).0, ground (arith, (rest later on).1))
      ]

  least_cons_found :
      (s : DispatchRow) (rows : List DispatchRow)
      → least before (s ∷ rows) ≡ none
      → ◌≡◌ {A = Bool} true false
  least_cons_found s rows e = elim (Option-cases (least before rows)) [
    | inl alone ↦ ground (arith, alone, e)
    | inr (t, found) ↦ ground (arith, found, e)
  ]

  -- Where there is none, no row matches.
  pub least-none :
      (p : DispatchRow → Bool) (rows : List DispatchRow)
      → least before (select_where p rows) ≡ none
      → some_of p rows ≡ false
  least-none p [] e = refl
  least-none p (r ∷ rows) e =
      let rest = least-none p rows in
      elim (Bool-cases (p r)) [
        | inl match ↦
            let first : least before (r ∷ select_where p rows) ≡ none = ground (arith, match, e) in
            cc (least_cons_found r (select_where p rows) first)
        | inr off ↦ ground (arith, off, rest, e)
      ]
