-- ===== src/Publication/Newest.antt =====
-- The newest row of a table, and what the writes of `publish` leave of it.
use share_slices.Base.{
  ℕ, ◌<◌, String, eq_iff, ◌≡◌, refl, Bool, true, none, some, List, [], ◌∷◌, arith, ltb,
  if◌then◌else◌, Option-cases, Bool-cases, inl, inr, subst, All, find_where, select_where,
  update_where,
}
use share_slices.Publication.Rows.{
  PublicationRow, ShareLinkRow, newest, is_open, is_current_of, newest_publication, newest_link,
  is_active_of, is_active,
}
use share_slices.Publication.Store.{
  supersede, has_publication_id, has_slug, retire_link, has_link_id,
}

module _ {ℓ} {R : Type ℓ} where
  -- A table without a row that matches has no newest one.
  pub select_where-none :
      (p : R → Bool) (rs : List R) → find_where p rs ≡ none → select_where p rs ≡ []
  select_where-none p [] h = refl
  select_where-none p (r ∷ rs) h = ground (arith, select_where-none p rs)

  pub newest-All {κ} :
      (P : R → Type κ) (at : R → ℕ) (rs : List R) (s : R) → All P rs → newest at rs ≡ some s → P s
  newest-All P at [] s h e = cc
  newest-All P at (r ∷ rs) s h e = elim (Option-cases (newest at rs)) [
    | inl none_left ↦ subst P (ground arith) h.0
    | inr (x, found) ↦ newest-either P at r x s h.0 (newest-All P at rs x h.1 found) (rw found at e)
  ]
    where
      newest-either :
          (Q : R → Type κ) (key : R → ℕ) (a b c : R)
          → Q a
          → Q b
          → (if ltb (key a) (key b) then some b else some a) ≡ some c
          → Q c
      newest-either Q key a b c ha hb eq = elim (Bool-cases (ltb (key a) (key b))) [
        | inl e ↦ subst Q (ground arith) hb
        | inr e ↦ subst Q (ground arith) ha
      ]

  -- A row that is younger than all others is the newest.
  pub newest-cons :
      (at : R → ℕ) (r : R) (rs : List R) → All (λ s. at s < at r) rs → newest at (r ∷ rs) ≡ some r
  newest-cons at r rs h = elim (Option-cases (newest at rs)) [
    | inl e ↦ rw e refl
    | inr (s, e) ↦ rw e (ground (arith, newest-All (λ x. at x < at r) at rs s h e))
  ]

abbrev pub IsOneCurrent : List PublicationRow → Type 0
IsOneCurrent [] = Unit
IsOneCurrent (r ∷ rs) =
    (is_open r ≡ true → find_where (is_current_of r.artifact_id) rs ≡ none) × IsOneCurrent rs

abbrev pub IsOneActive : List ShareLinkRow → Type 0
IsOneActive [] = Unit
IsOneActive (r ∷ rs) =
    (is_active r.status ≡ true → find_where (is_active_of r.artifact_id) rs ≡ none) × IsOneActive rs

abbrev pub HasUniqueSlugs : List ShareLinkRow → Type 0
HasUniqueSlugs [] = Unit
HasUniqueSlugs (r ∷ rs) = (find_where (has_slug r.slug) rs ≡ none) × HasUniqueSlugs rs

superseded-none :
    (a id : String) (now : ℕ) (rs : List PublicationRow)
    → find_where (is_current_of a) rs ≡ none
    → find_where (is_current_of a) (update_where (has_publication_id id) (supersede now) rs) ≡ none
superseded-none a id now [] h = refl
superseded-none a id now (r ∷ rs) h = ground (arith, superseded-none a id now rs)

-- Ending the newest current publication leaves none, since there is one at most.
pub superseded-current :
    (a : String) (now : ℕ) (rs : List PublicationRow) (p : PublicationRow)
    → IsOneCurrent rs
    → newest_publication (is_current_of a) rs ≡ some p
    → find_where (is_current_of a) (update_where (has_publication_id p.id) (supersede now) rs)
      ≡ none
superseded-current a now [] p v h = cc
superseded-current a now (r ∷ rs) p v h = elim (Bool-cases (is_current_of a r)) [
  | inr e ↦ ground (arith, superseded-current a now rs p v.1)
  | inl e ↦
      let gone : find_where (is_current_of a) rs ≡ none =
        ground (arith, eq_iff r.artifact_id a, v.0) in
      let same : r ≡ p = ground (arith, select_where-none (is_current_of a) rs gone) in
      ground (arith, superseded-none a p.id now rs gone, eq_iff p.id p.id)
]

retired-none :
    (a id : String) (now : ℕ) (rs : List ShareLinkRow)
    → find_where (is_active_of a) rs ≡ none
    → find_where (is_active_of a) (update_where (has_link_id id) (retire_link now) rs) ≡ none
retired-none a id now [] h = refl
retired-none a id now (r ∷ rs) h = ground (arith, retired-none a id now rs)

pub retired-active :
    (a : String) (now : ℕ) (rs : List ShareLinkRow) (l : ShareLinkRow)
    → IsOneActive rs
    → newest_link (is_active_of a) rs ≡ some l
    → find_where (is_active_of a) (update_where (has_link_id l.id) (retire_link now) rs) ≡ none
retired-active a now [] l v h = cc
retired-active a now (r ∷ rs) l v h = elim (Bool-cases (is_active_of a r)) [
  | inr e ↦ ground (arith, retired-active a now rs l v.1)
  | inl e ↦
      let gone : find_where (is_active_of a) rs ≡ none =
        ground (arith, eq_iff r.artifact_id a, v.0) in
      let same : r ≡ l = ground (arith, select_where-none (is_active_of a) rs gone) in
      ground (arith, retired-none a l.id now rs gone, eq_iff l.id l.id)
]

module _ {ℓ} {R : Type ℓ} where
  pub newest-none :
      (p : R → Bool) (at : R → ℕ) (rs : List R)
      → newest at (select_where p rs) ≡ none
      → find_where p rs ≡ none
  newest-none p at [] h = refl
  newest-none p at (r ∷ rs) h = elim (Bool-cases (p r)) [
    | inr e ↦ ground (arith, newest-none p at rs)
    | inl e ↦ elim (Option-cases (newest at (select_where p rs))) [
      | inl f ↦ absurd (ground arith)
      | inr (s, f) ↦ absurd (ground arith)
    ]
  ]

  pub select_where-All {κ} :
      (p : R → Bool) (P : R → Type κ) (rs : List R)
      → All (λ r. p r ≡ true → P r) rs
      → All P (select_where p rs)
  select_where-All p P [] h = tt
  select_where-All p P (r ∷ rs) h = elim (Bool-cases (p r)) [
    | inl e ↦ rw e (h.0 e, select_where-All p P rs h.1)
    | inr e ↦ rw e (select_where-All p P rs h.1)
  ]

  pub update_where-All {κ} :
      (p : R → Bool) (f : R → R) (P : R → Type κ) (rs : List R)
      → ((r : R) → P r → P (f r))
      → All P rs
      → All P (update_where p f rs)
  update_where-All p f P [] k h = tt
  update_where-All p f P (r ∷ rs) k h = elim (Bool-cases (p r)) [
    | inl e ↦ rw e (k r h.0, update_where-All p f P rs k h.1)
    | inr e ↦ rw e (h.0, update_where-All p f P rs k h.1)
  ]

  pub select_where-holds : (p : R → Bool) (rs : List R) → All (λ r. p r ≡ true) (select_where p rs)
  select_where-holds p [] = tt
  select_where-holds p (r ∷ rs) = elim (Bool-cases (p r)) [
    | inl e ↦ rw e (e, select_where-holds p rs)
    | inr e ↦ rw e (select_where-holds p rs)
  ]

abbrev pub Finds : List ShareLinkRow → ShareLinkRow → Type 0
Finds rs l = find_where (has_slug l.slug) rs ≡ some l

Finds-cons :
    (r l : ShareLinkRow) (rs : List ShareLinkRow)
    → find_where (has_slug r.slug) rs ≡ none
    → Finds rs l
    → Finds (r ∷ rs) l
Finds-cons r l rs gone found = ground (arith, eq_iff r.slug l.slug)

All-Finds :
    (xs rs : List ShareLinkRow) (r : ShareLinkRow)
    → find_where (has_slug r.slug) rs ≡ none
    → All (Finds rs) xs
    → All (Finds (r ∷ rs)) xs
All-Finds [] rs r gone h = tt
All-Finds (x ∷ xs) rs r gone h = (Finds-cons r x rs gone h.0, All-Finds xs rs r gone h.1)

-- With unique slugs, a link that is selected is the one that its slug finds.
pub select_where-Finds :
    (p : ShareLinkRow → Bool) (rs : List ShareLinkRow)
    → HasUniqueSlugs rs
    → All (Finds rs) (select_where p rs)
select_where-Finds p [] u = tt
select_where-Finds p (r ∷ rs) u = elim (Bool-cases (p r)) [
  | inl e ↦ rw e (
    ground (arith, eq_iff r.slug r.slug),
    All-Finds (select_where p rs) rs r u.0 (select_where-Finds p rs u.1),
  )
  | inr e ↦ rw e (All-Finds (select_where p rs) rs r u.0 (select_where-Finds p rs u.1))
]
