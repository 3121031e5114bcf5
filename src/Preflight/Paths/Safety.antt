-- ===== src/Preflight/Paths/Safety.antt =====
-- What `safePath` lets through.
use share_slices.Base.{
  All, IsName, is_no_name, names_iff, refl, ◌↔◌, Text, ◌≡◌, ap, ◌∙◌, ◌⊎◌, inl, inr, false, ◌||◌,
  some, [], ◌∷◌, ◌++◌, arith, ◌==◌, Bool-cases, some_of, unless-eq-some, ||-eq-false, includes,
  ends_with_unit, split_on, join_with, without_last, join_with-split_on, split_on_nonempty,
  split_on-snoc, ends-append, without_last-append, some_of-append,
}
use share_slices.Preflight.Paths.{
  slash, has_drive, starts_with_unit, is_empty, is_forbidden_part, is_refused, safe_parts,
  join_safe, safe_path,
}

-- A path that stays below the directory that it is joined to: its parts are neither empty nor a
-- dot or two, and it holds no backslash, no NUL and no drive letter.
pub record IsSafe (q : Text) : Type 0 where
  pub parts : All IsName (split_on slash q)
  pub backslash : includes b'\\' q ≡ false
  pub nul : includes 0 q ≡ false
  pub drive : has_drive q ≡ false

forbidden_iff :
    (q : Text)
    → (some_of is_forbidden_part (split_on slash q) ≡ false) ↔ All IsName (split_on slash q)
forbidden_iff q = names_iff is_forbidden_part (split_on slash q) agree
  where
    agree : (part : Text) → is_forbidden_part part ≡ is_no_name part
    agree [] = refl
    agree (c ∷ t) = refl

has_drive-append : (s t : Text) → has_drive (s ++ t) ≡ false → has_drive s ≡ false
has_drive-append [] t h = refl
has_drive-append (c ∷ []) t h = refl
has_drive-append (c ∷ d ∷ s) t h = h

-- With the slash at its end, if there is one, taken off.
pub safe_parts-split :
    (path : Text)
    → (q : Text) × (safe_parts path ≡ split_on slash q) × ((path ≡ q) ⊎ (path ≡ q ++ slash ∷ []))
safe_parts-split path = elim (Bool-cases (ends_with_unit slash path)) [
  | inr plain ↦ (path, rw plain refl, inl refl)
  | inl ends ↦
      let (s, e) = ends-append slash path ends in
      (
        s,
        rw ends (rw e (ap without_last (split_on-snoc slash s) ∙ without_last-append _ [])),
        inr e,
      )
]

slashless-IsSafe :
    (q : Text)
    → is_refused (q ++ slash ∷ []) ≡ false
    → some_of is_forbidden_part (split_on slash q) ≡ false
    → IsSafe q
slashless-IsSafe q h parts = record {
  parts = (forbidden_iff q).0 parts;
  backslash = ground (arith, some_of-append (λ x. x == b'\\') q (slash ∷ []));
  nul = ground (arith, some_of-append (λ x. x == 0) q (slash ∷ []));
  drive = has_drive-append q (slash ∷ []) (ground arith);
}

plain-IsSafe :
    (q : Text)
    → is_refused q ≡ false
    → some_of is_forbidden_part (split_on slash q) ≡ false
    → IsSafe q
plain-IsSafe q h parts = record {
  parts = (forbidden_iff q).0 parts;
  backslash = ground arith;
  nul = ground arith;
  drive = ground arith;
}

join_safe-split :
    (s q : Text)
    → join_safe (split_on slash s) ≡ some q
    → (some_of is_forbidden_part (split_on slash s) ≡ false) × (q ≡ s)
join_safe-split s q e =
    let (sound, joined) =
      unless-eq-some (is_empty (split_on slash s) || some_of is_forbidden_part (split_on slash s))
        (some (join_with slash (split_on slash s))) e in
    (
      (||-eq-false (is_empty (split_on slash s)) _ sound).1,
      ground (arith, joined, join_with-split_on slash s),
    )

-- Only a safe path comes through `safePath`: the answer is the path that was given, or that path
-- without the slash at its end, and it is safe.
pub safe_path_sound :
    (path q : Text) → safe_path path ≡ some q → IsSafe q × ((path ≡ q) ⊎ (path ≡ q ++ slash ∷ []))
unfolding safe_path
safe_path_sound path q e = by_shape shape
  where
    accepted : (is_refused path ≡ false) × (join_safe (safe_parts path) ≡ some q)
    accepted = unless-eq-some _ _ e

    s : Text
    s = (safe_parts-split path).0

    shape : (path ≡ s) ⊎ (path ≡ s ++ slash ∷ [])
    shape = (safe_parts-split path).2

    answer : (some_of is_forbidden_part (split_on slash s) ≡ false) × (q ≡ s)
    answer = join_safe-split s q (rw (← (safe_parts-split path).1) accepted.1)

    by_shape :
        (path ≡ s) ⊎ (path ≡ s ++ slash ∷ []) → IsSafe q × ((path ≡ q) ⊎ (path ≡ q ++ slash ∷ []))
    by_shape (inl same) = rw answer.1 (plain-IsSafe s (rw (← same) accepted.0) answer.0, inl same)
    by_shape (inr ends) =
        rw answer.1 (slashless-IsSafe s (rw (← ends) accepted.0) answer.0, inr ends)

whole_parts :
    (q : Text)
    → some_of is_forbidden_part (split_on slash q) ≡ false
    → ends_with_unit slash q ≡ false
whole_parts q h = elim (Bool-cases (ends_with_unit slash q)) [
  | inr plain ↦ plain
  | inl ends ↦
      let (s, e) = ends-append slash q ends in
      ground (
        arith,
        ap (λ p. some_of is_forbidden_part (split_on slash p)) e,
        split_on-snoc slash s,
        some_of-append is_forbidden_part (split_on slash s) ([] ∷ []),
      )
]

first_part :
    (q : Text)
    → some_of is_forbidden_part (split_on slash q) ≡ false
    → (is_empty q || starts_with_unit slash q) ≡ false
unfolding split_on
first_part [] h = cc
first_part (c ∷ q) h = ground arith

-- A safe path goes through unchanged: so `safePath` is idempotent, and the paths that the two
-- passes over an archive compare are the same.
safe_path-IsSafe : (q : Text) → IsSafe q → safe_path q ≡ some q
unfolding safe_path
safe_path-IsSafe q h =
    let parts = (forbidden_iff q).1 h.parts in
    rw (whole_parts q parts) (
      ground (
        arith,
        first_part q parts,
        parts,
        h.backslash,
        h.nul,
        h.drive,
        join_with-split_on slash q,
        split_on_nonempty slash q,
      ))
