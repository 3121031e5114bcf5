-- ===== src/Publication/Paths/Decoding.antt =====
-- What `normalizeContentPath` accepts.
use share_slices.Base.{
  All, IsName, is_no_name, names_iff, ◌≡◌, ◌↔◌, refl, ap, subst, ◌∙◌, false, Option, none, some,
  List, [], ◌∷◌, arith, Bool-cases, inl, inr, some_of, Text, includes, ends_with_unit, ends-append,
  split_on, split_on-snoc, some_of-append, join_with-split_on, Without,
}
use share_slices.Publication.Paths.{
  Token, literal, outside, scan, idle, decode, decode_tokens, decode_uri_component, is_empty,
  is_bad_segment, begins_with_slash, is_bad_path, normalize_decoded, normalize_content_path,
}

-- A path below the directory of a version's content: its segments are neither empty nor a dot or
-- two, and it holds no backslash and no NUL.
pub record IsContentPath (q : Text) : Type 0 where
  pub segments : All IsName (split_on b'/' q)
  pub backslash : includes b'\\' q ≡ false
  pub nul : includes 0 q ≡ false

segments_iff :
    (q : Text) → (some_of is_bad_segment (split_on b'/' q) ≡ false) ↔ All IsName (split_on b'/' q)
segments_iff q = names_iff is_bad_segment (split_on b'/' q) agree
  where
    agree : (part : Text) → is_bad_segment part ≡ is_no_name part
    agree [] = refl
    agree (c ∷ t) = refl

first_segment :
    (q : Text)
    → some_of is_bad_segment (split_on b'/' q) ≡ false
    → (is_empty q ≡ false) × (begins_with_slash q ≡ false)
unfolding split_on
first_segment [] h = absurd (ground arith)
first_segment (c ∷ q) h = ground arith

last_segment :
    (q : Text) → some_of is_bad_segment (split_on b'/' q) ≡ false → ends_with_unit b'/' q ≡ false
last_segment q h = elim (Bool-cases (ends_with_unit b'/' q)) [
  | inr e ↦ e
  | inl e ↦
      let (s, f) = ends-append b'/' q e in
      absurd (
        ground (
          arith,
          some_of-append is_bad_segment (split_on b'/' s) ([] ∷ []),
          split_on-snoc b'/' s,
          ap (split_on b'/') f,
        ))
]

accepted : (q : Text) → IsContentPath q → normalize_decoded (some q) ≡ some q
accepted q v =
    let segments = (segments_iff q).1 v.segments in
    let (nonempty, begins) = first_segment q segments in
    let ends : ends_with_unit b'/' q ≡ false = last_segment q segments in
    let bad : is_bad_path q ≡ false = ground (arith, nonempty, begins, ends, v.backslash, v.nul) in
    rw bad (rw segments (ap some (join_with-split_on b'/' q)))

decoded-accepted :
    (o : Option Text) (q : Text) → normalize_decoded o ≡ some q → (o ≡ some q) × IsContentPath q
decoded-accepted none q h = absurd (ground arith)
decoded-accepted (some p) q h =
    let same : p ≡ q = ground (arith, join_with-split_on b'/' p) in
    (
      ap some same,
      subst IsContentPath same (record {
        segments = (segments_iff p).0 (ground arith);
        backslash = ground arith;
        nul = ground arith;
      }),
    )

-- `normalizeContentPath` answers a path exactly when `decodeURIComponent` gives that very path
-- and the decoded path is one below the content's directory: no escape can bring in a dot segment,
-- an empty segment, a backslash or a NUL.
pub normalize_content_path_iff :
    (raw q : Text)
    → (normalize_content_path raw ≡ some q)
      ↔ ((decode_uri_component raw ≡ some q) × IsContentPath q)
unfolding normalize_content_path
normalize_content_path_iff raw q =
    (decoded-accepted (decode_uri_component raw) q, λ h. ap normalize_decoded h.0 ∙ accepted q h.1)

abbrev pub literals : Text → List Token
literals [] = []
literals (c ∷ s) = literal c ∷ literals s

scan-literals : (s : Text) → Without b'%' s → scan outside s ≡ some (literals s)
unfolding scan
scan-literals [] h = refl
scan-literals (c ∷ s) h = ground (arith, scan-literals s h.1)

decode-literals : (s : Text) → decode idle (literals s) ≡ some s
unfolding decode
decode-literals [] = refl
decode-literals (c ∷ s) = rw (decode-literals s) refl

-- A path below the content's directory that has no percent sign comes through unchanged.
normalize_content_path-plain :
    (q : Text) → Without b'%' q → IsContentPath q → normalize_content_path q ≡ some q
unfolding decode_uri_component
normalize_content_path-plain q h v =
    (normalize_content_path_iff q q).1 (ap decode_tokens (scan-literals q h) ∙ decode-literals q, v)
