-- ===== src/Preflight/Paths.antt =====
-- `safePath`, `isIgnoredMetadata` and `extension`.
pub mod Safety
mod Tests
use share_slices.Base.{
  ℕ, zero, suc, ◌+◌, ◌-◌, ◌*◌, ◌/◌, ◌%◌, ◌≤◌, ◌<◌, String, str_eq, eq_iff, ◌≡◌, refl, sym, ap,
  subst, ◌∙◌, ◌≢◌, ◌↔◌, ◌⊎◌, inl, inr, Bool, true, false, not, ◌&&◌, ◌||◌, Option, none, some, List,
  [], ◌∷◌, ◌++◌, map, arith, ltb, leb, ◌==◌, if◌then◌else◌, Bool-cases, Option-cases, is_some,
  is_none, length, length-append, get_or, take, drop, some_of, every, All, All-append, All-mono,
  every-All, find_where, select_where, update_where, sum_of, find_where-update_where,
  update_where_missing, find_where_holds, leb→le, ltb→lt, ==_iff, Text, units, text_eq, text_eq_iff,
  starts_with, includes, ends_with_unit, push, split_on, join_with, without_last, last_or,
  to_lower_case, Without, split_on-Without, split_on-join_with, join_with-split_on,
  split_on_nonempty, split_on-part,
}

abbrev pub slash : ℕ
slash = b'/'

abbrev pub is_letter : ℕ → Bool
is_letter c = (leb b'A' c && leb c b'Z') || (leb b'a' c && leb c b'z')

-- /^[A-Za-z]:/
abbrev pub has_drive : Text → Bool
has_drive [] = false
has_drive (c ∷ []) = false
has_drive (c ∷ d ∷ s) = is_letter c && d == b':'

abbrev pub starts_with_unit : ℕ → Text → Bool
starts_with_unit c [] = false
starts_with_unit c (x ∷ s) = x == c

abbrev pub is_empty {ℓ} : {A : Type ℓ} → List A → Bool
is_empty [] = true
is_empty (x ∷ xs) = false

abbrev pub is_forbidden_part : Text → Bool
is_forbidden_part part = is_empty part || text_eq part (units ".") || text_eq part (units "..")

-- The characters and prefixes that refuse a path at once.
abbrev pub is_refused : Text → Bool
is_refused path =
    is_empty path
    || starts_with_unit slash path
    || has_drive path
    || includes b'\\' path
    || includes 0 path

abbrev pub safe_parts : Text → List Text
safe_parts path =
    if ends_with_unit slash path then without_last (split_on slash path) else split_on slash path

abbrev pub join_safe : List Text → Option Text
join_safe parts =
    if is_empty parts || some_of is_forbidden_part parts then none else some (join_with slash parts)

unfoldable pub safe_path : Text → Option Text
safe_path path = if is_refused path then none else join_safe (safe_parts path)

abbrev pub basename : Text → Text
basename path = last_or [] (split_on slash path)

unfoldable pub is_ignored_metadata : Text → Bool
is_ignored_metadata path =
    starts_with path (units "__MACOSX/")
    || starts_with (basename path) (units "._")
    || text_eq (basename path) (units ".DS_Store")

-- `slice(lastIndexOf("."))`: what stands from the last dot on.
abbrev pub from_last_dot : Text → Option Text
from_last_dot [] = none
from_last_dot (c ∷ s) = elim (from_last_dot s) [
  | some ext ↦ some ext
  | none ↦ if c == b'.' then some (c ∷ s) else none
]

-- `dot > 0`: a dot in front does not count, so the search skips the first unit.
unfoldable pub extension : Text → Option Text
extension path = elim (basename path) [ [] ↦ none | c ∷ s ↦ from_last_dot s ]
