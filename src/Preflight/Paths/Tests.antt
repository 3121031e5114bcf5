-- ===== src/Preflight/Paths/Tests.antt =====
-- The path theorems at concrete paths.
use share_slices.Base.{
  ◌≡◌, refl, ◌⊎◌, true, none, some, [], ◌∷◌, ◌++◌, units, text_eq, starts_with, split_on, join_with,
}
use share_slices.Preflight.Paths.{slash, safe_path, extension, is_ignored_metadata}
use share_slices.Preflight.Paths.Safety.{IsSafe, safe_path_sound}

paths : Unit {0}
unfolding safe_path extension is_ignored_metadata split_on join_with text_eq starts_with
paths = tt

path_tests :
    (safe_path (units "a/../b") ≡ none)
    × (safe_path (units "C:/x") ≡ none)
    × (extension (units "a/.hidden") ≡ none)
    × (extension (units "x/a.tar.gz") ≡ some (units ".gz"))
    × (is_ignored_metadata (units "d/._x") ≡ true)
unfolding paths
path_tests = (refl, refl, refl, refl, refl)

safe_path_sound_example :
    IsSafe (units "css/site")
    × ((units "css/site/" ≡ units "css/site")
        ⊎ (units "css/site/" ≡ units "css/site" ++ slash ∷ []))
unfolding paths
safe_path_sound_example = safe_path_sound (units "css/site/") (units "css/site") refl
