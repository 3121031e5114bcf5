-- ===== src/Storage/Tests.antt =====
-- The listing of stored objects at three keys.
use share_slices.Base.{◌≡◌, refl, none, [], ◌∷◌, arith, Text, text_eq, starts_with}
use share_slices.Storage.{MemoryObject, Objects}
use share_slices.Storage.Keys.{sort_keys, key_less}
use share_slices.Storage.Paging.{follow, wanted_keys, follow_lem}

abbrev stored : Text → MemoryObject
stored key = record { key = key; bytes = []; content_type = none; last_modified = 3 }

abbrev three : Objects
three = stored (b'a' ∷ b'c' ∷ []) ∷ stored (b'b' ∷ []) ∷ stored (b'a' ∷ b'b' ∷ []) ∷ []

follow_lem_example : follow 2 three (b'a' ∷ []) 1 none ≡ wanted_keys three (b'a' ∷ []) none
unfolding text_eq starts_with key_less sort_keys
follow_lem_example = follow_lem 2 three (b'a' ∷ []) 0 none refl refl (omega arith)
