-- ===== src/Preflight/Directory/Tests.antt =====
-- The directory theorems at concrete bytes: an archive of one entry with no name.
use share_slices.Base.{
  ℕ, zero, suc, ◌+◌, ◌*◌, ◌≤◌, ◌<◌, ◌≡◌, refl, ◌≢◌, ◌↔◌, some, List, [], ◌∷◌, ◌++◌, length,
}
use share_slices.Preflight.Directory.{
  read_u16, read_u32, candidate, search_end, find_end_of_central_directory, plain, special,
  scan_records, entry_count, central_size, central_offset, scan_directory, unsupported_unix_entry,
  end_signature,
}
use share_slices.Preflight.Directory.Search.{find_end-last}
use share_slices.Preflight.Directory.Tiling.{Tiles, scan_records_iff, unsupported_unix_entry-plain}

directory : Unit {0}
unfolding read_u16 read_u32 candidate search_end find_end_of_central_directory scan_records
    scan_directory unsupported_unix_entry
directory = tt

abbrev zeros : ℕ → List ℕ
zeros zero = []
zeros (suc n) = 0 ∷ zeros n

-- A central record of the given creator and mode, and the end record that announces it.
abbrev archive : ℕ → ℕ → List ℕ
archive creator mode =
    0x50 ∷ 0x4b ∷ 1 ∷ 2 ∷ 0 ∷ creator ∷ (zeros 35 ++ mode ∷ zeros 4)
    ++ 0x50 ∷ 0x4b ∷ 5 ∷ 6 ∷ (zeros 4 ++ 1 ∷ 0 ∷ 1 ∷ 0 ∷ 46 ∷ zeros 9)

directory_tests :
    (unsupported_unix_entry (archive 3 0x81) ≡ plain)
    × (unsupported_unix_entry (archive 3 0xa1) ≡ special [])
    × (unsupported_unix_entry (archive 0 0xa1) ≡ plain)
unfolding directory
directory_tests = (refl, refl, refl)

find_end-last_example :
    (read_u32 (archive 3 0x81) 46 ≡ end_signature)
    × (46 + 22 + read_u16 (archive 3 0x81) (46 + 20) ≡ length (archive 3 0x81))
    × (length (archive 3 0x81) ≤ 46 + 65557)
    × (read_u16 (archive 3 0x81) (46 + 4) ≡ 0)
    × (read_u16 (archive 3 0x81) (46 + 6) ≡ 0)
    × (read_u16 (archive 3 0x81) (46 + 8) ≡ read_u16 (archive 3 0x81) (46 + 10))
    × ((later : ℕ)
        → 46 < later
        → later + 22 ≤ length (archive 3 0x81)
        → read_u32 (archive 3 0x81) later ≡ end_signature
        → later + 22 + read_u16 (archive 3 0x81) (later + 20) ≢ length (archive 3 0x81))
unfolding directory
find_end-last_example = find_end-last (archive 3 0x81) 46 refl

scan_records_iff_example :
    (scan_records (archive 3 0x81) 46 1 0 ≡ plain) ↔ Tiles (archive 3 0x81) 46 1 0
scan_records_iff_example = scan_records_iff (archive 3 0x81) 46 1 0

unsupported_unix_entry-plain_example :
    (e : ℕ) × (find_end_of_central_directory (archive 3 0x81) ≡ some e)
    × (central_offset (archive 3 0x81) e + central_size (archive 3 0x81) e ≤ e)
    × Tiles
        (archive 3 0x81)
        (central_offset (archive 3 0x81) e + central_size (archive 3 0x81) e)
        (entry_count (archive 3 0x81) e)
        (central_offset (archive 3 0x81) e)
    × (46 * entry_count (archive 3 0x81) e ≤ central_size (archive 3 0x81) e)
unsupported_unix_entry-plain_example =
    unsupported_unix_entry-plain (archive 3 0x81) directory_tests.0
