-- ===== src/Preflight/Directory.antt =====
-- The central directory of a ZIP: `readU16`, `readU32`, `findEndOfCentralDirectory` and
-- `unsupportedUnixEntry`. A byte read past the end is `undefined`, which `|` and `<<` take for 0.
-- The bytes of a Uint8Array are below 256, so `|` of shifted bytes is their sum. A name is left as
-- its bytes, before TextDecoder.
pub mod Search
pub mod Tiling
mod Tests
use share_slices.Base.{
  ℕ, zero, suc, ◌+◌, ◌-◌, ◌*◌, ◌/◌, ◌%◌, ◌≤◌, ◌<◌, String, str_eq, eq_iff, ◌≡◌, refl, sym, ap,
  subst, ◌∙◌, ◌≢◌, ◌↔◌, ◌⊎◌, inl, inr, Bool, true, false, not, ◌&&◌, ◌||◌, Option, none, some, List,
  [], ◌∷◌, ◌++◌, map, arith, ltb, leb, ◌==◌, if◌then◌else◌, Bool-cases, Option-cases, is_some,
  is_none, length, length-append, get_or, take, drop, some_of, every, All, All-append, All-mono,
  every-All, find_where, select_where, update_where, sum_of, find_where-update_where,
  update_where_missing, find_where_holds, leb→le, unless-eq-some, ||-eq-false, ltb→lt, ==_iff, Text,
  units, text_eq, text_eq_iff, starts_with, includes, ends_with_unit, push, split_on, join_with,
  without_last, last_or, to_lower_case, Without, split_on-Without, split_on-join_with,
  join_with-split_on, split_on_nonempty, split_on-part, split_on-snoc, ends-append,
  without_last-append, some_of-append,
}

abbrev pub read_u8 : List ℕ → ℕ → ℕ
read_u8 bytes offset = get_or bytes offset 0

pub read_u16 : List ℕ → ℕ → ℕ
read_u16 bytes offset = read_u8 bytes offset + 256 * read_u8 bytes (offset + 1)

pub read_u32 : List ℕ → ℕ → ℕ
read_u32 bytes offset = read_u16 bytes offset + 65536 * read_u16 bytes (offset + 2)

pub data Candidate : Type 0 where
  skip reject accept : Candidate

abbrev pub end_signature : ℕ
end_signature = 0x06054b50

abbrev pub entry_signature : ℕ
entry_signature = 0x02014b50

-- One round of the search for the end record.
pub candidate : List ℕ → ℕ → Candidate
candidate bytes offset =
    if not (read_u32 bytes offset == end_signature)
    then skip
    else if not (offset + 22 + read_u16 bytes (offset + 20) == length bytes)
    then skip
    else if not (read_u16 bytes (offset + 4) == 0) || not (read_u16 bytes (offset + 6) == 0)
    then reject
    else if not (read_u16 bytes (offset + 8) == read_u16 bytes (offset + 10))
    then reject
    else accept

-- The offsets `minimum + k - 1` down to `minimum`.
pub search_end : List ℕ → ℕ → ℕ → Option ℕ
search_end bytes minimum zero = none
search_end bytes minimum (suc k) =
    let rest = search_end bytes minimum k in
    elim (candidate bytes (minimum + k)) [
      | skip ↦ rest
      | reject ↦ none
      | accept ↦ some (minimum + k)
    ]

abbrev pub search_minimum : List ℕ → ℕ
search_minimum bytes = length bytes - 65557

-- From `length - 22` down: no round for a file of less than 22 bytes.
pub find_end_of_central_directory : List ℕ → Option ℕ
find_end_of_central_directory bytes =
    search_end bytes (search_minimum bytes) (length bytes - 21 - search_minimum bytes)

pub data DirectoryError : Type 0 where
  unavailable zip64 invalid : DirectoryError

-- The error that is thrown, or the name of the first link or special file, or none.
pub data Scan : Type 0 where
  thrown : DirectoryError → Scan
  special : List ℕ → Scan
  plain : Scan

abbrev pub record_end : List ℕ → ℕ → ℕ
record_end bytes offset =
    offset
    + 46
    + read_u16 bytes (offset + 28)
    + read_u16 bytes (offset + 30)
    + read_u16 bytes (offset + 32)

-- `mode & 0xf000`, as the upper four bits of the sixteen.
abbrev pub file_type : List ℕ → ℕ → ℕ
file_type bytes offset = read_u32 bytes (offset + 38) / 65536 / 4096 % 16

-- Made on Unix, and neither without a type nor a regular file (8) nor a directory (4).
abbrev pub is_special : List ℕ → ℕ → Bool
is_special bytes offset =
    read_u8 bytes (offset + 5) == 3
    && not (file_type bytes offset == 0)
    && not (file_type bytes offset == 8)
    && not (file_type bytes offset == 4)

abbrev pub entry_name : List ℕ → ℕ → List ℕ
entry_name bytes offset = take (read_u16 bytes (offset + 28)) (drop (offset + 46) bytes)

abbrev pub is_broken : List ℕ → ℕ → ℕ → Bool
is_broken bytes central_end offset =
    ltb central_end (offset + 46) || not (read_u32 bytes offset == entry_signature)

pub scan_records : List ℕ → ℕ → ℕ → ℕ → Scan
scan_records bytes central_end zero offset = if offset == central_end then plain else thrown invalid
scan_records bytes central_end (suc k) offset =
    let rest = scan_records bytes central_end k (record_end bytes offset) in
    if is_broken bytes central_end offset
    then thrown invalid
    else if ltb central_end (record_end bytes offset)
    then thrown invalid
    else if is_special bytes offset
    then special (entry_name bytes offset)
    else rest

abbrev pub entry_count : List ℕ → ℕ → ℕ
entry_count bytes directory_end = read_u16 bytes (directory_end + 10)

abbrev pub central_size : List ℕ → ℕ → ℕ
central_size bytes directory_end = read_u32 bytes (directory_end + 12)

abbrev pub central_offset : List ℕ → ℕ → ℕ
central_offset bytes directory_end = read_u32 bytes (directory_end + 16)

abbrev pub is_zip64 : List ℕ → ℕ → Bool
is_zip64 bytes directory_end =
    entry_count bytes directory_end == 0xffff
    || central_size bytes directory_end == 0xffffffff
    || central_offset bytes directory_end == 0xffffffff

pub scan_directory : List ℕ → ℕ → Scan
scan_directory bytes directory_end =
    let central_end = central_offset bytes directory_end + central_size bytes directory_end in
    if is_zip64 bytes directory_end
    then thrown zip64
    else if ltb directory_end central_end || ltb (length bytes) central_end
    then thrown invalid
    else scan_records bytes central_end (entry_count bytes directory_end)
        (central_offset bytes directory_end)

abbrev pub scan_found : List ℕ → Option ℕ → Scan
scan_found bytes none = thrown unavailable
scan_found bytes (some directory_end) = scan_directory bytes directory_end

pub unsupported_unix_entry : List ℕ → Scan
unsupported_unix_entry bytes = scan_found bytes (find_end_of_central_directory bytes)
