-- ===== src/Preflight/Directory/Tiling.antt =====
-- What it means that `unsupportedUnixEntry` answers null.
use share_slices.Base.{
  ◌≢◌, subst, Bool-cases, inl, inr, ◌/◌, ◌%◌, ℕ, zero, suc, ◌+◌, ◌*◌, ◌≤◌, ◌≡◌, refl, ◌↔◌, false,
  Option, none, some, List, arith,
}
use share_slices.Preflight.Directory.{
  read_u8, read_u16, read_u32, find_end_of_central_directory, plain, record_end, is_special,
  scan_records, entry_count, central_size, central_offset, scan_directory, scan_found,
  unsupported_unix_entry,
}

-- Made on Unix (the upper byte of "version made by" is 3) and of a type, bits 12 to 15 of the upper
-- half of the external attributes, that is neither none (0) nor that of a directory (4) or of a
-- regular file (8).
abbrev pub IsLinkOrSpecial : List ℕ → ℕ → Type 0
IsLinkOrSpecial bytes offset =
    (read_u8 bytes (offset + 5) ≡ 3)
    × (read_u32 bytes (offset + 38) / 268435456 % 16 ≢ 0)
    × (read_u32 bytes (offset + 38) / 268435456 % 16 ≢ 4)
    × (read_u32 bytes (offset + 38) / 268435456 % 16 ≢ 8)

-- From `offset` on, `k` records follow one another without a gap up to `central_end`; none is a
-- link or special file made on Unix. A record has 46 bytes, then its name, extra field and comment.
pub data Tiles (bytes : List ℕ) (central_end : ℕ) : ℕ → ℕ → Type 0 where
  done : {offset : ℕ} → offset ≡ central_end → Tiles bytes central_end zero offset
  entry :
      {k offset next name extra note : ℕ}
      → read_u32 bytes offset ≡ 0x02014b50
      → read_u16 bytes (offset + 28) ≡ name
      → read_u16 bytes (offset + 30) ≡ extra
      → read_u16 bytes (offset + 32) ≡ note
      → next ≡ offset + (46 + name + extra + note)
      → next ≤ central_end
      → ¬ IsLinkOrSpecial bytes offset
      → Tiles bytes central_end k next
      → Tiles bytes central_end (suc k) offset

special_iff :
    (bytes : List ℕ) (offset : ℕ)
    → (is_special bytes offset ≡ false) ↔ (¬ IsLinkOrSpecial bytes offset)
special_iff bytes offset =
    let halves : read_u32 bytes (offset + 38) / 65536 / 4096 % 16
        ≡ read_u32 bytes (offset + 38) / 268435456 % 16 =
      omega arith in
    (
      λ e h. ground (arith, e, halves, h.0, h.1, h.2, h.3),
      λ h. elim (Bool-cases (is_special bytes offset)) [
        | inr e ↦ e
        | inl special ↦ absurd (
            h (
              ground (arith, special),
              λ k. ground (arith, special, halves, k),
              λ k. ground (arith, special, halves, k),
              λ k. ground (arith, special, halves, k),
            ))
      ],
    )

scan_records-Tiles :
    (bytes : List ℕ) (central_end k offset : ℕ)
    → scan_records bytes central_end k offset ≡ plain
    → Tiles bytes central_end k offset
unfolding scan_records
scan_records-Tiles bytes central_end zero offset h = done (ground arith)
scan_records-Tiles bytes central_end (suc k) offset h =
    entry (ground arith) refl refl refl (omega arith) (ground arith)
      ((special_iff bytes offset).0 (ground arith))
      (scan_records-Tiles bytes central_end k (record_end bytes offset) (ground arith))

Tiles-scan_records :
    (bytes : List ℕ) (central_end k offset : ℕ)
    → Tiles bytes central_end k offset
    → scan_records bytes central_end k offset ≡ plain
unfolding scan_records
Tiles-scan_records bytes central_end k offset (done e) = ground arith
Tiles-scan_records bytes central_end k offset
      (entry {k = n} {next = next} s name extra note at b p t) =
    let there : next ≡ record_end bytes offset = omega (arith, name, extra, note, at) in
    let plain_record = (special_iff bytes offset).1 p in
    let rest : scan_records bytes central_end n (record_end bytes offset) ≡ plain =
      subst (λ o. scan_records bytes central_end n o ≡ plain) there
        (Tiles-scan_records bytes central_end n next t) in
    ground (arith, s, rest, plain_record, there, b)

-- The scan of the records answers null exactly when they tile the central directory: as many
-- records as announced, each with its signature, none reaching past the end, none special, and
-- the last one ending where the directory ends.
pub scan_records_iff :
    (bytes : List ℕ) (central_end k offset : ℕ)
    → (scan_records bytes central_end k offset ≡ plain) ↔ Tiles bytes central_end k offset
scan_records_iff bytes central_end k offset =
    (scan_records-Tiles bytes central_end k offset, Tiles-scan_records bytes central_end k offset)

Tiles-size :
    (bytes : List ℕ) (central_end k offset : ℕ)
    → Tiles bytes central_end k offset
    → offset + 46 * k ≤ central_end
Tiles-size bytes central_end k offset (done e) = omega arith
Tiles-size bytes central_end k offset (entry {k = n} {next = next} s name extra note at b p t) =
    omega (arith, Tiles-size bytes central_end n next t, at)

scan_directory-Tiles :
    (bytes : List ℕ) (e : ℕ)
    → scan_directory bytes e ≡ plain
    → (central_offset bytes e + central_size bytes e ≤ e)
      × Tiles bytes
          (central_offset bytes e + central_size bytes e)
          (entry_count bytes e)
          (central_offset bytes e)
unfolding scan_directory
scan_directory-Tiles bytes e h = (ground arith, scan_records-Tiles bytes _ _ _ (ground arith))

-- If the whole check passes then there is an end record, the central directory lies in front of
-- it, its records tile it and are at least 46 bytes each, so the announced number of entries is
-- bounded by the size of the directory.
pub unsupported_unix_entry-plain :
    (bytes : List ℕ)
    → unsupported_unix_entry bytes ≡ plain
    → (e : ℕ) × (find_end_of_central_directory bytes ≡ some e)
      × (central_offset bytes e + central_size bytes e ≤ e)
      × Tiles bytes
          (central_offset bytes e + central_size bytes e)
          (entry_count bytes e)
          (central_offset bytes e)
      × (46 * entry_count bytes e ≤ central_size bytes e)
unfolding unsupported_unix_entry
unsupported_unix_entry-plain bytes h = by_end (find_end_of_central_directory bytes) refl h
  where
    by_end :
        (o : Option ℕ)
        → find_end_of_central_directory bytes ≡ o
        → scan_found bytes o ≡ plain
        → (e : ℕ) × (find_end_of_central_directory bytes ≡ some e)
          × (central_offset bytes e + central_size bytes e ≤ e)
          × Tiles bytes
              (central_offset bytes e + central_size bytes e)
              (entry_count bytes e)
              (central_offset bytes e)
          × (46 * entry_count bytes e ≤ central_size bytes e)
    by_end none found k = cc
    by_end (some e) found k =
        let (before, tiles) = scan_directory-Tiles bytes e k in
        (e, found, before, tiles, omega (arith, Tiles-size bytes _ _ _ tiles))
