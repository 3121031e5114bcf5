-- ===== src/Publication/Paths.antt =====
-- `normalizeContentPath` of publication-viewer.ts, with `decodeURIComponent` of ECMAScript on
-- UTF-16 code units: the percent escapes give octets, which are read as UTF-8. Both stages fail
-- where the built-in function throws.
pub mod Decoding
use mathlib.Core.Option
use share_slices.Base.{
  ℕ, ◌+◌, ◌*◌, ◌-◌, ◌/◌, ◌%◌, Bool, true, false, not, ◌&&◌, ◌||◌, Option, none, some, List, [], ◌∷◌,
  ◌++◌, ltb, leb, ◌==◌, if◌then◌else◌, some_of, Text, units, text_eq, includes, ends_with_unit,
  split_on, join_with,
}

-- A unit that stands for itself, or an octet that was written as an escape.
pub data Token : Type 0 where
  literal octet : ℕ → Token

abbrev pub hex_value : ℕ → Option ℕ
hex_value c =
    if leb b'0' c && leb c b'9'
    then some (c - b'0')
    else if leb b'A' c && leb c b'F'
    then some (c - b'A' + 10)
    else if leb b'a' c && leb c b'f'
    then some (c - b'a' + 10)
    else none

-- Where the scanner stands: outside an escape, after its percent sign, after its first digit.
pub data Scanner : Type 0 where
  outside after_percent : Scanner
  after_digit : ℕ → Scanner

abbrev pub scan_unit : Scanner → ℕ → Option (Scanner × List Token)
scan_unit outside c = if c == b'%' then some (after_percent, []) else some (outside, literal c ∷ [])
scan_unit after_percent c = Option.map (λ d. (after_digit d, [])) (hex_value c)
scan_unit (after_digit d) c = Option.map (λ e. (outside, octet (d * 16 + e) ∷ [])) (hex_value c)

abbrev pub is_outside : Scanner → Bool
is_outside outside = true
is_outside _ = false

unfoldable pub scan : Scanner → Text → Option (List Token)
scan st [] = if is_outside st then some [] else none
scan st (c ∷ s) = elim (scan_unit st c) [
  | none ↦ none
  | some (st', out) ↦ Option.map (λ rest. out ++ rest) (scan st' s)
]

-- Between two characters, or inside one: the octets to come, the value so far and the least value
-- that needs as many octets.
pub data Decoder : Type 0 where
  idle : Decoder
  inside : (left value least : ℕ) → Decoder

abbrev pub is_idle : Decoder → Bool
is_idle idle = true
is_idle _ = false

-- A code point as one unit, or as a surrogate pair.
abbrev pub utf16 : ℕ → Text
utf16 v =
    if ltb v 0x10000
    then v ∷ []
    else (0xD800 + (v - 0x10000) / 0x400) ∷ (0xDC00 + (v - 0x10000) % 0x400) ∷ []

abbrev pub is_code_point : ℕ → ℕ → Bool
is_code_point least v = leb least v && ltb v 0x110000 && not (leb 0xD800 v && ltb v 0xE000)

abbrev pub continue_octet : ℕ → ℕ → ℕ → Option (Decoder × Text)
continue_octet left v least =
    if not (left == 1)
    then some (inside (left - 1) v least, [])
    else if is_code_point least v
    then some (idle, utf16 v)
    else none

abbrev pub decode_token : Decoder → Token → Option (Decoder × Text)
decode_token idle (literal c) = some (idle, c ∷ [])
decode_token idle (octet b) =
    if ltb b 0x80
    then some (idle, b ∷ [])
    else if ltb b 0xC0
    then none
    else if ltb b 0xE0
    then some (inside 1 (b - 0xC0) 0x80, [])
    else if ltb b 0xF0
    then some (inside 2 (b - 0xE0) 0x800, [])
    else if ltb b 0xF8
    then some (inside 3 (b - 0xF0) 0x10000, [])
    else none
decode_token (inside left v least) (literal c) = none
decode_token (inside left v least) (octet b) =
    if leb 0x80 b && ltb b 0xC0 then continue_octet left (v * 64 + (b - 0x80)) least else none

unfoldable pub decode : Decoder → List Token → Option Text
decode d [] = if is_idle d then some [] else none
decode d (k ∷ ks) = elim (decode_token d k) [
  | none ↦ none
  | some (d', out) ↦ Option.map (λ rest. out ++ rest) (decode d' ks)
]

abbrev pub decode_tokens : Option (List Token) → Option Text
decode_tokens none = none
decode_tokens (some ks) = decode idle ks

unfoldable pub decode_uri_component : Text → Option Text
decode_uri_component s = decode_tokens (scan outside s)

abbrev pub is_empty {ℓ} : {A : Type ℓ} → List A → Bool
is_empty [] = true
is_empty (x ∷ xs) = false

abbrev pub begins_with_slash : Text → Bool
begins_with_slash [] = false
begins_with_slash (c ∷ s) = c == b'/'

abbrev pub is_bad_segment : Text → Bool
is_bad_segment s = is_empty s || text_eq s (units ".") || text_eq s (units "..")

abbrev pub is_bad_path : Text → Bool
is_bad_path path =
    is_empty path
    || begins_with_slash path
    || ends_with_unit b'/' path
    || includes b'\\' path
    || includes 0 path

abbrev pub normalize_decoded : Option Text → Option Text
normalize_decoded none = none
normalize_decoded (some path) =
    if is_bad_path path
    then none
    else if some_of is_bad_segment (split_on b'/' path)
    then none
    else some (join_with b'/' (split_on b'/' path))

unfoldable pub normalize_content_path : Text → Option Text
normalize_content_path raw = normalize_decoded (decode_uri_component raw)
