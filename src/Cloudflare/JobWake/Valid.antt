-- ===== src/Cloudflare/JobWake/Valid.antt =====
-- job-wake.ts: the texts that pass the tests of the parser.
use share_slices.Base.{
  ℕ, zero, suc, ◌≤◌, ◌≡◌, refl, sym, subst, ap, ◌∙◌, ◌⊎◌, inl, inr, Bool, true, Bool-cases, Option,
  none, some, List, [], ◌∷◌, ◌++◌, arith, All, length, Text, text_eq_iff, Option-cases,
}
use share_slices.Cloudflare.JobWake.{
  Value, undefined, null, other, number, text, is_version_digit, is_variant_digit, is_dash, matches,
  hex_digits, is_uuid, DateLibrary, valid_uuid, is_valid_job_id, job_id_of, is_own_normal,
  created_at_of,
}

abbrev pub IsHexDigit : ℕ → Type 0
IsHexDigit c = ((48 ≤ c) × (c ≤ 57)) ⊎ ((97 ≤ c) × (c ≤ 102)) ⊎ ((65 ≤ c) × (c ≤ 70))

abbrev pub AreHex : ℕ → Text → Type 0
AreHex n t = (length t ≡ n) × All IsHexDigit t

-- Five groups of 8, 4, 4, 4 and 12 hexadecimal digits between dashes, the third one beginning with
-- a version from 1 to 8, the fourth one with 8, 9, a or b.
pub record IsUuid (t : Text) : Type 0 where
  pub first : Text
  pub second : Text
  pub version : ℕ
  pub third : Text
  pub variant : ℕ
  pub fourth : Text
  pub last : Text
  pub spelt :
      t
      ≡ first
        ++ (45 ∷ (second ++ (45 ∷ version ∷ (third ++ (45 ∷ variant ∷ (fourth ++ (45 ∷ last)))))))
  pub first_hex : AreHex 8 first
  pub second_hex : AreHex 4 second
  pub is_version : (49 ≤ version) × (version ≤ 56)
  pub third_hex : AreHex 3 third
  pub is_variant :
      (variant ≡ 56)
      ⊎ (variant ≡ 57)
      ⊎ (variant ≡ 97)
      ⊎ (variant ≡ 98)
      ⊎ (variant ≡ 65)
      ⊎ (variant ≡ 66)
  pub fourth_hex : AreHex 3 fourth
  pub last_hex : AreHex 12 last

hex_digits_match :
    (n : ℕ) (tests : List (ℕ → Bool)) (t : Text)
    → matches (hex_digits n tests) t ≡ true
    → (a : Text) × (b : Text) × (t ≡ a ++ b) × AreHex n a × (matches tests b ≡ true)
hex_digits_match zero tests t e = ([], t, refl, (refl, tt), e)
hex_digits_match (suc n) tests [] e = cc
hex_digits_match (suc n) tests (c ∷ t) e =
    let (a, b, spelt, hex, rest) = hex_digits_match n tests t (ground (arith, e)) in
    (c ∷ a, b, ap (λ s. c ∷ s) spelt, (ground (arith, hex.0), (ground (arith, e), hex.1)), rest)

unit_matches :
    (test : ℕ → Bool) (tests : List (ℕ → Bool)) (t : Text)
    → matches (test ∷ tests) t ≡ true
    → (c : ℕ) × (s : Text) × (t ≡ c ∷ s) × (test c ≡ true) × (matches tests s ≡ true)
unit_matches test tests [] e = cc
unit_matches test tests (c ∷ s) e = (c, s, refl, ground (arith, e), ground (arith, e))

no_more_units : (t : Text) → matches [] t ≡ true → t ≡ []
no_more_units [] e = refl
no_more_units (c ∷ t) e = cc

dash_is : (c : ℕ) → is_dash c ≡ true → c ≡ 45
dash_is c e = ground (arith, e)

version_digit_is : (c : ℕ) → is_version_digit c ≡ true → (49 ≤ c) × (c ≤ 56)
version_digit_is c e = ground (arith, e)

variant_digit_is :
    (c : ℕ)
    → is_variant_digit c ≡ true
    → (c ≡ 56) ⊎ (c ≡ 57) ⊎ (c ≡ 97) ⊎ (c ≡ 98) ⊎ (c ≡ 65) ⊎ (c ≡ 66)
variant_digit_is c e = ground (arith, e)

append_nil : (s : Text) → s ++ [] ≡ s
append_nil [] = refl
append_nil (c ∷ s) = ap (λ r. c ∷ r) (append_nil s)

-- A group of digits and the dash behind it.
hex_dash_match :
    (n : ℕ) (tests : List (ℕ → Bool)) (t : Text)
    → matches (hex_digits n (is_dash ∷ tests)) t ≡ true
    → (a : Text) × (s : Text) × (t ≡ a ++ (45 ∷ s)) × AreHex n a × (matches tests s ≡ true)
hex_dash_match n tests t e =
    let (a, b, spelt, hex, e1) = hex_digits_match n (is_dash ∷ tests) t e in
    let (c, s, cut, dash, rest) = unit_matches is_dash tests b e1 in
    (a, s, spelt ∙ ap (λ r. a ++ r) (cut ∙ ap (λ x. x ∷ s) (dash_is c dash)), hex, rest)

hex_end_match : (n : ℕ) (t : Text) → matches (hex_digits n []) t ≡ true → AreHex n t
hex_end_match n t e =
    let (a, b, spelt, hex, rest) = hex_digits_match n [] t e in
    let whole : t ≡ a = spelt ∙ ap (λ r. a ++ r) (no_more_units b rest) ∙ append_nil a in
    subst (AreHex n) (sym whole) hex

pub is_uuid-IsUuid : (t : Text) → is_uuid t ≡ true → IsUuid t
unfolding is_uuid
is_uuid-IsUuid t e =
    let fifth = hex_digits 12 [] in
    let from_fourth = is_variant_digit ∷ hex_digits 3 (is_dash ∷ fifth) in
    let from_third = is_version_digit ∷ hex_digits 3 (is_dash ∷ from_fourth) in
    let (a, t1, s1, a_hex, e1) = hex_dash_match 8 (hex_digits 4 (is_dash ∷ from_third)) t e in
    let (b, t2, s2, b_hex, e2) = hex_dash_match 4 from_third t1 e1 in
    let (v, t3, s3, v_ok, e3) =
      unit_matches is_version_digit (hex_digits 3 (is_dash ∷ from_fourth)) t2 e2 in
    let (c, t4, s4, c_hex, e4) = hex_dash_match 3 from_fourth t3 e3 in
    let (w, t5, s5, w_ok, e5) =
      unit_matches is_variant_digit (hex_digits 3 (is_dash ∷ fifth)) t4 e4 in
    let (d, z, s6, d_hex, e6) = hex_dash_match 3 fifth t5 e5 in
    let fourth_on = s4 ∙ ap (λ r. c ++ (45 ∷ r)) (s5 ∙ ap (λ r. w ∷ r) s6) in
    let second_on = s2 ∙ ap (λ r. b ++ (45 ∷ r)) (s3 ∙ ap (λ r. v ∷ r) fourth_on) in
    record {
      first = a;
      second = b;
      version = v;
      third = c;
      variant = w;
      fourth = d;
      last = z;
      spelt = s1 ∙ ap (λ r. a ++ (45 ∷ r)) second_on;
      first_hex = a_hex;
      second_hex = b_hex;
      is_version = version_digit_is v v_ok;
      third_hex = c_hex;
      is_variant = variant_digit_is w w_ok;
      fourth_hex = d_hex;
      last_hex = hex_end_match 12 z e6;
    }

pub valid_uuid-IsUuid : (v : Value) (t : Text) → valid_uuid v ≡ some t → IsUuid t
valid_uuid-IsUuid (text s) t e = elim (Bool-cases (is_uuid s)) [
  | inl on ↦
      let same : ◌≡◌ {A = Option Text} (some s) (some t) = ground (arith, on, e) in
      let one : s ≡ t = cc (same) in is_uuid-IsUuid t (ap is_uuid (sym one) ∙ on)
  | inr off ↦ ground (arith, off, e)
]
valid_uuid-IsUuid (number n) t e = cc
valid_uuid-IsUuid undefined t e = cc
valid_uuid-IsUuid null t e = cc
valid_uuid-IsUuid other t e = cc

-- A job identifier is left out, or has from 1 to 128 code units.
pub data IsJobId : Option Text → Type 0 where
  left_out : IsJobId none
  given : (id : Text) → 1 ≤ length id → length id ≤ 128 → IsJobId (some id)

pub job_id_of-IsJobId : (v : Value) (d : Option Text) → job_id_of v ≡ some d → IsJobId d
job_id_of-IsJobId undefined d e = subst IsJobId (cc (e)) left_out
job_id_of-IsJobId (text s) d e = elim (Bool-cases (is_valid_job_id s)) [
  | inl on ↦
      let same : ◌≡◌ {A = Option Text} (some s) d = ground (arith, on, e) in
      subst IsJobId same (given s (ground (arith, on)) (ground (arith, on)))
  | inr off ↦ ground (arith, off, e)
]
job_id_of-IsJobId null d e = cc
job_id_of-IsJobId other d e = cc
job_id_of-IsJobId (number n) d e = cc

-- A creation time is `null`, or the way that the library prints the time that it reads in it.
pub data IsStamp (dates : DateLibrary) : Option Text → Type 0 where
  is_null : IsStamp dates none
  printed :
      (n : ℕ) (t : Text) → dates.parse_date t ≡ some n → dates.to_iso n ≡ t → IsStamp dates (some t)

own_normal-IsStamp :
    (dates : DateLibrary) (t : Text) → is_own_normal dates t ≡ true → IsStamp dates (some t)
own_normal-IsStamp dates t e = elim (Option-cases (dates.parse_date t)) [
  | inl unread ↦ ground (arith, unread, e)
  | inr (n, reads) ↦
      printed n t reads ((text_eq_iff (dates.to_iso n) t).0 (ground (arith, reads, e)))
]

pub created_at_of-IsStamp :
    (dates : DateLibrary) (v : Value) (c : Option Text)
    → created_at_of dates v ≡ some c
    → IsStamp dates c
created_at_of-IsStamp dates null c e = subst (IsStamp dates) (cc (e)) is_null
created_at_of-IsStamp dates (text s) c e = elim (Bool-cases (is_own_normal dates s)) [
  | inl on ↦
      let same : ◌≡◌ {A = Option Text} (some s) c = ground (arith, on, e) in
      subst (IsStamp dates) same (own_normal-IsStamp dates s on)
  | inr off ↦ ground (arith, off, e)
]
created_at_of-IsStamp dates undefined c e = cc
created_at_of-IsStamp dates other c e = cc
created_at_of-IsStamp dates (number n) c e = cc
