-- ===== src/Cloudflare/JobWake.antt =====
-- api/src/cloudflare/job-wake.ts: the message that wakes the worker of a lane. A text is its list
-- of code units. The parser of dates and `toISOString` are library calls and parameters.

pub mod Valid
pub mod Roundtrip
pub mod Reading
use share_slices.Base.{
  zero, suc, ℕ, ◌+◌, ◌-◌, String, str_eq, Bool, true, false, not, ◌&&◌, ◌||◌, Option, none, some,
  List, [], ◌∷◌, ltb, leb, ◌==◌, if◌then◌else◌, is_some, length, some_of, find_where, Text, text_eq,
  units, is_empty,
}
use share_slices.Base.Attempts.{Attempt, throws, returns, ◌>>=◌, check, present}

pub data CloudflareJobWakeLane : Type 0 where
  authentication_email reconciliation artifact_processing thumbnail : CloudflareJobWakeLane
  bundle_alias gallery_safety gallery_cover gallery_copy : CloudflareJobWakeLane

abbrev pub cloudflare_job_wake_lanes : List CloudflareJobWakeLane
cloudflare_job_wake_lanes =
    authentication_email ∷ reconciliation ∷ artifact_processing ∷ thumbnail ∷ bundle_alias
    ∷ gallery_safety ∷ gallery_cover ∷ gallery_copy ∷ []

unfoldable pub lane_name : CloudflareJobWakeLane → Text
lane_name authentication_email = units "authentication-email"
lane_name reconciliation = units "reconciliation"
lane_name artifact_processing = units "artifact-processing"
lane_name thumbnail = units "thumbnail"
lane_name bundle_alias = units "bundle-alias"
lane_name gallery_safety = units "gallery-safety"
lane_name gallery_cover = units "gallery-cover"
lane_name gallery_copy = units "gallery-copy"

-- `created_at` is `none` for the `null` that the parser does not refuse.
pub record CloudflareJobWake : Type 0 where
  pub wake_id : Text
  pub lane : CloudflareJobWakeLane
  pub durable_job_id : Option Text
  pub created_at : Option Text

-- A value of type `unknown`: of a property only what `typeof` and the comparisons tell. `other` is
-- any value of another type and any number that is not natural.
pub data Value : Type 0 where
  undefined null other : Value
  number : ℕ → Value
  text : Text → Value

pub record Property : Type 0 where
  pub key : String
  pub value : Value

pub data Unknown : Type 0 where
  plain : Value → Unknown
  array : List Value → Unknown
  object : List Property → Unknown

pub data WakeError : Type 0 where
  invalid_job_wake : WakeError

abbrev pub is_hex : ℕ → Bool
is_hex c = (leb b'0' c && leb c b'9') || (leb b'a' c && leb c b'f') || (leb b'A' c && leb c b'F')

abbrev pub is_version_digit : ℕ → Bool
is_version_digit c = leb b'1' c && leb c b'8'

abbrev pub is_variant_digit : ℕ → Bool
is_variant_digit c = c == b'8' || c == b'9' || c == b'a' || c == b'b' || c == b'A' || c == b'B'

-- One test for each code unit, and no code unit more.
abbrev pub matches : List (ℕ → Bool) → Text → Bool
matches [] [] = true
matches [] (c ∷ t) = false
matches (test ∷ tests) [] = false
matches (test ∷ tests) (c ∷ t) = test c && matches tests t

abbrev pub hex_digits : ℕ → List (ℕ → Bool) → List (ℕ → Bool)
hex_digits zero rest = rest
hex_digits (suc n) rest = is_hex ∷ hex_digits n rest

abbrev pub is_dash : ℕ → Bool
is_dash c = c == b'-'

abbrev pub uuid : List (ℕ → Bool)
uuid = hex_digits 8 (
    is_dash
    ∷ hex_digits 4 (
        is_dash
        ∷ is_version_digit
        ∷ hex_digits 3 (is_dash ∷ is_variant_digit ∷ hex_digits 3 (is_dash ∷ hex_digits 12 []))))

unfoldable pub is_uuid : Text → Bool
is_uuid = matches uuid

-- `to_iso` of a time in milliseconds; `parse_date` is `new Date(text).getTime()`, `none` for NaN.
pub record DateLibrary : Type 0 where
  pub to_iso : ℕ → Text
  pub parse_date : Text → Option ℕ

pub record WakeInput : Type 0 where
  pub lane : CloudflareJobWakeLane
  pub durable_job_id : Option Text
  pub wake_id : Option Text
  pub now : Option ℕ

abbrev pub or_given {ℓ} : {A : Type ℓ} → Option A → A → A
or_given none b = b
or_given (some a) b = a

abbrev pub unless_empty : Option Text → Option Text
unless_empty none = none
unless_empty (some id) = if is_empty id then none else some id

-- With what `crypto.randomUUID()` and the clock would give.
unfoldable pub create_cloudflare_job_wake : DateLibrary → Text → ℕ → WakeInput → CloudflareJobWake
create_cloudflare_job_wake dates random clock i = record {
  wake_id = or_given i.wake_id random;
  lane = i.lane;
  durable_job_id = unless_empty i.durable_job_id;
  created_at = some (dates.to_iso (or_given i.now clock));
}

abbrev pub allowed : String → Bool
allowed key =
    str_eq key "version"
    || str_eq key "wakeId"
    || str_eq key "lane"
    || str_eq key "durableJobId"
    || str_eq key "createdAt"

-- A property that is not there is `undefined`.
abbrev pub field : String → List Property → Value
field key [] = undefined
field key (p ∷ ps) = if str_eq p.key key then p.value else field key ps

abbrev pub is_one : Value → Bool
is_one (number n) = n == 1
is_one _ = false

abbrev pub text_of : Value → Option Text
text_of (text t) = some t
text_of _ = none

abbrev pub valid_uuid : Value → Option Text
valid_uuid v = elim (text_of v) [ none ↦ none | some t ↦ if is_uuid t then some t else none ]

abbrev pub lane_of : Value → Option CloudflareJobWakeLane
lane_of v = elim (text_of v) [
  | none ↦ none
  | some t ↦ find_where (λ l. text_eq (lane_name l) t) cloudflare_job_wake_lanes
]

abbrev pub is_valid_job_id : Text → Bool
is_valid_job_id id = not (length id == 0) && not (ltb 128 (length id))

abbrev pub job_id_of : Value → Option (Option Text)
job_id_of undefined = some none
job_id_of (text id) = if is_valid_job_id id then some (some id) else none
job_id_of _ = none

abbrev pub normalized : DateLibrary → Text → Option Text
normalized dates t = elim (dates.parse_date t) [ none ↦ none | some n ↦ some (dates.to_iso n) ]

abbrev pub is_own_normal : DateLibrary → Text → Bool
is_own_normal dates t = elim (normalized dates t) [ none ↦ false | some s ↦ text_eq s t ]

-- `normalizedCreatedAt` starts as `null`, which is what it is compared with.
abbrev pub created_at_of : DateLibrary → Value → Option (Option Text)
created_at_of dates null = some none
created_at_of dates (text t) = if is_own_normal dates t then some (some t) else none
created_at_of dates _ = none

unfoldable pub parse_record : DateLibrary → List Property → Attempt WakeError CloudflareJobWake
parse_record dates ps = do
  _ ← check (not (some_of (λ (p : Property). not (allowed p.key)) ps)) invalid_job_wake
  _ ← check (is_one (field "version" ps)) invalid_job_wake
  wake_id ← present (valid_uuid (field "wakeId" ps)) invalid_job_wake
  lane ← present (lane_of (field "lane" ps)) invalid_job_wake
  durable_job_id ← present (job_id_of (field "durableJobId" ps)) invalid_job_wake
  created_at ← present (created_at_of dates (field "createdAt" ps)) invalid_job_wake
  returns record {
    wake_id = wake_id;
    lane = lane;
    durable_job_id = durable_job_id;
    created_at = created_at;
  }

unfoldable pub parse_cloudflare_job_wake :
    DateLibrary → Unknown → Attempt WakeError CloudflareJobWake
parse_cloudflare_job_wake dates (plain v) = throws invalid_job_wake
parse_cloudflare_job_wake dates (array vs) = throws invalid_job_wake
parse_cloudflare_job_wake dates (object ps) = parse_record dates ps

abbrev pub job_id_property : Option Text → List Property → List Property
job_id_property none rest = rest
job_id_property (some id) rest = record { key = "durableJobId"; value = text id } ∷ rest

abbrev pub created_value : Option Text → Value
created_value none = null
created_value (some t) = text t

-- The message as the object that it is.
abbrev pub properties : CloudflareJobWake → List Property
properties w =
    record { key = "version"; value = number 1 }
    ∷ record { key = "wakeId"; value = text w.wake_id }
    ∷ record { key = "lane"; value = text (lane_name w.lane) }
    ∷ job_id_property w.durable_job_id
        (record { key = "createdAt"; value = created_value w.created_at } ∷ [])
