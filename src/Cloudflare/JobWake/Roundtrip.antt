-- ===== src/Cloudflare/JobWake/Roundtrip.antt =====
-- job-wake.ts: what the parser makes of a message that the runtime created, and of any message.
use share_slices.Base.{
  ℕ, ◌≤◌, ◌≡◌, refl, subst, true, Option, none, some, [], ◌∷◌, arith, length, Text, text_eq,
  text_eq_refl,
}
use share_slices.Base.Attempts.{returns}
use share_slices.Cloudflare.JobWake.{
  CloudflareJobWakeLane, authentication_email, reconciliation, artifact_processing, thumbnail,
  bundle_alias, gallery_safety, gallery_cover, gallery_copy, lane_name, CloudflareJobWake, text,
  object, is_uuid, DateLibrary, WakeInput, or_given, unless_empty, create_cloudflare_job_wake,
  lane_of, is_valid_job_id, is_own_normal, parse_record, parse_cloudflare_job_wake, properties,
}

lane_of-lane_name : (l : CloudflareJobWakeLane) → lane_of (text (lane_name l)) ≡ some l
unfolding lane_name text_eq
lane_of-lane_name authentication_email = refl
lane_of-lane_name reconciliation = refl
lane_of-lane_name artifact_processing = refl
lane_of-lane_name thumbnail = refl
lane_of-lane_name bundle_alias = refl
lane_of-lane_name gallery_safety = refl
lane_of-lane_name gallery_cover = refl
lane_of-lane_name gallery_copy = refl

abbrev message : Text → CloudflareJobWakeLane → Option Text → Text → CloudflareJobWake
message u l d t = record { wake_id = u; lane = l; durable_job_id = d; created_at = some t }

parse_message :
    (dates : DateLibrary) (u : Text) (l : CloudflareJobWakeLane) (d : Option Text) (t : Text)
    → is_uuid u ≡ true
    → ((id : Text) → d ≡ some id → is_valid_job_id id ≡ true)
    → is_own_normal dates t ≡ true
    → parse_record dates (properties (message u l d t)) ≡ returns (message u l d t)
unfolding parse_record
parse_message dates u l none t uuid valid normal =
    let lane = lane_of-lane_name l in ground (arith, uuid, lane, normal)
parse_message dates u l (some id) t uuid valid normal =
    let lane = lane_of-lane_name l in ground (arith, uuid, lane, normal, valid id refl)

own-normal :
    (dates : DateLibrary) (n : ℕ)
    → dates.parse_date (dates.to_iso n) ≡ some n
    → is_own_normal dates (dates.to_iso n) ≡ true
own-normal dates n reads = ground (arith, reads, text_eq_refl (dates.to_iso n))

unless_empty_valid :
    (d : Option Text)
    → ((id : Text) → unless_empty d ≡ some id → length id ≤ 128)
    → (id : Text) → unless_empty d ≡ some id
    → is_valid_job_id id ≡ true
unless_empty_valid none short id e = cc
unless_empty_valid (some []) short id e = cc
unless_empty_valid (some (c ∷ t)) short id e =
    let same : ◌≡◌ {A = Option Text} (some (c ∷ t)) (some id) = e in
    let bound = short (c ∷ t) refl in
    subst (λ s. elim s [ none ↦ true ≡ true | some s ↦ is_valid_job_id s ≡ true ]) same
      (ground (arith, bound))

-- The parser gives back every message that the runtime creates, where the wake identifier, given
-- or random, is a UUID, a durable job identifier that is not empty has at most 128 code units, and
-- the library reads the time that it printed.
pub parse_create :
    (dates : DateLibrary) (random : Text) (clock : ℕ) (i : WakeInput)
    → is_uuid (or_given i.wake_id random) ≡ true
    → ((id : Text) → unless_empty i.durable_job_id ≡ some id → length id ≤ 128)
    → dates.parse_date (dates.to_iso (or_given i.now clock)) ≡ some (or_given i.now clock)
    → parse_cloudflare_job_wake dates
        (object (properties (create_cloudflare_job_wake dates random clock i)))
      ≡ returns (create_cloudflare_job_wake dates random clock i)
unfolding parse_cloudflare_job_wake create_cloudflare_job_wake
parse_create dates random clock i uuid short reads =
    parse_message dates (or_given i.wake_id random) i.lane (unless_empty i.durable_job_id)
      (dates.to_iso (or_given i.now clock)) uuid (unless_empty_valid i.durable_job_id short)
      (own-normal dates (or_given i.now clock) reads)
