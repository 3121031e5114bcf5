-- ===== src/Cloudflare/Tests.antt =====
-- The theorems on the runtime at a small outbox: a row that is due and one whose lease has expired.
use share_slices.Base.{
  ◌≤◌, find_where, String, ℕ, zero, suc, ◌+◌, ◌≡◌, refl, true, false, Bool-cases, inl, inr, Option,
  none, some, List, [], ◌∷◌, arith, Text, text_eq, text_eq_iff,
}
use share_slices.Base.Attempts.{returns}
use share_slices.Cloudflare.JobWake.{
  thumbnail, gallery_copy, lane_name, CloudflareJobWake, Unknown, object, Property, text, null,
  number, DateLibrary, WakeInput, is_uuid, field, properties, create_cloudflare_job_wake,
  parse_cloudflare_job_wake, parse_record,
}
use share_slices.Cloudflare.JobWake.Roundtrip.{parse_create}
use share_slices.Cloudflare.JobWake.Valid.{IsUuid, IsJobId, IsStamp}
use share_slices.Cloudflare.JobWake.Reading.{parse_reads}
use share_slices.Cloudflare.Outbox.{
  DispatchRow, pending, publishing, OutboxContext, DrainInput, OutboxState,
  CloudflareOutboxDrainResult, is_dispatch,
}
use share_slices.Cloudflare.Outbox.Drain.{drain_cloudflare_job_outbox}
use share_slices.Cloudflare.Outbox.Rounds.{HasPrimaryKey}
use share_slices.Cloudflare.Outbox.Tracking.{Delivered}
use share_slices.Cloudflare.Outbox.Draining.{drain_delivers}
use share_slices.Cloudflare.Outbox.Keeping.{all_have}
use share_slices.Cloudflare.Outbox.Retrying.{drain_keeps_wake}

abbrev digits : ℕ → List ℕ → List ℕ
digits zero rest = rest
digits (suc n) rest = b'0' ∷ digits n rest

abbrev wake_id : Text
wake_id =
    digits 8
      (b'-' ∷ digits 4 (b'-' ∷ b'4' ∷ digits 3 (b'-' ∷ b'a' ∷ digits 3 (b'-' ∷ digits 12 []))))

abbrev first_unit : Text → Option ℕ
first_unit [] = none
first_unit (c ∷ t) = some c

abbrev dates : DateLibrary
dates = record { to_iso = λ n. n ∷ []; parse_date = first_unit }

abbrev wake_input : WakeInput
wake_input = record {
  lane = gallery_copy;
  durable_job_id = some (7 ∷ []);
  wake_id = none;
  now = some 5;
}

parse_create_example :
    parse_cloudflare_job_wake dates
      (object (properties (create_cloudflare_job_wake dates wake_id 9 wake_input)))
    ≡ returns (create_cloudflare_job_wake dates wake_id 9 wake_input)
unfolding is_uuid
parse_create_example = parse_create dates wake_id 9 wake_input refl (λ id e. ground (arith, e)) refl

abbrev sent : CloudflareJobWake
sent = record {
  wake_id = wake_id;
  lane = gallery_copy;
  durable_job_id = none;
  created_at = some (5 ∷ []);
}

abbrev message : List Property
message =
    record { key = "createdAt"; value = text (5 ∷ []) }
    ∷ record { key = "lane"; value = text (lane_name gallery_copy) }
    ∷ record { key = "wakeId"; value = text wake_id }
    ∷ record { key = "version"; value = number 1 }
    ∷ []

message_run : parse_cloudflare_job_wake dates (object message) ≡ returns sent
unfolding parse_cloudflare_job_wake parse_record is_uuid lane_name text_eq
message_run = refl

parse_reads_example :
    (ps : List Property) × (◌≡◌ {A = Unknown} (object message) (object ps))
    × ((key : String) → field key ps ≡ field key (properties sent))
    × IsUuid wake_id
    × IsJobId none
    × IsStamp dates (some (5 ∷ []))
parse_reads_example = parse_reads dates (object message) sent message_run

-- A time that is `null` passes.
null_time :
    parse_cloudflare_job_wake dates (
      object (
        record { key = "createdAt"; value = null }
        ∷ record { key = "lane"; value = text (lane_name gallery_copy) }
        ∷ record { key = "wakeId"; value = text wake_id }
        ∷ record { key = "version"; value = number 1 }
        ∷ []))
    ≡ returns (record sent { created_at = none })
unfolding parse_cloudflare_job_wake parse_record is_uuid lane_name text_eq
null_time = refl

abbrev due_row : DispatchRow
due_row = record {
  lane = thumbnail;
  durable_job_id = 1 ∷ [];
  state = pending;
  wake_id = none;
  available_at = 10;
  lease_owner = none;
  lease_expires_at = none;
  fence = 0;
  attempt_count = 0;
  failure_reason_code = none;
  created_at = 10;
  published_at = none;
}

abbrev expired_row : DispatchRow
expired_row = record due_row {
  durable_job_id = 2 ∷ [];
  state = publishing;
  wake_id = some wake_id;
  lease_owner = some (9 ∷ []);
  lease_expires_at = some 15;
  fence = 1;
  attempt_count = 1;
}

abbrev outbox : OutboxState
outbox = record { rows = due_row ∷ expired_row ∷ []; sent = [] }

abbrev quiet : OutboxContext
quiet = record {
  collates = λ s t. false;
  dates = dates;
  started_at = 20;
  generated_wake_id = λ k.
      b'1'
      ∷ digits 7 (
          b'-'
          ∷ digits 4 (
              b'-'
              ∷ b'4'
              ∷ digits 3 (b'-' ∷ b'a' ∷ digits 3 (b'-' ∷ digits 11 ((b'0' + k) ∷ [])))));
  claimed_at = λ k. 30 + k;
  sends = λ k wake. true;
  meanwhile = λ k rows. rows;
  settled_at = λ k. 31 + k;
}

abbrev drain_input : DrainInput
drain_input = record {
  accepted_lanes = thumbnail ∷ gallery_copy ∷ [];
  worker_id = 9 ∷ [];
  max_messages = 2;
  lease_seconds = 60;
  retry_delay_seconds = 30;
}

outbox-HasPrimaryKey : HasPrimaryKey outbox.rows
outbox-HasPrimaryKey lane id =
    let first = (text_eq_iff (1 ∷ []) id).0 in
    let second = (text_eq_iff (2 ∷ []) id).0 in
    elim (Bool-cases (is_dispatch lane id due_row)) [
      | inl on ↦ elim (Bool-cases (is_dispatch lane id expired_row)) [
        | inl also ↦ cc (first (ground (arith, on)), second (ground (arith, also)))
        | inr off ↦ ground (arith, on, off)
      ]
      | inr off ↦ ground (arith, off)
    ]

drain_delivers_example :
    (result : CloudflareOutboxDrainResult) × (s' : OutboxState) × (drain_cloudflare_job_outbox quiet
        drain_input outbox
      ≡ (returns result, s'))
    × (result.published ≡ result.attempted)
    × Delivered thumbnail (2 ∷ []) s'
unfolding lane_name text_eq
drain_delivers_example =
    drain_delivers quiet drain_input 25 outbox expired_row thumbnail (2 ∷ []) (λ k wake. refl)
      (λ k rows. refl) (λ k. omega arith) (omega arith) refl outbox-HasPrimaryKey (omega arith) refl
      refl refl refl

abbrev refusing : OutboxContext
refusing = record quiet { sends = λ k wake. false }

drain_keeps_wake_example :
    (r' : DispatchRow) × (find_where
        (is_dispatch thumbnail (2 ∷ []))
        (drain_cloudflare_job_outbox refusing drain_input outbox).1.rows
      ≡ some r')
    × (r'.wake_id ≡ some wake_id)
    × (expired_row.fence ≤ r'.fence)
    × (all_have thumbnail
          (2 ∷ [])
          wake_id
          (drain_cloudflare_job_outbox refusing drain_input outbox).1.sent
        ≡ true)
unfolding lane_name text_eq
drain_keeps_wake_example =
    drain_keeps_wake refusing drain_input outbox expired_row thumbnail (2 ∷ []) wake_id
      (λ n rows. refl) outbox-HasPrimaryKey refl refl refl
