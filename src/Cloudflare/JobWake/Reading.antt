-- ===== src/Cloudflare/JobWake/Reading.antt =====
-- job-wake.ts: what a message that the parser accepts holds.
use share_slices.Base.{
  ◌≡◌, refl, sym, ap, subst, ◌∙◌, String, str_eq, eq_iff, Bool, true, false, not, Bool-cases, inl,
  inr, Option, none, some, List, [], ◌∷◌, arith, some_of, find_where_holds, Text, text_eq,
  text_eq_iff,
}
use share_slices.Base.Attempts.{
  Attempt, returns, ◌>>=◌, check, present, check_returns, present_returns, returns_injective,
}
use share_slices.Cloudflare.JobWake.Valid.{
  IsUuid, IsJobId, IsStamp, valid_uuid-IsUuid, job_id_of-IsJobId, created_at_of-IsStamp,
}
use share_slices.Cloudflare.JobWake.{
  CloudflareJobWakeLane, lane_name, cloudflare_job_wake_lanes, CloudflareJobWake, Value, undefined,
  null, other, number, text, Property, Unknown, plain, array, object, WakeError, invalid_job_wake,
  is_uuid, DateLibrary, allowed, field, is_one, valid_uuid, lane_of, job_id_of, is_valid_job_id,
  is_own_normal, created_at_of, parse_record, parse_cloudflare_job_wake, created_value,
  job_id_property, properties,
}

is_one_reads : (v : Value) → is_one v ≡ true → v ≡ number 1
is_one_reads (number n) e = ap number (ground (arith, e))
is_one_reads undefined e = cc
is_one_reads null e = cc
is_one_reads other e = cc
is_one_reads (text t) e = cc

valid_uuid_reads : (v : Value) (t : Text) → valid_uuid v ≡ some t → v ≡ text t
valid_uuid_reads (text s) t e = elim (Bool-cases (is_uuid s)) [
  | inl on ↦ ground (arith, on, e)
  | inr off ↦ ground (arith, off, e)
]
valid_uuid_reads (number n) t e = cc
valid_uuid_reads undefined t e = cc
valid_uuid_reads null t e = cc
valid_uuid_reads other t e = cc

lane_of_reads :
    (v : Value) (l : CloudflareJobWakeLane) → lane_of v ≡ some l → v ≡ text (lane_name l)
lane_of_reads (text s) l e =
    let found = find_where_holds (λ l. text_eq (lane_name l) s) cloudflare_job_wake_lanes l e in
    ap text (sym ((text_eq_iff (lane_name l) s).0 found))
lane_of_reads (number n) l e = cc
lane_of_reads undefined l e = cc
lane_of_reads null l e = cc
lane_of_reads other l e = cc

abbrev job_value : Option Text → Value
job_value none = undefined
job_value (some id) = text id

job_id_of_reads : (v : Value) (d : Option Text) → job_id_of v ≡ some d → v ≡ job_value d
job_id_of_reads undefined d e = cc
job_id_of_reads (text s) d e = elim (Bool-cases (is_valid_job_id s)) [
  | inl on ↦
      let same : ◌≡◌ {A = Option Text} (some s) d = ground (arith, on, e) in ap job_value same
  | inr off ↦ ground (arith, off, e)
]
job_id_of_reads null d e = cc
job_id_of_reads other d e = cc
job_id_of_reads (number n) d e = cc

created_at_of_reads :
    (dates : DateLibrary) (v : Value) (c : Option Text)
    → created_at_of dates v ≡ some c
    → v ≡ created_value c
created_at_of_reads dates null c e = cc
created_at_of_reads dates (text s) c e = elim (Bool-cases (is_own_normal dates s)) [
  | inl on ↦
      let same : ◌≡◌ {A = Option Text} (some s) c = ground (arith, on, e) in ap created_value same
  | inr off ↦ ground (arith, off, e)
]
created_at_of_reads dates undefined c e = cc
created_at_of_reads dates other c e = cc
created_at_of_reads dates (number n) c e = cc

-- A key that fails a test that all properties' keys pass is not there.
field_untested :
    (test : String → Bool) (key : String) (ps : List Property)
    → test key ≡ false
    → some_of (λ (p : Property). not (test p.key)) ps ≡ false
    → field key ps ≡ undefined
field_untested test key [] bad e = refl
field_untested test key (p ∷ ps) bad e =
    let rest = field_untested test key ps bad in
    elim (Bool-cases (str_eq p.key key)) [
      | inl on ↦ cc (ap test ((eq_iff p.key key).0 on), bad, e)
      | inr off ↦ ground (arith, off, rest, e)
    ]

-- What the parser has found of the fields.
record Fields (dates : DateLibrary) (ps : List Property) (w : CloudflareJobWake) : Type 0 where
  no_other : some_of (λ (p : Property). not (allowed p.key)) ps ≡ false
  version : field "version" ps ≡ number 1
  wake_id : field "wakeId" ps ≡ text w.wake_id
  lane : field "lane" ps ≡ text (lane_name w.lane)
  durable_job_id : field "durableJobId" ps ≡ job_value w.durable_job_id
  created_at : field "createdAt" ps ≡ created_value w.created_at
  valid_wake_id : IsUuid w.wake_id
  valid_job_id : IsJobId w.durable_job_id
  valid_stamp : IsStamp dates w.created_at

parse_record-Fields :
    (dates : DateLibrary) (ps : List Property) (w : CloudflareJobWake)
    → parse_record dates ps ≡ returns w
    → Fields dates ps w
unfolding parse_record
parse_record-Fields dates ps w e =
    let Answer : Type 0 = Attempt WakeError CloudflareJobWake in
    let one : Bool = is_one (field "version" ps) in
    let uuid = valid_uuid (field "wakeId" ps) in
    let lane = lane_of (field "lane" ps) in
    let job = job_id_of (field "durableJobId" ps) in
    let stamp = created_at_of dates (field "createdAt" ps) in
    let last : Text → CloudflareJobWakeLane → Option Text → Option Text → Answer =
      λ u l d c. returns record { wake_id = u; lane = l; durable_job_id = d; created_at = c } in
    let k3 : Text → CloudflareJobWakeLane → Option Text → Answer =
      λ u l d. present stamp invalid_job_wake >>= last u l d in
    let k2 : Text → CloudflareJobWakeLane → Answer =
      λ u l. present job invalid_job_wake >>= k3 u l in
    let k1 : Text → Answer = λ u. present lane invalid_job_wake >>= k2 u in
    let k0 : Unit {0} → Answer = λ _. present uuid invalid_job_wake >>= k1 in
    let (known, e1) =
      check_returns (not (some_of (λ (p : Property). not (allowed p.key)) ps)) invalid_job_wake
        (λ _. check one invalid_job_wake >>= k0) w e in
    let (is_first, e2) = check_returns one invalid_job_wake k0 w e1 in
    let (u, has_u, e3) = present_returns uuid invalid_job_wake k1 w e2 in
    let (l, has_l, e4) = present_returns lane invalid_job_wake (k2 u) w e3 in
    let (d, has_d, e5) = present_returns job invalid_job_wake (k3 u l) w e4 in
    let (c, has_c, e6) = present_returns stamp invalid_job_wake (last u l d) w e5 in
    let found : Fields dates ps
        (record { wake_id = u; lane = l; durable_job_id = d; created_at = c }) =
      record {
        no_other = ground (arith, known);
        version = is_one_reads (field "version" ps) is_first;
        wake_id = valid_uuid_reads (field "wakeId" ps) u has_u;
        lane = lane_of_reads (field "lane" ps) l has_l;
        durable_job_id = job_id_of_reads (field "durableJobId" ps) d has_d;
        created_at = created_at_of_reads dates (field "createdAt" ps) c has_c;
        valid_wake_id = valid_uuid-IsUuid (field "wakeId" ps) u has_u;
        valid_job_id = job_id_of-IsJobId (field "durableJobId" ps) d has_d;
        valid_stamp = created_at_of-IsStamp dates (field "createdAt" ps) c has_c;
      } in
    subst (Fields dates ps)
      (returns_injective (record { wake_id = u; lane = l; durable_job_id = d; created_at = c }) w
        e6)
      found

-- The two fields behind the one that may be missing.
job_id_sent :
    (d c : Option Text)
    → field "durableJobId"
        (job_id_property d (record { key = "createdAt"; value = created_value c } ∷ []))
      ≡ job_value d
job_id_sent none c = refl
job_id_sent (some id) c = refl

created_at_sent :
    (d c : Option Text)
    → field "createdAt"
        (job_id_property d (record { key = "createdAt"; value = created_value c } ∷ []))
      ≡ created_value c
created_at_sent none c = refl
created_at_sent (some id) c = refl

properties_allowed :
    (d c : Option Text)
    → some_of
        (λ (p : Property). not (allowed p.key))
        (job_id_property d (record { key = "createdAt"; value = created_value c } ∷ []))
      ≡ false
properties_allowed none c = refl
properties_allowed (some id) c = refl

abbrev Agree : List Property → CloudflareJobWake → String → Type 0
Agree ps w key = field key ps ≡ field key (properties w)

-- From a field that has a name of its own to the variable `key`.
named-Agree :
    (ps : List Property) (w : CloudflareJobWake) (name key : String)
    → Agree ps w name
    → str_eq key name ≡ true
    → Agree ps w key
named-Agree ps w name key known e = subst (Agree ps w) (sym ((eq_iff key name).0 e)) known

allowed-Agree :
    (dates : DateLibrary) (ps : List Property) (w : CloudflareJobWake)
    → Fields dates ps w
    → (key : String) → allowed key ≡ true
    → Agree ps w key
allowed-Agree dates ps w f key is_known =
    let job = f.durable_job_id ∙ sym (job_id_sent w.durable_job_id w.created_at) in
    let stamp = f.created_at ∙ sym (created_at_sent w.durable_job_id w.created_at) in
    elim (Bool-cases (str_eq key "version")) [
      | inl e ↦ named-Agree ps w "version" key f.version e
      | inr a ↦ elim (Bool-cases (str_eq key "wakeId")) [
        | inl e ↦ named-Agree ps w "wakeId" key f.wake_id e
        | inr b ↦ elim (Bool-cases (str_eq key "lane")) [
          | inl e ↦ named-Agree ps w "lane" key f.lane e
          | inr c ↦ elim (Bool-cases (str_eq key "durableJobId")) [
            | inl e ↦ named-Agree ps w "durableJobId" key job e
            | inr d ↦ named-Agree ps w "createdAt" key stamp (cc (a, b, c, d, is_known))
          ]
        ]
      ]
    ]

-- A message that the parser accepts is an object that has, under every key, the same value as the
-- message that the parser returns, where a key that is not there counts as `undefined`. Its wake
-- identifier is spelt as a UUID, its job identifier is left out or has from 1 to 128 code units, and
-- its creation time is printed as the library prints the time that it reads in it, or is null.
pub parse_reads :
    (dates : DateLibrary) (v : Unknown) (w : CloudflareJobWake)
    → parse_cloudflare_job_wake dates v ≡ returns w
    → (ps : List Property) × (v ≡ object ps)
      × ((key : String) → field key ps ≡ field key (properties w))
      × IsUuid w.wake_id
      × IsJobId w.durable_job_id
      × IsStamp dates w.created_at
unfolding parse_cloudflare_job_wake
parse_reads dates (plain v) w e = cc
parse_reads dates (array vs) w e = cc
parse_reads dates (object ps) w e =
    let f = parse_record-Fields dates ps w e in
    (
      ps,
      refl,
      λ key. elim (Bool-cases (allowed key)) [
        | inl on ↦ allowed-Agree dates ps w f key on
        | inr off ↦
            field_untested allowed key ps off f.no_other
            ∙ sym (
                field_untested allowed key (properties w) off
                  (properties_allowed w.durable_job_id w.created_at))
      ],
      f.valid_wake_id,
      f.valid_job_id,
      f.valid_stamp,
    )
