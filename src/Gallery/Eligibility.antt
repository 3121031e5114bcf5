-- ===== src/Gallery/Eligibility.antt =====
-- api/src/application/gallery/eligibility.ts: whether the gallery may run. `getDomain` of the
-- package tldts is a parameter. Hosts and sites are UTF-16 texts; hosts of URLs are ASCII.
pub mod Separation
mod Tests
use share_slices.Base.{
  ℕ, ◌+◌, Bool, true, false, not, ◌&&◌, ◌||◌, Option, none, some, List, [], ◌∷◌, ◌++◌, leb, ◌==◌,
  if◌then◌else◌, some_of, every, length, Text, units, text_eq, includes, split_on, to_lower_case,
}

pub data GalleryIneligibilityReason : Type 0 where
  gallery_disabled content_origin_missing same_origin : GalleryIneligibilityReason
  same_host_different_port non_dns_topology_unproven : GalleryIneligibilityReason
  declared_site_mismatch shared_registrable_site : GalleryIneligibilityReason
  management_cookie_spans_content network_policy_unavailable : GalleryIneligibilityReason
  current_grant_unavailable challenge_verifier_unavailable : GalleryIneligibilityReason
  administrator_authority_unavailable reporting_unavailable : GalleryIneligibilityReason
  notification_unavailable appeal_unavailable governance_unavailable : GalleryIneligibilityReason
  isolated_content_unavailable : GalleryIneligibilityReason

abbrev pub Reasons : Type 0
Reasons = List GalleryIneligibilityReason

abbrev pub reason_number : GalleryIneligibilityReason → ℕ
reason_number gallery_disabled = 0
reason_number content_origin_missing = 1
reason_number same_origin = 2
reason_number same_host_different_port = 3
reason_number non_dns_topology_unproven = 4
reason_number declared_site_mismatch = 5
reason_number shared_registrable_site = 6
reason_number management_cookie_spans_content = 7
reason_number network_policy_unavailable = 8
reason_number current_grant_unavailable = 9
reason_number challenge_verifier_unavailable = 10
reason_number administrator_authority_unavailable = 11
reason_number reporting_unavailable = 12
reason_number notification_unavailable = 13
reason_number appeal_unavailable = 14
reason_number governance_unavailable = 15
reason_number isolated_content_unavailable = 16

abbrev pub without : GalleryIneligibilityReason → Reasons → Reasons
without r [] = []
without r (x ∷ xs) =
    let rest = without r xs in if reason_number x == reason_number r then rest else x ∷ rest

-- `[...new Set(reasons)]`: the first occurrence of each.
pub distinct : Reasons → Reasons
distinct [] = []
distinct (r ∷ rs) = r ∷ without r (distinct rs)

pub record GalleryEligibility : Type 0 where
  pub eligible : Bool
  pub reasons : Reasons

-- The parts of a URL that are read.
pub record Origin : Type 0 where
  pub origin : Text
  pub hostname : Text
  pub port : Text

pub record GalleryCapabilityReadiness : Type 0 where
  pub current_grant : Bool
  pub challenge_verifier : Bool
  pub administrator_authority : Bool
  pub reporting : Bool
  pub notification : Bool
  pub appeal : Bool
  pub governance : Bool
  pub isolated_content : Bool

pub record GalleryConfiguration : Type 0 where
  pub enabled : Bool
  pub content_origin : Option Origin
  pub web_origin : Origin
  pub api_origin : Origin
  pub content_registrable_site : Option Text
  pub management_cookie_domain : Option Text
  pub denies_external : Bool

abbrev pub is_digit : ℕ → Bool
is_digit c = leb b'0' c && leb c b'9'

-- `\d{1,3}`.
abbrev pub is_short_number : Text → Bool
is_short_number s = leb 1 (length s) && leb (length s) 3 && every is_digit s

-- /^\d{1,3}(?:\.\d{1,3}){3}$/
abbrev pub is_dotted_quad : Text → Bool
is_dotted_quad s = length (split_on b'.' s) == 4 && every is_short_number (split_on b'.' s)

pub is_ip_or_local : Text → Bool
is_ip_or_local hostname =
    text_eq hostname (units "localhost") || includes b':' hostname || is_dotted_quad hostname

abbrev pub ends_with : Text → Text → Bool
ends_with [] p = text_eq [] p
ends_with (x ∷ s) p = text_eq (x ∷ s) p || ends_with s p

abbrev pub without_dot : Text → Text
without_dot [] = []
without_dot (c ∷ s) = if c == b'.' then s else c ∷ s

pub cookie_spans : Text → Text → Bool
cookie_spans cookie_domain hostname =
    let normalized = without_dot (to_lower_case cookie_domain) in
    let host = to_lower_case hostname in
    text_eq host normalized || ends_with host (b'.' ∷ normalized)

abbrev pub option_eq : Option Text → Option Text → Bool
option_eq none none = true
option_eq (some a) (some b) = text_eq a b
option_eq _ _ = false

-- `if (test) reasons.push(reason)`.
abbrev pub when : Bool → GalleryIneligibilityReason → Reasons
when true reason = reason ∷ []
when false reason = []

abbrev pub is_missing_or_other : Option Text → Option Text → Bool
is_missing_or_other none declared = true
is_missing_or_other (some site) declared = not (option_eq (some site) declared)

abbrev pub cookie_reasons : Option Text → Text → Reasons
cookie_reasons none hostname = []
cookie_reasons (some []) hostname = []
cookie_reasons (some (c ∷ s)) hostname =
    when (cookie_spans (c ∷ s) hostname) management_cookie_spans_content

abbrev pub is_empty {ℓ} : {A : Type ℓ} → List A → Bool
is_empty [] = true
is_empty (x ∷ xs) = false

-- The row of gallery_runtime_status.
pub record StatusRow : Type 0 where
  pub eligible : Bool
  pub reasons : Reasons
  pub observed_at : ℕ

abbrev pub runtime_status_max_age : ℕ
runtime_status_max_age = 60000

abbrev pub all_ready : GalleryCapabilityReadiness
all_ready = record {
  current_grant = true;
  challenge_verifier = true;
  administrator_authority = true;
  reporting = true;
  notification = true;
  appeal = true;
  governance = true;
  isolated_content = true;
}

module _ (get_domain : Text → Option Text) where
  abbrev pub site_reasons : GalleryConfiguration → Origin → Reasons
  site_reasons g content =
      when (is_missing_or_other (get_domain content.hostname) g.content_registrable_site)
        declared_site_mismatch
      ++ when
          (option_eq (get_domain content.hostname) (get_domain g.web_origin.hostname)
            || option_eq (get_domain content.hostname) (get_domain g.api_origin.hostname))
          shared_registrable_site

  abbrev pub is_on_other_port : Origin → Origin → Bool
  is_on_other_port a b = text_eq a.hostname b.hostname && not (text_eq a.port b.port)

  abbrev pub has_bare_host : GalleryConfiguration → Origin → Bool
  has_bare_host g content =
      is_ip_or_local content.hostname
      || is_ip_or_local g.web_origin.hostname
      || is_ip_or_local g.api_origin.hostname

  abbrev pub content_reasons : GalleryConfiguration → Option Origin → Reasons
  content_reasons g none = content_origin_missing ∷ []
  content_reasons g (some content) =
      when
        (text_eq content.origin g.web_origin.origin || text_eq content.origin g.api_origin.origin)
        same_origin
      ++ when (is_on_other_port content g.web_origin || is_on_other_port content g.api_origin)
          same_host_different_port
      ++ (if has_bare_host g content
          then non_dns_topology_unproven ∷ []
          else site_reasons g content)
      ++ cookie_reasons g.management_cookie_domain content.hostname

  -- `Object.entries(capabilityReasons)`, in the order of the table.
  abbrev pub capability_reasons : GalleryCapabilityReadiness → Reasons
  capability_reasons r =
      when (not r.current_grant) current_grant_unavailable
      ++ when (not r.challenge_verifier) challenge_verifier_unavailable
      ++ when (not r.administrator_authority) administrator_authority_unavailable
      ++ when (not r.reporting) reporting_unavailable
      ++ when (not r.notification) notification_unavailable
      ++ when (not r.appeal) appeal_unavailable
      ++ when (not r.governance) governance_unavailable
      ++ when (not r.isolated_content) isolated_content_unavailable

  abbrev pub found_reasons : GalleryConfiguration → GalleryCapabilityReadiness → Reasons
  found_reasons g r =
      when (not g.enabled) gallery_disabled
      ++ content_reasons g g.content_origin
      ++ when (not g.denies_external) network_policy_unavailable
      ++ capability_reasons r

  pub evaluate_gallery_eligibility :
      GalleryConfiguration → GalleryCapabilityReadiness → GalleryEligibility
  evaluate_gallery_eligibility g r = record {
    eligible = is_empty (found_reasons g r);
    reasons = distinct (found_reasons g r);
  }

  abbrev pub stale_eligibility : GalleryEligibility
  stale_eligibility = record {
    eligible = false;
    reasons = governance_unavailable ∷ isolated_content_unavailable ∷ [];
  }

  abbrev pub merge_status : GalleryConfiguration → StatusRow → GalleryEligibility
  merge_status g row =
      let reasons = distinct ((evaluate_gallery_eligibility g all_ready).reasons ++ row.reasons) in
      record { eligible = row.eligible && is_empty reasons; reasons = reasons }

  pub read_gallery_runtime_eligibility :
      GalleryConfiguration → ℕ → Option StatusRow → GalleryEligibility
  read_gallery_runtime_eligibility g now none = stale_eligibility
  read_gallery_runtime_eligibility g now (some row) =
      if leb now (row.observed_at + runtime_status_max_age)
      then merge_status g row
      else stale_eligibility
