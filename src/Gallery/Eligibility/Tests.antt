-- ===== src/Gallery/Eligibility/Tests.antt =====
-- A configuration that is eligible, and the examples of the theorems.
use share_slices.Base.{
  ◌≤◌, ◌≡◌, ◌≢◌, ◌+◌, ◌↔◌, refl, if◌then◌else◌, true, Option, some, [], Text, units, text_eq,
  split_on,
}
use share_slices.Gallery.Eligibility.{
  GalleryConfiguration, Origin, StatusRow, all_ready, is_ip_or_local, cookie_spans,
  evaluate_gallery_eligibility, read_gallery_runtime_eligibility,
}
use share_slices.Gallery.Eligibility.Separation.{
  IsSeparate, eligible-IsSeparate, runtime_eligible_iff,
}

-- The registrable domain of the hosts below.
abbrev domain : Text → Option Text
domain host =
    if text_eq host (units "usercontent.net")
    then some (units "usercontent.net")
    else some (units "slices.com")

abbrev host : Text → Origin
host name = record { origin = name; hostname = name; port = [] }

abbrev gallery : GalleryConfiguration
gallery = record {
  enabled = true;
  content_origin = some (host (units "usercontent.net"));
  web_origin = host (units "slices.com");
  api_origin = host (units "api.slices.com");
  content_registrable_site = some (units "usercontent.net");
  management_cookie_domain = some (units ".slices.com");
  denies_external = true;
}

quad_is_ip : is_ip_or_local (units "127.0.0.1") ≡ true
unfolding is_ip_or_local split_on text_eq
quad_is_ip = refl

cookie_spans_subdomain : cookie_spans (units ".slices.com") (units "API.slices.com") ≡ true
unfolding cookie_spans text_eq
cookie_spans_subdomain = refl

gallery_eligible : (evaluate_gallery_eligibility domain gallery all_ready).eligible ≡ true
unfolding evaluate_gallery_eligibility is_ip_or_local cookie_spans split_on text_eq
gallery_eligible = refl

eligible-IsSeparate_example :
    (true ≡ true)
    × (true ≡ true)
    × (all_ready ≡ all_ready)
    × ((content : Origin) × (gallery.content_origin ≡ some content)
        × IsSeparate domain gallery content
        × (content.hostname ≢ units "slices.com")
        × (content.hostname ≢ units "api.slices.com"))
eligible-IsSeparate_example = eligible-IsSeparate domain gallery all_ready gallery_eligible

runtime_eligible_iff_example :
    ((read_gallery_runtime_eligibility domain gallery 70000
        (some (record { eligible = true; reasons = []; observed_at = 20000 }))).eligible
      ≡ true)
    ↔ ((status : StatusRow) × (some (record { eligible = true; reasons = []; observed_at = 20000 })
          ≡ some status)
        × (70000 ≤ status.observed_at + 60000)
        × (status.eligible ≡ true)
        × (status.reasons ≡ [])
        × ((evaluate_gallery_eligibility domain gallery all_ready).eligible ≡ true))
runtime_eligible_iff_example =
    runtime_eligible_iff domain gallery 70000
      (some (record { eligible = true; reasons = []; observed_at = 20000 }))
