-- ===== src/Gallery/Eligibility/Separation.antt =====
-- What an eligible gallery guarantees about the content's origin.
use share_slices.Base.{
  ℕ, ◌+◌, ◌≤◌, ◌≡◌, ◌≢◌, ◌↔◌, refl, sym, ap, ◌∙◌, Bool, true, false, not, ◌&&◌, ◌||◌, Option, none,
  some, [], ◌∷◌, ◌++◌, arith, leb, if◌then◌else◌, leb→le, Bool-cases, inl, inr, Text, text_eq,
  text_eq_iff,
}
use share_slices.Gallery.Eligibility.{
  GalleryConfiguration, GalleryCapabilityReadiness, GalleryIneligibilityReason, Reasons, Origin,
  StatusRow, when, is_empty, distinct, all_ready, option_eq, is_missing_or_other, cookie_reasons,
  site_reasons, has_bare_host, is_on_other_port, content_reasons, capability_reasons, found_reasons,
  evaluate_gallery_eligibility, read_gallery_runtime_eligibility,
}

-- The content stands on a registrable site of its own, the declared one; no host is an address.
pub record IsSeparate (get_domain : Text → Option Text) (g : GalleryConfiguration)
    (content : Origin) : Type 0 where
  pub site : Text
  pub registrable : get_domain content.hostname ≡ some site
  pub declared : option_eq (some site) g.content_registrable_site ≡ true
  pub not_web : option_eq (some site) (get_domain g.web_origin.hostname) ≡ false
  pub not_api : option_eq (some site) (get_domain g.api_origin.hostname) ≡ false
  pub named : has_bare_host get_domain g content ≡ false
  pub cookie : cookie_reasons g.management_cookie_domain content.hostname ≡ []

append-empty :
    (xs ys : Reasons) → is_empty (xs ++ ys) ≡ true → (is_empty xs ≡ true) × (is_empty ys ≡ true)
append-empty [] ys h = (refl, h)
append-empty (x ∷ xs) ys h = absurd (ground arith)

when-empty : (b : Bool) (r : GalleryIneligibilityReason) → is_empty (when b r) ≡ true → b ≡ false
when-empty true r h = absurd (ground arith)
when-empty false r h = refl

is_empty-eq : (xs : Reasons) → is_empty xs ≡ true → xs ≡ []
is_empty-eq [] h = refl
is_empty-eq (x ∷ xs) h = absurd (ground arith)

distinct-empty : (xs : Reasons) → is_empty (distinct xs) ≡ is_empty xs
unfolding distinct
distinct-empty [] = refl
distinct-empty (x ∷ xs) = refl

module _ (get_domain : Text → Option Text) (g : GalleryConfiguration) where
  site-IsSeparate :
      (content : Origin) (o : Option Text)
      → get_domain content.hostname ≡ o
      → has_bare_host get_domain g content ≡ false
      → is_missing_or_other o g.content_registrable_site ≡ false
      → (option_eq o (get_domain g.web_origin.hostname)
          || option_eq o (get_domain g.api_origin.hostname))
        ≡ false
      → cookie_reasons g.management_cookie_domain content.hostname ≡ []
      → IsSeparate get_domain g content
  site-IsSeparate content none e named h k cookie = absurd (ground arith)
  site-IsSeparate content (some site) e named h k cookie = record {
    site = site;
    registrable = e;
    declared = ground arith;
    not_web = ground arith;
    not_api = ground arith;
    named = named;
    cookie = cookie;
  }

  content-IsSeparate :
      (o : Option Origin)
      → is_empty (content_reasons get_domain g o) ≡ true
      → (content : Origin) × (o ≡ some content) × IsSeparate get_domain g content
  content-IsSeparate none h = absurd (ground arith)
  content-IsSeparate (some content) h =
      let cookies : Reasons = cookie_reasons g.management_cookie_domain content.hostname in
      let hosts : Reasons =
        if has_bare_host get_domain g content
        then GalleryIneligibilityReason.non_dns_topology_unproven ∷ []
        else site_reasons get_domain g content in
      let ports : Reasons =
        when
          (is_on_other_port get_domain content g.web_origin
            || is_on_other_port get_domain content g.api_origin)
          GalleryIneligibilityReason.same_host_different_port in
      let origins : Reasons =
        when
          (text_eq content.origin g.web_origin.origin || text_eq content.origin g.api_origin.origin)
          GalleryIneligibilityReason.same_origin in
      let (others, cookie) = append-empty (origins ++ ports ++ hosts) cookies h in
      let host : is_empty hosts ≡ true = (append-empty (origins ++ ports) hosts others).1 in
      elim (Bool-cases (has_bare_host get_domain g content)) [
        | inl bare ↦ absurd (ground (arith, host))
        | inr named ↦
            let sites : is_empty (site_reasons get_domain g content) ≡ true = rw named at host in
            let (d, s) =
              append-empty
                (when (is_missing_or_other (get_domain content.hostname) g.content_registrable_site)
                  GalleryIneligibilityReason.declared_site_mismatch)
                (when
                  (option_eq (get_domain content.hostname) (get_domain g.web_origin.hostname)
                    || option_eq (get_domain content.hostname) (get_domain g.api_origin.hostname))
                  GalleryIneligibilityReason.shared_registrable_site)
                sites in
            (
              content,
              refl,
              site-IsSeparate content _ refl named (when-empty _ _ d) (when-empty _ _ s)
                  (is_empty-eq cookies cookie),
            )
      ]

  capability-all_ready :
      (r : GalleryCapabilityReadiness)
      → is_empty (capability_reasons get_domain r) ≡ true
      → r ≡ all_ready
  capability-all_ready r h = ground arith

  -- If the gallery is eligible then it is enabled, denies external network access, and every
  -- capability is ready; its content origin has the declared registrable site, which is neither
  -- the web's nor the API's, so its host is neither of theirs; no host is an IP address or local,
  -- and the management cookie does not span the content's host.
  pub eligible-IsSeparate :
      (r : GalleryCapabilityReadiness)
      → (evaluate_gallery_eligibility get_domain g r).eligible ≡ true
      → (g.enabled ≡ true)
        × (g.denies_external ≡ true)
        × (r ≡ all_ready)
        × ((content : Origin) × (g.content_origin ≡ some content)
            × IsSeparate get_domain g content
            × (content.hostname ≢ g.web_origin.hostname)
            × (content.hostname ≢ g.api_origin.hostname))
  unfolding evaluate_gallery_eligibility
  eligible-IsSeparate r h =
      let h0 : is_empty (found_reasons get_domain g r) ≡ true = h in
      let policy : Reasons =
        when (not g.denies_external) GalleryIneligibilityReason.network_policy_unavailable in
      let on : Reasons = when (not g.enabled) GalleryIneligibilityReason.gallery_disabled in
      let contents : Reasons = content_reasons get_domain g g.content_origin in
      let (h1, ready) =
        append-empty (on ++ contents ++ policy) (capability_reasons get_domain r) h0 in
      let (h2, network) = append-empty (on ++ contents) policy h1 in
      let (enabled, placed) = append-empty on contents h2 in
      let (content, there, separate) = content-IsSeparate g.content_origin placed in
      let other : (host : Text)
          → option_eq (some separate.site) (get_domain host) ≡ false
          → content.hostname ≢ host =
        λ host differs same. absurd (
          ground (
            arith,
            ap get_domain same,
            separate.registrable,
            differs,
            text_eq_iff separate.site separate.site,
          )) in
      (
        ground (arith, when-empty _ _ enabled),
        ground (arith, when-empty _ _ network),
        capability-all_ready r ready,
        (
          content,
          there,
          separate,
          other g.web_origin.hostname separate.not_web,
          other g.api_origin.hostname separate.not_api,
        ),
      )

  -- The runtime gate is open exactly when there is a status row that is at most sixty seconds old,
  -- says eligible and has no reasons, and the configuration itself is eligible with every
  -- capability taken as ready.
  pub runtime_eligible_iff :
      (now : ℕ) (row : Option StatusRow)
      → ((read_gallery_runtime_eligibility get_domain g now row).eligible ≡ true) ↔ (
          (status : StatusRow) × (row ≡ some status)
          × (now ≤ status.observed_at + 60000)
          × (status.eligible ≡ true)
          × (status.reasons ≡ [])
          × ((evaluate_gallery_eligibility get_domain g all_ready).eligible ≡ true))
  unfolding read_gallery_runtime_eligibility evaluate_gallery_eligibility
  runtime_eligible_iff now row = (opens row, λ w. shows w)
    where
      static : Reasons
      static = found_reasons get_domain g all_ready

      opens :
          (r : Option StatusRow)
          → (read_gallery_runtime_eligibility get_domain g now r).eligible ≡ true
          → (status : StatusRow) × (r ≡ some status)
            × (now ≤ status.observed_at + 60000)
            × (status.eligible ≡ true)
            × (status.reasons ≡ [])
            × (is_empty static ≡ true)
      opens none h = absurd (ground arith)
      opens (some s) h =
          let fresh : leb now (s.observed_at + 60000) ≡ true = ground arith in
          let merged : (s.eligible && is_empty (distinct (distinct static ++ s.reasons))) ≡ true =
            rw fresh at h in
          let none_left : is_empty (distinct static ++ s.reasons) ≡ true =
            ground (arith, distinct-empty (distinct static ++ s.reasons)) in
          let (own, reported) = append-empty (distinct static) s.reasons none_left in
          (
            s,
            refl,
            leb→le now (s.observed_at + 60000) fresh,
            ground arith,
            is_empty-eq s.reasons reported,
            sym (distinct-empty static) ∙ own,
          )

      shows :
          (status : StatusRow) × (row ≡ some status)
            × (now ≤ status.observed_at + 60000)
            × (status.eligible ≡ true)
            × (status.reasons ≡ [])
            × (is_empty static ≡ true)
          → (read_gallery_runtime_eligibility get_domain g now row).eligible ≡ true
      shows (s, there, fresh, ok, none_left, own) =
          let young : leb now (s.observed_at + 60000) ≡ true = ground (arith, fresh) in
          let clean : distinct static ≡ [] = is_empty-eq _ (distinct-empty static ∙ own) in
          rw there (rw young (rw ok (rw none_left (rw clean (unfold distinct in refl)))))
