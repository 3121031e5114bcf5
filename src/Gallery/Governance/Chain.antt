-- ===== src/Gallery/Governance/Chain.antt =====
-- governance.ts: `applyDecision` as the chain of its branches and what follows them, with
-- `removeFeaturedIfIneligible`. The texts of notifications are left out.
use share_slices.Base.{
  String, str_eq, Bool, true, false, not, ◌&&◌, Option, none, some, List, [], ◌∷◌, ◌++◌,
  if◌then◌else◌, map, some_of, find_where, select_where,
}
use share_slices.Gallery.Listing.{restricted, GalleryReviewState, ListingRow, row_of, is_listed}
use share_slices.Gallery.Governance.{
  GovernanceDecisionKind, dismiss, remove, restore, restrict, clear_restriction, takedown,
  clear_takedown, uphold_appeal, reverse_appeal, approve, reject, CaseRow, DecisionRow,
  NotificationRow, NotificationCategory, removal, artifact_takedown, public_sharing_restriction,
  FeaturedRow, eligibility_removed, GovernanceTables, Outcome, done, ◌>>=◌,
}
use share_slices.Gallery.Governance.Measures.{is_active_for, has_decision_id, recompute_artifact}
use share_slices.Gallery.Governance.Effects.{
  DecisionContext, apply_dismiss, apply_remove, apply_restore, apply_restrict, apply_takedown,
}
use share_slices.Gallery.Governance.Reversals.{
  apply_clear_restriction, apply_clear_takedown, resolve_appeal,
}

-- The chain of branches on the kind; a branch whose subject is missing falls through to none.
abbrev pub with_subject :
    Option String
    → (String → GovernanceTables → Outcome GovernanceTables)
    → GovernanceTables
    → Outcome GovernanceTables
with_subject none effect g = done g
with_subject (some id) effect g = effect id g

abbrev pub take_effect :
    DecisionContext → GovernanceDecisionKind → GovernanceTables → Outcome GovernanceTables
take_effect c dismiss g = done (apply_dismiss c g)
take_effect c remove g = with_subject c.governance_case.listing_id (apply_remove c) g
take_effect c restore g = with_subject c.governance_case.listing_id (apply_restore c) g
take_effect c restrict g = with_subject c.governance_case.artifact_id (apply_restrict c) g
take_effect c clear_restriction g =
    with_subject c.governance_case.artifact_id
      (λ artifact g'. done (apply_clear_restriction c artifact g')) g
take_effect c takedown g = with_subject c.governance_case.artifact_id (apply_takedown c) g
take_effect c clear_takedown g =
    with_subject c.governance_case.artifact_id
      (λ artifact g'. done (apply_clear_takedown c artifact g')) g
take_effect c uphold_appeal g =
    with_subject c.governance_case.parent_case_id (λ parent. resolve_appeal c false) g
take_effect c reverse_appeal g =
    with_subject c.governance_case.parent_case_id (λ parent. resolve_appeal c true) g
take_effect c approve g = done g
take_effect c reject g = done g

abbrev pub recompute_subject : Option String → GovernanceTables → GovernanceTables
recompute_subject none g = g
recompute_subject (some artifact) g = recompute_artifact artifact g

abbrev pub is_reviewable : GalleryReviewState → Bool
is_reviewable restricted = false
is_reviewable _ = true

-- Listed, clear or reviewing, and without an active takedown.
abbrev pub is_featurable : GovernanceTables → ListingRow → Bool
is_featurable g l =
    is_listed l.lifecycle_state
    && is_reviewable l.review_state
    && not (some_of (is_active_for l.artifact_id) g.takedowns)

abbrev pub features : String → FeaturedRow → Bool
features listing f = str_eq f.listing_id listing

abbrev pub unfeature : String → String → Option FeaturedRow → GovernanceTables → GovernanceTables
unfeature actor listing none g = g
unfeature actor listing (some f) g = record g {
  featured = select_where (λ x. not (features listing x)) g.featured;
  featured_audit =
      record {
        actor_user_id = actor;
        listing_id = listing;
        position = f.position;
        action = eligibility_removed;
      }
      ∷ g.featured_audit;
}

abbrev pub unfeature_row : String → String → Option ListingRow → GovernanceTables → GovernanceTables
unfeature_row actor listing none g = g
unfeature_row actor listing (some l) g =
    if is_featurable g l
    then g
    else unfeature actor listing (find_where (features listing) g.featured) g

abbrev pub remove_featured_if_ineligible :
    String → Option String → GovernanceTables → GovernanceTables
remove_featured_if_ineligible actor none g = g
remove_featured_if_ineligible actor (some listing) g =
    unfeature_row actor listing (row_of listing g.listing_tables) g

abbrev pub category_of : GovernanceDecisionKind → Option NotificationCategory
category_of remove = some removal
category_of restrict = some public_sharing_restriction
category_of takedown = some artifact_takedown
category_of _ = none

abbrev pub owner_notice :
    DecisionContext → NotificationCategory → ListingRow → DecisionRow → NotificationRow
owner_notice c category l d = record {
  recipient_user_id = l.owner_user_id;
  case_id = c.governance_case.id;
  decision_id = d.id;
  category = category;
  appeal_policy_version = d.appeal_policy_version;
  appeal_deadline_at = d.appeal_deadline_at;
}

abbrev pub owner_notices :
    DecisionContext
    → Option NotificationCategory
    → Option ListingRow
    → List DecisionRow
    → List NotificationRow
owner_notices c none o decisions = []
owner_notices c (some category) none decisions = []
owner_notices c (some category) (some l) decisions =
    map (owner_notice c category l) (select_where (has_decision_id c.decision_id) decisions)

abbrev pub listing_of_case : CaseRow → GovernanceTables → Option ListingRow
listing_of_case k g = elim k.listing_id [ none ↦ none | some id ↦ row_of id g.listing_tables ]

abbrev pub notify_owner :
    DecisionContext → GovernanceDecisionKind → GovernanceTables → GovernanceTables
notify_owner c kind g = record g {
  notifications =
      owner_notices c (category_of kind) (listing_of_case c.governance_case g) g.decisions
      ++ g.notifications;
}

abbrev pub follow_up :
    DecisionContext → GovernanceDecisionKind → GovernanceTables → GovernanceTables
follow_up c kind g = notify_owner c kind (
    remove_featured_if_ineligible c.actor_user_id c.governance_case.listing_id
      (recompute_subject c.governance_case.artifact_id g))

unfoldable pub apply_decision :
    DecisionContext → GovernanceDecisionKind → GovernanceTables → Outcome GovernanceTables
apply_decision c kind g = do g' ← take_effect c kind g; done (follow_up c kind g')
