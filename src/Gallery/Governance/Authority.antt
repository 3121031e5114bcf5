-- ===== src/Gallery/Governance/Authority.antt =====
-- administrator-authority.ts: `require`, `grant` and `revoke` of `GalleryAdministratorAuthority`.
use share_slices.Base.{
  ℕ, ◌+◌, String, str_eq, Bool, not, ◌&&◌, Option, none, some, List, ◌∷◌, if◌then◌else◌, is_some,
  is_none, find_where, update_where,
}
use share_slices.Gallery.Governance.{
  GovernanceTables, AuthorityRow, AuditEvent, AdministratorAction, decision_action, grant_action,
  revoke_action, Outcome, failed, done, ◌>>=◌, administrator_forbidden,
}

abbrev pub has_authority : String → AuthorityRow → Bool
has_authority user r = str_eq r.user_id user && is_none r.revoked_at

abbrev pub note : AuditEvent → GovernanceTables → GovernanceTables
note event g = record g { audit = event ∷ g.audit }

unfoldable pub require :
    String → AdministratorAction → Option String → GovernanceTables → Outcome GovernanceTables
require user action resource g =
    if not (is_some (find_where (has_authority user) g.authorities))
    then failed administrator_forbidden
    else done (
        note
          (record {
            actor_user_id = user;
            action = action;
            resource_id = resource;
            subject_user_id = none;
          })
          g)

abbrev pub of_subject : String → AuthorityRow → Bool
of_subject user r = str_eq r.user_id user

abbrev pub regrant : String → AuthorityRow → AuthorityRow
regrant actor r = record r {
  revoked_at = none;
  granted_by_user_id = actor;
  revision = r.revision + 1;
}

abbrev pub upsert_authority : String → String → List AuthorityRow → List AuthorityRow
upsert_authority actor subject rows =
    if is_some (find_where (of_subject subject) rows)
    then update_where (of_subject subject) (regrant actor) rows
    else record { user_id = subject; granted_by_user_id = actor; revoked_at = none; revision = 1 }
      ∷ rows

-- The three statements of `grant` and of `revoke` stand in no transaction; each part that is done
-- stays done.
unfoldable pub grant : String → String → GovernanceTables → Outcome GovernanceTables
grant actor subject g = do
  g' ← require actor decision_action (some "authority") g
  done (
      note
        (record {
          actor_user_id = actor;
          action = grant_action;
          resource_id = none;
          subject_user_id = some subject;
        })
        (record g' { authorities = upsert_authority actor subject g'.authorities }))

abbrev pub revoke_row : ℕ → AuthorityRow → AuthorityRow
revoke_row now r = record r { revoked_at = some now; revision = r.revision + 1 }

unfoldable pub revoke : String → String → ℕ → GovernanceTables → Outcome GovernanceTables
revoke actor subject now g = do
  g' ← require actor decision_action (some "authority") g
  done (
      note
        (record {
          actor_user_id = actor;
          action = revoke_action;
          resource_id = none;
          subject_user_id = some subject;
        })
        (record g' {
          authorities = update_where (has_authority subject) (revoke_row now) g'.authorities;
        }))
