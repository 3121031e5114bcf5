-- ===== src/Gallery/Quota/History.antt =====
-- Any sequence of calls, and the end of a reservation.
use mathlib.Core.Option
use share_slices.Base.{refl, List, [], ◌∷◌}
use share_slices.Gallery.Quota.{
  Op, reserves, commits, releases, reconciles, activates, step, run, committed, released,
  QuotaTables, reserve_work, reserve, finish_work, commit, release, reconcile_work, reconcile,
  activate_policy_work, activate_policy,
}
use share_slices.Gallery.Quota.Invariant.{Inv, conclude-After}
use share_slices.Gallery.Quota.Holding.{reserve_work-Inv}
use share_slices.Gallery.Quota.Settling.{finish_work-Inv}
use share_slices.Gallery.Quota.Rebuilding.{reconcile_work-Inv, activate_policy_work-Inv}

step-Inv : (s : QuotaTables) (op : Op) → Inv s → Inv (step s op)
unfolding step reserve commit release reconcile activate_policy
step-Inv s (reserves i) v = conclude-After Inv s (reserve_work i s) v (reserve_work-Inv i s v)
step-Inv s (commits id) v =
    conclude-After Inv s (finish_work committed id s) v (finish_work-Inv committed id s refl v)
step-Inv s (releases id) v =
    conclude-After Inv s (finish_work released id s) v (finish_work-Inv released id s refl v)
step-Inv s (reconciles user usage) v =
    conclude-After Inv s (reconcile_work user usage s) v (reconcile_work-Inv user usage s v)
step-Inv s (activates policy) v =
    conclude-After Inv s (activate_policy_work policy s) v (activate_policy_work-Inv policy s v)

-- If the ledger holds of the tables (each account's reserved figures are the sums over the user's
-- held reservations, ids and users are unique), then it holds after any sequence of reserve,
-- commit, release, reconcile and activatePolicy calls, failed ones included.
pub run-Inv : (s : QuotaTables) (ops : List Op) → Inv s → Inv (run s ops)
unfolding run
run-Inv s [] v = v
run-Inv s (op ∷ ops) v = run-Inv (step s op) ops (step-Inv s op v)
