-- ===== src/Upgrade/Order.antt =====
-- What does not depend on the order of Go's map iteration, and the errors that endpoints drop.
use mathlib.Core.List.{◌++◌, Perm}
use mathlib.Core.Path.{ap₂}
use ivory_operator.Kube.{StatusConditions, Responses, ApiErrors}
use ivory_operator.Prelude.{
  true, lookup, Option, sym, ap, ◌∙◌, refl, [], suc, ◌+◌, arith, not, ◌&&◌, ◌∷◌, false, ◌≡◌, ℕ,
  count, label, List, any, str_eq, Bool,
}
use ivory_operator.Prelude.Perms.{count-perm, any-perm}
use ivory_operator.Upgrade.{World, PgUpgrade, Endpoints, remove_data, label_role, Job}
use ivory_operator.Upgrade.Effects.{
  seen_as, Env, delete_all_endpoints, delete_endpoints, Write, see_jobs, scan_remove_data,
}
use ivory_operator.Upgrade.Jobs.{pg_upgrade_job, job_failed, job_completed}
use ivory_operator.Upgrade.Reconcile.{clear_endpoints}

-- A failed job that removes data, where the scan looks first whether it is complete.
abbrev pub failed_remove : Job → Bool
failed_remove j =
    str_eq (label label_role j.labels) remove_data && not (job_completed j) && job_failed j

abbrev pub completed_remove : Job → Bool
completed_remove j = str_eq (label label_role j.labels) remove_data && job_completed j

scan-any : (jobs : List Job) (n : ℕ) → (scan_remove_data jobs n).0 ≡ any failed_remove jobs
unfolding scan_remove_data any
scan-any [] n = refl
scan-any (j ∷ rest) n = ground (arith, scan-any rest n, scan-any rest (suc n))

scan-count :
    (jobs : List Job) (n : ℕ)
    → any failed_remove jobs ≡ false
    → (scan_remove_data jobs n).1 ≡ n + count completed_remove jobs
unfolding scan_remove_data any count
scan-count [] n h = omega arith
scan-count (j ∷ rest) n h = ground (arith, scan-count rest n, scan-count rest (suc n))

scan_remove_data-perm :
    (xs ys : List Job)
    → Perm xs ys
    → any failed_remove xs ≡ false
    → scan_remove_data xs 0 ≡ scan_remove_data ys 0
scan_remove_data-perm xs ys h none_failed =
    let no' : any failed_remove ys ≡ false = sym (any-perm failed_remove h) ∙ none_failed in
    ap₂ (λ a b. (a, b)) (scan-any xs 0 ∙ any-perm failed_remove h ∙ sym (scan-any ys 0))
      (scan-count xs 0 none_failed
        ∙ ap (λ n. 0 + n) (count-perm completed_remove h)
        ∙ sym (scan-count ys 0 no'))

-- Go leaves the order of a loop over a map open. Unless a job that removes data is seen to have
-- failed, what a reconcile sees of the jobs is the same for every order of the loop.
pub see_jobs-perm :
    {E : Type 0} (u : PgUpgrade) (w : World E) (xs ys : List Job)
    → Perm xs ys
    → (see_jobs u w xs).remove_failed ≡ false
    → see_jobs u w xs ≡ see_jobs u w ys
unfolding see_jobs
see_jobs-perm u w xs ys h none_failed =
    ap
      (λ (t : Bool × ℕ). record {
        upgrade_complete = seen_as job_completed (lookup (pg_upgrade_job u) w.jobs);
        upgrade_failed = seen_as job_failed (lookup (pg_upgrade_job u) w.jobs);
        remove_failed = t.0;
        remove_completed = t.1;
      })
      (scan_remove_data-perm xs ys h (sym (scan-any xs 0) ∙ none_failed))

-- The deletions of all endpoints, newest first, upon earlier writes.
abbrev pub deletions : List Endpoints → List Write → List Write
deletions [] ws = ws
deletions (e ∷ rest) ws = deletions rest (delete_endpoints e ∷ ws)

module _ {E : Type 0} ⦃errs : ApiErrors E⦄ (respond : Responses Write E) where
  delete_all_endpoints-append :
      (es : List Endpoints) (e : Endpoints) (err : Option E) (ws : List Write)
      → delete_all_endpoints respond (es ++ e ∷ []) err ws ≡ (
        errs.ignore_not_found (respond (deletions es ws) (delete_endpoints e)),
        delete_endpoints e ∷ deletions es ws,
      )
  unfolding delete_all_endpoints
  delete_all_endpoints-append [] e err ws = refl
  delete_all_endpoints-append (d ∷ rest) e err ws = delete_all_endpoints-append rest e _ _

-- Where the cluster has Patroni endpoints, the end of a reconcile asks to be called again, whatever
-- error the jobs before left: it deletes every endpoint, and returns the error of the last deletion
-- alone, none if that endpoint was gone.
pub clear_endpoints_last :
    {E C : Type 0} ⦃errs : ApiErrors E⦄ ⦃sc : StatusConditions C⦄ (env : Env E C) (u : PgUpgrade)
    (es : List Endpoints) (e : Endpoints) (cs : C) (err : Option E) (ws : List Write)
    → clear_endpoints env u (es ++ e ∷ []) cs err ws ≡ record {
      requeue = true;
      err = errs.ignore_not_found (env.respond (deletions es ws) (delete_endpoints e));
      panicked = false;
      conditions = cs;
      writes = delete_endpoints e ∷ deletions es ws;
    }
unfolding clear_endpoints delete_all_endpoints
clear_endpoints_last env u [] e cs err ws = refl
clear_endpoints_last env u (d ∷ rest) e cs err ws =
    ap
      (λ (t : Option _ × List Write). record {
        requeue = true;
        err = t.0;
        panicked = false;
        conditions = cs;
        writes = t.1;
      })
      (delete_all_endpoints-append env.respond (d ∷ rest) e err ws)
