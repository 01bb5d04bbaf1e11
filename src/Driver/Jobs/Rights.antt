-- ===== src/Driver/Jobs/Rights.antt =====
-- A worker's operation with a wrong token or worker id.
use linber.Prelude.{◌^◌, ℕ, ◌≡◌, ◌∙◌, ap, Bool, true, false, some, List, ◌==◌, ltb, ◌&&◌}
use linber.Prelude.Int.{ℤ}
use linber.Words.{dec32}
use linber.Types.{ServiceNode}
use linber.Services.{get_service_node}
use linber.Driver.Kernel.{Kernel, ok, Env, M}
use linber.Driver.Params.{StartJob, EndJob, kill_worker}
use linber.Driver.Jobs.{linber_start_job, linber_start_job_get_request, linber_end_job, with_rights}
use linber.Driver.Steps.{
  bind, load_service-ok, found-ok, locked, put_here, put_twice, put_service, lock_service-ok,
  unlock_service-ok, service_check_worker-ok,
}
use linber.Driver.Workers.{decrease_workers}

abbrev pub one_worker_less : ServiceNode → ServiceNode
one_worker_less s = record s {
  service_mutex = false;
  workers = record (s.workers) { count_registered = dec32 s.workers.count_registered };
}

pub decrease_workers-ok :
    (k : Kernel) (p : ℕ) (s : ServiceNode)
    → k.services p ≡ some s
    → s.service_mutex ≡ false
    → decrease_workers p k ≡ ok tt (put_service k p (one_worker_less s))
unfolding decrease_workers
decrease_workers-ok k p s here free =
    let k' = put_service k p (locked s) in
    let less = record (one_worker_less s) { service_mutex = true } in
    bind _ (lock_service-ok k p here free)
    ∙ bind _ (load_service-ok k' p (put_here k p (locked s)))
    ∙ unlock_service-ok (put_service k' p less) p (put_here k' p less)
    ∙ ap (ok tt)
        (put_twice k' p less (one_worker_less s) ∙ put_twice k p (locked s) (one_worker_less s))

-- The check of a worker's rights.
abbrev pub has_rights : ServiceNode → (service_token worker_id : ℕ) → Bool
has_rights s service_token worker_id =
    ltb worker_id (2 ^ 31) && ltb worker_id s.workers.max_workers && s.token == service_token

module _ (env : Env) (uri : List ℕ) (k : Kernel) (ser_node : ℕ) (s : ServiceNode)
    (free : k.linber.mutex ≡ false)
    (known : get_service_node k.linber.services_rbtree uri ≡ some ser_node)
    (here : k.services ser_node ≡ some s) (unlocked' : s.service_mutex ≡ false) where
  no_rights :
      (service_token worker_id : ℕ) (job : M ℤ)
      → has_rights s service_token worker_id ≡ false
      → with_rights ser_node service_token worker_id job k
        ≡ ok kill_worker (put_service k ser_node (one_worker_less s))
  no_rights service_token worker_id job wrong =
      bind _ (service_check_worker-ok k ser_node here service_token worker_id)
      ∙ rw wrong (bind _ (decrease_workers-ok k ser_node s here unlocked'))

  -- With all mutexes free, each of the three operations of a worker on a known service, called by
  -- any process with a wrong service token or a worker id out of range, returns LINBER_KILL_WORKER
  -- and counts one registered worker out, with wrap-around; nothing else changes.
  pub no_rights-one_worker_less :
      (p : StartJob) (q : EndJob)
      → has_rights s p.service_token p.worker_id ≡ false
      → has_rights s q.service_token q.worker_id ≡ false
      → let out = ok kill_worker (put_service k ser_node (one_worker_less s)) in
        (linber_start_job env uri p k ≡ out)
        × (linber_start_job_get_request env uri p k ≡ out)
        × (linber_end_job env uri q k ≡ out)
  unfolding linber_start_job linber_start_job_get_request linber_end_job
  no_rights-one_worker_less p q wrong wrong' = (
    bind _ (found-ok uri k free known) ∙ no_rights p.service_token p.worker_id _ wrong,
    bind _ (found-ok uri k free known) ∙ no_rights p.service_token p.worker_id _ wrong,
    bind _ (found-ok uri k free known) ∙ no_rights q.service_token q.worker_id _ wrong',
  )
