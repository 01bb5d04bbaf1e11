-- ===== src/Driver/Jobs/Join.antt =====
-- linber_register_service_worker of driver/linber_main.c.
use linber.Prelude.{ℕ, ◌≡◌, ◌∙◌, ap, true, false, some, List, ltb, get_elem?, not, arith}
use linber.Prelude.Int.{pos}
use linber.Words.{inc32}
use linber.Types.{ServiceNode, WorkerStruct}
use linber.Services.{get_service_node}
use linber.Driver.Kernel.{Kernel, ok, Env, update, to_worker_id, sched_fifo}
use linber.Driver.Params.{RegisterWorker}
use linber.Driver.Client.Enqueue.{put_user-ok}
use linber.Driver.Dispatch.{dispatch_as_best_effort}
use linber.Driver.Dispatch.Choice.{scheduled}
use linber.Driver.Jobs.{linber_register_service_worker, claim_slot, own_slot_of}
use linber.Driver.Jobs.Rights.{has_rights}
use linber.Driver.Steps.{
  bind, found-ok, load_service-ok, put_service, put_here, put_twice, locked, unlocked,
  lock_service-ok, unlock_service-ok, service_check_worker-ok, then_branch, else_branch,
}
use linber.Driver.Workers.{put_slot}

-- The service with the next slot given to the current process.
abbrev pub with_worker : Env → ServiceNode → WorkerStruct → ServiceNode
with_worker env s w =
    let s' = record s {
      service_mutex = false;
      workers = record (s.workers) {
        count_registered = inc32 s.workers.count_registered;
        next_id = inc32 s.workers.next_id;
      };
    } in
    put_slot s' s.workers.next_id (record w { task = some env.current })

own_slot_of-ok :
    (k : Kernel) (p id pid : ℕ) {s : ServiceNode} {w : WorkerStruct}
    → k.services p ≡ some s
    → get_elem? s.workers.worker_slots id ≡ some w
    → own_slot_of p id pid k
      ≡ ok tt (put_service k p (put_slot s id (record w { task = some pid })))
own_slot_of-ok k p id pid here slot = ground arith

claim_slot-ok :
    (env : Env) (k : Kernel) (p : ℕ) {s : ServiceNode} {w : WorkerStruct}
    → k.services p ≡ some s
    → s.service_mutex ≡ false
    → get_elem? s.workers.worker_slots s.workers.next_id ≡ some w
    → claim_slot env p k ≡ ok s.workers.next_id (put_service k p (with_worker env s w))
unfolding claim_slot
claim_slot-ok env k p {s} {w} here free slot =
    let s1 = locked s in
    let k1 = put_service k p s1 in
    let s2 = record s1 {
      workers = record (s.workers) {
        count_registered = inc32 s.workers.count_registered;
        next_id = inc32 s.workers.next_id;
      };
    } in
    let k2 = put_service k1 p s2 in
    let s3 = unlocked s2 in
    let k3 = put_service k2 p s3 in
    bind _ (lock_service-ok k p here free)
    ∙ bind _ (load_service-ok k1 p (put_here k p s1))
    ∙ bind _ (unlock_service-ok k2 p (put_here k1 p s2))
    ∙ bind _ (own_slot_of-ok k3 p s.workers.next_id env.current (put_here k2 p s3) slot)
    ∙ ap (ok s.workers.next_id) (
        put_twice k2 p s3 (with_worker env s w)
        ∙ put_twice k1 p s2 (with_worker env s w)
        ∙ put_twice k p s1 (with_worker env s w))

-- What the registration of a worker leaves.
abbrev pub joined :
    Env → Kernel → RegisterWorker → (ser_node : ℕ) → ServiceNode → WorkerStruct → Kernel
joined env k q ser_node s w =
    scheduled env (sched_fifo 99) (record (put_service k ser_node (with_worker env s w)) {
      user_word = update k.user_word q.ptr_worker_id s.workers.next_id;
    })

dispatch_as_best_effort-ok :
    (env : Env) (k : Kernel)
    → env.setattr (sched_fifo 99) ≡ true
    → dispatch_as_best_effort env k ≡ ok tt (scheduled env (sched_fifo 99) k)
unfolding dispatch_as_best_effort
dispatch_as_best_effort-ok env k allowed = ground arith

module _ (env : Env) (uri : List ℕ) (k : Kernel) (ser_node : ℕ) (q : RegisterWorker)
    (s : ServiceNode) (linber_free : k.linber.mutex ≡ false)
    (known : get_service_node k.linber.services_rbtree uri ≡ some ser_node)
    (here : k.services ser_node ≡ some s) (right : has_rights s q.service_token 0 ≡ true) where
  -- A process with the token of a service that has a free slot registers as its worker: it gets the
  -- next worker id, which is the number of the slot that it then owns, both counters of the service
  -- go up by one, and it runs as FIFO of priority 99. Mutexes are free, the copy succeeds and the
  -- policy is granted.
  pub register_worker-joined :
      (w : WorkerStruct)
      → s.service_mutex ≡ false
      → ltb s.workers.next_id s.workers.max_workers ≡ true
      → get_elem? s.workers.worker_slots s.workers.next_id ≡ some w
      → env.copy to_worker_id ≡ true
      → env.setattr (sched_fifo 99) ≡ true
      → linber_register_service_worker env uri q k ≡ ok (pos 0) (joined env k q ser_node s w)
  unfolding linber_register_service_worker
  register_worker-joined w free room slot fine allowed =
      let k1 = put_service k ser_node (with_worker env s w) in
      bind _ (found-ok uri k linber_free known)
      ∙ bind _ (service_check_worker-ok k ser_node here q.service_token 0)
      ∙ else_branch _ _ k (ap not right)
      ∙ bind _ (load_service-ok k ser_node here)
      ∙ bind _ (
          then_branch _ _ k room
          ∙ bind _ (claim_slot-ok env k ser_node here free slot)
          ∙ bind _ (put_user-ok k1 q.ptr_worker_id s.workers.next_id fine)
          ∙ dispatch_as_best_effort-ok env _ allowed)

  -- Once all worker ids of a service are given, the registration of one more worker with the token
  -- of the service returns 0, as if it had succeeded, and changes nothing: no id is written.
  pub register_worker_full :
      ltb s.workers.next_id s.workers.max_workers ≡ false
      → linber_register_service_worker env uri q k ≡ ok (pos 0) k
  unfolding linber_register_service_worker
  register_worker_full full =
      bind _ (found-ok uri k linber_free known)
      ∙ bind _ (service_check_worker-ok k ser_node here q.service_token 0)
      ∙ else_branch _ _ k (ap not right)
      ∙ bind _ (load_service-ok k ser_node here)
      ∙ bind _ (else_branch _ _ k full)
