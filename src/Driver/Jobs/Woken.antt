-- ===== src/Driver/Jobs/Woken.antt =====
-- linber_Start_Job as a whole, for a worker that waits for a request, and gets one in memory.
use linber.Prelude.{
  ℕ, ◌-◌, ◌^◌, ◌<◌, ◌≡◌, ◌⊎◌, ◌∙◌, ap, true, false, some, List, ltb, get_elem?, arith,
}
use linber.Prelude.Int.{ℤ, pos}
use linber.Words.{u64_mod}
use linber.Tree.{inorder}
use linber.Types.{ServiceNode, RequestNode}
use linber.Requests.{remove_first_request}
use linber.Requests.Order.{Ascending}
use linber.Requests.Queue.{pending, first_of_queue, rest_of_queue}
use linber.Requests.Remove.{remove_first-Removed}
use linber.Services.{get_service_node}
use linber.Driver.Kernel.{
  Kernel, Run, ok, down_interruptible, sem_for_request, Env, Policy, to_request_len,
  to_request_shm_mode, and_then,
}
use linber.Driver.Params.{StartJob}
use linber.Driver.Dispatch.Choice.{Near, policy_for, scheduled, dispatch-policy_for}
use linber.Driver.Jobs.{linber_start_job, start_request}
use linber.Driver.Jobs.Rights.{has_rights}
use linber.Driver.Jobs.Start.{
  idle, awake, awake-takes, worker_wait_for_request-down, with_taken, described,
  describe_request-ok,
}
use linber.Driver.Steps.{
  bind, and_then_assoc, load_service-ok, load_request-ok, found-ok, put_here, put_service,
  service_check_worker-ok,
}

-- A worker of the current process that asks for a job.
pub record Asking (env : Env) (uri : List ℕ) (k : Kernel) (ser_node : ℕ) (q : StartJob)
    (s : ServiceNode) : Type 0 where
  pub linber_free : k.linber.mutex ≡ false
  pub known : get_service_node k.linber.services_rbtree uri ≡ some ser_node
  pub here : k.services ser_node ≡ some s
  pub is_id : ltb q.worker_id (2 ^ 31) ≡ true
  pub in_range : ltb q.worker_id s.workers.max_workers ≡ true
  pub token : s.token ≡ q.service_token
  pub slot : get_elem? s.workers.worker_slots q.worker_id ≡ some (idle env)

-- It goes on behind the semaphore, and `r` is the first of the pending requests.
pub record Waking (env : Env) (k : Kernel) (ser_node worker_id base : ℕ) (s : ServiceNode) (r : ℕ)
    (n : RequestNode) : Type 0 where
  pub here : k.services ser_node ≡ some s
  pub free : s.service_mutex ≡ false
  pub alive : s.destroy_me ≡ false
  pub slot : get_elem? s.workers.worker_slots worker_id ≡ some (idle env)
  pub sorted : Ascending base (inorder s.requests_rbtree)
  pub first : first_of_queue (pending (inorder s.requests_rbtree)) ≡ some r
  pub there : k.requests r ≡ some n
  pub in_memory : n.request_shm_mode ≡ false

-- The time of the call and the deadline that dispatch gets right.
pub record Timely (env : Env) (n : RequestNode) : Type 0 where
  pub now_word : env.now < u64_mod
  pub deadline_word : n.abs_deadline_ns < u64_mod
  pub near : (n.abs_deadline_ns ≡ 2 ^ 64 - 1) ⊎ Near env.now n.abs_deadline_ns

-- What the handler leaves.
abbrev pub started :
    Env → Kernel → StartJob → (ser_node : ℕ) → ServiceNode → (r : ℕ) → RequestNode → Kernel
started env k q ser_node s r n =
    let tree = (remove_first_request env.request_tree s.requests_rbtree).1 in
    described
      (scheduled env (policy_for env.now n.abs_deadline_ns s.budget s.period)
        (put_service k ser_node (with_taken env s q.worker_id r tree)))
      q n

-- A registered worker that serves nothing and asks for a job waits on the semaphore of its service,
-- which it lowers at once if it is up, and sleeps on if it is down. Going on in a state where the
-- service is alive, its mutex free, its pending requests sorted and the first of them in memory,
-- the call returns 0: that request has left the tree for the slot of the worker, the others stay in
-- their order, the worker knows the length of the request and runs under the policy of the
-- deadline. The request is best effort, or its deadline is less than 2 ^ 31 ns ahead or at most 2 ^
-- 31 ns past; any policy is granted, the copies succeed.
pub start_job-first :
    (env : Env) (uri : List ℕ) (k k' : Kernel) (ser_node : ℕ) (q : StartJob) (s s' : ServiceNode)
    (base r : ℕ) (n : RequestNode)
    → Asking env uri k ser_node q s
    → Waking env k' ser_node q.worker_id base s' r n
    → Timely env n
    → ((p : Policy) → env.setattr p ≡ true)
    → env.copy to_request_len ≡ true
    → env.copy to_request_shm_mode ≡ true
    → let tree = (remove_first_request env.request_tree s'.requests_rbtree).1 in
      ((go : Kernel → Run ℤ) × (linber_start_job env uri q k
          ≡ and_then (down_interruptible (sem_for_request ser_node) k) (λ _. go))
        × (go k' ≡ ok (pos 0) (started env k' q ser_node s' r n)))
      × (pending (inorder tree) ≡ rest_of_queue (pending (inorder s'.requests_rbtree)))
unfolding linber_start_job
start_job-first env uri k k' ser_node q s s' base r n h w t allowed fine1 fine2 =
    let right : has_rights s q.service_token q.worker_id ≡ true =
      rw (h.is_id, h.in_range, h.token) (ground arith) in
    let removed = remove_first-Removed env.request_tree base s'.requests_rbtree w.sorted in
    let tree = (remove_first_request env.request_tree s'.requests_rbtree).1 in
    let s1 = with_taken env s' q.worker_id r tree in
    let k1 = put_service k' ser_node s1 in
    let k2 = scheduled env (policy_for env.now n.abs_deadline_ns s'.budget s'.period) k1 in
    (
      (
        (λ k2. and_then (awake env ser_node q.worker_id k2) (start_request env ser_node q)),
        bind _ (found-ok uri k h.linber_free h.known)
            ∙ bind _ (service_check_worker-ok k ser_node h.here q.service_token q.worker_id)
            ∙ rw right (
                ap (λ x. and_then x (start_request env ser_node q))
                  (worker_wait_for_request-down env k ser_node q.worker_id h.here h.in_range
                    h.slot))
            ∙ and_then_assoc (down_interruptible (sem_for_request ser_node) k)
                (λ _. awake env ser_node q.worker_id) (start_request env ser_node q),
        bind _ (
              awake-takes env k' ser_node q.worker_id r tree w.here w.free w.alive w.slot
                (ap (λ x. (x, tree)) (removed.taken ∙ w.first)))
            ∙ bind _ (load_request-ok k1 r w.there)
            ∙ bind _ (load_service-ok k1 ser_node (put_here k' ser_node s1))
            ∙ bind _ (dispatch-policy_for env s1 n k1 t.now_word t.deadline_word t.near allowed)
            ∙ describe_request-ok env q r k2 w.there w.in_memory fine1 fine2,
      ),
      removed.left,
    )
