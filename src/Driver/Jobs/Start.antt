-- ===== src/Driver/Jobs/Start.antt =====
-- linber_Start_Job: a worker waits on the semaphore, and gets a request in memory.
use linber.Prelude.{
  ℕ, ◌≡◌, ◌∙◌, ap, refl, true, false, Option, some, none, ltb, get_elem?, if◌then◌else◌, arith,
}
use linber.Prelude.Int.{pos}
use linber.Words.{dec32}
use linber.Tree.{Tree}
use linber.Types.{ServiceNode, RequestNode, RequestEntry, WorkerStruct}
use linber.Requests.{remove_first_request}
use linber.Driver.Kernel.{
  Kernel, ok, down_interruptible, sem_for_request, Env, update, to_request_len, to_request_shm_mode,
  ◌>>=◌, ◌>>◌, pure, M, store_service,
}
use linber.Driver.Params.{StartJob}
use linber.Driver.Jobs.{describe_request}
use linber.Driver.Jobs.Finish.{serving, get_worker_by_id-ok, serve_in_slot-ok}
use linber.Driver.Pending.{get_request}
use linber.Driver.Steps.{
  bind, load_service-ok, locked, unlocked, put_here, put_twice, put_service, lock_service-ok,
  unlock_service-ok, else_branch,
}
use linber.Driver.Workers.{
  worker_wait_for_request, service_check_alive, take_request, put_slot, drop_job,
}

-- The slot of a worker of the current process that serves no request.
abbrev pub idle : Env → WorkerStruct
idle env = record { task = some env.current; request = none }

-- What a worker does once it is awake.
abbrev pub awake : Env → ℕ → ℕ → M (Option ℕ)
awake env ser_node worker_id = service_check_alive env ser_node >>= λ alive.
    (if alive then take_request env ser_node worker_id else pure none)

pub worker_wait_for_request-down :
    (env : Env) (k : Kernel) (ser_node worker_id : ℕ) {s : ServiceNode}
    → k.services ser_node ≡ some s
    → ltb worker_id s.workers.max_workers ≡ true
    → get_elem? s.workers.worker_slots worker_id ≡ some (idle env)
    → worker_wait_for_request env ser_node worker_id k
      ≡ (down_interruptible (sem_for_request ser_node) >> awake env ser_node worker_id) k
unfolding worker_wait_for_request drop_job
worker_wait_for_request-down env k ser_node worker_id here in_range slot =
    bind _ (get_worker_by_id-ok env k ser_node worker_id here slot in_range refl)

service_check_alive-ok :
    (env : Env) (k : Kernel) (p : ℕ) {s : ServiceNode}
    → k.services p ≡ some s
    → s.service_mutex ≡ false
    → s.destroy_me ≡ false
    → service_check_alive env p k ≡ ok true (put_service k p (unlocked s))
unfolding service_check_alive
service_check_alive-ok env k p {s} here free alive =
    let k1 = put_service k p (locked s) in
    bind _ (lock_service-ok k p here free)
    ∙ bind _ (load_service-ok k1 p (put_here k p (locked s)))
    ∙ else_branch _ _ k1 alive
    ∙ bind _ (unlock_service-ok k1 p (put_here k p (locked s)))
    ∙ ap (ok true) (put_twice k p (locked s) (unlocked s))

get_request-first :
    (env : Env) (k : Kernel) (p r : ℕ) (tree : Tree RequestEntry) {s : ServiceNode}
    → k.services p ≡ some s
    → remove_first_request env.request_tree s.requests_rbtree ≡ (some r, tree)
    → get_request env p k
      ≡ ok (some r) (
          put_service k p
            (record s { requests_rbtree = tree; request_count = dec32 s.request_count }))
unfolding get_request
get_request-first env k p r tree {s} here first =
    bind _ (load_service-ok k p here)
    ∙ ap
        (λ (x : Option ℕ × Tree RequestEntry).
          (elim (x.0) [
            | none ↦ store_service p (record s { requests_rbtree = x.1 })
            | some _ ↦
                store_service p
                  (record s { requests_rbtree = x.1; request_count = dec32 s.request_count })
          ]
              >> pure x.0)
            k)
        first

-- The service after a worker has taken the request `r`, which leaves `tree`.
abbrev pub with_taken : Env → ServiceNode → (worker_id r : ℕ) → Tree RequestEntry → ServiceNode
with_taken env s worker_id r tree = record (put_slot s worker_id (serving env r)) {
  service_mutex = false;
  requests_rbtree = tree;
  request_count = dec32 s.request_count;
}

take_request-first :
    (env : Env) (k : Kernel) (p worker_id r : ℕ) (tree : Tree RequestEntry) {s : ServiceNode}
    → k.services p ≡ some s
    → s.service_mutex ≡ false
    → get_elem? s.workers.worker_slots worker_id ≡ some (idle env)
    → remove_first_request env.request_tree s.requests_rbtree ≡ (some r, tree)
    → take_request env p worker_id k
      ≡ ok (some r) (put_service k p (with_taken env s worker_id r tree))
unfolding take_request
take_request-first env k p worker_id r tree {s} here free slot first =
    let k1 = put_service k p (locked s) in
    let s2 = record (locked s) { requests_rbtree = tree; request_count = dec32 s.request_count } in
    let k2 = put_service k1 p s2 in
    let s3 = put_slot s2 worker_id (serving env r) in
    let k3 = put_service k2 p s3 in
    bind _ (lock_service-ok k p here free)
    ∙ bind _ (get_request-first env k1 p r tree (put_here k p (locked s)) first)
    ∙ bind _ (serve_in_slot-ok env k2 p worker_id (put_here k1 p s2) slot (some r))
    ∙ bind _ (unlock_service-ok k3 p (put_here k2 p s3))
    ∙ ap (ok (some r)) (
        put_twice k2 p s3 (unlocked s3)
        ∙ put_twice k1 p s2 (unlocked s3)
        ∙ put_twice k p (locked s) (unlocked s3))

pub awake-takes :
    (env : Env) (k : Kernel) (p worker_id r : ℕ) (tree : Tree RequestEntry) {s : ServiceNode}
    → k.services p ≡ some s
    → s.service_mutex ≡ false
    → s.destroy_me ≡ false
    → get_elem? s.workers.worker_slots worker_id ≡ some (idle env)
    → remove_first_request env.request_tree s.requests_rbtree ≡ (some r, tree)
    → awake env p worker_id k ≡ ok (some r) (put_service k p (with_taken env s worker_id r tree))
awake-takes env k p worker_id r tree {s} here free alive slot first =
    let k1 = put_service k p (unlocked s) in
    bind _ (service_check_alive-ok env k p here free alive)
    ∙ take_request-first env k1 p worker_id r tree (put_here k p (unlocked s)) refl slot first
    ∙ ap (ok (some r)) (put_twice k p (unlocked s) (with_taken env s worker_id r tree))

-- The worker is told the request's length, and that it is in memory.
abbrev pub described : Kernel → StartJob → RequestNode → Kernel
described k q n = record k {
  user_word = update (update k.user_word q.ptr_request_len n.request_len) q.ptr_request_shm_mode 0;
}

pub describe_request-ok :
    (env : Env) (q : StartJob) (r : ℕ) (k : Kernel) {n : RequestNode}
    → k.requests r ≡ some n
    → n.request_shm_mode ≡ false
    → env.copy to_request_len ≡ true
    → env.copy to_request_shm_mode ≡ true
    → describe_request env q r k ≡ ok (pos 0) (described k q n)
unfolding describe_request
describe_request-ok env q r k there mode fine1 fine2 = ground arith
