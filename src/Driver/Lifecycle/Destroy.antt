-- ===== src/Driver/Lifecycle/Destroy.antt =====
-- linber_destroy_service of driver/linber_main.c for a service that still has workers.
use linber.Prelude.{
  ℕ, ◌+◌, ◌≡◌, ◌∙◌, ap, refl, true, false, Option, some, List, [], ◌∷◌, ◌==◌, All, if◌then◌else◌,
  arith,
}
use linber.Words.{sub32}
use linber.Tree.{leaf, inorder}
use linber.Types.{ServiceNode, RequestNode}
use linber.Requests.Order.{Ascending}
use linber.Requests.Queue.{pending}
use linber.Requests.Schedule.{requests_of}
use linber.Driver.Kernel.{Kernel, ok, Env, M, unlock_service}
use linber.Driver.Lifecycle.{destroy_service, clean_service}
use linber.Driver.Lifecycle.Abort.{
  IsLive, abort_at, abort_all, with_aborted, All-abort_at, abort_completed_lem,
}
use linber.Driver.Lifecycle.Drain.{abort_pending_lem, wake_workers-ok}
use linber.Driver.Steps.{
  bind, load_service-ok, put_here, put_service, update_twice, lock_service-ok, unlock_service-ok,
  locked, else_branch,
}

-- The pending requests of a service, in the order in which they are served.
abbrev pub waiting : ServiceNode → List ℕ
waiting s = requests_of (pending (inorder s.requests_rbtree))

-- What a service keeps when it is destroyed: no request, and each registered worker woken.
abbrev pub condemned : ServiceNode → ServiceNode
condemned s = record s {
  service_mutex = false;
  requests_rbtree = leaf;
  completed_requests = [];
  destroy_me = true;
  workers = record (s.workers) {
    sem_for_request = s.workers.sem_for_request + s.workers.count_registered;
  };
}

-- The pending requests and then the completed ones, aborted.
abbrev pub all_aborted : Kernel → ServiceNode → ℕ → Option RequestNode
all_aborted k s = abort_all s.completed_requests (abort_all (waiting s) k.requests)

-- The counter, which the destruction leaves as it is up to its 32 bits.
abbrev pub recounted : Kernel → Kernel
recounted k = record k {
  linber = record (k.linber) { request_count = sub32 k.linber.request_count 0 };
}

-- A service that can be destroyed: its requests are sorted and at their addresses.
pub record Destroyable (k : Kernel) (ser_node base : ℕ) (s : ServiceNode) : Type 0 where
  pub here : k.services ser_node ≡ some s
  pub free : s.service_mutex ≡ false
  pub sorted : Ascending base (inorder s.requests_rbtree)
  pub live : All (IsLive k.requests) (waiting s)
  pub live_completed : All (IsLive k.requests) s.completed_requests

All-abort_all :
    (ps : List ℕ) (heap : ℕ → Option RequestNode) (qs : List ℕ)
    → All (IsLive heap) ps
    → All (IsLive heap) qs
    → All (IsLive (abort_all ps heap)) qs
All-abort_all [] heap qs l h = h
All-abort_all (p ∷ ps) heap qs l h =
    All-abort_all ps (abort_at p heap) qs (All-abort_at p heap ps l.0 l.1)
      (All-abort_at p heap qs l.0 h)

-- The requests aborted, the workers woken and the service marked, with its mutex held.
abbrev pub marked : Kernel → ℕ → ServiceNode → Kernel
marked k ser_node s = record (put_service (recounted k) ser_node (locked (condemned s))) {
  requests = all_aborted k s;
}

-- The last step of the destruction.
abbrev pub leave : Env → ℕ → ServiceNode → M (Unit {0})
leave env ser_node s =
    if s.workers.count_registered == 0 then clean_service env ser_node else unlock_service ser_node

pub destroy_service-marked :
    (env : Env) (k : Kernel) (ser_node base : ℕ) (s : ServiceNode)
    → Destroyable k ser_node base s
    → destroy_service env ser_node k ≡ leave env ser_node s (marked k ser_node s)
unfolding destroy_service
destroy_service-marked env k ser_node base s h =
    let s1 = locked s in
    let k1 = put_service k ser_node s1 in
    let s2 = record s1 { requests_rbtree = leaf } in
    let k2 = with_aborted k1 ser_node s2 (waiting s) in
    let k3 = recounted k2 in
    let s4 = record s2 { completed_requests = [] } in
    let k4 = with_aborted k3 ser_node s4 s.completed_requests in
    let s5 = record s4 {
      workers = record (s.workers) {
        sem_for_request = s.workers.sem_for_request + s.workers.count_registered;
      };
    } in
    let k5 = put_service k4 ser_node s5 in
    let s6 = record s5 { destroy_me = true } in
    let k6 = put_service k5 ser_node s6 in
    bind _ (lock_service-ok k ser_node h.here h.free)
    ∙ bind _ (load_service-ok k1 ser_node (put_here k ser_node s1))
    ∙ bind _ (
        abort_pending_lem env base ser_node _ _ k1 s1 (omega arith) (put_here k ser_node s1)
          h.sorted refl h.live)
    ∙ bind _ (
        abort_completed_lem s.completed_requests ser_node k3 s2 (put_here k1 ser_node s2) refl
          (All-abort_all (waiting s) k.requests s.completed_requests h.live h.live_completed))
    ∙ bind _ (
        wake_workers-ok env base ser_node s.workers.count_registered k4 s4
          (put_here k3 ser_node s4))
    ∙ bind _ (load_service-ok k5 ser_node (put_here k4 ser_node s5))
    ∙ ap
        (λ (f : ℕ → Option ServiceNode).
          leave env ser_node s (record (recounted k) { services = f; requests = all_aborted k s }))
        (update_twice _ ser_node _ _
          ∙ update_twice _ ser_node _ _
          ∙ update_twice _ ser_node _ _
          ∙ update_twice k.services ser_node _ _)

-- The service without its requests, for the workers to find.
abbrev pub left_to_workers : Kernel → ℕ → ServiceNode → Kernel
left_to_workers k ser_node s = record (put_service (recounted k) ser_node (condemned s)) {
  requests = all_aborted k s;
}

pub destroy_service-condemned :
    (env : Env) (k : Kernel) (ser_node base : ℕ) (s : ServiceNode)
    → Destroyable k ser_node base s
    → (s.workers.count_registered == 0) ≡ false
    → destroy_service env ser_node k ≡ ok tt (left_to_workers k ser_node s)
destroy_service-condemned env k ser_node base s h workers =
    destroy_service-marked env k ser_node base s h
    ∙ else_branch _ _ (marked k ser_node s) workers
    ∙ unlock_service-ok (marked k ser_node s) ser_node
        (put_here (recounted k) ser_node (locked (condemned s)))
    ∙ ap
        (λ (f : ℕ → Option ServiceNode).
          ok tt (record (recounted k) { services = f; requests = all_aborted k s }))
        (update_twice k.services ser_node _ _)
