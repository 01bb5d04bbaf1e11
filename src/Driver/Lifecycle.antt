-- ===== src/Driver/Lifecycle.antt =====
-- The services in driver/linber_main.c: how one is created, found and destroyed.
pub mod Abort
pub mod Clean
pub mod Create
pub mod Destroy
pub mod Drain
use linber.Prelude.{
  ℕ, zero, suc, ◌%◌, Bool, true, false, Option, none, some, List, [], ◌∷◌, ◌++◌, ◌==◌,
  if◌then◌else◌, length, replicate,
}
use linber.Words.{inc32, dec32, add32, sub32, u32_mod}
use linber.Tree.{leaf, inorder}
use linber.Types.{WorkerStruct, ServiceNode}
use linber.Requests.{remove_first_request}
use linber.Requests.Queue.{pending}
use linber.Services.{get_service_node, insert_service_node, remove_service}
use linber.Driver.Kernel
use linber.Driver.Kernel.{
  M, Env, of_service, of_slots, of_service_node, ◌>>=◌, ◌>>◌, pure, skip, fault, kmalloc,
  load_service, store_service, free_service, get_linber, put_linber, lock_service, unlock_service,
  lock_linber, unlock_linber, up_service,
}
use linber.Driver.Params.{Registration}
use linber.Driver.Pending.{destroy_request, without}

abbrev pub is_in : ℕ → List ℕ → Bool
is_in p [] = false
is_in p (q ∷ rest) = if q == p then true else is_in p rest

-- list_del of a service. One that is in no list has no neighbours to unlink: its pointers are what
-- kmalloc left there.
abbrev pub unlink_service : ℕ → M (Unit {0})
unlink_service ser_node = do
  l ← get_linber
  if is_in ser_node l.services
      then put_linber (record l { services = without ser_node l.services })
      else fault

-- The last part of a service's destruction, with its mutex held.
unfoldable pub clean_service : Env → ℕ → M (Unit {0})
clean_service env ser_node = do
  l ← get_linber
  put_linber (record l { services_count = dec32 l.services_count })
  unlink_service ser_node
  s ← load_service ser_node
  l' ← get_linber
  put_linber (record l' {
    services_rbtree = (remove_service env.service_tree l'.services_rbtree s.uri).1;
    max_working = sub32 l'.max_working s.workers.max_workers;
  })
  unlock_service ser_node
  free_service ser_node

-- The loop of destroy_service over the pending requests, with fuel.
unfoldable pub abort_pending : ℕ → Env → ℕ → M (Unit {0})
abort_pending zero env ser_node = λ k. Kernel.hang
abort_pending (suc fuel) env ser_node = do
  s ← load_service ser_node
  let (req, rest) = remove_first_request env.request_tree s.requests_rbtree
  store_service ser_node (record s { requests_rbtree = rest })
  elim req [ none ↦ skip | some p ↦ do destroy_request p; abort_pending fuel env ser_node ]

-- The loop of destroy_service over the completed requests; each leaves the list first.
unfoldable pub abort_completed : List ℕ → ℕ → M (Unit {0})
abort_completed [] ser_node = skip
abort_completed (p ∷ rest) ser_node = do
  s ← load_service ser_node
  store_service ser_node (record s { completed_requests = without p s.completed_requests })
  destroy_request p
  abort_completed rest ser_node

-- One `up` for each registered worker.
unfoldable pub wake_workers : ℕ → ℕ → M (Unit {0})
wake_workers zero ser_node = skip
wake_workers (suc n) ser_node = do up_service ser_node; wake_workers n ser_node

unfoldable pub destroy_service : Env → ℕ → M (Unit {0})
destroy_service env ser_node = do
  lock_service ser_node
  s ← load_service ser_node
  abort_pending (suc (length (pending (inorder s.requests_rbtree)))) env ser_node
  l ← get_linber
  put_linber (record l { request_count = sub32 l.request_count 0 })
  abort_completed s.completed_requests ser_node
  wake_workers s.workers.count_registered ser_node
  s' ← load_service ser_node
  store_service ser_node (record s' { destroy_me = true })
  if s'.workers.count_registered == 0 then clean_service env ser_node else unlock_service ser_node

-- The service that create_service writes, before its slots are given.
abbrev pub new_service : Env → List ℕ → Registration → ServiceNode
new_service env uri reg = record {
  service_mutex = false;
  requests_rbtree = leaf;
  completed_requests = [];
  uri = uri;
  next_req_token = 0;
  token = env.random_token;
  period = reg.service_period_ns;
  budget = reg.service_budget_ns;
  exec_time_ns = reg.exec_time_ns % u32_mod;
  request_count = 0;
  destroy_me = false;
  workers = record {
    worker_slots = [];
    max_workers = reg.max_working;
    count_registered = 0;
    next_id = 0;
    sem_for_request = 0;
  };
}

abbrev pub empty_slot : WorkerStruct
empty_slot = record { task = none; request = none }

abbrev pub with_slots : ServiceNode → ServiceNode
with_slots s = record s {
  workers = record (s.workers) { worker_slots = replicate s.workers.max_workers empty_slot };
}

-- What create_service does once it holds the memory: `linber.mutex` is held for it.
unfoldable pub link_service : Env → ℕ → List ℕ → M (Option ℕ)
link_service env ser_node uri = do
  lock_linber
  l ← get_linber
  let (done, tree) =
      insert_service_node env.service_tree (env.kmalloc of_service_node) l.services_rbtree ser_node
        uri
  put_linber (record l { services_rbtree = tree })
  if done
      then (do
        s ← load_service ser_node
        l' ← get_linber
        put_linber (record l' {
          services = l'.services ++ (ser_node ∷ []);
          services_count = inc32 l'.services_count;
          max_working = add32 l'.max_working s.workers.max_workers;
        })
        unlock_linber
        pure (some ser_node))
      else (do unlock_linber; destroy_service env ser_node; pure none)

unfoldable pub create_service : Env → List ℕ → Registration → M (Option ℕ)
create_service env uri reg = do
  p ← kmalloc (env.kmalloc of_service)
  elim p [
    | none ↦ pure none
    | some ser_node ↦ do
      store_service ser_node (new_service env uri reg)
      slots ← kmalloc (env.kmalloc of_slots)
      elim slots [
        | none ↦ do destroy_service env ser_node; pure none
        | some _ ↦ do
          store_service ser_node (with_slots (new_service env uri reg))
          link_service env ser_node uri
      ]
  ]

unfoldable pub find_service : List ℕ → M (Option ℕ)
find_service uri = do
  lock_linber
  l ← get_linber
  unlock_linber
  pure (get_service_node l.services_rbtree uri)
