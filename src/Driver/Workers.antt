-- ===== src/Driver/Workers.antt =====
-- The workers of a service, in driver/linber_main.c: their slots, and how a request passes through
-- them.
use linber.Prelude.{
  ℕ, Bool, true, false, Option, none, some, [], ◌∷◌, ◌++◌, ◌&&◌, ◌^◌, ◌==◌, ltb, if◌then◌else◌,
  get_elem?, set,
}
use linber.Words.{dec32}
use linber.Types.{WorkerStruct, ServiceNode}
use linber.Driver.Kernel.{
  M, Env, ◌>>=◌, ◌>>◌, pure, skip, fault, load_service, store_service, lock_service, unlock_service,
  up_request, down_interruptible, sem_for_request,
}
use linber.Driver.Lifecycle.{clean_service}
use linber.Driver.Pending.{get_request}

abbrev pub put_slot : ServiceNode → ℕ → WorkerStruct → ServiceNode
put_slot s worker_id w = record s {
  workers = record (s.workers) { worker_slots = set s.workers.worker_slots worker_id w };
}

-- `worker->request = req`
abbrev pub serve_in_slot : ℕ → ℕ → Option ℕ → M (Unit {0})
serve_in_slot ser_node worker_id req = do
  s ← load_service ser_node
  elim (get_elem? s.workers.worker_slots worker_id) [
    | none ↦ fault
    | some w ↦ store_service ser_node (put_slot s worker_id (record w { request = req }))
  ]

unfoldable pub decrease_workers : ℕ → M (Unit {0})
decrease_workers ser_node = do
  lock_service ser_node
  s ← load_service ser_node
  store_service ser_node (record s {
    workers = record (s.workers) { count_registered = dec32 s.workers.count_registered };
  })
  unlock_service ser_node

-- A slot whose worker never registered has no task, and its pid is read through NULL.
abbrev pub own_slot : Env → WorkerStruct → M (Option WorkerStruct)
own_slot env w = elim (w.task) [
  | none ↦ fault
  | some pid ↦ pure (if pid == env.current then some w else none)
]

unfoldable pub get_worker_by_id : Env → ℕ → ℕ → M (Option WorkerStruct)
get_worker_by_id env ser_node worker_id = do
  s ← load_service ser_node
  if ltb worker_id s.workers.max_workers
      then elim (get_elem? s.workers.worker_slots worker_id) [
        | none ↦ fault
        | some w ↦ own_slot env w
      ]
      else pure none

-- `int worker_id` is a word, which is not negative below 2 ^ 31.
unfoldable pub service_check_worker : ℕ → (service_token worker_id : ℕ) → M Bool
service_check_worker ser_node service_token worker_id = do
  s ← load_service ser_node
  pure (ltb worker_id (2 ^ 31) && ltb worker_id s.workers.max_workers && s.token == service_token)

unfoldable pub service_check_alive : Env → ℕ → M Bool
service_check_alive env ser_node = do
  lock_service ser_node
  s ← load_service ser_node
  if s.destroy_me
      then (do
        let count = dec32 s.workers.count_registered
        store_service ser_node
            (record s { workers = record (s.workers) { count_registered = count } })
        if count == 0 then clean_service env ser_node else unlock_service ser_node
        pure false)
      else (do unlock_service ser_node; pure true)

-- A worker that starts a job before it ended the last one gives that one up.
unfoldable pub drop_job : ℕ → ℕ → WorkerStruct → M (Unit {0})
drop_job ser_node worker_id w = elim (w.request) [
  | none ↦ skip
  | some req ↦ do up_request req; serve_in_slot ser_node worker_id none
]

-- The worker is awake and the service is alive.
unfoldable pub take_request : Env → ℕ → ℕ → M (Option ℕ)
take_request env ser_node worker_id = do
  lock_service ser_node
  req ← get_request env ser_node
  elim req [ none ↦ skip | some p ↦ serve_in_slot ser_node worker_id (some p) ]
  unlock_service ser_node
  pure req

unfoldable pub worker_wait_for_request : Env → ℕ → ℕ → M (Option ℕ)
worker_wait_for_request env ser_node worker_id = do
  worker ← get_worker_by_id env ser_node worker_id
  elim worker [
    | none ↦ pure none
    | some w ↦ do
      drop_job ser_node worker_id w
      down_interruptible (sem_for_request ser_node)
      alive ← service_check_alive env ser_node
      if alive then take_request env ser_node worker_id else pure none
  ]

unfoldable pub worker_get_request : Env → ℕ → ℕ → M (Option ℕ)
worker_get_request env ser_node worker_id = do
  worker ← get_worker_by_id env ser_node worker_id
  pure (elim worker [ none ↦ none | some w ↦ w.request ])

-- list_add_tail to the completed requests.
abbrev pub add_completed : ℕ → ℕ → M (Unit {0})
add_completed ser_node req = do
  s ← load_service ser_node
  store_service ser_node (record s { completed_requests = s.completed_requests ++ (req ∷ []) })

-- The final `up` goes through req_node, which is NULL if there was no request.
unfoldable pub move_from_worker_to_completed : Env → ℕ → ℕ → M (Unit {0})
move_from_worker_to_completed env ser_node worker_id = do
  lock_service ser_node
  worker ← get_worker_by_id env ser_node worker_id
  let req = (let r : Option ℕ = elim worker [ none ↦ none | some w ↦ w.request ] in r)
  elim worker [
    | none ↦ skip
    | some w ↦ do
      serve_in_slot ser_node worker_id none
      elim req [ none ↦ skip | some p ↦ add_completed ser_node p ]
  ]
  unlock_service ser_node
  elim req [ none ↦ fault | some p ↦ up_request p ]
