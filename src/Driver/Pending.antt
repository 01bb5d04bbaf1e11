-- ===== src/Driver/Pending.antt =====
-- The requests of a service, in driver/linber_main.c: how one is made, aborted, searched for, taken
-- by a worker and put into the queue.
use linber.Prelude.{ℕ, suc, Bool, Option, none, some, List, [], ◌∷◌, ◌==◌, if◌then◌else◌}
use linber.Words.{inc32, dec32, inc64}
use linber.Tree.{height}
use linber.Types.{WorkerStruct, RequestNode, buffer, shm_key}
use linber.Requests.{
  found, missing, running, oops, rbtree_get_request, insert_req_node_sorted_by_deadline,
  remove_first_request,
}
use linber.Driver.Kernel
use linber.Driver.Kernel.{
  M, Env, of_request, of_request_node, ◌>>=◌, ◌>>◌, pure, skip, fault, kmalloc, load_request,
  store_request, load_service, store_service, lock_service, unlock_service, up_request, up_service,
  down_interruptible, request_sem,
}
use linber.Driver.Params.{abort_request}

unfoldable pub create_request : Env → M (Option ℕ)
create_request env = do
  p ← kmalloc (env.kmalloc of_request)
  elim p [
    | none ↦ pure none
    | some r ↦ do
      store_request r (record (env.stale_request) { result_cmd = abort_request; request_sem = 0 })
      pure (some r)
  ]

-- The client that sleeps on the request is woken, and cleans up.
unfoldable pub destroy_request : ℕ → M (Unit {0})
destroy_request p = do
  r ← load_request p
  store_request p (record r { result_cmd = abort_request })
  up_request p

-- Where the cursor of list_for_each_entry_safe stands after the loop: at a request, or, if the loop
-- ran to the end, at the list's head, read as if it stood in a request.
pub data Cursor : Type 0 where
  entry : ℕ → Cursor
  list_head : Cursor

unfoldable pub search_list : List ℕ → ℕ → M Cursor
search_list [] token = pure list_head
search_list (p ∷ rest) token = do
  r ← load_request p
  if r.token == token then pure (entry p) else search_list rest token

-- list_del
abbrev pub without : ℕ → List ℕ → List ℕ
without p [] = []
without p (q ∷ rest) = if q == p then rest else q ∷ without p rest

unfoldable pub get_completed_request : ℕ → ℕ → M Cursor
get_completed_request ser_node token = do
  lock_service ser_node
  s ← load_service ser_node
  c ← search_list s.completed_requests token
  elim c [
    | list_head ↦ skip
    | entry p ↦ do
      s' ← load_service ser_node
      store_service ser_node (record s' { completed_requests = without p s'.completed_requests })
  ]
  unlock_service ser_node
  pure c

-- The first pending request leaves the tree; the caller holds the mutex.
unfoldable pub get_request : Env → ℕ → M (Option ℕ)
get_request env ser_node = do
  s ← load_service ser_node
  let (req, rest) = remove_first_request env.request_tree s.requests_rbtree
  elim req [
    | none ↦ store_service ser_node (record s { requests_rbtree = rest })
    | some p ↦
        store_service ser_node
          (record s { requests_rbtree = rest; request_count = dec32 s.request_count })
  ]
  pure req

-- The requests that the workers serve.
unfoldable pub search_slots : List WorkerStruct → ℕ → M (Option ℕ)
search_slots [] token = pure none
search_slots (w ∷ rest) token =
    let next = search_slots rest token in
    elim (w.request) [
      | none ↦ next
      | some p ↦ do r ← load_request p; if r.token == token then pure (some p) else next
    ]

-- The last part of the search, with the service's mutex held: list_for_each_entry over the
-- completed requests, from a second cursor.
unfoldable pub search_completed : ℕ → ℕ → M (Option ℕ)
search_completed ser_node token = do
  s ← load_service ser_node
  c ← search_list s.completed_requests token
  unlock_service ser_node
  elim c [ list_head ↦ pure none | entry p ↦ pure (some p) ]

unfoldable pub search_serving : ℕ → ℕ → M (Option ℕ)
search_serving ser_node token = do
  s ← load_service ser_node
  served ← search_slots s.workers.worker_slots token
  elim served [
    | none ↦ search_completed ser_node token
    | some p ↦ do unlock_service ser_node; pure (some p)
  ]

-- With one round more than the tree is high, a search that still runs never ends.
unfoldable pub find_waiting_or_completed_request : ℕ → (abs_deadline_ns token : ℕ) → M (Option ℕ)
find_waiting_or_completed_request ser_node abs_deadline_ns token = do
  lock_service ser_node
  s ← load_service ser_node
  (λ k.
      elim (rbtree_get_request (suc (height s.requests_rbtree)) k.requests s.requests_rbtree
        abs_deadline_ns token) [
          | found p ↦ (unlock_service ser_node >> pure (some p)) k
          | missing ↦ search_serving ser_node token k
          | running ↦ Kernel.hang
          | oops ↦ Kernel.oops
        ])

-- The fields that enqueue_request_for_service writes into a new request.
abbrev pub filled :
    Env
    → RequestNode
    → (token request request_len : ℕ) → Bool
    → (req_key abs_deadline_ns : ℕ) → RequestNode
filled env r token request request_len shm_mode req_key abs_deadline_ns = record r {
  client = env.current;
  token = token;
  abs_deadline_ns = abs_deadline_ns;
  request_shm_mode = shm_mode;
  request = if shm_mode then shm_key req_key else buffer request;
  request_len = request_len;
}

-- What follows a successful insertion.
unfoldable pub announce_request : ℕ → ℕ → Bool → M (Option ℕ)
announce_request ser_node req blocking = do
  s ← load_service ser_node
  store_service ser_node (record s { request_count = inc32 s.request_count })
  unlock_service ser_node
  up_service ser_node
  if blocking then down_interruptible (request_sem req) else skip
  pure (some req)

unfoldable pub enqueue_request_for_service :
    Env
    → ℕ
    → (request request_len : ℕ) → (blocking shm_mode : Bool) → (req_key abs_deadline_ns : ℕ)
    → M (Option ℕ)
enqueue_request_for_service env ser_node request request_len blocking shm_mode req_key
      abs_deadline_ns =
    do
      created ← create_request env
      elim created [
        | none ↦ pure none
        | some req ↦ do
          s ← load_service ser_node
          store_service ser_node (record s { next_req_token = inc64 s.next_req_token })
          r ← load_request req
          store_request req
              (filled env r s.next_req_token request request_len shm_mode req_key abs_deadline_ns)
          lock_service ser_node
          s' ← load_service ser_node
          let (done, tree) =
              insert_req_node_sorted_by_deadline env.request_tree (env.kmalloc of_request_node)
                s'.requests_rbtree req abs_deadline_ns
          store_service ser_node (record s' { requests_rbtree = tree })
          if done
              then announce_request ser_node req blocking
              else do unlock_service ser_node; destroy_request req; pure none
      ]
