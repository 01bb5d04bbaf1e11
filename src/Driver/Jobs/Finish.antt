-- ===== src/Driver/Jobs/Finish.antt =====
-- linber_End_Job for a request served with a response in memory.
use linber.Prelude.{
  ◌^◌, ℕ, suc, ◌≡◌, ◌∙◌, ap, refl, true, false, some, none, List, [], ◌∷◌, ◌++◌, ◌==◌, ltb,
  get_elem?, arith,
}
use linber.Prelude.Int.{pos}
use linber.Types.{ServiceNode, RequestNode, WorkerStruct, buffer}
use linber.Services.{get_service_node}
use linber.Driver.Kernel.{Kernel, ok, Env, update, of_response_data, from_response, prefix}
use linber.Driver.Params.{EndJob, linber_max_mem_size, request_success}
use linber.Driver.Jobs.{linber_end_job, finish_request, fetch_response}
use linber.Driver.Jobs.Rights.{has_rights}
use linber.Driver.Steps.{
  upped, up_request-ok, edit_request-ok, request_here, update_twice, bind, found-ok, locked,
  unlocked, put_here, put_twice, put_service, put_request, lock_service-ok, unlock_service-ok,
  service_check_worker-ok,
}
use linber.Driver.Workers.{
  get_worker_by_id, worker_get_request, move_from_worker_to_completed, put_slot, serve_in_slot,
  add_completed,
}

-- The slot of a worker of the current process that serves a request.
abbrev pub serving : Env → ℕ → WorkerStruct
serving env r = record { task = some env.current; request = some r }

module _ (env : Env) (k : Kernel) (p worker_id : ℕ) {s : ServiceNode} {w : WorkerStruct}
    (here : k.services p ≡ some s)
    (slot : get_elem? s.workers.worker_slots worker_id ≡ some w) where
  pub get_worker_by_id-ok :
      ltb worker_id s.workers.max_workers ≡ true
      → w.task ≡ some env.current
      → get_worker_by_id env p worker_id k ≡ ok (some w) k
  unfolding get_worker_by_id
  get_worker_by_id-ok in_range own = ground arith

  pub serve_in_slot-ok :
      (req : _)
      → serve_in_slot p worker_id req k
        ≡ ok tt (put_service k p (put_slot s worker_id (record w { request = req })))
  serve_in_slot-ok req = ground arith

pub add_completed-ok :
    (k : Kernel) (p r : ℕ) {s : ServiceNode}
    → k.services p ≡ some s
    → add_completed p r k
      ≡ ok tt (put_service k p (record s { completed_requests = s.completed_requests ++ (r ∷ []) }))
add_completed-ok k p r here = ground arith

-- The slot is free again, and the request is the last of the completed ones.
abbrev pub completed : Env → ServiceNode → (worker_id r : ℕ) → ServiceNode
completed env s worker_id r =
    record (put_slot s worker_id (record { task = some env.current; request = none })) {
      service_mutex = false;
      completed_requests = s.completed_requests ++ (r ∷ []);
    }

pub move_from_worker_to_completed-ok :
    (env : Env) (k : Kernel) (p worker_id r : ℕ) {s : ServiceNode} {n : RequestNode}
    → k.services p ≡ some s
    → s.service_mutex ≡ false
    → ltb worker_id s.workers.max_workers ≡ true
    → get_elem? s.workers.worker_slots worker_id ≡ some (serving env r)
    → k.requests r ≡ some n
    → move_from_worker_to_completed env p worker_id k
      ≡ ok tt (put_request (put_service k p (completed env s worker_id r)) r (upped n))
unfolding move_from_worker_to_completed
move_from_worker_to_completed-ok env k p worker_id r {s} {n} here free in_range slot there =
    let k1 = put_service k p (locked s) in
    let s2 = put_slot (locked s) worker_id (record { task = some env.current; request = none }) in
    let k2 = put_service k1 p s2 in
    let s3 = record (completed env s worker_id r) { service_mutex = true } in
    let k3 = put_service k2 p s3 in
    bind _ (lock_service-ok k p here free)
    ∙ bind _ (get_worker_by_id-ok env k1 p worker_id (put_here k p (locked s)) slot in_range refl)
    ∙ bind _ (
        bind _ (serve_in_slot-ok env k1 p worker_id (put_here k p (locked s)) slot none)
        ∙ add_completed-ok k2 p r (put_here k1 p s2))
    ∙ bind _ (unlock_service-ok k3 p (put_here k2 p s3))
    ∙ up_request-ok (put_service k3 p (unlocked s3)) r there
    ∙ ap (λ x. ok tt (put_request x r (upped n)))
        (put_twice k2 p s3 (unlocked s3)
          ∙ put_twice k1 p s2 (unlocked s3)
          ∙ put_twice k p (locked s) (unlocked s3))

-- The bytes that the worker answers with.
abbrev pub answer : Kernel → EndJob → List ℕ
answer k q = prefix q.response_len (k.user_bytes q.response)

-- The request with its answer in the kernel buffer `a`.
abbrev pub answered_in : ℕ → EndJob → RequestNode → RequestNode
answered_in a q n = record n {
  response_len = q.response_len;
  response_shm_mode = false;
  response = buffer a;
  result_cmd = request_success;
}

-- The answer in a new buffer, the request completed.
abbrev pub finished :
    Env → Kernel → EndJob → (ser_node : ℕ) → ServiceNode → (r : ℕ) → RequestNode → Kernel
finished env k q ser_node s r n =
    record (put_request (put_service k ser_node (completed env s q.worker_id r)) r
      (upped (answered_in k.next q n))) {
        buffers = update k.buffers k.next (some (answer k q));
        next = suc k.next;
      }

-- The new buffer holds the answer, and the request points to it.
abbrev fetched : Kernel → EndJob → (r : ℕ) → RequestNode → Kernel
fetched k q r n = record (put_request k r n) {
  buffers = update k.buffers k.next (some (answer k q));
  next = suc k.next;
}

fetch_response-ok :
    (env : Env) (q : EndJob) (k : Kernel) (r : ℕ) {n : RequestNode}
    → k.requests r ≡ some n
    → n.response_len ≡ q.response_len
    → env.kmalloc of_response_data ≡ true
    → env.copy from_response ≡ true
    → fetch_response env q r k ≡ ok tt (fetched k q r (record n { response = buffer k.next }))
unfolding fetch_response
fetch_response-ok env q k r there len given fine = ground arith

finish_request-ok :
    (env : Env) (k : Kernel) (ser_node : ℕ) (q : EndJob) (r : ℕ) {s : ServiceNode} {n : RequestNode}
    → k.services ser_node ≡ some s
    → s.service_mutex ≡ false
    → ltb q.worker_id s.workers.max_workers ≡ true
    → get_elem? s.workers.worker_slots q.worker_id ≡ some (serving env r)
    → k.requests r ≡ some n
    → (q.response_shm_mode == 1) ≡ false
    → ltb linber_max_mem_size q.response_len ≡ false
    → env.kmalloc of_response_data ≡ true
    → env.copy from_response ≡ true
    → finish_request env ser_node q r k ≡ ok (pos 0) (finished env k q ser_node s r n)
unfolding finish_request
finish_request-ok env k ser_node q r {s} {n} here free in_range slot there mode len given fine =
    let n1 = record n { response_len = q.response_len; response_shm_mode = false } in
    let n2 = record n1 { response = buffer k.next } in
    let n3 = answered_in k.next q n in
    let k1 = put_request k r n1 in
    let k2 = fetched k1 q r n2 in
    let k3 = put_request k2 r n3 in
    rw (mode, len)
      (bind _ (
          edit_request-ok k r
            (λ m. record m { response_len = q.response_len; response_shm_mode = false }) there)
        ∙ bind _ (fetch_response-ok env q k1 r (request_here k r n1) refl given fine)
        ∙ bind _ (
            edit_request-ok k2 r (λ m. record m { result_cmd = request_success })
              (request_here k1 r n2))
        ∙ bind _ (
            move_from_worker_to_completed-ok env k3 ser_node q.worker_id r here free in_range slot
              (request_here k2 r n3))
        ∙ ap (λ (f : ℕ → _). ok (pos 0) (record (finished env k q ser_node s r n) { requests = f }))
            (update_twice _ r _ _ ∙ update_twice _ r _ _ ∙ update_twice k.requests r _ _))

-- The service that the worker belongs to, the slot it owns and the request in it.
pub record Serving (env : Env) (uri : List ℕ) (k : Kernel) (ser_node worker_id : ℕ)
    (s : ServiceNode) (r : ℕ) (n : RequestNode) : Type 0 where
  pub linber_free : k.linber.mutex ≡ false
  pub known : get_service_node k.linber.services_rbtree uri ≡ some ser_node
  pub here : k.services ser_node ≡ some s
  pub free : s.service_mutex ≡ false
  pub is_id : ltb worker_id (2 ^ 31) ≡ true
  pub in_range : ltb worker_id s.workers.max_workers ≡ true
  pub slot : get_elem? s.workers.worker_slots worker_id ≡ some (serving env r)
  pub there : k.requests r ≡ some n

worker_get_request-ok :
    (env : Env) (k : Kernel) (p worker_id r : ℕ) {s : ServiceNode}
    → k.services p ≡ some s
    → ltb worker_id s.workers.max_workers ≡ true
    → get_elem? s.workers.worker_slots worker_id ≡ some (serving env r)
    → worker_get_request env p worker_id k ≡ ok (some r) k
unfolding worker_get_request
worker_get_request-ok env k p worker_id r here in_range slot =
    bind _ (get_worker_by_id-ok env k p worker_id here slot in_range refl)

pub end_job-finished :
    (env : Env) (uri : List ℕ) (k : Kernel) (ser_node : ℕ) (q : EndJob) (r : ℕ) {s : ServiceNode}
    {n : RequestNode}
    → Serving env uri k ser_node q.worker_id s r n
    → s.token ≡ q.service_token
    → (q.response_shm_mode == 1) ≡ false
    → ltb linber_max_mem_size q.response_len ≡ false
    → env.kmalloc of_response_data ≡ true
    → env.copy from_response ≡ true
    → linber_end_job env uri q k ≡ ok (pos 0) (finished env k q ser_node s r n)
unfolding linber_end_job
end_job-finished env uri k ser_node q r {s} h token mode len given fine =
    let right : has_rights s q.service_token q.worker_id ≡ true =
      rw (h.is_id, h.in_range, token) (ground arith) in
    bind _ (found-ok uri k h.linber_free h.known)
    ∙ bind _ (service_check_worker-ok k ser_node h.here q.service_token q.worker_id)
    ∙ rw right (
        bind _ (worker_get_request-ok env k ser_node q.worker_id r h.here h.in_range h.slot)
        ∙ finish_request-ok env k ser_node q r h.here h.free h.in_range h.slot h.there mode len
            given fine)
