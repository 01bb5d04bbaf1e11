-- ===== src/Driver/Jobs.antt =====
-- The operations of a worker in driver/linber_main.c, and the destruction of a service.
pub mod Destroyed
pub mod Fetch
pub mod Finish
pub mod Join
pub mod Rights
pub mod Start
pub mod Woken
use linber.Prelude.{
  ℕ, Bool, true, false, Option, none, some, List, not, ◌==◌, ltb, if◌then◌else◌, get_elem?,
}
use linber.Prelude.Int.{ℤ, pos, negsuc}
use linber.Words.{inc32}
use linber.Types.{RequestNode, ServiceNode, WorkerStruct, Payload, buffer, shm_key}
use linber.Driver.Kernel.{
  M, Env, of_response_data, to_worker_id, to_request_len, to_request_shm_mode, to_request_key,
  to_request, from_response, ◌>>=◌, ◌>>◌, pure, skip, return, fault, kmalloc, load_request,
  store_request, load_service, store_service, load_buffer, store_buffer, lock_service,
  unlock_service, put_user, copy_to_user, copy_from_user, prefix, word_of_bool,
}
use linber.Driver.Params.{
  RegisterWorker, StartJob, EndJob, linber_max_mem_size, kernel_memory_error, payload_size_error,
  request_success, request_failed, service_skip_job, kill_worker, service_not_exists,
}
use linber.Driver.Client.{data_of, key_of}
use linber.Driver.Dispatch.{dispatch, dispatch_as_best_effort}
use linber.Driver.Lifecycle.{find_service, destroy_service}
use linber.Driver.Workers.{
  decrease_workers, get_worker_by_id, service_check_worker, worker_wait_for_request,
  worker_get_request, move_from_worker_to_completed, put_slot,
}

-- `workers[id].task = current`
abbrev pub own_slot_of : ℕ → (id pid : ℕ) → M (Unit {0})
own_slot_of ser_node id pid = do
  s ← load_service ser_node
  elim (get_elem? s.workers.worker_slots id) [
    | none ↦ fault
    | some w ↦ store_service ser_node (put_slot s id (record w { task = some pid }))
  ]

-- The next slot is the caller's.
unfoldable pub claim_slot : Env → ℕ → M ℕ
claim_slot env ser_node = do
  lock_service ser_node
  s ← load_service ser_node
  store_service ser_node (record s {
    workers = record (s.workers) {
      count_registered = inc32 s.workers.count_registered;
      next_id = inc32 s.workers.next_id;
    };
  })
  unlock_service ser_node
  own_slot_of ser_node s.workers.next_id env.current
  pure s.workers.next_id

unfoldable pub linber_register_service_worker : Env → List ℕ → RegisterWorker → M ℤ
linber_register_service_worker env uri p = do
  service ← find_service uri
  elim service [
    | none ↦ pure (negsuc 0)
    | some ser_node ↦ do
      rights ← service_check_worker ser_node p.service_token 0
      if not rights then return (negsuc 0) else do
        s ← load_service ser_node
        if ltb s.workers.next_id s.workers.max_workers
            then (do
              worker_id ← claim_slot env ser_node
              put_user (env.copy to_worker_id) p.ptr_worker_id worker_id
              dispatch_as_best_effort env)
            else skip
        pure (pos 0)
  ]

-- The request's description, to the worker.
unfoldable pub describe_request : Env → StartJob → ℕ → M ℤ
describe_request env p req = do
  r ← load_request req
  put_user (env.copy to_request_len) p.ptr_request_len r.request_len
  put_user (env.copy to_request_shm_mode) p.ptr_request_shm_mode (word_of_bool r.request_shm_mode)
  if r.request_shm_mode
      then (do k ← key_of r.request; put_user (env.copy to_request_key) p.ptr_data k)
      else skip
  pure (pos 0)

-- The check with which the operations of a worker begin: who fails it is counted out.
abbrev pub with_rights : ℕ → (service_token worker_id : ℕ) → M ℤ → M ℤ
with_rights ser_node service_token worker_id job = do
  rights ← service_check_worker ser_node service_token worker_id
  if rights then job else do decrease_workers ser_node; pure kill_worker

-- The request that the worker was woken to, if any.
abbrev pub start_request : Env → ℕ → StartJob → Option ℕ → M ℤ
start_request env ser_node p none = pure service_skip_job
start_request env ser_node p (some r) = do
  n ← load_request r
  s ← load_service ser_node
  dispatch env s n
  describe_request env p r

unfoldable pub linber_start_job : Env → List ℕ → StartJob → M ℤ
linber_start_job env uri p = do
  service ← find_service uri
  elim service [
    | none ↦ pure service_not_exists
    | some ser_node ↦
        with_rights ser_node p.service_token p.worker_id do
          req ← worker_wait_for_request env ser_node p.worker_id
          start_request env ser_node p req
  ]

unfoldable pub linber_start_job_get_request : Env → List ℕ → StartJob → M ℤ
linber_start_job_get_request env uri p = do
  service ← find_service uri
  elim service [
    | none ↦ pure service_not_exists
    | some ser_node ↦ with_rights ser_node p.service_token p.worker_id do
      worker ← get_worker_by_id env ser_node p.worker_id
      elim worker [
        | none ↦ pure (pos 0)
        | some w ↦ elim (w.request) [
          | none ↦ pure service_skip_job
          | some r ↦ do
            n ← load_request r
            a ← data_of n.request
            bs ← load_buffer a
            copy_to_user (env.copy to_request) p.ptr_data (prefix n.request_len bs)
            pure (pos 0)
        ]
      ]
  ]

-- The response's bytes in a kernel buffer, which the request points to.
unfoldable pub fetch_response : Env → EndJob → ℕ → M (Unit {0})
fetch_response env p r = do
  room ← kmalloc (env.kmalloc of_response_data)
  elim room [
    | none ↦ return kernel_memory_error
    | some a ↦ do
      n ← load_request r
      store_request r (record n { response = buffer a })
      bs ← copy_from_user (env.copy from_response) p.response n.response_len
      store_buffer a bs
  ]

abbrev pub set_result : ℕ → ℤ → M (Unit {0})
set_result r result = do n ← load_request r; store_request r (record n { result_cmd = result })

-- The response's length and mode.
abbrev pub note_response : ℕ → ℕ → Bool → M (Unit {0})
note_response r len shm_mode = do
  n ← load_request r
  store_request r (record n { response_len = len; response_shm_mode = shm_mode })

abbrev pub note_key : ℕ → ℕ → M (Unit {0})
note_key r key = do n ← load_request r; store_request r (record n { response = shm_key key })

-- linber_End_Job for the request that the worker serves.
unfoldable pub finish_request : Env → ℕ → EndJob → ℕ → M ℤ
finish_request env ser_node p r = do
  note_response r p.response_len (p.response_shm_mode == 1)
  if p.response_shm_mode == 1
      then note_key r p.response
      else if ltb linber_max_mem_size p.response_len
      then (do
        set_result r request_failed
        move_from_worker_to_completed env ser_node p.worker_id
        return payload_size_error)
      else fetch_response env p r
  set_result r request_success
  move_from_worker_to_completed env ser_node p.worker_id
  pure (pos 0)

unfoldable pub linber_end_job : Env → List ℕ → EndJob → M ℤ
linber_end_job env uri p = do
  service ← find_service uri
  elim service [
    | none ↦ pure service_not_exists
    | some ser_node ↦ with_rights ser_node p.service_token p.worker_id do
      req ← worker_get_request env ser_node p.worker_id
      elim req [ none ↦ pure service_skip_job | some r ↦ finish_request env ser_node p r ]
  ]

unfoldable pub linber_destroy_service : Env → List ℕ → (service_token : ℕ) → M ℤ
linber_destroy_service env uri service_token = do
  service ← find_service uri
  elim service [
    | none ↦ pure (negsuc 0)
    | some ser_node ↦ do
      rights ← service_check_worker ser_node service_token 0
      if rights then (do destroy_service env ser_node; pure (pos 0)) else pure (negsuc 0)
  ]
