-- ===== src/Driver/Client.antt =====
-- The operations of a client in driver/linber_main.c, and the registration of a service.
pub mod Deliver
pub mod Enqueue
pub mod Failed
pub mod Missing
pub mod Queued
pub mod Register
use linber.Prelude.{ℕ, Bool, true, false, Option, none, some, List, not, ◌==◌, ltb, if◌then◌else◌}
use linber.Prelude.Int.{ℤ, pos, negsuc}
use linber.Types.{RequestNode, ServiceNode, Payload, buffer, shm_key, garbage}
use linber.Driver.Kernel.{
  M, Env, of_request_data, to_service_token, from_request, to_token, from_token, to_response_len,
  to_response_shm_mode, to_response_key, to_response, ◌>>=◌, ◌>>◌, pure, skip, return, fault,
  kmalloc, check_copy, load_request, free_request, load_service, load_buffer, store_buffer,
  free_buffer, put_user, get_user, copy_to_user, copy_from_user, down_interruptible, request_sem,
  prefix, word_of_bool,
}
use linber.Driver.Params.{
  Registration, Request, linber_max_mem_size, kernel_memory_error, payload_size_error,
  registration_fail, registration_already_exists, registration_success, request_failed,
  service_not_exists, request_init, request_waiting,
}
use linber.Driver.Pending.{
  Cursor, entry, list_head, get_completed_request, find_waiting_or_completed_request,
  enqueue_request_for_service,
}
use linber.Driver.Lifecycle.{create_service, find_service}

-- The union read as a pointer and as a key.
abbrev pub data_of : Payload → M ℕ
data_of (buffer a) = pure a
data_of (shm_key k) = fault
data_of garbage = fault

abbrev pub key_of : Payload → M ℕ
key_of (buffer a) = fault
key_of (shm_key k) = pure k
key_of garbage = fault

-- `== LINBER_REQUEST_SUCCESS`
abbrev pub is_success : ℤ → Bool
is_success (pos n) = n == 0
is_success (negsuc n) = false

unfoldable pub linber_register_service : Env → List ℕ → Registration → M ℤ
linber_register_service env uri reg = do
  known ← find_service uri
  elim known [
    | some _ ↦ pure registration_already_exists
    | none ↦ do
      created ← create_service env uri reg
      elim created [
        | none ↦ pure registration_fail
        | some ser_node ↦ do
          s ← load_service ser_node
          put_user (env.copy to_service_token) reg.ptr_service_token s.token
          pure registration_success
      ]
  ]

-- The request's bytes in a kernel buffer.
unfoldable pub fetch_request : Env → Request → M ℕ
fetch_request env p =
    if ltb linber_max_mem_size p.request_len then return payload_size_error else do
      room ← kmalloc (env.kmalloc of_request_data)
      elim room [
        | none ↦ return kernel_memory_error
        | some a ↦ do
          bs ← copy_from_user (env.copy from_request) p.request p.request_len
          store_buffer a bs
          pure a
      ]

-- linber_request_service, the part for LINBER_REQUEST_INIT: it comes back with the request that the
-- client slept on, or leaves the handler.
unfoldable pub request_service_init : Env → ℕ → Request → M ℕ
request_service_init env ser_node p = do
  let shm_mode = p.request_shm_mode == 1
  let blocking = p.blocking == 1
  a ← (if shm_mode then pure 0 else fetch_request env p)
  req ←
      enqueue_request_for_service env ser_node a p.request_len blocking shm_mode
        (if shm_mode then p.request else 0) p.abs_deadline_ns
  elim req [
    | none ↦ return request_failed
    | some r ↦ do
      n ← load_request r
      put_user (env.copy to_token) p.ptr_token n.token
      if blocking then pure r else return (pos request_waiting)
  ]

-- The part for LINBER_REQUEST_WAITING.
unfoldable pub request_service_wait : Env → ℕ → Request → M ℕ
request_service_wait env ser_node p = do
  token ← get_user (env.copy from_token) p.ptr_token
  req ← find_waiting_or_completed_request ser_node p.abs_deadline_ns token
  elim req [
    | none ↦ return request_failed
    | some r ↦ do
      n ← load_request r
      if n.client == env.current
          then (do down_interruptible (request_sem r); pure r)
          else return request_failed
  ]

-- The part for LINBER_REQUEST_COMPLETED, with the request at hand.
unfoldable pub request_service_completed : Env → Request → ℕ → M ℤ
request_service_completed env p r = do
  n ← load_request r
  if not (is_success n.result_cmd) then pure n.result_cmd else do
    put_user (env.copy to_response_len) p.ptr_response_len n.response_len
    put_user (env.copy to_response_shm_mode) p.ptr_response_shm_mode
        (word_of_bool n.response_shm_mode)
    if n.response_shm_mode
        then (do
          k ← key_of n.response
          put_user (env.copy to_response_key) p.ptr_shm_response_key k)
        else skip
    pure n.result_cmd

-- With any other status, LINBER_REQUEST_COMPLETED among them, there is no request.
unfoldable pub request_phases : Env → ℕ → Request → M ℤ
request_phases env ser_node p =
    if p.status == request_init
    then (do r ← request_service_init env ser_node p; request_service_completed env p r)
    else if p.status == request_waiting
    then (do r ← request_service_wait env ser_node p; request_service_completed env p r)
    else pure request_failed

unfoldable pub linber_request_service : Env → List ℕ → Request → M ℤ
linber_request_service env uri p = do
  service ← find_service uri
  elim service [
    | none ↦ pure service_not_exists
    | some ser_node ↦ do
      s ← load_service ser_node
      if s.destroy_me then pure service_not_exists else request_phases env ser_node p
  ]

-- The completed request is handed over and freed with its buffers.
unfoldable pub deliver_response : Env → Request → ℕ → M ℤ
deliver_response env p r = do
  n ← load_request r
  if n.response_shm_mode then skip else do
    a ← data_of n.response
    bs ← load_buffer a
    copy_to_user (env.copy to_response) p.ptr_response (prefix n.response_len bs)
    free_buffer a
  if n.request_shm_mode then skip else do a ← data_of n.request; free_buffer a
  free_request r
  pure n.result_cmd

-- The cursor is never NULL: if no request has the token it is the head of the list, and the fields
-- are read from the memory around that.
unfoldable pub linber_request_service_get_response : Env → List ℕ → Request → M ℤ
linber_request_service_get_response env uri p = do
  service ← find_service uri
  elim service [
    | none ↦ pure service_not_exists
    | some ser_node ↦ do
      s ← load_service ser_node
      if s.destroy_me then pure service_not_exists else do
        token ← get_user (env.copy from_token) p.ptr_token
        c ← get_completed_request ser_node token
        elim c [ list_head ↦ fault | entry r ↦ deliver_response env p r ]
  ]
