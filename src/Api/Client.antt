-- ===== src/Api/Client.antt =====
-- The operations of a client in libs/src/linber_service_api.c. A pointer that only the library
-- writes through, such as the one to the response, is a result; `at` has the addresses of the local
-- variables.
use linber.Prelude.{ℕ, Bool, List, ◌==◌, if◌then◌else◌}
use linber.Prelude.Int.{ℤ}
use linber.Driver.Client.{is_success}
use linber.Driver.Params.{Request, request_service, request_service_get_response, system_status}
use linber.Api.{
  abs_deadline, request_service_params, request_service_shm_params, no_blocking_params,
  no_blocking_shm_params, get_response_params,
}
use linber.Api.Device.{ioctl_send}
use linber.Api.Process.{U, Os, ◌>>=◌, ◌>>◌, pure, load_word, malloc, free}
use linber.Api.Shm.{attach_shm_from_key, detach_shm, self_destroy}

-- `token`, `response_key` and `response_shm_id`, and what `param` holds before it is filled.
pub record Locals : Type 0 where
  pub token : ℕ
  pub response_key : ℕ
  pub response_shm_id : ℕ
  pub param : Request

-- The response in shared memory. The test for failure compares the address of the pointer.
unfoldable pub take_shared : Os → Locals → (response_len : ℕ) → ℤ → U (ℤ × ℕ)
take_shared os at response_len ret = do
  key ← load_word at.response_key
  len ← load_word response_len
  response ← attach_shm_from_key os key len at.response_shm_id
  id ← load_word at.response_shm_id
  self_destroy id
  pure (ret, response)

-- The response in a new block, which may be NULL: the test is the same.
unfoldable pub take_copy : Os → List ℕ → Request → (response_len : ℕ) → U (ℤ × ℕ)
take_copy os uri p response_len = do
  len ← load_word response_len
  response ← malloc os len
  ret ← ioctl_send os (request_service_get_response uri (record p { ptr_response = response }))
  pure (ret, response)

-- What follows the call of the driver in the three functions that wait for the response.
unfoldable pub take_response :
    Os → List ℕ → Locals → Request → (response_len response_shm_mode : ℕ) → ℤ → U (ℤ × ℕ)
take_response os uri at p response_len response_shm_mode ret =
    if is_success ret
    then (do
      mode ← load_word response_shm_mode
      if mode == 0 then take_copy os uri p response_len else take_shared os at response_len ret)
    else pure (ret, 0)

module _ (os : Os) (uri : List ℕ) (at : Locals) where
  unfoldable pub linber_request_service :
      (rel_deadline_ms request request_len response_len response_shm_mode : ℕ) → U (ℤ × ℕ)
  linber_request_service rel_deadline_ms request request_len response_len response_shm_mode = do
    let p =
        request_service_params at.param os.clock rel_deadline_ms at.token request request_len
          response_len response_shm_mode at.response_key
    ret ← ioctl_send os (request_service uri p)
    take_response os uri at p response_len response_shm_mode ret

  unfoldable pub linber_request_service_shm :
      (rel_deadline_ms request_key request_len response_len response_shm_mode : ℕ) → U (ℤ × ℕ)
  linber_request_service_shm rel_deadline_ms request_key request_len response_len
        response_shm_mode =
      do
        let p =
            request_service_shm_params at.param os.clock rel_deadline_ms at.token request_key
              request_len response_len response_shm_mode at.response_key
        ret ← ioctl_send os (request_service uri p)
        take_response os uri at p response_len response_shm_mode ret

  -- The deadline is a result too.
  unfoldable pub linber_request_service_no_blocking :
      (rel_deadline_ms request request_len ptr_token : ℕ) → U (ℤ × ℕ)
  linber_request_service_no_blocking rel_deadline_ms request request_len ptr_token = do
    ret ← ioctl_send os (
        request_service uri
          (no_blocking_params at.param os.clock rel_deadline_ms ptr_token request request_len))
    pure (ret, abs_deadline os.clock rel_deadline_ms)

  unfoldable pub linber_request_service_no_blocking_shm :
      (rel_deadline_ms request_key request_len ptr_token : ℕ) → U (ℤ × ℕ)
  linber_request_service_no_blocking_shm rel_deadline_ms request_key request_len ptr_token = do
    ret ← ioctl_send os (
        request_service uri (
          no_blocking_shm_params at.param os.clock rel_deadline_ms ptr_token request_key
            request_len))
    pure (ret, abs_deadline os.clock rel_deadline_ms)

  unfoldable pub linber_request_service_get_response :
      (response_len response_shm_mode ptr_token abs_deadline : ℕ) → U (ℤ × ℕ)
  linber_request_service_get_response response_len response_shm_mode ptr_token abs_deadline = do
    let p =
        get_response_params at.param ptr_token abs_deadline response_len response_shm_mode
          at.response_key
    ret ← ioctl_send os (request_service uri p)
    take_response os uri at p response_len response_shm_mode ret

unfoldable pub linber_request_service_clean :
    (response : ℕ) → (shm_response_mode : Bool) → U (Unit {0})
linber_request_service_clean response shm_response_mode =
    if shm_response_mode then detach_shm response else free response

unfoldable pub linber_system_status : Os → ℕ → U ℤ
linber_system_status os system = ioctl_send os (system_status system)
