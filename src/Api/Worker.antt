-- ===== src/Api/Worker.antt =====
-- The operations of a server and its workers in libs/src/linber_service_api.c. As for the client, a
-- pointer that only the library writes through is a result.
use linber.Prelude.{ℕ, ◌+◌, ◌/◌, ◌%◌, Bool, List, [], ◌∷◌, ◌++◌, ◌==◌, ltb, length, if◌then◌else◌}
use linber.Prelude.Int.{ℤ, pos}
use linber.Driver.Client.{is_success}
use linber.Driver.Ioctl.{c_string}
use linber.Driver.Params.{
  StartJob, register_service, register_service_worker, start_job, start_job_get_request, end_job,
  destroy_service, kill_worker, service_skip_job,
}
use linber.Api.{registration_params}
use linber.Api.Device.{ioctl_send}
use linber.Api.Process.{
  U, Os, ◌>>=◌, ◌>>◌, pure, load_word, malloc, free, write_block, create_file, same_name,
}
use linber.Api.Client.{linber_request_service_clean}
use linber.Api.Shm.{attach_shm_from_key, self_destroy}

unfoldable pub linber_register_service :
    Os → List ℕ → (exec_time max_workers service_token service_period request_per_period : ℕ) → U ℤ
linber_register_service os uri exec_time max_workers service_token service_period
      request_per_period =
    ioctl_send os (
      register_service uri
        (registration_params exec_time max_workers service_token service_period request_per_period))

-- "/tmp/"
abbrev pub tmp_dir : List ℕ
tmp_dir = 47 ∷ 116 ∷ 109 ∷ 112 ∷ 47 ∷ []

-- `sprintf("%d")` of a number below 100.
abbrev pub decimal : ℕ → List ℕ
decimal n = if ltb n 10 then (48 + n) ∷ [] else (48 + n / 10) ∷ (48 + n % 10) ∷ []

-- The worker's file, with the terminating NUL.
abbrev pub worker_file : List ℕ → ℕ → List ℕ
worker_file uri worker_id = tmp_dir ++ (c_string uri ++ (95 ∷ (decimal worker_id ++ (0 ∷ []))))

-- The name of the worker's file in a block of its own, and the file.
unfoldable pub make_worker_file : Os → List ℕ → ℕ → U (ℤ × ℕ)
make_worker_file os uri worker_id = do
  file_str ← malloc os (length uri + 8)
  write_block file_str (worker_file uri worker_id)
  create_file os (c_string (worker_file uri worker_id))
  pure (pos 0, file_str)

-- `file_str` is what the caller's pointer holds before.
unfoldable pub linber_register_service_worker :
    Os → List ℕ → (service_token worker_id file_str : ℕ) → U (ℤ × ℕ)
linber_register_service_worker os uri service_token worker_id file_str = do
  ret ← ioctl_send os (
      register_service_worker uri
        (record { service_token = service_token; ptr_worker_id = worker_id }))
  if is_success ret
      then (do
        id ← load_word worker_id
        if ltb 99 id then pure (kill_worker, file_str) else make_worker_file os uri id)
      else pure (ret, file_str)

abbrev pub without_file : List ℕ → List (List ℕ) → List (List ℕ)
without_file name [] = []
without_file name (f ∷ fs) = if same_name name f then fs else f ∷ without_file name fs

-- remove and free
unfoldable pub linber_destroy_worker : (file_str : ℕ) → U (Unit {0})
linber_destroy_worker file_str u =
    free file_str
      (record u { files = without_file (c_string (u.kernel.user_bytes file_str)) u.files })

-- `request_key` and `request_shm_id`
pub record StartLocals : Type 0 where
  pub request_key : ℕ
  pub request_shm_id : ℕ

abbrev pub skip_if_null : ℤ → ℕ → ℤ
skip_if_null ret request = if request == 0 then service_skip_job else ret

-- The request of a job that was started: in shared memory, or fetched into a new block.
unfoldable pub take_request_of_job : Os → List ℕ → StartLocals → StartJob → U (ℤ × ℕ)
take_request_of_job os uri at p = do
  mode ← load_word p.ptr_request_shm_mode
  len ← load_word p.ptr_request_len
  if mode == 0
      then (do
        request ← malloc os len
        ret ← ioctl_send os (start_job_get_request uri (record p { ptr_data = request }))
        pure (skip_if_null ret request, request))
      else (do
        key ← load_word at.request_key
        request ← attach_shm_from_key os key len at.request_shm_id
        id ← load_word at.request_shm_id
        self_destroy id
        pure (skip_if_null (pos 0) request, request))

-- `request` is what the caller's pointer holds before.
unfoldable pub linber_start_job_service :
    Os
    → List ℕ
    → StartLocals
    → (service_token worker_id request request_len request_shm_mode : ℕ) → U (ℤ × ℕ)
linber_start_job_service os uri at service_token worker_id request request_len request_shm_mode = do
  let p =
      (let job : StartJob = record {
        worker_id = worker_id;
        service_token = service_token;
        ptr_request_len = request_len;
        ptr_request_shm_mode = request_shm_mode;
        ptr_data = at.request_key;
      } in
        job)
  ret ← ioctl_send os (start_job uri p)
  if is_success ret then take_request_of_job os uri at p else pure (ret, request)

unfoldable pub linber_end_job_service :
    Os
    → List ℕ
    → (service_token worker_id request : ℕ) → (request_shm_mode : Bool)
    → (response response_len : ℕ) → U ℤ
linber_end_job_service os uri service_token worker_id request request_shm_mode response
      response_len =
    do
      ret ← ioctl_send os (
          end_job uri (record {
            worker_id = worker_id;
            service_token = service_token;
            response_len = response_len;
            response_shm_mode = 0;
            response = response;
          }))
      linber_request_service_clean request request_shm_mode
      pure ret

unfoldable pub linber_end_job_service_shm :
    Os
    → List ℕ
    → (service_token worker_id request : ℕ) → (request_shm : Bool) → (response_len response_key : ℕ)
    → U ℤ
linber_end_job_service_shm os uri service_token worker_id request request_shm response_len
      response_key =
    do
      ret ← ioctl_send os (
          end_job uri (record {
            worker_id = worker_id;
            service_token = service_token;
            response_len = response_len;
            response_shm_mode = 1;
            response = response_key;
          }))
      linber_request_service_clean request request_shm
      pure ret

unfoldable pub linber_destroy_service : Os → List ℕ → (service_token : ℕ) → U ℤ
linber_destroy_service os uri service_token = ioctl_send os (destroy_service uri service_token)
