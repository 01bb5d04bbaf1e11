-- ===== src/ServiceWorker.antt =====
-- The class linberServiceWorker of libs/src/linberServiceWorker.cpp. The thread that the constructor
-- starts runs worker_job.
pub mod Refused
pub mod Tests
use linber.Prelude.{
  ℕ, ◌+◌, Bool, true, false, List, [], ◌∷◌, ◌++◌, not, ◌==◌, length, if◌then◌else◌,
}
use linber.Prelude.Int.{ℤ, pos, negsuc}
use linber.Driver.Ioctl.{c_string}
use linber.Api.Device.{linber_init}
use linber.Api.Process.{
  User, U, Os, returns, is_negative, ◌>>=◌, ◌>>◌, pure, skip, load_word, store_word, malloc, free,
  write_block,
}
use linber.Api.Worker.{
  StartLocals, linber_register_service_worker, linber_start_job_service, linber_end_job_service,
  linber_destroy_worker,
}

-- The members. Those that the library or the driver writes through a pointer are at addresses.
pub record ServiceWorker : Type 0 where
  pub service_uri : ℕ
  pub uri : List ℕ
  pub file_str : ℕ
  pub service_token : ℕ
  pub worker_alive : Bool
  pub request : ℕ
  pub response : ℕ
  pub response_len : ℕ
  pub worker_id_at : ℕ
  pub request_len_at : ℕ
  pub request_shm_mode_at : ℕ

-- The virtual method: from the request it makes the response, in the members. It is the subclass's.
abbrev pub Job : Type 0
Job = ServiceWorker → U ServiceWorker

-- The class's own method only prints.
abbrev pub default_job : Job
default_job w = pure w

abbrev pub is_skip : ℤ → Bool
is_skip (pos n) = n == 1
is_skip (negsuc n) = false

-- `uri` is the text that is copied, with its NUL; a second NUL is written behind it. `stale` has
-- what the members hold that are not set: file_str is one.
unfoldable pub new_worker :
    Os → (uri : List ℕ) → (service_token : ℕ) → (stale : ServiceWorker) → U ServiceWorker
new_worker os uri service_token stale = do
  service_uri ← malloc os (length uri + 1)
  write_block service_uri (uri ++ (0 ∷ []))
  _ ← linber_init os
  pure (record stale {
    service_uri = service_uri;
    uri = uri;
    service_token = service_token;
    request = 0;
    response = 0;
    worker_alive = true;
  })

unfoldable pub delete_worker : ServiceWorker → U (Unit {0})
delete_worker w = do linber_destroy_worker w.file_str; free w.service_uri

abbrev pub terminate_worker : ServiceWorker → ServiceWorker
terminate_worker w = record w { worker_alive = false }

-- The end of a round: the job is ended, also one that was skipped, and the response freed.
unfoldable pub end_round : Os → ServiceWorker → (worker_id : ℕ) → U ServiceWorker
end_round os w worker_id = do
  mode ← load_word w.request_shm_mode_at
  _ ←
      linber_end_job_service os w.uri w.service_token worker_id w.request (not (mode == 0))
        w.response w.response_len
  free w.response
  pure w

-- What the loop does with the result of the start: leave, skip the job, or do it. The flag says
-- whether the loop goes on.
unfoldable pub serve_round :
    Os → Job → ServiceWorker → (worker_id : ℕ) → ℤ → U (ServiceWorker × Bool)
serve_round os execute_job w worker_id ret = if is_negative ret then pure (w, false) else do
  w' ← (if is_skip ret then pure w else execute_job w)
  w'' ← end_round os w' worker_id
  pure (w'', true)

unfoldable pub worker_round : Os → Job → StartLocals → ServiceWorker → U (ServiceWorker × Bool)
worker_round os execute_job at w = do
  store_word w.request_shm_mode_at 0
  worker_id ← load_word w.worker_id_at
  r ←
      linber_start_job_service os w.uri at w.service_token worker_id 0 w.request_len_at
        w.request_shm_mode_at
  serve_round os execute_job (record w { response = 0; request = r.1 }) worker_id r.0

-- The loop: it reads worker_alive as true once for each element, each with the answers of its
-- round, and then as false.
unfoldable pub worker_rounds : List Os → Job → StartLocals → ServiceWorker → U ServiceWorker
worker_rounds [] execute_job at w = pure (terminate_worker w)
worker_rounds (os ∷ rest) execute_job at w = do
  r ← worker_round os execute_job at w
  elim (r.1) [ true ↦ worker_rounds rest execute_job at r.0 | false ↦ pure r.0 ]

unfoldable pub worker_job : Os → List Os → Job → StartLocals → ServiceWorker → U ServiceWorker
worker_job os rounds execute_job at w = do
  r ← linber_register_service_worker os w.uri w.service_token w.worker_id_at w.file_str
  let w' = (let x : ServiceWorker = record w { file_str = r.1 } in x)
  if is_negative r.0 then pure (terminate_worker w') else worker_rounds rounds execute_job at w'
