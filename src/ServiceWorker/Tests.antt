-- ===== src/ServiceWorker/Tests.antt =====
-- A worker object whose registration is refused.
use linber.Prelude.{ℕ, ◌≡◌, refl, true, List, [], ◌∷◌}
use linber.Driver.Ioctl.{linber_ioctl, handle}
use linber.Driver.Jobs.{linber_register_service_worker}
use linber.Driver.Lifecycle.{find_service}
use linber.Driver.Kernel.{lock_linber, unlock_linber}
use linber.Services.{get_service_node}
use linber.Driver.Tests.{boot}
use linber.Api.Process.{User, segv, ◌>>=◌}
use linber.Api.Runs.{kind_os, fresh}
use linber.Api.Worker.{StartLocals}
use linber.ServiceWorker.{ServiceWorker, new_worker, worker_job, delete_worker, default_job}
use linber.ServiceWorker.Refused.{made, worker_refused-delete}

abbrev stale_worker : ServiceWorker
stale_worker = record {
  service_uri = 0;
  uri = [];
  file_str = 12345;
  service_token = 0;
  worker_alive = true;
  request = 0;
  response = 0;
  response_len = 0;
  worker_id_at = 301;
  request_len_at = 320;
  request_shm_mode_at = 321;
}

abbrev start_locals : StartLocals
start_locals = record { request_key = 404; request_shm_id = 405 }

-- The driver is just loaded: no service has this uri.
abbrev early : User
early = record fresh { kernel = boot }

abbrev unknown : List ℕ
unknown = 99 ∷ 0 ∷ []

worker_refused-delete_example :
    (do
      w ← new_worker kind_os unknown 77 stale_worker
      w' ← worker_job kind_os [] default_job start_locals w
      delete_worker w')
      early
    ≡ segv
unfolding linber_ioctl handle linber_register_service_worker find_service lock_linber unlock_linber
    get_service_node
worker_refused-delete_example =
    worker_refused-delete kind_os unknown 77 stale_worker early [] default_job start_locals 0
      (record ((made kind_os unknown early).kernel) { next = 1002 })
      (record { room = refl; device = refl; refused = refl; stale_pointer = refl; no_block = refl })
