-- ===== src/Api/Runs.antt =====
-- Calls of the library by processes over the driver's handlers.
use linber.Prelude.{◌≡◌, refl, true, false, some, [], arith}
use linber.Prelude.Int.{pos, negsuc}
use linber.Driver.Ioctl.{linber_ioctl}
use linber.Driver.Kernel.{ok, update}
use linber.Driver.Quiet.{ioctl_get_response-Quiet}
use linber.Driver.Params.{Ioctl, register_service_worker}
use linber.Driver.Tests.{calm, uri, asks, state, registered}
use linber.Api.Client.{
  Locals, linber_request_service, linber_request_service_shm, linber_request_service_get_response,
}
use linber.Api.Connection.{ioctl_send-device, ioctl_send_once}
use linber.Api.Device.{ioctl_send}
use linber.Api.Ensures.{Ensures}
use linber.Api.Process.{User, Os, returns, segv, in_kernel}
use linber.Api.Response.{responses-Released, Released}
use linber.Api.Worker.{linber_register_service_worker}
use linber.Api.WorkerFile.{register_worker_overflow}

-- Everything succeeds for the process 2.
abbrev pub kind_os : Os
kind_os = record {
  device = linber_ioctl (calm 2 0);
  open_device = pos 3;
  clock = some (3, 5);
  malloc = λ _. true;
  ftok = λ _ id. some id;
  shmget = λ key _. some key;
  shmat = λ _. true;
  creat = λ _. true;
}

-- A process with nothing in memory, once the service of the tests is registered.
abbrev pub fresh : User
fresh = record {
  kernel = state registered;
  linber_fd = negsuc 0;
  is_open = false;
  heap = [];
  attached = [];
  doomed = [];
  files = [];
  next = 5000;
}

abbrev pub connected : User
connected = record fresh { linber_fd = pos 3; is_open = true }

-- The worker's id goes to the address 301.
abbrev joins : Ioctl
joins = register_service_worker uri (record { service_token = 77; ptr_worker_id = 301 })

abbrev pub locals : Locals
locals = record { token = 401; response_key = 402; response_shm_id = 403; param = asks }

-- A driver that gives the id 10.
abbrev tenth : Os
tenth = record kind_os {
  device = λ _ k. ok (pos 0) (record k { user_word = update k.user_word 301 10 });
}

ioctl_send-device_example :
    ioctl_send kind_os joins connected
    ≡ in_kernel connected (kind_os.device joins (state registered))
ioctl_send-device_example = ioctl_send-device kind_os joins connected refl refl

ioctl_send_once_example :
    Ensures
      (λ _ v. ioctl_send kind_os joins v ≡ returns (negsuc 8) v)
      (ioctl_send kind_os joins fresh)
ioctl_send_once_example = ioctl_send_once kind_os kind_os joins joins fresh refl refl

responses-Released_example :
    Ensures
      (Released connected 310)
      (linber_request_service kind_os uri locals 20 500 3 312 310 connected)
    × Ensures
        (Released connected 310)
        (linber_request_service_shm kind_os uri locals 20 7 3 312 310 connected)
    × Ensures
        (Released connected 310)
        (linber_request_service_get_response kind_os uri locals 312 310 311 900 connected)
responses-Released_example =
    responses-Released kind_os uri locals 312 310
      (λ p k. (ioctl_get_response-Quiet (calm 2 0) uri p).from k) refl 20 500 7 3 311 900 connected
      refl

register_worker_overflow_example :
    linber_register_service_worker tenth uri 77 301 0 connected ≡ segv
unfolding update
register_worker_overflow_example =
    register_worker_overflow tenth uri 77 301 0 10 connected
      (record (connected.kernel) { user_word = update connected.kernel.user_word 301 10 })
      (record {
        connected = refl;
        opened = refl;
        granted = refl;
        assigned = refl;
        low = omega arith;
        room = refl;
      })
      refl (omega arith)
