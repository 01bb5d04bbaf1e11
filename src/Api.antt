-- ===== src/Api.antt =====
-- libs/src/linber_service_api.c: the parameters that the functions of the user library send through
-- ioctl. `stack` is what the memory of the parameters held before, and the clock gives seconds and
-- nanoseconds since boot, or fails.
pub mod Deadlines
pub mod Ensures
pub mod Response
pub mod WorkerFile
pub mod Words
pub mod OnReturn
pub mod Connection
pub mod Process
pub mod Device
pub mod Shm
pub mod Client
pub mod Worker
pub mod Send
pub mod Tests
pub mod Runs
use linber.Prelude.{ℕ, ◌+◌, ◌*◌, ◌/◌, ◌%◌, ◌^◌, ◌-◌, Option, none, some, ◌==◌, if◌then◌else◌}
use linber.Words.{u32_mod, u64_mod}
use linber.Driver.Params.{Registration, Request, request_init, request_waiting}

-- mSEC_TO_nSEX of an unsigned int: the product is one too.
abbrev pub msec_to_nsec : ℕ → ℕ
msec_to_nsec msec = (msec * 1000000) % u32_mod

-- SEC_TO_nSEC of a time_t.
abbrev pub sec_to_nsec : ℕ → ℕ
sec_to_nsec sec = sec * 1000000000

-- The absolute deadline; -1 is the greatest unsigned long.
unfoldable pub abs_deadline : Option (ℕ × ℕ) → (rel_deadline_ms : ℕ) → ℕ
abs_deadline none rel_deadline_ms = 2 ^ 64 - 1
abs_deadline (some now) rel_deadline_ms =
    if rel_deadline_ms == 0
    then 2 ^ 64 - 1
    else (sec_to_nsec now.0 + now.1 + msec_to_nsec rel_deadline_ms) % u64_mod

-- linber_register_service: 5% is added to the execution time.
unfoldable pub registration_params :
    (exec_time max_workers service_token service_period request_per_period : ℕ) → Registration
registration_params exec_time max_workers service_token service_period request_per_period =
    let exec = msec_to_nsec exec_time in
    let exec_time_ns = exec + exec * 5 / 100 in
    record {
      max_working = max_workers;
      ptr_service_token = service_token;
      exec_time_ns = exec_time_ns;
      service_period_ns = msec_to_nsec service_period;
      service_budget_ns = exec_time_ns * request_per_period % u32_mod;
    }

module _ (stack : Request) (now : Option (ℕ × ℕ)) (rel_deadline_ms : ℕ) where
  -- linber_request_service
  unfoldable pub request_service_params :
      (token request request_len response_len response_shm_mode response_key : ℕ) → Request
  request_service_params token request request_len response_len response_shm_mode response_key =
      record stack {
        blocking = 1;
        abs_deadline_ns = abs_deadline now rel_deadline_ms;
        ptr_token = token;
        status = request_init;
        request_len = request_len;
        request_shm_mode = 0;
        request = request;
        ptr_response_len = response_len;
        ptr_response_shm_mode = response_shm_mode;
        ptr_shm_response_key = response_key;
      }

  -- linber_request_service_shm
  unfoldable pub request_service_shm_params :
      (token request_key request_len response_len response_shm_mode response_key : ℕ) → Request
  request_service_shm_params token request_key request_len response_len response_shm_mode
        response_key =
      record stack {
        blocking = 1;
        abs_deadline_ns = abs_deadline now rel_deadline_ms;
        ptr_token = token;
        status = request_init;
        request_len = request_len;
        request_shm_mode = 1;
        request = request_key;
        ptr_response_len = response_len;
        ptr_response_shm_mode = response_shm_mode;
        ptr_shm_response_key = response_key;
      }

  -- linber_request_service_no_blocking
  unfoldable pub no_blocking_params : (token request request_len : ℕ) → Request
  no_blocking_params token request request_len = record stack {
    blocking = 0;
    abs_deadline_ns = abs_deadline now rel_deadline_ms;
    ptr_token = token;
    status = request_init;
    request_len = request_len;
    request_shm_mode = 0;
    request = request;
  }

  -- linber_request_service_no_blocking_shm
  unfoldable pub no_blocking_shm_params : (token request_key request_len : ℕ) → Request
  no_blocking_shm_params token request_key request_len = record stack {
    blocking = 0;
    abs_deadline_ns = abs_deadline now rel_deadline_ms;
    ptr_token = token;
    status = request_init;
    request_len = request_len;
    request_shm_mode = 1;
    request = request_key;
  }

-- linber_request_service_get_response
unfoldable pub get_response_params :
    (stack : Request) (token abs_deadline response_len response_shm_mode response_key : ℕ) → Request
get_response_params stack token abs_deadline response_len response_shm_mode response_key =
    record stack {
      ptr_token = token;
      abs_deadline_ns = abs_deadline;
      status = request_waiting;
      ptr_response_len = response_len;
      ptr_response_shm_mode = response_shm_mode;
      ptr_shm_response_key = response_key;
    }
