-- ===== src/Driver/Params.antt =====
-- libs/inc/linber_ioctl.h: the status codes and the parameters of each operation. A pointer into
-- user space is a number; an `int` or `unsigned int` is its 32 bits.
use linber.Prelude.{ℕ, ◌^◌, List}
use linber.Prelude.Int.{ℤ, pos, negsuc}

abbrev pub max_services : ℕ
max_services = 10

-- 1 << 22
abbrev pub linber_max_mem_size : ℕ
linber_max_mem_size = 2 ^ 22

abbrev pub ioctl_not_implemented : ℤ
ioctl_not_implemented = negsuc 31

abbrev pub user_memory_error : ℤ
user_memory_error = negsuc 30

abbrev pub kernel_memory_error : ℤ
kernel_memory_error = negsuc 29

abbrev pub payload_size_error : ℤ
payload_size_error = negsuc 28

abbrev pub registration_fail : ℤ
registration_fail = negsuc 1

abbrev pub registration_already_exists : ℤ
registration_already_exists = negsuc 0

abbrev pub registration_success : ℤ
registration_success = pos 0

abbrev pub request_success : ℤ
request_success = pos 0

abbrev pub abort_request : ℤ
abort_request = negsuc 0

abbrev pub request_failed : ℤ
request_failed = negsuc 1

abbrev pub service_skip_job : ℤ
service_skip_job = pos 1

abbrev pub kill_worker : ℤ
kill_worker = negsuc 0

abbrev pub service_not_exists : ℤ
service_not_exists = negsuc 2

-- The phases of a request, in the field `status`; LINBER_REQUEST_WAITING is a return code too.
abbrev pub request_init : ℕ
request_init = 0

abbrev pub request_waiting : ℕ
request_waiting = 1

abbrev pub request_completed : ℕ
request_completed = 2

pub record Registration : Type 0 where
  pub max_working : ℕ
  pub ptr_service_token : ℕ
  pub exec_time_ns : ℕ
  pub service_period_ns : ℕ
  pub service_budget_ns : ℕ

pub record RegisterWorker : Type 0 where
  pub service_token : ℕ
  pub ptr_worker_id : ℕ

pub record Request : Type 0 where
  pub blocking : ℕ
  pub request_shm_mode : ℕ
  pub ptr_response_shm_mode : ℕ
  pub status : ℕ
  pub abs_deadline_ns : ℕ
  pub ptr_token : ℕ
  pub request_len : ℕ
  pub ptr_response_len : ℕ
  pub request : ℕ
  pub ptr_response : ℕ
  pub ptr_shm_response_key : ℕ

-- `data` is the union of ptr_request and ptr_request_key.
pub record StartJob : Type 0 where
  pub worker_id : ℕ
  pub service_token : ℕ
  pub ptr_request_len : ℕ
  pub ptr_request_shm_mode : ℕ
  pub ptr_data : ℕ

pub record EndJob : Type 0 where
  pub worker_id : ℕ
  pub service_token : ℕ
  pub response_len : ℕ
  pub response_shm_mode : ℕ
  pub response : ℕ

-- system_status, with the addresses of the uri buffers in its array of service_status.
pub record SystemStatus : Type 0 where
  pub max_working : ℕ
  pub services_count : ℕ
  pub services : ℕ

pub record ServiceStatus : Type 0 where
  pub uri : ℕ
  pub uri_len : ℕ
  pub requests_count : ℕ
  pub max_working : ℕ
  pub exec_time_ms : ℕ
  pub budget_ms : ℕ
  pub period_ms : ℕ

-- An ioctl call: the operation and the member of op_params that it reads, with the uri's bytes.
pub data Ioctl : Type 0 where
  register_service : List ℕ → Registration → Ioctl
  request_service : List ℕ → Request → Ioctl
  request_service_get_response : List ℕ → Request → Ioctl
  register_service_worker : List ℕ → RegisterWorker → Ioctl
  start_job : List ℕ → StartJob → Ioctl
  start_job_get_request : List ℕ → StartJob → Ioctl
  end_job : List ℕ → EndJob → Ioctl
  destroy_service : List ℕ → (service_token : ℕ) → Ioctl
  system_status : (user : ℕ) → Ioctl
  other : List ℕ → Ioctl
