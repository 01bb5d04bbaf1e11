-- ===== src/Types.antt =====
-- driver/inc/linber_types.h and the tree nodes of driver/inc/linber_RBtree.h. Pointers to requests
-- and services are addresses of the kernel heap; a `list_head` is the list of what it links.
use linber.Prelude.{ℕ, Bool, Option, List}
use linber.Prelude.Int.{ℤ}
use linber.Tree.{Tree}

-- The unions `request` and `response`: the address of a kernel buffer, a shared memory key, or what
-- kmalloc left there.
pub data Payload : Type 0 where
  buffer : ℕ → Payload
  shm_key : ℕ → Payload
  garbage : Payload

pub record RequestNode : Type 0 where
  pub request_sem : ℕ
  pub client : ℕ
  pub token : ℕ
  pub abs_deadline_ns : ℕ
  pub result_cmd : ℤ
  pub request_len : ℕ
  pub response_len : ℕ
  pub response_shm_mode : Bool
  pub request_shm_mode : Bool
  pub request : Payload
  pub response : Payload

-- RBtree_RequestNode: the requests of one deadline, oldest first.
pub record RequestEntry : Type 0 where
  pub unique_id : ℕ
  pub request_head : List ℕ

-- RBtree_ServiceNode. A string is the list of its bytes before the terminating NUL.
pub record ServiceEntry : Type 0 where
  pub service_uri : List ℕ
  pub service : ℕ

-- The task is the pid of the worker process, none for NULL.
pub record WorkerStruct : Type 0 where
  pub task : Option ℕ
  pub request : Option ℕ

pub record Workers : Type 0 where
  pub worker_slots : List WorkerStruct
  pub max_workers : ℕ
  pub count_registered : ℕ
  pub next_id : ℕ
  pub sem_for_request : ℕ

pub record ServiceNode : Type 0 where
  pub service_mutex : Bool
  pub requests_rbtree : Tree RequestEntry
  pub completed_requests : List ℕ
  pub uri : List ℕ
  pub next_req_token : ℕ
  pub token : ℕ
  pub period : ℕ
  pub budget : ℕ
  pub exec_time_ns : ℕ
  pub request_count : ℕ
  pub destroy_me : Bool
  pub workers : Workers

pub record LinberStruct : Type 0 where
  pub services_rbtree : Tree ServiceEntry
  pub services : List ℕ
  pub services_count : ℕ
  pub request_count : ℕ
  pub max_working : ℕ
  pub mutex : Bool
