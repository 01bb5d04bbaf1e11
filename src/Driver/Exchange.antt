-- ===== src/Driver/Exchange.antt =====
-- One request from the call of the client to the delivery of the response, over the calls of both
-- sides in driver/linber_main.c: the setting and the states in between.
pub mod Delivery
use linber.Prelude.{
  ◌^◌, ℕ, zero, suc, ◌<◌, ◌≡◌, ◌∙◌, ap, sym, subst, refl, Bool, true, false, Option, some, none,
  List, [], ◌∷◌, ◌==◌, ltb, get_elem?, set, if◌then◌else◌, arith,
}
use linber.Prelude.Int.{ℤ, pos}
use linber.Words.{u64_mod}
use linber.Tree.{inorder}
use linber.Types.{ServiceNode, RequestNode, WorkerStruct}
use linber.Requests.{remove_first_request}
use linber.Requests.Order.{InWindow, Ascending}
use linber.Requests.Queue.{pending, edf_insert, first_of_queue}
use linber.Requests.Recent.{OtherTokens}
use linber.Driver.Kernel.{
  Kernel, Run, ok, exit, sleep, sem_for_request, Env, Policy, Copy, update, update_self, prefix,
  overwrite, of_request_node, of_response_data,
}
use linber.Driver.Params.{
  Request, StartJob, EndJob, linber_max_mem_size, request_init, request_waiting, request_success,
}
use linber.Driver.Client.{linber_request_service, linber_request_service_get_response}
use linber.Driver.Client.Deliver.{delivered, end_job-get_response, prefix_twice}
use linber.Driver.Client.Enqueue.{Known, Granted, queued, with_request, new_request}
use linber.Driver.Client.Queued.{inserted, request_service-queued}
use linber.Driver.Jobs.{linber_start_job, linber_start_job_get_request, linber_end_job}
use linber.Driver.Jobs.Fetch.{fetched, start_job_get_request-fetched}
use linber.Driver.Jobs.Finish.{Serving, serving, finished, answer}
use linber.Driver.Jobs.Start.{idle, with_taken}
use linber.Driver.Jobs.Woken.{Asking, Waking, Timely, started, start_job-first}
use linber.Driver.Steps.{put_service, taken}

-- The end of a job by the worker that started it.
abbrev pub by_same_worker : StartJob → EndJob → EndJob
by_same_worker q e = record e { worker_id = q.worker_id; service_token = q.service_token }

-- A client and a worker, each with what the world answers to it, a state, a service at its address,
-- and what the two ask for.
pub record Setting : Type 0 where
  pub client : Env
  pub worker : Env
  pub uri : List ℕ
  pub state : Kernel
  pub ser_node : ℕ
  pub base : ℕ
  pub service : ServiceNode
  pub asks : Request
  pub begins : StartJob
  pub ends : EndJob

-- A client and an idle worker of a service, and a request that is due before all pending ones.
pub record Ready (x : Setting) : Type 0 where
  pub service : Known x.uri x.state x.ser_node x.service
  pub granted : Granted x.client
  pub node_memory : x.client.kmalloc of_request_node ≡ true
  pub answer_memory : x.worker.kmalloc of_response_data ≡ true
  pub copies : (c : Copy) → x.client.copy c ≡ true
  pub worker_copies : (c : Copy) → x.worker.copy c ≡ true
  pub policies : (y : Policy) → x.worker.setattr y ≡ true
  pub is_init : (x.asks.status == request_init) ≡ true
  pub in_memory : (x.asks.request_shm_mode == 1) ≡ false
  pub not_blocking : (x.asks.blocking == 1) ≡ false
  pub short : ltb linber_max_mem_size x.asks.request_len ≡ false
  pub word : x.base < u64_mod
  pub window : InWindow x.base x.asks.abs_deadline_ns
  pub sorted : Ascending x.base (inorder x.service.requests_rbtree)
  pub first :
      first_of_queue (
        edf_insert x.base
          (x.asks.abs_deadline_ns, suc x.state.next)
          (pending (inorder x.service.requests_rbtree)))
      ≡ some (suc x.state.next)
  pub is_id : ltb x.begins.worker_id (2 ^ 31) ≡ true
  pub in_range : ltb x.begins.worker_id x.service.workers.max_workers ≡ true
  pub token : x.service.token ≡ x.begins.service_token
  pub slot : get_elem? x.service.workers.worker_slots x.begins.worker_id ≡ some (idle x.worker)
  pub timely :
      Timely x.worker
        (new_request x.client x.service x.state.next x.asks.request_len x.asks.abs_deadline_ns)
  pub fresh : x.state.requests (suc x.state.next) ≡ none
  pub others : OtherTokens x.state.requests x.service.next_req_token x.service.completed_requests
  pub len_elsewhere : (x.begins.ptr_request_len == x.asks.ptr_token) ≡ false
  pub mode_elsewhere : (x.begins.ptr_request_shm_mode == x.asks.ptr_token) ≡ false
  pub answer_in_memory : (x.ends.response_shm_mode == 1) ≡ false
  pub answer_short : ltb linber_max_mem_size x.ends.response_len ≡ false

-- The states after each of the calls.
module _ (x : Setting) where
  abbrev pub new : RequestNode
  new = new_request x.client x.service x.state.next x.asks.request_len x.asks.abs_deadline_ns

  abbrev pub sent_service : ServiceNode
  sent_service = with_request x.service (inserted x.client x.state x.asks x.service).1

  abbrev pub sent : Kernel
  sent =
      queued x.client x.state x.asks x.ser_node x.service
        (inserted x.client x.state x.asks x.service).1

  -- The worker finds the semaphore up, and lowers it.
  abbrev pub let_in : Kernel
  let_in = put_service sent x.ser_node (taken sent_service)

  abbrev pub begun_service : ServiceNode
  begun_service =
      with_taken x.worker (taken sent_service) x.begins.worker_id (suc x.state.next)
        (remove_first_request x.worker.request_tree
          (inserted x.client x.state x.asks x.service).1).1

  abbrev pub begun : Kernel
  begun = started x.worker let_in x.begins x.ser_node (taken sent_service) (suc x.state.next) new

  abbrev pub read : Kernel
  read = fetched begun x.begins new (prefix x.asks.request_len (x.state.user_bytes x.asks.request))

  abbrev pub answered : Kernel
  answered =
      finished x.worker read (by_same_worker x.begins x.ends) x.ser_node begun_service
        (suc x.state.next) new

  abbrev pub closed : Kernel
  closed =
      delivered x.worker read (by_same_worker x.begins x.ends) x.asks x.ser_node begun_service
        (suc x.state.next) x.state.next
