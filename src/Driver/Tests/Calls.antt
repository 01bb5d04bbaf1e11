-- ===== src/Driver/Tests/Calls.antt =====
-- Concrete calls of the handlers of driver/linber_main.c.
use linber.Prelude.{
  inr, true, false, Bool, ℕ, ◌≡◌, refl, false, none, some, List, [], ◌∷◌, ◌==◌, if◌then◌else◌,
  arith,
}
use linber.Prelude.Int.{ℤ, pos}
use linber.Tree.{leaf, node, inorder}
use linber.Types.{RequestNode, ServiceNode, buffer}
use linber.Requests.{remove_first_request}
use linber.Requests.Order.{Ascending}
use linber.Requests.Queue.{pending, edf_insert}
use linber.Services.{get_service_node}
use linber.Services.Directory.{IsSorted}
use linber.Services.Sequence as Sequence
use linber.Driver.Kernel.{
  Kernel, Run, ok, exit, oops, and_then, down_interruptible, sem_for_request, Env, of_slots,
}
use linber.Driver.Params.{Registration, request_success, request_waiting, registration_success}
use linber.Driver.Client.{
  linber_register_service, linber_request_service, linber_request_service_get_response,
}
use linber.Driver.Client.Deliver.{delivered, end_job-get_response}
use linber.Driver.Client.Enqueue.{queued}
use linber.Driver.Client.Failed.{register_service_no_slots}
use linber.Driver.Client.Queued.{inserted, request_service-queued}
use linber.Driver.Client.Register.{with_service, register_service-known}
use linber.Driver.Jobs.{
  linber_start_job, linber_end_job, linber_destroy_service, linber_register_service_worker,
}
use linber.Driver.Jobs.Destroyed.{destroy-condemned, destroy-destroyed}
use linber.Driver.Jobs.Finish.{finished}
use linber.Driver.Jobs.Join.{joined, register_worker-joined, register_worker_full}
use linber.Driver.Jobs.Woken.{started, start_job-first}
use linber.Driver.Lifecycle.Clean.{destroyed}
use linber.Driver.Lifecycle.Destroy.{left_to_workers}
use linber.Driver.Tests.{stale, calm, boot, uri, asks, begins, ends, service, small, known}

request_service-queued_example :
    let tree = (inserted (calm 3 0) small asks service).1 in
    (linber_request_service (calm 3 0) uri asks small
      ≡ exit (pos request_waiting) (queued (calm 3 0) small asks 1002 service tree))
    × (pending (inorder tree) ≡ edf_insert 0 (1000, 1001) [])
    × Ascending 0 (inorder tree)
request_service-queued_example =
    request_service-queued (calm 3 0) small 1002 asks service
      (record { request_memory = refl; data_memory = refl; request_copy = refl; token_copy = refl })
      refl refl refl uri {base = 0}
      (record { linber_free = refl; known = known; here = refl; free = refl; alive = refl }) refl
      refl (omega arith) (omega arith) tt

-- The request that a client put at 1005, with its bytes at 1004.
abbrev asked_for : RequestNode
asked_for = record stale {
  client = 3;
  token = 5;
  abs_deadline_ns = 1000;
  request_len = 3;
  request_shm_mode = false;
  request = buffer 1004;
}

-- The service with one request pending.
abbrev loaded_service : ServiceNode
loaded_service = record service {
  requests_rbtree = node leaf (record { unique_id = 1000; request_head = 1005 ∷ [] }) leaf;
  request_count = 1;
}

abbrev with_request_at : ServiceNode → Kernel
with_request_at s = record small {
  services = λ p. if p == 1002 then some s else none;
  requests = λ p. if p == 1005 then some asked_for else none;
  buffers = λ p. if p == 1004 then some (1 ∷ 2 ∷ 3 ∷ []) else none;
  next = 1006;
  user_word = λ p. if p == 311 then 5 else 0;
}

start_job-first_example :
    let tree = (remove_first_request (calm 2 10).request_tree loaded_service.requests_rbtree).1 in
    ((go : Kernel → Run ℤ) × (linber_start_job (calm 2 10) uri begins small
        ≡ and_then (down_interruptible (sem_for_request 1002) small) (λ _. go))
      × (go (with_request_at loaded_service)
          ≡ ok (pos 0) (
              started
                (calm 2 10)
                (with_request_at loaded_service)
                begins
                1002
                loaded_service
                1005
                asked_for)))
    × (pending (inorder tree) ≡ [])
start_job-first_example =
    start_job-first (calm 2 10) uri small (with_request_at loaded_service) 1002 begins service
      loaded_service 0 1005 asked_for
      (record {
        linber_free = refl;
        known = known;
        here = refl;
        is_id = refl;
        in_range = refl;
        token = refl;
        slot = refl;
      })
      (record {
        here = refl;
        free = refl;
        alive = refl;
        slot = refl;
        sorted = (omega arith);
        first = refl;
        there = refl;
        in_memory = refl;
      })
      (record {
        now_word = omega arith;
        deadline_word = omega arith;
        near = inr (omega arith, omega arith);
      })
      (λ p. refl) refl refl

-- The service whose worker serves the request.
abbrev busy_service : ServiceNode
busy_service = record service {
  workers = record (service.workers) {
    worker_slots =
        record { task = some 2; request = some 1005 } ∷ record { task = none; request = none } ∷ [];
  };
}

end_job-get_response_example :
    let k = with_request_at busy_service in
    let k1 = finished (calm 2 20) k ends 1002 busy_service 1005 asked_for in
    (linber_end_job (calm 2 20) uri ends k ≡ ok (pos 0) k1)
    × (linber_request_service_get_response (calm 3 40) uri asks k1
        ≡ ok request_success (delivered (calm 2 20) k ends asks 1002 busy_service 1005 1004))
end_job-get_response_example =
    end_job-get_response (calm 2 20) (calm 3 40) uri (with_request_at busy_service) 1002 ends asks
      1005 1004 (1 ∷ 2 ∷ 3 ∷ []) busy_service asked_for
      (record {
        linber_free = refl;
        known = known;
        here = refl;
        free = refl;
        is_id = refl;
        in_range = refl;
        slot = refl;
        there = refl;
      })
      refl refl refl refl refl refl refl refl refl refl refl tt refl refl

destroy-condemned_example :
    linber_destroy_service (calm 1 50) uri 77 (with_request_at loaded_service)
    ≡ ok (pos 0) (left_to_workers (with_request_at loaded_service) 1002 loaded_service)
destroy-condemned_example =
    destroy-condemned (calm 1 50) uri 77 (with_request_at loaded_service) 1002 0 loaded_service refl
      known
      (record {
        here = refl;
        free = refl;
        sorted = omega arith;
        live = ((asked_for, refl), tt);
        live_completed = tt;
      })
      refl refl

-- The service without registered workers, with a completed request.
abbrev deserted_service : ServiceNode
deserted_service = record service {
  completed_requests = 1005 ∷ [];
  workers = record (service.workers) { count_registered = 0 };
}

destroy-destroyed_example :
    let k = with_request_at deserted_service in
    let after = destroyed (calm 1 50) k 1002 deserted_service in
    (linber_destroy_service (calm 1 50) uri 77 k ≡ ok (pos 0) after)
    × ((v : List ℕ)
        → get_service_node after.linber.services_rbtree v
          ≡ Sequence.update (get_service_node k.linber.services_rbtree) uri none v)
    × IsSorted (inorder after.linber.services_rbtree)
destroy-destroyed_example =
    destroy-destroyed (calm 1 50) uri 77 (with_request_at deserted_service) 1002 0 deserted_service
      refl known
      (record {
        here = refl;
        free = refl;
        sorted = tt;
        live = tt;
        live_completed = ((asked_for, refl), tt);
      })
      refl refl refl refl (tt, tt)

abbrev registers : Registration
registers = record {
  max_working = 2;
  ptr_service_token = 300;
  exec_time_ns = 5;
  service_period_ns = 100;
  service_budget_ns = 10;
}

unknown : get_service_node boot.linber.services_rbtree uri ≡ none
unfolding get_service_node
unknown = refl

register_service-known_example :
    let after = with_service (calm 1 0) boot uri registers in
    (linber_register_service (calm 1 0) uri registers boot ≡ ok registration_success after)
    × ((v : List ℕ)
        → get_service_node after.linber.services_rbtree v
          ≡ Sequence.update (get_service_node boot.linber.services_rbtree) uri (some 1000) v)
    × IsSorted (inorder after.linber.services_rbtree)
register_service-known_example =
    register_service-known (calm 1 0) boot uri registers refl unknown tt refl refl refl refl

register_worker-joined_example :
    linber_register_service_worker
      (calm 4 0)
      uri
      (record { service_token = 77; ptr_worker_id = 301 })
      small
    ≡ ok (pos 0) (
        joined
          (calm 4 0)
          small
          (record { service_token = 77; ptr_worker_id = 301 })
          1002
          service
          (record { task = none; request = none }))
register_worker-joined_example =
    register_worker-joined (calm 4 0) uri small 1002
      (record { service_token = 77; ptr_worker_id = 301 }) service refl known refl refl
      (record { task = none; request = none }) refl refl refl refl refl

abbrev full_service : ServiceNode
full_service = record service { workers = record (service.workers) { next_id = 2 } }

register_worker_full_example :
    linber_register_service_worker
      (calm 4 0)
      uri
      (record { service_token = 77; ptr_worker_id = 301 })
      (with_request_at full_service)
    ≡ ok (pos 0) (with_request_at full_service)
register_worker_full_example =
    register_worker_full (calm 4 0) uri (with_request_at full_service) 1002
      (record { service_token = 77; ptr_worker_id = 301 }) full_service refl known refl refl refl

-- All allocations succeed but that of the slots.
abbrev no_slots : Env
no_slots = record (calm 1 0) {
  kmalloc = λ a. elim a as (λ _. Bool) [ of_slots ↦ false | _ ↦ true ];
}

register_service_no_slots_example : linber_register_service no_slots uri registers boot ≡ oops
register_service_no_slots_example =
    register_service_no_slots no_slots boot uri registers refl unknown refl refl refl
