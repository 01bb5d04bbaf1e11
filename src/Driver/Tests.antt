-- ===== src/Driver/Tests.antt =====
-- A service, a worker and a client, run call by call.
pub mod Calls
pub mod Whole
use linber.Prelude.{
  inr, ◌^◌, ◌-◌, ℕ, ◌≡◌, refl, true, false, Option, none, some, List, [], ◌∷◌, ◌==◌, if◌then◌else◌,
  arith,
}
use linber.Prelude.Int.{ℤ, pos}
use linber.Tree.Plain.{plain}
use linber.Tree.{leaf, node}
use linber.Strings.{strcmp}
use linber.Services.{get_service_node}
use linber.Types.{RequestNode, ServiceNode, garbage}
use linber.Driver.Kernel.{Kernel, Run, ok, exit, oops, hang, sleep, Env, sched_fifo, sched_deadline}
use linber.Driver.Params.{
  Request, StartJob, EndJob, register_service, request_service, request_service_get_response,
  register_service_worker, start_job, start_job_get_request, end_job, kill_worker,
}
use linber.Driver.Client.{linber_request_service_get_response}
use linber.Driver.Client.Missing.{get_response-missing}
use linber.Driver.Dispatch.{dispatch}
use linber.Driver.Dispatch.{dispatch_as_best_effort}
use linber.Driver.Dispatch.Choice.{scheduled, dispatch-policy_for, dispatch_far, dispatch_refused}
use linber.Driver.Ioctl.{linber_ioctl}
use linber.Driver.Jobs.{linber_start_job, linber_start_job_get_request, linber_end_job}
use linber.Driver.Jobs.Rights.{one_worker_less, no_rights-one_worker_less}
use linber.Driver.Steps.{put_service}
use linber.Driver.Module.{init_linber}

abbrev pub stale : RequestNode
stale = record {
  request_sem = 9;
  client = 9;
  token = 9;
  abs_deadline_ns = 9;
  result_cmd = pos 9;
  request_len = 9;
  response_len = 9;
  response_shm_mode = false;
  request_shm_mode = false;
  request = garbage;
  response = garbage;
}

-- Everything succeeds for the process `pid` at the time `now`.
abbrev pub calm : ℕ → ℕ → Env
calm pid now = record {
  current = pid;
  now = now;
  random_token = 77;
  stale_request = stale;
  kmalloc = λ _. true;
  copy = λ _. true;
  setattr = λ _. true;
  request_tree = plain;
  service_tree = plain;
}

-- Just loaded, with a request of three bytes at the address 500 and a response at 600.
abbrev pub boot : Kernel
boot = record {
  requests = λ _. none;
  services = λ _. none;
  buffers = λ _. none;
  next = 1000;
  linber = init_linber;
  sched = λ _. none;
  user_word = λ _. 0;
  user_bytes = λ a. if a == 500 then 1 ∷ 2 ∷ 3 ∷ [] else if a == 600 then 4 ∷ 5 ∷ [] else [];
  user_status = λ _. record { max_working = 0; services_count = 0; services = 0 };
  user_services = λ _. [];
}

-- The result of a run and the state behind it; a sleeper is woken as soon as it sleeps.
abbrev pub finish : {A : Type 0} → Run A → Run A
finish (ok a k) = ok a k
finish (exit r k) = exit r k
finish oops = oops
finish hang = hang
finish (sleep w k go) = finish (go k)

abbrev pub state : Run ℤ → Kernel
state (ok a k) = k
state (exit r k) = k
state _ = boot

abbrev result : Run ℤ → Option ℤ
result (ok a k) = some a
result (exit r k) = some r
result _ = none

abbrev pub uri : List ℕ
uri = 97 ∷ 98 ∷ []

abbrev pub registered : Run ℤ
registered =
    linber_ioctl (calm 1 0)
      (register_service uri (record {
        max_working = 2;
        ptr_service_token = 300;
        exec_time_ns = 5;
        service_period_ns = 100;
        service_budget_ns = 10;
      }))
      boot

abbrev joined : Run ℤ
joined =
    linber_ioctl (calm 2 0)
      (register_service_worker uri (record { service_token = 77; ptr_worker_id = 301 }))
      (state registered)

abbrev pub asks : Request
asks = record {
  blocking = 0;
  request_shm_mode = 0;
  ptr_response_shm_mode = 310;
  status = 0;
  abs_deadline_ns = 1000;
  ptr_token = 311;
  request_len = 3;
  ptr_response_len = 312;
  request = 500;
  ptr_response = 700;
  ptr_shm_response_key = 313;
}

abbrev asked : Run ℤ
asked = linber_ioctl (calm 3 0) (request_service uri asks) (state joined)

abbrev pub begins : StartJob
begins = record {
  worker_id = 0;
  service_token = 77;
  ptr_request_len = 320;
  ptr_request_shm_mode = 321;
  ptr_data = 710;
}

abbrev started : Run ℤ
started = finish (linber_ioctl (calm 2 10) (start_job uri begins) (state asked))

abbrev fetched : Run ℤ
fetched = linber_ioctl (calm 2 10) (start_job_get_request uri begins) (state started)

abbrev pub ends : EndJob
ends = record {
  worker_id = 0;
  service_token = 77;
  response_len = 2;
  response_shm_mode = 0;
  response = 600;
}

abbrev ended : Run ℤ
ended = linber_ioctl (calm 2 20) (end_job uri ends) (state fetched)

abbrev answered : Run ℤ
answered =
    finish
      (linber_ioctl (calm 3 30) (request_service uri (record asks { status = 1 })) (state ended))

abbrev delivered : Run ℤ
delivered = linber_ioctl (calm 3 40) (request_service_get_response uri asks) (state answered)

abbrev lifecycle_results : List (Option ℤ)
lifecycle_results =
    result registered
    ∷ result joined
    ∷ result asked
    ∷ result started
    ∷ result fetched
    ∷ result ended
    ∷ result answered
    ∷ result delivered
    ∷ []

abbrev lifecycle_bytes : List ℕ × List ℕ × ℕ
lifecycle_bytes = (
  (state delivered).user_bytes 710,
  (state delivered).user_bytes 700,
  (state delivered).user_word 312,
)

-- The service at 1002 has the uri of the tests and the token 77, a free slot and no request.
abbrev pub service : ServiceNode
service = record {
  service_mutex = false;
  requests_rbtree = leaf;
  completed_requests = [];
  uri = uri;
  next_req_token = 5;
  token = 77;
  period = 100;
  budget = 10;
  exec_time_ns = 5;
  request_count = 0;
  destroy_me = false;
  workers = record {
    worker_slots =
        record { task = some 2; request = none } ∷ record { task = none; request = none } ∷ [];
    max_workers = 2;
    count_registered = 1;
    next_id = 1;
    sem_for_request = 0;
  };
}

abbrev pub small : Kernel
small = record boot {
  services = λ p. if p == 1002 then some service else none;
  linber = record {
    services_rbtree = node leaf (record { service_uri = uri; service = 1002 }) leaf;
    services = 1002 ∷ [];
    services_count = 1;
    request_count = 0;
    max_working = 2;
    mutex = false;
  };
}

pub known : get_service_node small.linber.services_rbtree uri ≡ some 1002
unfolding get_service_node strcmp
known = refl

get_response-missing_example : linber_request_service_get_response (calm 3 0) uri asks small ≡ oops
get_response-missing_example =
    get_response-missing (calm 3 0) uri asks small 1002 service refl known refl refl refl refl tt

no_rights-one_worker_less_example :
    let out = ok kill_worker (put_service small 1002 (one_worker_less service)) in
    (linber_start_job (calm 9 0) uri (record begins { service_token = 1 }) small ≡ out)
    × (linber_start_job_get_request (calm 9 0) uri (record begins { service_token = 1 }) small
        ≡ out)
    × (linber_end_job (calm 9 0) uri (record ends { worker_id = 2 }) small ≡ out)
no_rights-one_worker_less_example =
    no_rights-one_worker_less (calm 9 0) uri small 1002 service refl known refl refl
      (record begins { service_token = 1 }) (record ends { worker_id = 2 }) refl refl

-- Due 5 s after boot.
abbrev due : RequestNode
due = record stale { abs_deadline_ns = 5_000_000_000 }

dispatch-policy_for_example :
    dispatch (calm 2 4_999_999_950) service due small
    ≡ ok tt (scheduled (calm 2 4_999_999_950) (sched_deadline 10 50 100) small)
dispatch-policy_for_example =
    dispatch-policy_for (calm 2 4_999_999_950) service due small (omega arith) (omega arith)
      (inr (omega arith, omega arith)) (λ p. refl)

-- A best effort request long after boot.
dispatch_best_effort :
    dispatch (calm 2 4_999_999_950) service (record stale { abs_deadline_ns = 2 ^ 64 - 1 }) small
    ≡ ok tt (scheduled (calm 2 4_999_999_950) (sched_fifo 99) small)
unfolding dispatch dispatch_as_best_effort
dispatch_best_effort = refl

dispatch_far_example :
    dispatch (calm 2 2_000_000_000) service due small
    ≡ ok tt (scheduled (calm 2 2_000_000_000) (sched_fifo 99) small)
dispatch_far_example =
    dispatch_far (calm 2 2_000_000_000) service due small (omega arith) (omega arith) (omega arith)
      (omega arith) refl

abbrev unprivileged : Env
unprivileged = record (calm 2 0) {
  setattr = λ p. elim p [ sched_fifo n ↦ true | sched_deadline q d t ↦ false ];
}

dispatch_refused_example :
    dispatch unprivileged service due small ≡ ok tt (scheduled unprivileged (sched_fifo 99) small)
dispatch_refused_example = dispatch_refused unprivileged service due small refl (λ q d t. refl)
