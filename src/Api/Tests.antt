-- ===== src/Api/Tests.antt =====
-- Deadlines and budgets at concrete values.
use linber.Prelude.{◌+◌, ◌≡◌, ◌^◌, ◌-◌, none, some, arith}
use linber.Prelude.{refl, []}
use linber.Prelude.Int.{pos}
use linber.Tree.{inorder}
use linber.Requests.Order.{InWindow, Ascending}
use linber.Requests.Queue.{pending, edf_insert}
use linber.Driver.Kernel.{exit}
use linber.Driver.Params.{request_waiting}
use linber.Driver.Client.{linber_request_service}
use linber.Driver.Client.Enqueue.{queued}
use linber.Driver.Client.Queued.{inserted}
use linber.Driver.Tests.{calm, uri, asks, service, small, known}
use linber.Api.{abs_deadline, registration_params, no_blocking_params}
use linber.Api.Send.{no_blocking-queued}
use linber.Api.Deadlines.{abs_deadline-exact, abs_deadline_wraps, registration-exact}

abs_deadline-exact_example :
    (abs_deadline (some (3, 5)) 20 ≡ 3_020_000_005) × (abs_deadline none 20 ≡ 2 ^ 64 - 1)
abs_deadline-exact_example = abs_deadline-exact 3 5 20 (omega arith) (omega arith)

-- A deadline of 5 s.
abs_deadline_wraps_example : abs_deadline (some (3, 5)) 5000 + 2 ^ 32 ≡ 8_000_000_005
abs_deadline_wraps_example = abs_deadline_wraps 3 5 5000 (omega arith) (omega arith) (omega arith)

registration-exact_example : registration_params 5 2 300 100 2 ≡ record {
  max_working = 2;
  ptr_service_token = 300;
  exec_time_ns = 5_250_000;
  service_period_ns = 100_000_000;
  service_budget_ns = 10_500_000;
}
registration-exact_example =
    registration-exact 5 2 300 100 2 (omega arith) (omega arith) (omega arith)

due_soon : InWindow 0 (abs_deadline (some (3, 5)) 20)
unfolding abs_deadline
due_soon = record { word = omega arith; near = omega arith }

no_blocking-queued_example :
    let p = no_blocking_params asks (some (3, 5)) 20 311 500 3 in
    let tree = (inserted (calm 3 0) small p service).1 in
    (linber_request_service (calm 3 0) uri p small
      ≡ exit (pos request_waiting) (queued (calm 3 0) small p 1002 service tree))
    × (pending (inorder tree) ≡ edf_insert 0 (abs_deadline (some (3, 5)) 20, 1001) [])
    × Ascending 0 (inorder tree)
no_blocking-queued_example =
    no_blocking-queued (calm 3 0) uri small 1002 0 service asks (some (3, 5)) 20 311 500 3
      (record { linber_free = refl; known = known; here = refl; free = refl; alive = refl })
      (record { request_memory = refl; data_memory = refl; request_copy = refl; token_copy = refl })
      refl refl (omega arith) due_soon tt
