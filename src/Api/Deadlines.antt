-- ===== src/Api/Deadlines.antt =====
-- The deadlines and budgets that the functions of libs/src/linber_service_api.c compute.
use linber.Prelude.{
  ℕ, ◌+◌, ◌*◌, ◌/◌, ◌%◌, ◌^◌, ◌-◌, ◌<◌, ◌≤◌, ◌≡◌, none, some, ◌==◌, if◌then◌else◌, ap, ◌∙◌, arith,
}
use linber.Words.{u32_mod}
use linber.Driver.Params.{Registration}
use linber.Api.{msec_to_nsec, abs_deadline, registration_params}

-- For a relative deadline of less than 2 ^ 32 ns and a time since boot of less than 2 ^ 63 ns, the
-- absolute deadline is the time and the relative one added, or the greatest unsigned long if the
-- relative one is 0 or the clock fails.
pub abs_deadline-exact :
    (sec nsec rel : ℕ)
    → rel * 1000000 < 2 ^ 32
    → sec * 1000000000 + nsec < 2 ^ 63
    → (abs_deadline (some (sec, nsec)) rel
        ≡ (if rel == 0 then 2 ^ 64 - 1 else sec * 1000000000 + nsec + rel * 1000000))
      × (abs_deadline none rel ≡ 2 ^ 64 - 1)
unfolding abs_deadline
abs_deadline-exact sec nsec rel short soon = ground arith

-- For a relative deadline from 2 ^ 32 ns to less than 2 ^ 33 ns (from 4295 ms to 8589 ms) and a
-- time since boot of less than 2 ^ 63 ns, the absolute deadline is 2 ^ 32 ns earlier than asked
-- for.
pub abs_deadline_wraps :
    (sec nsec rel : ℕ)
    → 2 ^ 32 ≤ rel * 1000000
    → rel * 1000000 < 2 ^ 33
    → sec * 1000000000 + nsec < 2 ^ 63
    → abs_deadline (some (sec, nsec)) rel + 2 ^ 32 ≡ sec * 1000000000 + nsec + rel * 1000000
unfolding abs_deadline
abs_deadline_wraps sec nsec rel long short soon = ground arith

small_mod : (y : ℕ) → y < 2 ^ 32 → y % u32_mod ≡ y
small_mod y h = omega arith

-- 5% more.
exec_time_more :
    (e : ℕ) → e * 1000000 < 2 ^ 32 → msec_to_nsec e + msec_to_nsec e * 5 / 100 ≡ e * 1050000
exec_time_more e h = omega arith

abbrev registered_as : (workers token exec period budget : ℕ) → Registration
registered_as workers token exec period budget = record {
  max_working = workers;
  ptr_service_token = token;
  exec_time_ns = exec;
  service_period_ns = period;
  service_budget_ns = budget;
}

-- Where the execution time, the period and the budget are less than 2 ^ 32 ns,
-- linber_register_service sends the execution time with 5% added, the period in nanoseconds, and as
-- budget that execution time for each request of a period.
pub registration-exact :
    (exec_time max_workers service_token service_period request_per_period : ℕ)
    → exec_time * 1000000 < 2 ^ 32
    → service_period * 1000000 < 2 ^ 32
    → exec_time * 1050000 * request_per_period < 2 ^ 32
    → registration_params exec_time max_workers service_token service_period request_per_period
      ≡ record {
        max_working = max_workers;
        ptr_service_token = service_token;
        exec_time_ns = exec_time * 1050000;
        service_period_ns = service_period * 1000000;
        service_budget_ns = exec_time * 1050000 * request_per_period;
      }
unfolding registration_params
registration-exact e m t s r short short' budget =
    ap (λ (x : ℕ). registered_as m t x (msec_to_nsec s) (x * r % u32_mod)) (exec_time_more e short)
    ∙ ap (λ (x : ℕ). registered_as m t (e * 1050000) x (e * 1050000 * r % u32_mod))
        (small_mod (s * 1000000) short')
    ∙ ap (registered_as m t (e * 1050000) (s * 1000000)) (small_mod (e * 1050000 * r) budget)
