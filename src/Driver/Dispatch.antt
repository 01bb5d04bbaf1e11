-- ===== src/Driver/Dispatch.antt =====
-- The scheduling policy of a worker that takes a request, in driver/linber_main.c.
pub mod Choice
use linber.Prelude.{ℕ, ◌%◌, ◌^◌, ◌-◌, Bool, true, false, some, ◌==◌, ◌||◌, ltb, leb, if◌then◌else◌}
use linber.Words.{u32_mod, sub64}
use linber.Types.{RequestNode, ServiceNode}
use linber.Driver.Kernel
use linber.Driver.Kernel.{
  M, Env, Policy, sched_fifo, sched_deadline, ◌>>=◌, ◌>>◌, pure, skip, update,
}

-- sched_setattr of the current process; a refusal changes nothing.
abbrev pub sched_setattr : Env → Policy → M Bool
sched_setattr env policy k =
    if env.setattr policy
    then Kernel.ok true (record k { sched = update k.sched env.current (some policy) })
    else Kernel.ok false k

unfoldable pub dispatch_as_best_effort : Env → M (Unit {0})
dispatch_as_best_effort env = do done ← sched_setattr env (sched_fifo 99); skip

unfoldable pub dispatch_as_real_time : Env → (exec_time_ns period_ns rel_deadline_ns : ℕ) → M Bool
dispatch_as_real_time env exec_time_ns period_ns rel_deadline_ns =
    sched_setattr env (sched_deadline exec_time_ns rel_deadline_ns period_ns)

-- `int rel_deadline_ns = abs_deadline - now`, by its 32 bits, and the test `<= 0`.
abbrev pub rel_deadline : (abs_deadline_ns now : ℕ) → ℕ
rel_deadline abs_deadline_ns now = sub64 abs_deadline_ns now % u32_mod

abbrev pub is_expired : ℕ → Bool
is_expired rel = rel == 0 || leb (2 ^ 31) rel

-- `rel > period ? period : rel`, for a positive int against an unsigned one.
abbrev pub cap_deadline : (rel period : ℕ) → ℕ
cap_deadline rel period = if ltb period rel then period else rel

-- The part of linber_Start_Job that sets the policy for the request taken.
unfoldable pub dispatch : Env → ServiceNode → RequestNode → M (Unit {0})
dispatch env s r =
    if r.abs_deadline_ns == 2 ^ 64 - 1
    then dispatch_as_best_effort env
    else let rel = rel_deadline r.abs_deadline_ns env.now in
      if is_expired rel then dispatch_as_best_effort env else do
        done ← dispatch_as_real_time env s.budget s.period (cap_deadline rel s.period)
        if done then skip else dispatch_as_best_effort env
