-- ===== src/Driver/Dispatch/Choice.antt =====
-- The policy that linber_Start_Job gives the worker.
use linber.Prelude.{
  ℕ, ◌+◌, ◌-◌, ◌^◌, ◌≤◌, ◌<◌, ◌≡◌, ◌⊎◌, inl, inr, true, false, some, ◌==◌, ◌||◌, ltb, leb,
  if◌then◌else◌, arith,
}
use linber.Words.{u64_mod}
use linber.Types.{RequestNode, ServiceNode}
use linber.Driver.Kernel.{Kernel, ok, Env, Policy, sched_fifo, sched_deadline, update}
use linber.Driver.Dispatch.{
  dispatch, dispatch_as_best_effort, dispatch_as_real_time, rel_deadline, cap_deadline,
}

-- The policy asked for: that of a best effort request, of one whose deadline has passed, and of one
-- whose deadline lies ahead, at the period at most.
abbrev pub policy_for : (now deadline budget period : ℕ) → Policy
policy_for now deadline budget period =
    if deadline == 2 ^ 64 - 1 || leb deadline now
    then sched_fifo 99
    else sched_deadline budget (if ltb period (deadline - now) then period else deadline - now)
        period

-- A deadline less than 2 ^ 31 ns ahead of now or at most 2 ^ 31 ns past.
abbrev pub Near : (now deadline : ℕ) → Type 0
Near now deadline = (deadline - now < 2 ^ 31) × (now - deadline ≤ 2 ^ 31)

-- The state in which the process runs under a policy.
abbrev pub scheduled : Env → Policy → Kernel → Kernel
scheduled env policy k = record k { sched = update k.sched env.current (some policy) }

-- If the process may be given any policy, the worker that takes a best effort request, at whatever
-- time, runs as FIFO of priority 99. For any other request, where the deadline is less than 2 ^ 31
-- ns ahead of now or at most 2 ^ 31 ns past, the worker runs as FIFO of priority 99 if the deadline
-- has passed, and else under the service's budget and period with the smaller of the period and the
-- time to the deadline. Nothing else changes.
pub dispatch-policy_for :
    (env : Env) (s : ServiceNode) (r : RequestNode) (k : Kernel)
    → env.now < u64_mod
    → r.abs_deadline_ns < u64_mod
    → (r.abs_deadline_ns ≡ 2 ^ 64 - 1) ⊎ Near env.now r.abs_deadline_ns
    → ((p : Policy) → env.setattr p ≡ true)
    → dispatch env s r k
      ≡ ok tt (scheduled env (policy_for env.now r.abs_deadline_ns s.budget s.period) k)
unfolding dispatch dispatch_as_best_effort dispatch_as_real_time
dispatch-policy_for env s r k wn wd (inl best) allowed =
    ground (arith, best, allowed (sched_fifo 99))
dispatch-policy_for env s r k wn wd (inr (ahead, past)) allowed = ground (
  arith,
  allowed (sched_fifo 99),
  allowed (
      sched_deadline s.budget (cap_deadline (rel_deadline r.abs_deadline_ns env.now) s.period)
        s.period),
)

-- Where sched_setattr refuses every deadline policy and grants FIFO of priority 99, the worker runs
-- under the latter for any request.
pub dispatch_refused :
    (env : Env) (s : ServiceNode) (r : RequestNode) (k : Kernel)
    → env.setattr (sched_fifo 99) ≡ true
    → ((runtime deadline period : ℕ) → env.setattr (sched_deadline runtime deadline period) ≡ false)
    → dispatch env s r k ≡ ok tt (scheduled env (sched_fifo 99) k)
unfolding dispatch dispatch_as_best_effort dispatch_as_real_time
dispatch_refused env s r k allowed refused = ground (
  arith,
  refused s.budget (cap_deadline (rel_deadline r.abs_deadline_ns env.now) s.period) s.period,
)

-- For a deadline from 2 ^ 31 up to 2 ^ 32 ns ahead of now the worker runs as if the deadline had
-- passed, as FIFO of priority 99, where that is granted.
pub dispatch_far :
    (env : Env) (s : ServiceNode) (r : RequestNode) (k : Kernel)
    → env.now < u64_mod
    → r.abs_deadline_ns < u64_mod
    → env.now + 2 ^ 31 ≤ r.abs_deadline_ns
    → r.abs_deadline_ns < env.now + 2 ^ 32
    → env.setattr (sched_fifo 99) ≡ true
    → dispatch env s r k ≡ ok tt (scheduled env (sched_fifo 99) k)
unfolding dispatch dispatch_as_best_effort dispatch_as_real_time
dispatch_far env s r k wn wd far close allowed = ground arith
