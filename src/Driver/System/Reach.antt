-- ===== src/Driver/System/Reach.antt =====
-- The processes that call driver/linber_main.c, one after another between their sleeps: the states
-- that they reach from a module that has just been loaded.
use linber.Prelude.{ℕ, ◌≡◌, subst, Option, none, some, List, [], ◌∷◌, ◌++◌, All}
use mathlib.Core.Option.{some-injective, none-ne-some}
use mathlib.Core.Bool.{false≢true}
use linber.Prelude.Int.{ℤ}
use linber.Services.{get_service_node}
use linber.Driver.Kernel.{Kernel, Run, ok, exit, oops, hang, sleep, Wait, Env, lower}
use linber.Driver.Module.{init_linber}
use linber.Driver.Ioctl.{linber_ioctl}
use linber.Driver.Params.{Ioctl, SystemStatus, ServiceStatus}
use linber.Driver.System.{Sound}
use linber.Driver.System.Calls.{ioctl-Kept}
use linber.Driver.System.Keeps.{Keeps}
use linber.Driver.System.Stores.{lower-Sound}

-- A process that sleeps in a call, and how it goes on.
pub record Task : Type 0 where
  pub waits_for : Wait
  pub go_on : Kernel → Run ℤ

pub record System : Type 0 where
  pub memory : Kernel
  pub tasks : List Task

-- A run up to its end or its next sleep. One that meets a bad pointer, or takes a mutex that nobody
-- gives back, leads nowhere.
abbrev pub settle : List Task → Run ℤ → Option System
settle tasks (ok r k) = some (record { memory = k; tasks = tasks })
settle tasks (exit r k) = some (record { memory = k; tasks = tasks })
settle tasks oops = none
settle tasks hang = none
settle tasks (sleep w k go) = some (record {
  memory = k;
  tasks = (let t : Task = record { waits_for = w; go_on = go } in t) ∷ tasks;
})

-- The processes write their own memory.
pub record UserMemory : Type 0 where
  pub words : ℕ → ℕ
  pub bytes : ℕ → List ℕ
  pub status : ℕ → SystemStatus
  pub services : ℕ → List ServiceStatus

abbrev write_user : UserMemory → Kernel → Kernel
write_user m k = record k {
  user_word = m.words;
  user_bytes = m.bytes;
  user_status = m.status;
  user_services = m.services;
}

pub data Step : System → System → Type 0 where
  -- A process makes a call.
  call :
      (env : Env) (cmd : Ioctl) (a b : System)
      → settle a.tasks (linber_ioctl env cmd a.memory) ≡ some b
      → Step a b
  -- One that sleeps is woken through its semaphore, or by a signal.
  wake :
      (before after : List Task) (t : Task) (a b : System)
      → a.tasks ≡ before ++ (t ∷ after)
      → settle (before ++ after) (t.go_on (lower t.waits_for a.memory)) ≡ some b
      → Step a b
  signal :
      (before after : List Task) (t : Task) (a b : System)
      → a.tasks ≡ before ++ (t ∷ after)
      → settle (before ++ after) (t.go_on a.memory) ≡ some b
      → Step a b
  writes : (m : UserMemory) (a : System) → Step a (record a { memory = write_user m a.memory })

-- No service and no request yet.
abbrev pub loaded : Kernel → Kernel
loaded k = record k {
  requests = λ _. none;
  services = λ _. none;
  buffers = λ _. none;
  linber = init_linber;
}

pub data Reached : System → Type 0 where
  boots : (k : Kernel) → Reached (record { memory = loaded k; tasks = [] })
  steps_to : (a b : System) → Reached a → Step a b → Reached b

abbrev pub Continues : Task → Type 0
Continues t = (k : Kernel) → Sound k → Keeps (t.go_on k)

abbrev pub SoundSystem : System → Type 0
SoundSystem a = Sound a.memory × All Continues a.tasks

settled :
    (tasks : List Task) (r : Run ℤ) (b : System)
    → Keeps r
    → All Continues tasks
    → settle tasks r ≡ some b
    → SoundSystem b
settled tasks (ok a k) b h ts e = subst SoundSystem (some-injective _ b e) (h, ts)
settled tasks (exit a k) b h ts e = subst SoundSystem (some-injective _ b e) (h, ts)
settled tasks oops b h ts e = cc
settled tasks hang b h ts e = cc
settled tasks (sleep w k go) b h ts e = subst SoundSystem (some-injective _ b e) (h.0, (h.1, ts))

All-without :
    (before after : List Task) (t : Task)
    → All Continues (before ++ (t ∷ after))
    → Continues t × All Continues (before ++ after)
All-without [] after t h = h
All-without (x ∷ before) after t h =
    let (c, rest) = All-without before after t h.1 in (c, (h.0, rest))

Step-SoundSystem : (a b : System) → SoundSystem a → Step a b → SoundSystem b
Step-SoundSystem a b h (call env cmd _ _ e) =
    settled a.tasks (linber_ioctl env cmd a.memory) b ((ioctl-Kept env cmd).from a.memory h.0) h.1 e
Step-SoundSystem a b h (wake before after t _ _ at e) =
    let (c, rest) = All-without before after t (subst (All Continues) at h.1) in
    settled (before ++ after) (t.go_on (lower t.waits_for a.memory)) b
      (c (lower t.waits_for a.memory) (lower-Sound t.waits_for a.memory h.0)) rest e
Step-SoundSystem a b h (signal before after t _ _ at e) =
    let (c, rest) = All-without before after t (subst (All Continues) at h.1) in
    settled (before ++ after) (t.go_on a.memory) b (c a.memory h.0) rest e
Step-SoundSystem a b h (writes m _) = h

loaded-Sound : (k : Kernel) → Sound (loaded k)
unfolding get_service_node
loaded-Sound k = record {
  whole = λ p s e. absurd (none-ne-some s e);
  below = λ p s e. absurd (none-ne-some s e);
  listed = λ p e. absurd (false≢true e);
  sorted = tt;
  mapped = λ uri p e. absurd (none-ne-some p e);
}

-- In every state that the module reaches from its loading, by any ioctl calls of any processes in
-- any order, which sleep and are woken or get signals between other calls, and by any writes of the
-- processes to their own memory, the memory of the driver is sound: each service has as many slots
-- as workers it may have, and no more worker ids given; the tree of services is sorted; each uri in
-- it is mapped to a service that is allocated and has this uri; each service and each entry of the
-- list of services stands below the next address to be allocated. Each sleeping process goes on
-- soundly from any sound memory. A call that meets a bad pointer or waits for a mutex without end
-- is followed no further.
pub Reached-SoundSystem : (a : System) → Reached a → SoundSystem a
Reached-SoundSystem a (boots k) = (loaded-Sound k, tt)
Reached-SoundSystem b (steps_to a _ r s) = Step-SoundSystem a b (Reached-SoundSystem a r) s
