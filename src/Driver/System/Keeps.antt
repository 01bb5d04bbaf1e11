-- ===== src/Driver/System/Keeps.antt =====
-- Runs of the handlers of driver/linber_main.c that keep the memory sound. A run that sleeps leaves
-- it sound, and goes on from any sound memory.
use linber.Prelude.{Bool, true, false, Option, none, some, if◌then◌else◌}
use linber.Prelude.Int.{ℤ}
use linber.Driver.Kernel.{Kernel, Run, ok, exit, oops, hang, sleep, M, and_then, ◌>>=◌}
use linber.Driver.System.{Sound}

abbrev pub Keeps : {A : Type 0} → Run A → Type 0
Keeps (ok a k) = Sound k
Keeps (exit r k) = Sound k
Keeps oops = Unit
Keeps hang = Unit
Keeps (sleep w k go) = Sound k × ((k' : Kernel) → Sound k' → Keeps (go k'))

pub Keeps-then :
    {A B : Type 0} (r : Run A) (f : A → M B)
    → Keeps r
    → ((a : A) (k : Kernel) → Sound k → Keeps (f a k))
    → Keeps (and_then r f)
Keeps-then (ok a k) f h g = g a k h
Keeps-then (exit r k) f h g = h
Keeps-then oops f h g = tt
Keeps-then hang f h g = tt
Keeps-then (sleep w k go) f h g = (h.0, λ k' s. Keeps-then (go k') f (h.1 k' s) g)

pub record Kept {A : Type 0} (m : M A) : Type 0 where
  pub from : (k : Kernel) → Sound k → Keeps (m k)

pub Kept-bind :
    {A B : Type 0} {m : M A} {f : A → M B} → Kept m → ((a : A) → Kept (f a)) → Kept (m >>= f)
Kept-bind {m} {f} h g = record {
  from = λ k s. Keeps-then (m k) f (h.from k s) (λ a k' s'. (g a).from k' s');
}

-- The two cases of an option that a step gives.
pub Kept-choose :
    {A B : Type 0} {m : M (Option A)} (f : Option A → M B)
    → Kept m
    → Kept (f none)
    → ((a : A) → Kept (f (some a)))
    → Kept (m >>= f)
Kept-choose {A} f h n g = Kept-bind h go
  where
    go : (o : Option A) → Kept (f o)
    go none = n
    go (some a) = g a

pub Kept-if : {A : Type 0} {m n : M A} (b : Bool) → Kept m → Kept n → Kept (if b then m else n)
Kept-if true h g = h
Kept-if false h g = g

pub Kept-ok : {A : Type 0} {a : A} → Kept (ok a)
Kept-ok = record { from = λ k s. s }

pub Kept-exit : {A : Type 0} (r : ℤ) → Kept {A = A} (exit r)
Kept-exit r = record { from = λ k s. s }

pub Kept-fault : {A : Type 0} → Kept {A = A} (λ k. oops)
Kept-fault = record { from = λ k s. tt }
