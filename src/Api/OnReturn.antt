-- ===== src/Api/OnReturn.antt =====
-- What holds of the results of a run of a process that may also stop at a bad pointer.
use linber.Prelude.{Bool, true, false, if◌then◌else◌}
use linber.Driver.Kernel.{Kernel}
use linber.Api.Process.{User, Prog, U, returns, segv, panic, stuck, blocks, then_prog}

abbrev pub OnReturn : {A : Type 0} → (A → User → Type 0) → Prog A → Type 0
OnReturn Q (returns a u) = Q a u
OnReturn Q segv = Unit
OnReturn Q panic = Unit
OnReturn Q stuck = Unit
OnReturn Q (blocks w k go) = (k' : Kernel) → OnReturn Q (go k')

pub OnReturn-then :
    {A B : Type 0} (P : A → User → Type 0) (Q : B → User → Type 0) (r : Prog A) (f : A → U B)
    → OnReturn P r
    → ((a : A) (u : User) → P a u → OnReturn Q (f a u))
    → OnReturn Q (then_prog r f)
OnReturn-then P Q (returns a u) f h g = g a u h
OnReturn-then P Q segv f h g = tt
OnReturn-then P Q panic f h g = tt
OnReturn-then P Q stuck f h g = tt
OnReturn-then P Q (blocks w k go) f h g = λ k'. OnReturn-then P Q (go k') f (h k') g

-- Whatever the first step does.
pub OnReturn-after :
    {A B : Type 0} (Q : B → User → Type 0) (r : Prog A) (f : A → U B)
    → ((a : A) (u : User) → OnReturn Q (f a u))
    → OnReturn Q (then_prog r f)
OnReturn-after Q (returns a u) f g = g a u
OnReturn-after Q segv f g = tt
OnReturn-after Q panic f g = tt
OnReturn-after Q stuck f g = tt
OnReturn-after Q (blocks w k go) f g = λ k'. OnReturn-after Q (go k') f g

pub OnReturn-if :
    {A : Type 0} (Q : A → User → Type 0) (b : Bool) (m n : U A) (u : User)
    → OnReturn Q (m u)
    → OnReturn Q (n u)
    → OnReturn Q ((if b then m else n) u)
OnReturn-if Q true m n u h g = h
OnReturn-if Q false m n u h g = g
