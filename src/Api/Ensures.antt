-- ===== src/Api/Ensures.antt =====
-- What holds when a run of a process returns, whatever the other processes do while it is blocked.
-- A pointer error of its own is excluded; a fault of the kernel and a call that never ends are not.
use linber.Prelude.{ℕ, ◌≡◌, refl, ◌∙◌, Bool, true, false, if◌then◌else◌, arith}
use linber.Prelude.Int.{ℤ, pos, negsuc}
use linber.Driver.Kernel.{Kernel, Run, ok, exit, oops, hang, sleep}
use linber.Driver.Params.{Ioctl}
use linber.Api.Device.{linber_init, linber_exit, ioctl_send, result_of, error_device_file}
use linber.Api.Process.{
  User, Prog, U, returns, segv, panic, stuck, blocks, then_prog, in_kernel, Os, ioctl, syscall,
  is_negative, pure, ebadf, get_fd, ◌>>=◌,
}

abbrev pub Ensures : {A : Type 0} → (A → User → Type 0) → Prog A → Type 0
Ensures Q (returns a u) = Q a u
Ensures Q segv = ⊥
Ensures Q panic = Unit
Ensures Q stuck = Unit
Ensures Q (blocks w k go) = (k' : Kernel) → Ensures Q (go k')

pub Ensures-then :
    {A B : Type 0} (P : A → User → Type 0) (Q : B → User → Type 0) (r : Prog A) (f : A → U B)
    → Ensures P r
    → ((a : A) (u : User) → P a u → Ensures Q (f a u))
    → Ensures Q (then_prog r f)
Ensures-then P Q (returns a u) f h g = g a u h
Ensures-then P Q segv f h g = h
Ensures-then P Q panic f h g = tt
Ensures-then P Q stuck f h g = tt
Ensures-then P Q (blocks w k go) f h g = λ k'. Ensures-then P Q (go k') f (h k') g

-- A weaker claim.
pub Ensures-weaken :
    {A : Type 0} (P Q : A → User → Type 0) (r : Prog A)
    → Ensures P r
    → ((a : A) (u : User) → P a u → Q a u)
    → Ensures Q r
Ensures-weaken P Q (returns a u) h g = g a u h
Ensures-weaken P Q segv h g = h
Ensures-weaken P Q panic h g = tt
Ensures-weaken P Q stuck h g = tt
Ensures-weaken P Q (blocks w k go) h g = λ k'. Ensures-weaken P Q (go k') (h k') g

-- The memory of the process outside the driver is as before.
abbrev pub Kept : User → User → Type 0
Kept u v = (v.heap ≡ u.heap) × (v.attached ≡ u.attached) × (v.next ≡ u.next) × (v.files ≡ u.files)

pub in_kernel-Kept : (u : User) (r : Run ℤ) → Ensures (λ _. Kept u) (in_kernel u r)
in_kernel-Kept u (ok a k) = (refl, refl, refl, refl)
in_kernel-Kept u (exit a k) = (refl, refl, refl, refl)
in_kernel-Kept u oops = tt
in_kernel-Kept u hang = tt
in_kernel-Kept u (sleep w k go) = λ k'. in_kernel-Kept u (go k')

pub Kept-trans : (u v w : User) → Kept u v → Kept v w → Kept u w
Kept-trans u v w h g = (g.0 ∙ h.0, g.1 ∙ h.1, g.2 ∙ h.2, g.3 ∙ h.3)

-- Two steps that keep it.
pub Kept-then :
    {A B : Type 0} (u : User) (r : Prog A) (f : A → U B)
    → Ensures (λ _. Kept u) r
    → ((a : A) (v : User) → Ensures (λ _. Kept v) (f a v))
    → Ensures (λ _. Kept u) (then_prog r f)
Kept-then u r f h g =
    Ensures-then (λ _. Kept u) (λ _. Kept u) r f h
      λ a v k.
        Ensures-weaken (λ _. Kept v) (λ _. Kept u) (f a v) (g a v) λ b w l. Kept-trans u v w k l

ioctl-Kept : (os : Os) (cmd : Ioctl) (u : User) → Ensures (λ _. Kept u) (ioctl os cmd u)
ioctl-Kept os cmd u =
    elim (u.is_open)
      as (λ b.
        Ensures (λ _. Kept u)
          (if b
            then then_prog (in_kernel u (os.device cmd u.kernel)) (λ r. pure (syscall r))
            else returns (negsuc 0, ebadf) u)) [
              | true ↦
                  Kept-then u (in_kernel u (os.device cmd u.kernel)) (λ r. pure (syscall r))
                    (in_kernel-Kept u (os.device cmd u.kernel)) (λ a v. (refl, refl, refl, refl))
              | false ↦ (refl, refl, refl, refl)
            ]

linber_init-Kept : (os : Os) (u : User) → Ensures (λ _. Kept u) (linber_init os u)
unfolding linber_init
linber_init-Kept os u = ground arith

linber_exit-Kept : (u : User) → Ensures (λ _. Kept u) (linber_exit u)
unfolding linber_exit
linber_exit-Kept u = ground arith

-- The end of a call: the device file is closed, where the call has opened it.
abbrev pub hand_back : Bool → ℤ × ℕ → U ℤ
hand_back close_it r = do _ ← (if close_it then linber_exit else pure (pos 0)); pure (result_of r)

hand_back-Kept :
    (close_it : Bool) (r : ℤ × ℕ) (u : User) → Ensures (λ _. Kept u) (hand_back close_it r u)
hand_back-Kept true r u =
    Kept-then u (linber_exit u) (λ _. pure (result_of r)) (linber_exit-Kept u)
      (λ a v. (refl, refl, refl, refl))
hand_back-Kept false r u = (refl, refl, refl, refl)

abbrev pub call_device : Os → Ioctl → Bool → U ℤ
call_device os cmd close_it = do
  fd' ← get_fd
  if is_negative fd' then pure error_device_file else do r ← ioctl os cmd; hand_back close_it r

call_device-Kept :
    (os : Os) (cmd : Ioctl) (close_it : Bool) (u : User)
    → Ensures (λ _. Kept u) (call_device os cmd close_it u)
call_device-Kept os cmd close_it u =
    elim (is_negative u.linber_fd)
      as (λ b.
        Ensures (λ _. Kept u)
          ((if b then pure error_device_file else (ioctl os cmd >>= hand_back close_it)) u)) [
            | true ↦ (refl, refl, refl, refl)
            | false ↦
                Kept-then u (ioctl os cmd u) (hand_back close_it) (ioctl-Kept os cmd u)
                  (hand_back-Kept close_it)
          ]

-- A call of the driver changes nothing of the memory of the process outside the driver.
pub ioctl_send-Kept :
    (os : Os) (cmd : Ioctl) (u : User) → Ensures (λ _. Kept u) (ioctl_send os cmd u)
unfolding ioctl_send
ioctl_send-Kept os cmd u =
    elim (is_negative u.linber_fd)
      as (λ b.
        Ensures (λ _. Kept u)
          (then_prog ((if b then linber_init os else pure (pos 0)) u)
            (λ _. call_device os cmd b))) [
              | true ↦
                  Kept-then u (linber_init os u) (λ _. call_device os cmd true)
                    (linber_init-Kept os u) (λ _. call_device-Kept os cmd true)
              | false ↦ call_device-Kept os cmd false u
            ]
