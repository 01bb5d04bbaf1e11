-- ===== src/Api/Connection.antt =====
-- The device file in libs/src/linber_service_api.c: calls with and without linber_init.
use linber.Prelude.{ℕ, ◌≡◌, refl, ◌∙◌, true, false, ap}
use mathlib.Core.Path.{fun_ext}
use linber.Prelude.Int.{ℤ, pos, negsuc}
use linber.Driver.Kernel.{Run, ok, exit, oops, hang, sleep}
use linber.Driver.Params.{Ioctl}
use linber.Api.Device.{linber_init, linber_exit, ioctl_send, result_of}
use linber.Api.Process.{
  User, Prog, U, returns, blocks, then_prog, in_kernel, Os, syscall, is_negative, pure, ◌>>=◌,
}
use linber.Api.Ensures.{Ensures, Ensures-then, Ensures-weaken}

result_of-syscall : (r : ℤ) → result_of (syscall r) ≡ r
result_of-syscall (pos n) = refl
result_of-syscall (negsuc n) = refl

-- What the caller makes of the result of the system call.
abbrev decode : Prog ℤ → Prog ℤ
decode p = then_prog (then_prog p (λ r. pure (syscall r))) (λ r. pure (result_of r))

decode-in_kernel : (u : User) (r : Run ℤ) → decode (in_kernel u r) ≡ in_kernel u r
decode-in_kernel u (ok a k) = ap (λ x. returns x (record u { kernel = k })) (result_of-syscall a)
decode-in_kernel u (exit a k) = ap (λ x. returns x (record u { kernel = k })) (result_of-syscall a)
decode-in_kernel u oops = refl
decode-in_kernel u hang = refl
decode-in_kernel u (sleep w k go) =
    ap (λ x. blocks w k x) (fun_ext (λ k'. decode-in_kernel u (go k')))

-- With the device file open, ioctl_send gives exactly what the handler of the driver returns,
-- negative values and the state behind it included, and blocks, faults or does not end where the
-- handler does.
pub ioctl_send-device :
    (os : Os) (cmd : Ioctl) (u : User)
    → is_negative u.linber_fd ≡ false
    → u.is_open ≡ true
    → ioctl_send os cmd u ≡ in_kernel u (os.device cmd u.kernel)
unfolding ioctl_send
ioctl_send-device os cmd u fd opened =
    rw (fd, fd) (simp (opened, decode-in_kernel u (os.device cmd u.kernel)))

-- A number of a descriptor that is closed.
abbrev Dangling : User → Type 0
Dangling u = (is_negative u.linber_fd ≡ false) × (u.is_open ≡ false)

Dangling-ioctl_send :
    (os : Os) (cmd : Ioctl) (u : User) → Dangling u → ioctl_send os cmd u ≡ returns (negsuc 8) u
unfolding ioctl_send
Dangling-ioctl_send os cmd u h = rw (h.0, h.0) (simp h.1)

in_kernel-linber_fd :
    (u : User) (r : Run ℤ) → Ensures (λ _ v. v.linber_fd ≡ u.linber_fd) (in_kernel u r)
in_kernel-linber_fd u (ok a k) = refl
in_kernel-linber_fd u (exit a k) = refl
in_kernel-linber_fd u oops = tt
in_kernel-linber_fd u hang = tt
in_kernel-linber_fd u (sleep w k go) = λ k'. in_kernel-linber_fd u (go k')

abbrev close_behind : ℤ × ℕ → U ℤ
close_behind r = do _ ← linber_exit; pure (result_of r)

close_behind-Dangling :
    (u : User) (r : ℤ × ℕ)
    → is_negative u.linber_fd ≡ false
    → Ensures (λ _. Dangling) (close_behind r u)
unfolding linber_exit
close_behind-Dangling u r fd = rw fd (fd, refl)

abbrev send_opened : Os → Ioctl → U ℤ
send_opened os cmd u =
    then_prog (then_prog (in_kernel u (os.device cmd u.kernel)) (λ r. pure (syscall r)))
      close_behind

send_opened-Dangling :
    (os : Os) (cmd : Ioctl) (u : User)
    → is_negative u.linber_fd ≡ false
    → Ensures (λ _. Dangling) (send_opened os cmd u)
send_opened-Dangling os cmd u fd =
    Ensures-then (λ _ v. v.linber_fd ≡ u.linber_fd) (λ _. Dangling)
      (then_prog (in_kernel u (os.device cmd u.kernel)) (λ r. pure (syscall r))) close_behind
      (Ensures-then (λ _ v. v.linber_fd ≡ u.linber_fd) (λ _ v. v.linber_fd ≡ u.linber_fd)
        (in_kernel u (os.device cmd u.kernel)) (λ r. pure (syscall r))
        (in_kernel-linber_fd u (os.device cmd u.kernel)) (λ r v e. e))
      (λ r v e. close_behind-Dangling v r (ap is_negative e ∙ fd))

-- The state after linber_init.
abbrev pub initialised : Os → User → User
initialised os u = record u { linber_fd = os.open_device; is_open = true }

ioctl_send-opened :
    (os : Os) (cmd : Ioctl) (u : User)
    → is_negative u.linber_fd ≡ true
    → is_negative os.open_device ≡ false
    → ioctl_send os cmd u ≡ send_opened os cmd (initialised os u)
unfolding ioctl_send linber_init
ioctl_send-opened os cmd u fd granted = rw (fd, granted, granted) refl

-- A process that never called linber_init and may open the device file has, behind its first
-- ioctl_send, a closed descriptor in linber_fd: when that call has returned, every later one
-- returns -9, EBADF, and does not reach the driver.
pub ioctl_send_once :
    (os os' : Os) (cmd cmd' : Ioctl) (u : User)
    → is_negative u.linber_fd ≡ true
    → is_negative os.open_device ≡ false
    → Ensures (λ _ v. ioctl_send os' cmd' v ≡ returns (negsuc 8) v) (ioctl_send os cmd u)
ioctl_send_once os os' cmd cmd' u fd granted = rw (ioctl_send-opened os cmd u fd granted) (
    Ensures-weaken (λ _. Dangling) (λ _ v. ioctl_send os' cmd' v ≡ returns (negsuc 8) v)
      (send_opened os cmd (initialised os u))
      (send_opened-Dangling os cmd (initialised os u) granted)
      (λ r v d. Dangling-ioctl_send os' cmd' v d))
