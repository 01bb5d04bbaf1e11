-- ===== src/Api/Words.antt =====
-- Which runs of libs/src/linber_service_api.c leave a word of the process as it is.
use linber.Prelude.{
  ℕ, ◌≡◌, refl, ap, subst, Bool, true, false, List, ◌==◌, inl, inr, Option-cases, if◌then◌else◌,
  arith,
}
use linber.Prelude.Int.{ℤ, pos, negsuc}
use linber.Driver.Kernel.{Kernel, Run, ok, exit, oops, hang, sleep, update}
use linber.Driver.Params.{Ioctl, Request, request_service_get_response}
use linber.Driver.Quiet.{Leaves}
use linber.Api.Client.{Locals, take_copy, take_shared}
use linber.Api.Device.{linber_init, linber_exit, ioctl_send, result_of, error_device_file}
use linber.Api.Ensures.{Ensures, Ensures-then, call_device, hand_back}
use linber.Api.Process.{
  User, Prog, U, returns, segv, panic, stuck, blocks, then_prog, in_kernel, Os, ioctl, syscall,
  is_negative, pure, ebadf, malloc, ◌>>=◌,
}
use linber.Api.Shm.{attach_shm_from_key, shmat, self_destroy, minus_one}

-- The word at `m` is `v`.
abbrev pub WordIs : {A : Type 0} → (m v : ℕ) → A → User → Type 0
WordIs m v _ w = w.kernel.user_word m ≡ v

-- A run that leaves the word at `m`.
abbrev pub LeavesWord : {A : Type 0} → ℕ → U A → Type 0
LeavesWord m f = (u : User) → Ensures (WordIs m (u.kernel.user_word m)) (f u)

pub Ensures-both :
    {A : Type 0} (P Q : A → User → Type 0) (r : Prog A)
    → Ensures P r
    → Ensures Q r
    → Ensures (λ a u. P a u × Q a u) r
Ensures-both P Q (returns a u) h g = (h, g)
Ensures-both P Q segv h g = h
Ensures-both P Q panic h g = tt
Ensures-both P Q stuck h g = tt
Ensures-both P Q (blocks w k go) h g = λ k'. Ensures-both P Q (go k') (h k') (g k')

pub word_then :
    {A B : Type 0} (m v : ℕ) (r : Prog A) (f : A → U B)
    → Ensures (WordIs m v) r
    → ((a : A) → LeavesWord m (f a))
    → Ensures (WordIs m v) (then_prog r f)
word_then {A} {B} m v r f h g =
    Ensures-then (WordIs m v) (WordIs m v) r f h
      λ a u e. subst (λ x. Ensures (WordIs m x) (f a u)) e (g a u)

module _ (os : Os) (cmd : Ioctl) (m : ℕ)
    (quiet : (k : Kernel) → Leaves k.user_word (os.device cmd k)) where
  in_kernel-word :
      (u : User) (words : ℕ → ℕ) (r : Run ℤ)
      → Leaves words r
      → Ensures (WordIs m (words m)) (in_kernel u r)
  in_kernel-word u words (ok a k) h = ap (λ (f : ℕ → ℕ). f m) h
  in_kernel-word u words (exit r k) h = ap (λ (f : ℕ → ℕ). f m) h
  in_kernel-word u words oops h = tt
  in_kernel-word u words hang h = tt
  in_kernel-word u words (sleep w k go) h = elim h [ ]

  ioctl-word : LeavesWord m (ioctl os cmd)
  ioctl-word u =
      elim (u.is_open)
        as (λ b. Ensures (WordIs m (u.kernel.user_word m)) (
          if b
          then then_prog (in_kernel u (os.device cmd u.kernel)) (λ r. pure (syscall r))
          else returns (negsuc 0, ebadf) u)) [
            | true ↦
                word_then m (u.kernel.user_word m) (in_kernel u (os.device cmd u.kernel)) _
                  (in_kernel-word u u.kernel.user_word (os.device cmd u.kernel) (quiet u.kernel))
                  (λ a v. refl)
            | false ↦ refl
          ]

  linber_init-word : LeavesWord m (linber_init os)
  unfolding linber_init
  linber_init-word u = ground arith

  linber_exit-word : LeavesWord m linber_exit
  unfolding linber_exit
  linber_exit-word u = ground arith

  hand_back-word : (close_it : Bool) (r : ℤ × ℕ) → LeavesWord m (hand_back close_it r)
  hand_back-word true r u =
      word_then m (u.kernel.user_word m) (linber_exit u) (λ _. pure (result_of r))
        (linber_exit-word u) (λ a v. refl)
  hand_back-word false r u = refl

  call_device-word : (close_it : Bool) → LeavesWord m (call_device os cmd close_it)
  call_device-word close_it u =
      elim (is_negative u.linber_fd)
        as (λ b.
          Ensures (WordIs m (u.kernel.user_word m))
            ((if b then pure error_device_file else (ioctl os cmd >>= hand_back close_it)) u)) [
              | true ↦ refl
              | false ↦
                  word_then m (u.kernel.user_word m) (ioctl os cmd u) (hand_back close_it)
                    (ioctl-word u) (hand_back-word close_it)
            ]

  -- A call of the driver that writes no word.
  pub ioctl_send-word : LeavesWord m (ioctl_send os cmd)
  unfolding ioctl_send
  ioctl_send-word u =
      elim (is_negative u.linber_fd)
        as (λ b. Ensures (WordIs m (u.kernel.user_word m)) (
          then_prog ((if b then linber_init os else pure (pos 0)) u) (λ _. call_device os cmd b))) [
            | true ↦
                word_then m (u.kernel.user_word m) (linber_init os u) (λ _. call_device os cmd true)
                  (linber_init-word u) (λ _. call_device-word true)
            | false ↦ call_device-word false u
          ]

malloc-word : (os : Os) (m len : ℕ) → LeavesWord m (malloc os len)
unfolding malloc
malloc-word os m len u = ground arith

-- The call for the response, the last one of a request, writes no word of the process and does not
-- block.
abbrev pub Answers : Os → List ℕ → Type 0
Answers os uri =
    (p : Request) (k : Kernel)
    → Leaves k.user_word (os.device (request_service_get_response uri p) k)

pub take_copy-word :
    (os : Os) (uri : List ℕ) (p : Request) (response_len m : ℕ)
    → Answers os uri
    → LeavesWord m (take_copy os uri p response_len)
unfolding take_copy
take_copy-word os uri p response_len m quiet u =
    word_then m (u.kernel.user_word m) (malloc os (u.kernel.user_word response_len) u) _
      (malloc-word os m (u.kernel.user_word response_len) u)
      λ response v.
        word_then m (v.kernel.user_word m)
          (ioctl_send os (request_service_get_response uri (record p { ptr_response = response }))
            v)
          _ (ioctl_send-word os _ m (λ k. quiet (record p { ptr_response = response }) k) v)
          λ ret w. refl

shmat-word : (os : Os) (id m : ℕ) → LeavesWord m (shmat os id)
unfolding shmat
shmat-word os id m u = ground arith

self_destroy-word : (id m : ℕ) → LeavesWord m (self_destroy id)
unfolding self_destroy
self_destroy-word id m u = ground arith

-- A word at another address is written.
stored-word : (f : ℕ → ℕ) (a m v : ℕ) → (a == m) ≡ false → update f a v m ≡ f m
unfolding update
stored-word f a m v other = ground arith

attach-word :
    (os : Os) (key len id_at m : ℕ)
    → (id_at == m) ≡ false
    → LeavesWord m (attach_shm_from_key os key len id_at)
unfolding attach_shm_from_key
attach-word os key len id_at m other u = elim (Option-cases (os.shmget key len)) [
  | inl e ↦ rw (attach_shm_from_key, e) (stored-word u.kernel.user_word id_at m minus_one other)
  | inr (id, e) ↦
      rw (attach_shm_from_key, e)
        (subst (λ x. Ensures (WordIs m x) (shmat os id (stored id)))
          (stored-word u.kernel.user_word id_at m id other) (shmat-word os id m (stored id)))
]
  where
    stored : ℕ → User
    stored id = record u {
      kernel = record (u.kernel) { user_word = update u.kernel.user_word id_at id };
    }

pub take_shared-word :
    (os : Os) (at : Locals) (response_len m : ℕ) (ret : ℤ)
    → (at.response_shm_id == m) ≡ false
    → LeavesWord m (take_shared os at response_len ret)
unfolding take_shared
take_shared-word os at response_len m ret other u =
    word_then m (u.kernel.user_word m)
      (attach_shm_from_key os (u.kernel.user_word at.response_key) (u.kernel.user_word response_len)
        at.response_shm_id u)
      _ (attach-word os _ _ at.response_shm_id m other u)
      λ response v.
        word_then m (v.kernel.user_word m) (self_destroy (v.kernel.user_word at.response_shm_id) v)
          _ (self_destroy-word _ m v) λ _ w. refl
