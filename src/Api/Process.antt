-- ===== src/Api/Process.antt =====
-- A process that uses libs/src/linber_service_api.c: the state that the library and the C library
-- keep for it, and their calls. A run returns, is stopped by a bad pointer of its own, ends in a
-- fault of the kernel, never ends, or is blocked in a call of the driver.
use linber.Prelude.{
  ℕ, suc, Bool, true, false, Option, none, some, List, [], ◌∷◌, ◌==◌, leb, if◌then◌else◌, length,
}
use linber.Prelude.Int.{ℤ, pos, negsuc}
use linber.Driver.Kernel.{Kernel, Run, ok, exit, oops, hang, sleep, Wait, M, update, overwrite}
use linber.Driver.Params.{Ioctl}

pub record User : Type 0 where
  pub kernel : Kernel
  -- The global variable, and whether its descriptor is open.
  pub linber_fd : ℤ
  pub is_open : Bool
  -- The blocks of malloc that are not freed, each with its length.
  pub heap : List (ℕ × ℕ)
  -- The addresses of shared memory, and the segments that go when they are detached.
  pub attached : List ℕ
  pub doomed : List ℕ
  pub files : List (List ℕ)
  pub next : ℕ

pub data Prog (A : Type 0) : Type 0 where
  returns : A → User → Prog A
  segv : Prog A
  panic : Prog A
  stuck : Prog A
  blocks : Wait → Kernel → (Kernel → Prog A) → Prog A

abbrev pub U : Type 0 → Type 0
U A = User → Prog A

abbrev pub then_prog : {A B : Type 0} → Prog A → (A → U B) → Prog B
then_prog (returns a u) f = f a u
then_prog segv f = segv
then_prog panic f = panic
then_prog stuck f = stuck
then_prog (blocks w k go) f = blocks w k (λ k'. then_prog (go k') f)

infixl 5 ◌>>=◌ ◌>>◌
abbrev pub ◌>>=◌ : {A B : Type 0} → U A → (A → U B) → U B
◌>>=◌ m f u = then_prog (m u) f

abbrev pub ◌>>◌ : {B : Type 0} → U (Unit {0}) → U B → U B
m >> n = m >>= λ _. n

abbrev pub pure : {A : Type 0} → A → U A
pure a u = returns a u

abbrev pub skip : U (Unit {0})
skip u = returns tt u

-- What the operating system answers during one call of the library.
pub record Os : Type 0 where
  pub device : Ioctl → M ℤ
  pub open_device : ℤ
  pub clock : Option (ℕ × ℕ)
  pub malloc : (len : ℕ) → Bool
  pub ftok : (file : List ℕ) → (id : ℕ) → Option ℕ
  pub shmget : (key len : ℕ) → Option ℕ
  pub shmat : (id : ℕ) → Bool
  pub creat : (file : List ℕ) → Bool

-- A handler of the driver, run for this process.
abbrev pub in_kernel : User → Run ℤ → Prog ℤ
in_kernel u (ok r k) = returns r (record u { kernel = k })
in_kernel u (exit r k) = returns r (record u { kernel = k })
in_kernel u oops = panic
in_kernel u hang = stuck
in_kernel u (sleep w k go) = blocks w k (λ k'. in_kernel u (go k'))

abbrev pub is_negative : ℤ → Bool
is_negative (pos n) = false
is_negative (negsuc n) = true

-- EBADF, of a descriptor that is not open.
abbrev pub ebadf : ℕ
ebadf = 9

-- The system call: a negative result is -1 with errno set.
abbrev pub syscall : ℤ → ℤ × ℕ
syscall (pos n) = (pos n, 0)
syscall (negsuc n) = (negsuc 0, suc n)

abbrev pub ioctl : Os → Ioctl → U (ℤ × ℕ)
ioctl os cmd u =
    if u.is_open
    then then_prog (in_kernel u (os.device cmd u.kernel)) (λ r. pure (syscall r))
    else returns (negsuc 0, ebadf) u

abbrev pub open_file : Os → U ℤ
open_file os u = returns os.open_device (record u {
  linber_fd = os.open_device;
  is_open = if is_negative os.open_device then u.is_open else true;
})

abbrev pub close_file : U (Unit {0})
close_file u = returns tt (record u { is_open = false })

abbrev pub get_fd : U ℤ
get_fd u = returns u.linber_fd u

abbrev pub load_word : ℕ → U ℕ
load_word p u = returns (u.kernel.user_word p) u

abbrev pub store_word : ℕ → ℕ → U (Unit {0})
store_word p v u =
    returns tt
      (record u { kernel = record (u.kernel) { user_word = update u.kernel.user_word p v } })

-- malloc gives an address that was never given before, or NULL.
unfoldable pub malloc : Os → (len : ℕ) → U ℕ
malloc os len u =
    if os.malloc len
    then returns (suc u.next) (record u { next = suc u.next; heap = (suc u.next, len) ∷ u.heap })
    else returns 0 u

-- The block at an address: its length, and the other blocks.
abbrev pub find_block : ℕ → List (ℕ × ℕ) → Option (ℕ × List (ℕ × ℕ))
find_block p [] = none
find_block p ((q, len) ∷ rest) =
    if q == p
    then some (len, rest)
    else elim (find_block p rest) [ none ↦ none | some (n, others) ↦ some (n, (q, len) ∷ others) ]

-- free of NULL does nothing; that of anything but a block is an error.
unfoldable pub free : ℕ → U (Unit {0})
free p u = if p == 0 then returns tt u else elim (find_block p u.heap) [
  | none ↦ segv
  | some (len, others) ↦ returns tt (record u { heap = others })
]

-- Bytes written to the start of a block, which must have room for them.
unfoldable pub write_block : ℕ → List ℕ → U (Unit {0})
write_block p bs u = elim (find_block p u.heap) [
  | none ↦ segv
  | some (len, others) ↦
      if leb (length bs) len
      then returns tt (record u {
        kernel = record (u.kernel) {
          user_bytes = update u.kernel.user_bytes p (overwrite bs (u.kernel.user_bytes p));
        };
      })
      else segv
]

abbrev pub same_name : List ℕ → List ℕ → Bool
same_name [] [] = true
same_name (a ∷ as') (b ∷ bs) = if a == b then same_name as' bs else false
same_name _ _ = false

abbrev pub has_file : List ℕ → List (List ℕ) → Bool
has_file name [] = false
has_file name (f ∷ fs) = if same_name name f then true else has_file name fs

-- open with O_CREAT, and close.
abbrev pub add_file : Os → List ℕ → List (List ℕ) → List (List ℕ)
add_file os name fs = if has_file name fs then fs else if os.creat name then name ∷ fs else fs

abbrev pub create_file : Os → List ℕ → U (Unit {0})
create_file os name u = returns tt (record u { files = add_file os name u.files })
