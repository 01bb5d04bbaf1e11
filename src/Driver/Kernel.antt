-- ===== src/Driver/Kernel.antt =====
-- The memory that driver/linber_main.c works on, and a small monad of the kernel calls that it
-- makes. A handler runs until it returns, meets a bad pointer, never ends, or sleeps on a
-- semaphore; in the last case it says how it goes on when it is woken.
use linber.Prelude.{
  ℕ, zero, suc, ◌+◌, ◌-◌, ◌≡◌, Bool, true, false, Option, none, some, List, [], ◌∷◌, ◌==◌,
  if◌then◌else◌, arith,
}
use linber.Prelude.Int.{ℤ}
use linber.Tree.{Rbtree}
use linber.Types.{RequestNode, ServiceNode, ServiceEntry, RequestEntry, LinberStruct}
use linber.Driver.Params.{user_memory_error, ServiceStatus, SystemStatus}

-- A function, changed at one address.
unfoldable pub update {ℓ} : {A : Type ℓ} → (ℕ → A) → ℕ → A → ℕ → A
update f p v q = if p == q then v else f q

-- struct sched_attr, the fields that the module sets.
pub data Policy : Type 0 where
  sched_fifo : (priority : ℕ) → Policy
  sched_deadline : (runtime deadline period : ℕ) → Policy

pub record Kernel : Type 0 where
  pub requests : ℕ → Option RequestNode
  pub services : ℕ → Option ServiceNode
  pub buffers : ℕ → Option (List ℕ)
  pub next : ℕ
  pub linber : LinberStruct
  pub sched : ℕ → Option Policy
  -- User memory: words and buffers at their addresses; the address tells the process.
  pub user_word : ℕ → ℕ
  pub user_bytes : ℕ → List ℕ
  pub user_status : ℕ → SystemStatus
  pub user_services : ℕ → List ServiceStatus

-- A semaphore that a task sleeps on.
pub data Wait : Type 0 where
  request_sem : ℕ → Wait
  sem_for_request : ℕ → Wait

pub data Run (A : Type 0) : Type 0 where
  ok : A → Kernel → Run A
  exit : ℤ → Kernel → Run A
  oops : Run A
  hang : Run A
  sleep : Wait → Kernel → (Kernel → Run A) → Run A

abbrev pub M : Type 0 → Type 0
M A = Kernel → Run A

abbrev pub and_then : {A B : Type 0} → Run A → (A → M B) → Run B
and_then (ok a k) f = f a k
and_then (exit r k) f = exit r k
and_then oops f = oops
and_then hang f = hang
and_then (sleep w k go) f = sleep w k (λ k'. and_then (go k') f)

infixl 5 ◌>>=◌ ◌>>◌
abbrev pub ◌>>=◌ : {A B : Type 0} → M A → (A → M B) → M B
◌>>=◌ m f k = and_then (m k) f

abbrev pub ◌>>◌ : {B : Type 0} → M (Unit {0}) → M B → M B
m >> n = m >>= λ _. n

abbrev pub pure : {A : Type 0} → A → M A
pure a k = ok a k

abbrev pub skip : M (Unit {0})
skip k = ok tt k

-- `return` from the middle of a handler.
abbrev pub return : {A : Type 0} → ℤ → M A
return r k = exit r k

abbrev pub fault : {A : Type 0} → M A
fault k = oops

-- What the world answers during one call: the allocator at each kmalloc, user memory at each copy,
-- the random number generator, the clock, and sched_setattr.
pub data Alloc : Type 0 where
  of_request of_request_data of_response_data of_service of_slots : Alloc
  of_request_node of_service_node of_status of_param of_uri : Alloc

pub data Copy : Type 0 where
  to_service_token from_request to_token from_token to_response_len to_response_shm_mode : Copy
  to_response_key to_response to_worker_id to_request_len to_request_shm_mode : Copy
  to_request_key to_request from_response : Copy
  from_status from_services to_uri to_status to_services from_param from_uri : Copy

pub record Env : Type 0 where
  pub current : ℕ
  pub now : ℕ
  pub random_token : ℕ
  pub stale_request : RequestNode
  pub kmalloc : Alloc → Bool
  pub copy : Copy → Bool
  pub setattr : Policy → Bool
  pub request_tree : Rbtree RequestEntry
  pub service_tree : Rbtree ServiceEntry

-- kmalloc gives an address that was never given before, or NULL.
abbrev pub kmalloc : Bool → M (Option ℕ)
kmalloc given k = if given then ok (some k.next) (record k { next = suc k.next }) else ok none k

-- The macro CHECK_MEMORY_ERROR.
abbrev pub check_copy : Bool → M (Unit {0})
check_copy true = skip
check_copy false = return user_memory_error

abbrev pub load_request : ℕ → M RequestNode
load_request p k = elim (k.requests p) [ none ↦ oops | some r ↦ ok r k ]

abbrev pub store_request : ℕ → RequestNode → M (Unit {0})
store_request p r k = ok tt (record k { requests = update k.requests p (some r) })

-- kfree of what is not allocated, such as a second one, is a bad access.
abbrev pub free_request : ℕ → M (Unit {0})
free_request p k = elim (k.requests p) [
  | none ↦ oops
  | some _ ↦ ok tt (record k { requests = update k.requests p none })
]

abbrev pub load_service : ℕ → M ServiceNode
load_service p k = elim (k.services p) [ none ↦ oops | some s ↦ ok s k ]

abbrev pub store_service : ℕ → ServiceNode → M (Unit {0})
store_service p s k = ok tt (record k { services = update k.services p (some s) })

-- The caller has just written to the service.
abbrev pub free_service : ℕ → M (Unit {0})
free_service p k = ok tt (record k { services = update k.services p none })

abbrev pub load_buffer : ℕ → M (List ℕ)
load_buffer p k = elim (k.buffers p) [ none ↦ oops | some b ↦ ok b k ]

abbrev pub store_buffer : ℕ → List ℕ → M (Unit {0})
store_buffer p b k = ok tt (record k { buffers = update k.buffers p (some b) })

abbrev pub free_buffer : ℕ → M (Unit {0})
free_buffer p k = elim (k.buffers p) [
  | none ↦ oops
  | some _ ↦ ok tt (record k { buffers = update k.buffers p none })
]

abbrev pub get_linber : M LinberStruct
get_linber k = ok k.linber k

abbrev pub put_linber : LinberStruct → M (Unit {0})
put_linber l k = ok tt (record k { linber = l })

-- A mutex is not recursive: a task that takes one it holds waits for ever.
abbrev pub take_service : ℕ → ServiceNode → M (Unit {0})
take_service p s =
    if s.service_mutex then (λ k. hang) else store_service p (record s { service_mutex = true })

unfoldable pub lock_service : ℕ → M (Unit {0})
lock_service p = do s ← load_service p; take_service p s

unfoldable pub unlock_service : ℕ → M (Unit {0})
unlock_service p = do s ← load_service p; store_service p (record s { service_mutex = false })

unfoldable pub lock_linber : M (Unit {0})
lock_linber k = if k.linber.mutex then hang else put_linber (record (k.linber) { mutex = true }) k

unfoldable pub unlock_linber : M (Unit {0})
unlock_linber k = put_linber (record (k.linber) { mutex = false }) k

-- `up` and `down_interruptible`.
unfoldable pub up_request : ℕ → M (Unit {0})
up_request p = do r ← load_request p; store_request p (record r { request_sem = r.request_sem + 1 })

unfoldable pub up_service : ℕ → M (Unit {0})
up_service p = do
  s ← load_service p
  store_service p (record s {
    workers = record (s.workers) { sem_for_request = s.workers.sem_for_request + 1 };
  })

-- The count of a semaphore.
abbrev count_of_request : Option RequestNode → Option ℕ
count_of_request none = none
count_of_request (some r) = some r.request_sem

abbrev pub count_of_service : Option ServiceNode → Option ℕ
count_of_service none = none
count_of_service (some s) = some s.workers.sem_for_request

abbrev pub count : Wait → Kernel → Option ℕ
count (request_sem p) k = count_of_request (k.requests p)
count (sem_for_request p) k = count_of_service (k.services p)

abbrev pub lower_request : Kernel → ℕ → Option RequestNode → Kernel
lower_request k p none = k
lower_request k p (some r) = record k {
  requests = update k.requests p (some (record r { request_sem = r.request_sem - 1 }));
}

abbrev pub lower_service : Kernel → ℕ → Option ServiceNode → Kernel
lower_service k p none = k
lower_service k p (some s) = record k {
  services = update k.services p (
      some (record s {
        workers = record (s.workers) { sem_for_request = s.workers.sem_for_request - 1 };
      }));
}

-- The semaphore is taken, if it is up.
abbrev pub lower : Wait → Kernel → Kernel
lower (request_sem p) k = lower_request k p (k.requests p)
lower (sem_for_request p) k = lower_service k p (k.services p)

-- A semaphore that is up is lowered at once. On one that is down the task sleeps: whoever wakes it
-- lowers the semaphore, and a signal wakes it too; the module ignores which it was.
abbrev pub down_at : Wait → Option ℕ → M (Unit {0})
down_at w none k = oops
down_at w (some zero) k = sleep w k (λ k'. ok tt k')
down_at w (some (suc n)) k = ok tt (lower w k)

unfoldable pub down_interruptible : Wait → M (Unit {0})
down_interruptible w k = down_at w (count w k) k

-- put_user, get_user, copy_to_user and copy_from_user.
abbrev pub put_user : Bool → ℕ → ℕ → M (Unit {0})
put_user fine p v = do
  check_copy fine
  (λ k. ok tt (record k { user_word = update k.user_word p v }))

abbrev pub get_user : Bool → ℕ → M ℕ
get_user fine p = do check_copy fine; (λ k. ok (k.user_word p) k)

-- The first `len` bytes; user memory past the end of what was stored reads as 0.
abbrev pub prefix : ℕ → List ℕ → List ℕ
prefix zero bs = []
prefix (suc n) [] = 0 ∷ prefix n []
prefix (suc n) (b ∷ bs) = b ∷ prefix n bs

-- `new` written over the start of `old`.
abbrev pub overwrite : List ℕ → List ℕ → List ℕ
overwrite [] old = old
overwrite (b ∷ new) [] = b ∷ overwrite new []
overwrite (b ∷ new) (c ∷ old) = b ∷ overwrite new old

abbrev pub copy_to_user : Bool → ℕ → List ℕ → M (Unit {0})
copy_to_user fine p bs = do
  check_copy fine
  (λ k. ok tt (record k { user_bytes = update k.user_bytes p (overwrite bs (k.user_bytes p)) }))

abbrev pub copy_from_user : Bool → ℕ → ℕ → M (List ℕ)
copy_from_user fine p len = do check_copy fine; (λ k. ok (prefix len (k.user_bytes p)) k)

abbrev pub word_of_bool : Bool → ℕ
word_of_bool true = 1
word_of_bool false = 0

pub update_self {ℓ} : {A : Type ℓ} (f : ℕ → A) (p : ℕ) (v : A) → update f p v p ≡ v
unfolding update
update_self f p v = ground arith

pub update_other {ℓ} :
    {A : Type ℓ} (f : ℕ → A) (p q : ℕ) (v : A) → (p == q) ≡ false → update f p v q ≡ f q
unfolding update
update_other f p q v other = ground arith
