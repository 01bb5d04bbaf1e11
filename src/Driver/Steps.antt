-- ===== src/Driver/Steps.antt =====
-- What the helpers of driver/linber_main.c come to on a state in which they succeed.
use linber.Prelude.{
  ℕ, suc, ◌-◌, ◌≡◌, refl, ap, ◌∙◌, true, false, none, some, List, [], ◌∷◌, arith, ◌==◌, ltb, ◌&&◌,
  ◌^◌, Bool, if◌then◌else◌, ◌+◌,
}
use mathlib.Core.Path.{fun_ext}
use linber.Types.{RequestNode, ServiceNode}
use linber.Services.{get_service_node}
use linber.Requests.Recent.{OtherTokens}
use linber.Driver.Kernel.{
  Kernel, Run, ok, exit, oops, hang, sleep, sem_for_request, down_interruptible, down_at,
  count_of_service, lower_service, update, update_self, load_service, load_request, lock_service,
  unlock_service, lock_linber, unlock_linber, M, and_then, get_user, store_request, up_request,
  ◌>>=◌,
}
use linber.Driver.Lifecycle.{find_service}
use linber.Driver.Pending.{search_list, list_head}
use linber.Driver.Workers.{service_check_worker}

pub update_twice {ℓ} :
    {A : Type ℓ} (f : ℕ → A) (p : ℕ) (v w : A) → update (update f p v) p w ≡ update f p w
unfolding update
update_twice f p v w = fun_ext λ q. ground arith

-- Writing back what is there.
pub update_same {ℓ} : {A : Type ℓ} (f : ℕ → A) (p : ℕ) (v : A) → f p ≡ v → update f p v ≡ f
unfolding update
update_same f p v e = fun_ext λ q. ground arith

abbrev pub put_service : Kernel → ℕ → ServiceNode → Kernel
put_service k p s = record k { services = update k.services p (some s) }

abbrev pub put_request : Kernel → ℕ → RequestNode → Kernel
put_request k p r = record k { requests = update k.requests p (some r) }

abbrev pub locked : ServiceNode → ServiceNode
locked s = record s { service_mutex = true }

abbrev pub unlocked : ServiceNode → ServiceNode
unlocked s = record s { service_mutex = false }

pub find_service-ok :
    (uri : List ℕ) (k : Kernel)
    → k.linber.mutex ≡ false
    → find_service uri k ≡ ok (get_service_node k.linber.services_rbtree uri) k
unfolding find_service lock_linber unlock_linber
find_service-ok uri k free = ground arith

module _ (k : Kernel) (p : ℕ) {s : ServiceNode} (here : k.services p ≡ some s) where
  pub lock_service-ok :
      s.service_mutex ≡ false → lock_service p k ≡ ok tt (put_service k p (locked s))
  unfolding lock_service
  lock_service-ok free = ground arith

  pub unlock_service-ok : unlock_service p k ≡ ok tt (put_service k p (unlocked s))
  unfolding unlock_service
  unlock_service-ok = ground arith

  pub service_check_worker-ok :
      (service_token worker_id : ℕ)
      → service_check_worker p service_token worker_id k
        ≡ ok
            (ltb worker_id (2 ^ 31)
              && ltb worker_id s.workers.max_workers
              && s.token == service_token)
            k
  unfolding service_check_worker
  service_check_worker-ok service_token worker_id = ground arith

-- A search through requests none of which has the token.
pub search_list_missing :
    (ps : List ℕ) (token : ℕ) (k : Kernel)
    → OtherTokens k.requests token ps
    → search_list ps token k ≡ ok list_head k
unfolding search_list
search_list_missing [] token k others = refl
search_list_missing (p ∷ ps) token k others =
    let (n, live, other) = others.0 in
    ground (arith, live, other, search_list_missing ps token k others.1)

-- One step of a `do` block.
pub bind :
    {A B : Type 0} {r : Run A} {a : A} {k : Kernel} (f : A → M B)
    → r ≡ ok a k
    → and_then r f ≡ f a k
bind f e = ap (λ x. and_then x f) e

pub put_twice :
    (k : Kernel) (p : ℕ) (s t : ServiceNode)
    → put_service (put_service k p s) p t ≡ put_service k p t
put_twice k p s t =
    ap (λ m. record k { services = m }) (update_twice k.services p (some s) (some t))

-- The service just written.
pub put_here : (k : Kernel) (p : ℕ) (s : ServiceNode) → (put_service k p s).services p ≡ some s
put_here k p s = update_self k.services p (some s)

pub load_service-ok :
    (k : Kernel) (p : ℕ) {s : ServiceNode} → k.services p ≡ some s → load_service p k ≡ ok s k
load_service-ok k p here = ground arith

pub load_request-ok :
    (k : Kernel) (p : ℕ) {r : RequestNode} → k.requests p ≡ some r → load_request p k ≡ ok r k
load_request-ok k p here = ground arith

pub found-ok :
    (uri : List ℕ) (k : Kernel) {p : ℕ}
    → k.linber.mutex ≡ false
    → get_service_node k.linber.services_rbtree uri ≡ some p
    → find_service uri k ≡ ok (some p) k
found-ok uri k free e = find_service-ok uri k free ∙ ap (λ o. ok o k) e

pub absent-ok :
    (uri : List ℕ) (k : Kernel)
    → k.linber.mutex ≡ false
    → get_service_node k.linber.services_rbtree uri ≡ none
    → find_service uri k ≡ ok none k
absent-ok uri k free e = find_service-ok uri k free ∙ ap (λ o. ok o k) e

pub get_user-ok :
    {fine : Bool} (k : Kernel) (p : ℕ) → fine ≡ true → get_user fine p k ≡ ok (k.user_word p) k
get_user-ok k p e = ap (λ (b : Bool). get_user b p k) e

-- The branch that is taken.
pub else_branch :
    {A : Type 0} {b : Bool} (m n : M A) (k : Kernel) → b ≡ false → (if b then m else n) k ≡ n k
else_branch m n k e = ap (λ (b : Bool). (if b then m else n) k) e

pub then_branch :
    {A : Type 0} {b : Bool} (m n : M A) (k : Kernel) → b ≡ true → (if b then m else n) k ≡ m k
then_branch m n k e = ap (λ (b : Bool). (if b then m else n) k) e

pub put_request_twice :
    (k : Kernel) (p : ℕ) (n m : RequestNode)
    → put_request (put_request k p n) p m ≡ put_request k p m
put_request_twice k p n m =
    ap (λ f. record k { requests = f }) (update_twice k.requests p (some n) (some m))

pub request_here : (k : Kernel) (p : ℕ) (n : RequestNode) → (put_request k p n).requests p ≡ some n
request_here k p n = update_self k.requests p (some n)

-- A request read and written back.
pub edit_request-ok :
    (k : Kernel) (r : ℕ) {n : RequestNode} (f : RequestNode → RequestNode)
    → k.requests r ≡ some n
    → (load_request r >>= λ m. store_request r (f m)) k ≡ ok tt (put_request k r (f n))
edit_request-ok k r f there = bind _ (load_request-ok k r there)

-- One `up` more.
abbrev pub upped : RequestNode → RequestNode
upped n = record n { request_sem = n.request_sem + 1 }

pub up_request-ok :
    (k : Kernel) (r : ℕ) {n : RequestNode}
    → k.requests r ≡ some n
    → up_request r k ≡ ok tt (put_request k r (upped n))
unfolding up_request
up_request-ok k r here = ground arith

pub and_then_assoc :
    {A B C : Type 0} (r : Run A) (f : A → M B) (g : B → M C)
    → and_then (and_then r f) g ≡ and_then r (λ a k. and_then (f a k) g)
and_then_assoc (ok a k) f g = refl
and_then_assoc (exit r k) f g = refl
and_then_assoc oops f g = refl
and_then_assoc hang f g = refl
and_then_assoc (sleep w k go) f g = ap (sleep w k) (fun_ext λ k'. and_then_assoc (go k') f g)

-- The semaphore of a service, taken.
abbrev pub taken : ServiceNode → ServiceNode
taken s = record s {
  workers = record (s.workers) { sem_for_request = s.workers.sem_for_request - 1 };
}

pub down_interruptible-up :
    (k : Kernel) (p n : ℕ) {s : ServiceNode}
    → k.services p ≡ some s
    → s.workers.sem_for_request ≡ suc n
    → down_interruptible (sem_for_request p) k ≡ ok tt (put_service k p (taken s))
unfolding down_interruptible
down_interruptible-up k p n {s} here up =
    ap (λ o. down_at (sem_for_request p) (count_of_service o) k) here
    ∙ ap (λ c. down_at (sem_for_request p) (some c) k) up
    ∙ ap (λ o. ok tt (lower_service k p o)) here
