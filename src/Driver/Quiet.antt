-- ===== src/Driver/Quiet.antt =====
-- linber_request_service_get_response of driver/linber_main.c writes none of the words of user
-- memory, and does not sleep.
use linber.Prelude.{
  ℕ, ◌≡◌, refl, subst, Bool, true, false, Option, none, some, List, [], ◌∷◌, ◌==◌, if◌then◌else◌,
}
use linber.Prelude.Int.{ℤ}
use linber.Services.{get_service_node}
use linber.Types.{Payload, buffer, shm_key, garbage}
use linber.Driver.Client.{data_of, deliver_response, linber_request_service_get_response}
use linber.Driver.Ioctl.{check_kmalloc, with_params, handle, returned, linber_ioctl, c_string}
use linber.Driver.Kernel.{
  Kernel, Run, ok, exit, oops, hang, sleep, M, Env, and_then, ◌>>=◌, skip, fault, kmalloc,
  check_copy, load_request, free_request, load_service, store_service, load_buffer, free_buffer,
  get_linber, put_linber, lock_service, unlock_service, lock_linber, unlock_linber, get_user,
  copy_to_user, from_token, to_response, of_param, of_uri, from_param, from_uri, prefix, update,
}
use linber.Driver.Lifecycle.{find_service}
use linber.Driver.Params.{Request, request_service_get_response}
use linber.Driver.Pending.{Cursor, entry, list_head, search_list, without, get_completed_request}

-- The words are those given when the run returns, which it does without sleeping.
abbrev pub Leaves : {A : Type 0} → (ℕ → ℕ) → Run A → Type 0
Leaves words (ok a k) = k.user_word ≡ words
Leaves words (exit r k) = k.user_word ≡ words
Leaves words oops = Unit
Leaves words hang = Unit
Leaves words (sleep w k go) = ⊥

pub record Quiet {A : Type 0} (m : M A) : Type 0 where
  pub from : (k : Kernel) → Leaves k.user_word (m k)

Leaves-then :
    {A B : Type 0} (words : ℕ → ℕ) (r : Run A) (f : A → M B)
    → Leaves words r
    → ((a : A) → Quiet (f a))
    → Leaves words (and_then r f)
Leaves-then words (ok a k) f h g = subst (λ w. Leaves w (f a k)) h ((g a).from k)
Leaves-then words (exit r k) f h g = h
Leaves-then words oops f h g = tt
Leaves-then words hang f h g = tt
Leaves-then words (sleep w k go) f h g = elim h [ ]

Quiet-bind :
    {A B : Type 0} {m : M A} {f : A → M B} → Quiet m → ((a : A) → Quiet (f a)) → Quiet (m >>= f)
Quiet-bind {m} {f} h g = record { from = λ k. Leaves-then k.user_word (m k) f (h.from k) g }

Quiet-choose :
    {A B : Type 0} {m : M (Option A)} (f : Option A → M B)
    → Quiet m
    → Quiet (f none)
    → ((a : A) → Quiet (f (some a)))
    → Quiet (m >>= f)
Quiet-choose {A} f h n g = Quiet-bind h go
  where
    go : (o : Option A) → Quiet (f o)
    go none = n
    go (some a) = g a

Quiet-if : {A : Type 0} {m n : M A} (b : Bool) → Quiet m → Quiet n → Quiet (if b then m else n)
Quiet-if true h g = h
Quiet-if false h g = g

Quiet-ok : {A : Type 0} {a : A} → Quiet (ok a)
Quiet-ok = record { from = λ k. refl }

Quiet-exit : {A : Type 0} (r : ℤ) → Quiet {A = A} (exit r)
Quiet-exit r = record { from = λ k. refl }

Quiet-fault : {A : Type 0} → Quiet {A = A} (λ k. oops)
Quiet-fault = record { from = λ k. tt }

-- A read of what an option holds, or a bad pointer.
Leaves-read :
    {A : Type 0} (o : Option A) (k : Kernel)
    → Leaves k.user_word (elim o [ none ↦ oops | some a ↦ ok a k ])
Leaves-read none k = tt
Leaves-read (some a) k = refl

load_request-Quiet : (p : ℕ) → Quiet (load_request p)
load_request-Quiet p = record { from = λ k. Leaves-read (k.requests p) k }

load_service-Quiet : (p : ℕ) → Quiet (load_service p)
load_service-Quiet p = record { from = λ k. Leaves-read (k.services p) k }

load_buffer-Quiet : (p : ℕ) → Quiet (load_buffer p)
load_buffer-Quiet p = record { from = λ k. Leaves-read (k.buffers p) k }

kmalloc-Quiet : (given : Bool) → Quiet (kmalloc given)
kmalloc-Quiet true = record { from = λ k. refl }
kmalloc-Quiet false = record { from = λ k. refl }

check_copy-Quiet : (fine : Bool) → Quiet (check_copy fine)
check_copy-Quiet true = Quiet-ok
check_copy-Quiet false = Quiet-exit _

get_user-Quiet : (fine : Bool) (p : ℕ) → Quiet (get_user fine p)
get_user-Quiet fine p = Quiet-bind (check_copy-Quiet fine) λ _. record { from = λ k. refl }

copy_to_user-Quiet : (fine : Bool) (p : ℕ) (bs : List ℕ) → Quiet (copy_to_user fine p bs)
copy_to_user-Quiet fine p bs = Quiet-bind (check_copy-Quiet fine) λ _. record { from = λ k. refl }

lock_service-Quiet : (p : ℕ) → Quiet (lock_service p)
unfolding lock_service
lock_service-Quiet p =
    Quiet-bind (load_service-Quiet p)
      λ s. Quiet-if s.service_mutex (record { from = λ k. tt }) (record { from = λ k. refl })

unlock_service-Quiet : (p : ℕ) → Quiet (unlock_service p)
unfolding unlock_service
unlock_service-Quiet p = Quiet-bind (load_service-Quiet p) λ s. record { from = λ k. refl }

lock_linber-Quiet : Quiet lock_linber
unfolding lock_linber
lock_linber-Quiet = record {
  from = λ k.
      elim (k.linber.mutex)
        as (λ b.
          Leaves k.user_word
            (if b then hang else put_linber (record (k.linber) { mutex = true }) k)) [
              | true ↦ tt
              | false ↦ refl
            ];
}

find_service-Quiet : (uri : List ℕ) → Quiet (find_service uri)
unfolding find_service unlock_linber
find_service-Quiet uri = Quiet-bind lock_linber-Quiet λ _.
    Quiet-bind {m = get_linber} (record { from = λ k. refl })
      λ l.
        Quiet-bind {m = unlock_linber} (record { from = λ k. refl })
          λ _. Quiet-ok {a = get_service_node l.services_rbtree uri}

search_list-Quiet : (ps : List ℕ) (token : ℕ) → Quiet (search_list ps token)
unfolding search_list
search_list-Quiet [] token = Quiet-ok
search_list-Quiet (p ∷ ps) token =
    Quiet-bind (load_request-Quiet p)
      λ r. Quiet-if (r.token == token) Quiet-ok (search_list-Quiet ps token)

get_completed_request-Quiet : (p token : ℕ) → Quiet (get_completed_request p token)
unfolding get_completed_request
get_completed_request-Quiet p token = Quiet-bind (lock_service-Quiet p) λ _.
    Quiet-bind (load_service-Quiet p) λ s.
      Quiet-bind (search_list-Quiet s.completed_requests token)
        λ c. Quiet-bind (taken c) λ _. Quiet-bind (unlock_service-Quiet p) λ _. Quiet-ok {a = c}
  where
    taken :
        (c : Cursor)
        → Quiet (elim c [
          | list_head ↦ skip
          | entry p' ↦ do
            s' ← load_service p
            store_service p (record s' { completed_requests = without p' s'.completed_requests })
        ])
    taken list_head = Quiet-ok
    taken (entry p') = Quiet-bind (load_service-Quiet p) λ s'. record { from = λ k. refl }

data_of-Quiet : (p : Payload) → Quiet (data_of p)
data_of-Quiet (buffer a) = Quiet-ok
data_of-Quiet (shm_key k) = Quiet-fault
data_of-Quiet garbage = Quiet-fault

free_buffer-Quiet : (p : ℕ) → Quiet (free_buffer p)
free_buffer-Quiet p = record {
  from = λ k.
      elim (k.buffers p)
        as (λ o. Leaves k.user_word (elim o [
          | none ↦ oops
          | some _ ↦ ok tt (record k { buffers = update k.buffers p none })
        ])) [ none ↦ tt | some _ ↦ refl ];
}

free_request-Quiet : (p : ℕ) → Quiet (free_request p)
free_request-Quiet p = record {
  from = λ k.
      elim (k.requests p)
        as (λ o. Leaves k.user_word (elim o [
          | none ↦ oops
          | some _ ↦ ok tt (record k { requests = update k.requests p none })
        ])) [ none ↦ tt | some _ ↦ refl ];
}

deliver_response-Quiet : (env : Env) (p : Request) (r : ℕ) → Quiet (deliver_response env p r)
unfolding deliver_response
deliver_response-Quiet env p r = Quiet-bind (load_request-Quiet r) λ n.
    Quiet-bind
      (Quiet-if n.response_shm_mode Quiet-ok (
        Quiet-bind (data_of-Quiet n.response) λ a. Quiet-bind (load_buffer-Quiet a) λ bs.
          Quiet-bind
            (copy_to_user-Quiet (env.copy to_response) p.ptr_response (prefix n.response_len bs))
            λ _. free_buffer-Quiet a))
      λ _.
        Quiet-bind
          (Quiet-if n.request_shm_mode Quiet-ok
            (Quiet-bind (data_of-Quiet n.request) λ a. free_buffer-Quiet a))
          λ _. Quiet-bind (free_request-Quiet r) λ _. Quiet-ok {a = n.result_cmd}

get_response-Quiet :
    (env : Env) (uri : List ℕ) (p : Request) → Quiet (linber_request_service_get_response env uri p)
unfolding linber_request_service_get_response
get_response-Quiet env uri p = Quiet-choose _ (find_service-Quiet uri) Quiet-ok λ q.
    Quiet-bind (load_service-Quiet q) λ s. Quiet-if s.destroy_me Quiet-ok (
      Quiet-bind (get_user-Quiet (env.copy from_token) p.ptr_token)
        λ token. Quiet-bind (get_completed_request-Quiet q token) handed)
  where
    handed :
        (c : Cursor)
        → Quiet {A = ℤ} (elim c [ list_head ↦ fault | entry r ↦ deliver_response env p r ])
    handed list_head = Quiet-fault
    handed (entry r) = deliver_response-Quiet env p r

check_kmalloc-Quiet : (given : Bool) → Quiet (check_kmalloc given)
check_kmalloc-Quiet given = Quiet-choose _ (kmalloc-Quiet given) (Quiet-exit _) λ _. Quiet-ok

with_params-Quiet : {m : M ℤ} (env : Env) → Quiet m → Quiet (with_params env m)
with_params-Quiet env h = Quiet-bind (check_kmalloc-Quiet (env.kmalloc of_param)) λ _.
    Quiet-bind (check_copy-Quiet (env.copy from_param)) λ _.
      Quiet-bind (check_kmalloc-Quiet (env.kmalloc of_uri))
        λ _. Quiet-bind (check_copy-Quiet (env.copy from_uri)) λ _. h

returned-Leaves : (words : ℕ → ℕ) (r : Run ℤ) → Leaves words r → Leaves words (returned r)
returned-Leaves words (ok a k) h = h
returned-Leaves words (exit a k) h = h
returned-Leaves words oops h = h
returned-Leaves words hang h = h
returned-Leaves words (sleep w k go) h = elim h [ ]

pub ioctl_get_response-Quiet :
    (env : Env) (uri : List ℕ) (p : Request)
    → Quiet (linber_ioctl env (request_service_get_response uri p))
unfolding linber_ioctl handle
ioctl_get_response-Quiet env uri p = record {
  from = λ k.
      returned-Leaves k.user_word (handle env (request_service_get_response uri p) k)
        ((with_params-Quiet env (get_response-Quiet env (c_string uri) p)).from k);
}
