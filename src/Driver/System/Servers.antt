-- ===== src/Driver/System/Servers.antt =====
-- The operations of a worker in driver/linber_main.c keep the memory sound.
use linber.Prelude.{
  ℕ, ◌≡◌, ◌≤◌, ◌<◌, refl, sym, ap, subst, Bool, true, Option, none, some, List, not, ◌==◌, ltb,
  if◌then◌else◌, arith, Bool-cases, inl, inr,
}
use linber.Prelude.Int.{ℤ, pos, negsuc}
use linber.Words.{inc32}
use linber.Types.{ServiceNode}
use linber.Driver.Kernel.{
  Kernel, M, Env, ◌>>=◌, ◌>>◌, pure, skip, of_response_data, to_worker_id, to_request_key,
  to_request, to_request_len, to_request_shm_mode, word_of_bool, load_request, lock_service,
  load_buffer, copy_to_user, put_user, prefix, load_service, store_service, ok, hang, and_then,
  unlock_service,
}
use linber.Driver.Params.{
  RegisterWorker, StartJob, EndJob, linber_max_mem_size, request_success, request_failed,
  service_skip_job,
}
use linber.Driver.Dispatch.{dispatch_as_best_effort}
use linber.Driver.Jobs.{
  own_slot_of, claim_slot, linber_register_service_worker, describe_request, with_rights,
  start_request, linber_start_job, linber_start_job_get_request, fetch_response, set_result,
  note_response, note_key, finish_request, linber_end_job, linber_destroy_service,
}
use linber.Driver.Client.{data_of}
use linber.Driver.Steps.{put_service, put_here, locked, bind, lock_service-ok, load_service-ok}
use linber.Driver.System.{Sound}
use linber.Driver.System.Keeps.{
  Kept, Keeps, Keeps-then, Kept-bind, Kept-choose, Kept-if, Kept-ok, Kept-exit,
}
use linber.Driver.System.Clean.{destroy_service-Kept}
use linber.Driver.System.Clients.{data_of-Kept, key_of-Kept}
use linber.Driver.System.Lifecycle.{find_service-Kept}
use linber.Driver.System.Stores.{Sound-store}
use linber.Driver.System.Steps.{
  steps, kmalloc-Kept, load_request-Kept, load_service-Kept, load_buffer-Kept, put_user-Kept,
  copy_to_user-Kept, unlock_service-Kept, Kept-load,
}
use linber.Driver.System.Workers.{
  slot-Kept, decrease_workers-Kept, get_worker_by_id-Kept, service_check_worker-Kept,
  worker_wait-Kept, worker_get_request-Kept, move-Kept, dispatch_as_best_effort-Kept, dispatch-Kept,
}

describe_request-Kept : (env : Env) (p : StartJob) (r : ℕ) → Kept (describe_request env p r)
unfolding describe_request
describe_request-Kept env p req = Kept-bind (load_request-Kept req) λ r.
    Kept-bind (put_user-Kept (env.copy to_request_len) p.ptr_request_len r.request_len) λ _.
      Kept-bind
        (put_user-Kept (env.copy to_request_shm_mode) p.ptr_request_shm_mode
          (word_of_bool r.request_shm_mode))
        λ _.
          Kept-bind
            (Kept-if r.request_shm_mode
              (Kept-bind (key_of-Kept r.request)
                λ k. put_user-Kept (env.copy to_request_key) p.ptr_data k)
              Kept-ok)
            λ _. Kept-ok {a = pos 0}

with_rights-Kept : {job : M ℤ} (q token i : ℕ) → Kept job → Kept (with_rights q token i job)
with_rights-Kept q token i h =
    Kept-bind (service_check_worker-Kept q token i)
      λ rights. Kept-if rights h (Kept-bind (decrease_workers-Kept q) λ _. Kept-ok)

start_request-Kept :
    (env : Env) (q : ℕ) (p : StartJob) (o : Option ℕ) → Kept (start_request env q p o)
start_request-Kept env q p none = Kept-ok
start_request-Kept env q p (some r) = Kept-bind (load_request-Kept r) λ n.
    Kept-bind (load_service-Kept q)
      λ s. Kept-bind (dispatch-Kept env s n) λ _. describe_request-Kept env p r

pub start_job-Kept : (env : Env) (uri : List ℕ) (p : StartJob) → Kept (linber_start_job env uri p)
unfolding linber_start_job
start_job-Kept env uri p = Kept-choose _ (find_service-Kept uri) Kept-ok λ q.
    with_rights-Kept q p.service_token p.worker_id
      (Kept-bind (worker_wait-Kept env q p.worker_id) λ req. start_request-Kept env q p req)

pub start_job_get_request-Kept :
    (env : Env) (uri : List ℕ) (p : StartJob) → Kept (linber_start_job_get_request env uri p)
unfolding linber_start_job_get_request
start_job_get_request-Kept env uri p = Kept-choose _ (find_service-Kept uri) Kept-ok λ q.
    with_rights-Kept q p.service_token p.worker_id (
      Kept-choose _ (get_worker_by_id-Kept env q p.worker_id) Kept-ok λ w.
        elim (w.request)
          as (λ o. Kept {A = ℤ} (elim o [
            | none ↦ pure service_skip_job
            | some r ↦ do
              n ← load_request r
              a ← data_of n.request
              bs ← load_buffer a
              copy_to_user (env.copy to_request) p.ptr_data (prefix n.request_len bs)
              pure (pos 0)
          ])) [
            | none ↦ Kept-ok
            | some r ↦ Kept-bind (load_request-Kept r) λ n. Kept-bind (data_of-Kept n.request) λ a.
                Kept-bind (load_buffer-Kept a) λ bs.
                  Kept-bind
                    (copy_to_user-Kept (env.copy to_request) p.ptr_data (prefix n.request_len bs))
                    λ _. Kept-ok {a = pos 0}
          ])

fetch_response-Kept : (env : Env) (p : EndJob) (r : ℕ) → Kept (fetch_response env p r)
unfolding fetch_response
fetch_response-Kept env p r =
    Kept-choose _ (kmalloc-Kept (env.kmalloc of_response_data)) (Kept-exit _) λ a. search steps

set_result-Kept : (r : ℕ) (result : ℤ) → Kept (set_result r result)
set_result-Kept r result = search steps

note_response-Kept : (r len : ℕ) (mode : Bool) → Kept (note_response r len mode)
note_response-Kept r len mode = search steps

note_key-Kept : (r key : ℕ) → Kept (note_key r key)
note_key-Kept r key = search steps

finish_request-Kept : (env : Env) (q : ℕ) (p : EndJob) (r : ℕ) → Kept (finish_request env q p r)
unfolding finish_request
finish_request-Kept env q p r =
    Kept-bind (note_response-Kept r p.response_len (p.response_shm_mode == 1)) λ _.
      Kept-bind
        (Kept-if (p.response_shm_mode == 1) (note_key-Kept r p.response) (
          Kept-if (ltb linber_max_mem_size p.response_len)
            (Kept-bind (set_result-Kept r request_failed)
              λ _. Kept-bind (move-Kept env q p.worker_id) λ _. Kept-exit _)
            (fetch_response-Kept env p r)))
        λ _.
          Kept-bind (set_result-Kept r request_success)
            λ _. Kept-bind (move-Kept env q p.worker_id) λ _. Kept-ok

pub end_job-Kept : (env : Env) (uri : List ℕ) (p : EndJob) → Kept (linber_end_job env uri p)
unfolding linber_end_job
end_job-Kept env uri p = Kept-choose _ (find_service-Kept uri) Kept-ok λ q.
    with_rights-Kept q p.service_token p.worker_id (
      Kept-choose _ (worker_get_request-Kept env q p.worker_id) Kept-ok
        λ r. finish_request-Kept env q p r)

pub destroy-Kept :
    (env : Env) (uri : List ℕ) (token : ℕ) → Kept (linber_destroy_service env uri token)
unfolding linber_destroy_service
destroy-Kept env uri token = Kept-choose _ (find_service-Kept uri) Kept-ok λ q.
    Kept-bind (service_check_worker-Kept q token 0)
      λ rights. Kept-if rights (Kept-bind (destroy_service-Kept env q) λ _. Kept-ok) Kept-ok

own_slot_of-Kept : (q i pid : ℕ) → Kept (own_slot_of q i pid)
own_slot_of-Kept q i pid = slot-Kept q i (λ w. record w { task = some pid })

held_service :
    (k : Kernel) (p : ℕ) (s : ServiceNode)
    → k.services p ≡ some s
    → s.service_mutex ≡ true
    → lock_service p k ≡ hang
unfolding lock_service
held_service k p s e held = ground arith

inc32_le : (n m : ℕ) → n < m → inc32 n ≤ m
inc32_le n m h = omega arith

claim_slot-Keeps :
    (env : Env) (k : Kernel) (p : ℕ) (s : ServiceNode)
    → Sound k
    → k.services p ≡ some s
    → s.workers.next_id < s.workers.max_workers
    → Keeps (claim_slot env p k)
unfolding claim_slot lock_service
claim_slot-Keeps env k p s h e lt = elim (Bool-cases s.service_mutex) [
  | inl held ↦
      subst Keeps (sym (ap (λ r. and_then r (λ _. claimed)) (held_service k p s e held))) tt
  | inr free ↦
      let k1 = put_service k p (locked s) in
      let t = record s {
        service_mutex = true;
        workers = record (s.workers) {
          count_registered = inc32 s.workers.count_registered;
          next_id = inc32 s.workers.next_id;
        };
      } in
      let h1 = Sound-store k p s (locked s) h e (h.whole p s e) refl in
      subst Keeps (sym (bind _ (lock_service-ok k p e free))) (
        subst Keeps (sym (bind _ (load_service-ok k1 p (put_here k p (locked s))))) (
          (Kept-bind (unlock_service-Kept p) λ _.
              Kept-bind (own_slot_of-Kept p s.workers.next_id env.current)
                λ _. Kept-ok {a = s.workers.next_id}).from
            (put_service k1 p t)
            (Sound-store k1 p (locked s) t h1 (put_here k p (locked s))
              ((h.whole p s e).0, inc32_le s.workers.next_id s.workers.max_workers lt) refl)))
]
  where
    claimed : M ℕ
    claimed = do
      s' ← load_service p
      store_service p (record s' {
        workers = record (s'.workers) {
          count_registered = inc32 s'.workers.count_registered;
          next_id = inc32 s'.workers.next_id;
        };
      })
      unlock_service p
      own_slot_of p s'.workers.next_id env.current
      pure s'.workers.next_id

pub register_worker-Kept :
    (env : Env) (uri : List ℕ) (p : RegisterWorker)
    → Kept (linber_register_service_worker env uri p)
unfolding linber_register_service_worker
register_worker-Kept env uri p = Kept-choose _ (find_service-Kept uri) Kept-ok λ q.
    Kept-bind (service_check_worker-Kept q p.service_token 0) λ rights.
      Kept-if (not rights) (Kept-exit (negsuc 0))
        (Kept-load q λ s k h e. Keeps-then _ (λ _. ok (pos 0)) (joined q s k h e) (λ _ k' h'. h'))
  where
    given : ℕ → M (Unit {0})
    given worker_id = do
      put_user (env.copy to_worker_id) p.ptr_worker_id worker_id
      dispatch_as_best_effort env

    joined :
        (q : ℕ) (s : ServiceNode) (k : Kernel)
        → Sound k
        → k.services q ≡ some s
        → Keeps (
            (if ltb s.workers.next_id s.workers.max_workers
                then (claim_slot env q >>= given)
                else skip)
              k)
    joined q s k h e = elim (Bool-cases (ltb s.workers.next_id s.workers.max_workers)) [
      | inl free ↦ rw free (
          Keeps-then (claim_slot env q k) given (claim_slot-Keeps env k q s h e (ground arith))
            (λ worker_id k' h'.
              (Kept-bind {f = λ _. dispatch_as_best_effort env}
                  (put_user-Kept (env.copy to_worker_id) p.ptr_worker_id worker_id)
                  (λ _. dispatch_as_best_effort-Kept env)).from
                k' h'))
      | inr full ↦ rw full h
    ]
