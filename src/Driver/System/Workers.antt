-- ===== src/Driver/System/Workers.antt =====
-- The helpers on workers of driver/linber_main.c and the scheduling policy keep the memory sound.
use linber.Prelude.{
  ℕ, refl, ◌∙◌, true, false, Option, none, some, [], ◌∷◌, ◌++◌, ◌==◌, ltb, if◌then◌else◌, get_elem?,
  length-set, Bool-cases, inl, inr, ◌^◌, ◌-◌,
}
use linber.Words.{dec32}
use linber.Types.{RequestNode, ServiceNode, WorkerStruct}
use linber.Driver.Kernel.{
  M, Env, Policy, ◌>>=◌, ◌>>◌, pure, skip, fault, load_service, store_service, sem_for_request,
  up_request, unlock_service,
}
use linber.Driver.Dispatch.{
  dispatch, dispatch_as_best_effort, dispatch_as_real_time, sched_setattr, rel_deadline, is_expired,
}
use linber.Driver.Workers.{
  put_slot, serve_in_slot, decrease_workers, own_slot, get_worker_by_id, service_check_worker,
  service_check_alive, drop_job, take_request, worker_wait_for_request, worker_get_request,
  add_completed, move_from_worker_to_completed,
}
use linber.Driver.Lifecycle.{clean_service}
use linber.Driver.Steps.{put_service}
use linber.Driver.System.{Whole}
use linber.Driver.System.Keeps.{Kept, Keeps, Kept-bind, Kept-choose, Kept-if, Kept-ok, Kept-fault}
use linber.Driver.System.Clean.{clean_service-Kept}
use linber.Driver.System.Requests.{get_request-Kept, same_workers}
use linber.Driver.System.Stores.{Sound-store}
use linber.Driver.System.Steps.{
  steps, edit-Kept, edit_last-Kept, Kept-load, lock_service-Kept, unlock_service-Kept,
  load_service-Kept, up_request-Kept, down-Kept,
}

Whole-put_slot : (s : ServiceNode) (i : ℕ) (w : WorkerStruct) → Whole s → Whole (put_slot s i w)
Whole-put_slot s i w h = (length-set s.workers.worker_slots i w ∙ h.0, h.1)

-- A slot that is read and written.
pub slot-Kept :
    (p i : ℕ) (f : WorkerStruct → WorkerStruct)
    → Kept {A = Unit {0}} (
        load_service p >>= λ s. elim (get_elem? s.workers.worker_slots i) [
          | none ↦ fault
          | some w ↦ store_service p (put_slot s i (f w))
        ])
slot-Kept p i f = Kept-load p λ s k h e.
    elim (get_elem? s.workers.worker_slots i)
      as (λ o. Keeps (
        (let m : M (Unit {0}) = elim o [
          | none ↦ fault
          | some w ↦ store_service p (put_slot s i (f w))
        ] in
            m)
          k)) [
            | none ↦ tt
            | some w ↦
                Sound-store k p s (put_slot s i (f w)) h e
                  (Whole-put_slot s i (f w) (h.whole p s e)) refl
          ]

serve_in_slot-Kept : (p i : ℕ) (req : Option ℕ) → Kept (serve_in_slot p i req)
serve_in_slot-Kept p i req = slot-Kept p i (λ w. record w { request = req })

pub decrease_workers-Kept : (p : ℕ) → Kept (decrease_workers p)
unfolding decrease_workers
decrease_workers-Kept p = Kept-bind (lock_service-Kept p) λ _.
    edit-Kept p
      (λ s. record s {
        workers = record (s.workers) { count_registered = dec32 s.workers.count_registered };
      })
      (record { whole = λ s w. w; same_uri = λ s. refl }) (λ _. unlock_service-Kept p)

own_slot-Kept : (env : Env) (w : WorkerStruct) → Kept (own_slot env w)
own_slot-Kept env w =
    elim (w.task)
      as (λ o.
        Kept (elim o [
          | none ↦ fault
          | some pid ↦ pure (if pid == env.current then some w else none)
        ])) [ none ↦ Kept-fault | some pid ↦ Kept-ok ]

pub get_worker_by_id-Kept : (env : Env) (p i : ℕ) → Kept (get_worker_by_id env p i)
unfolding get_worker_by_id
get_worker_by_id-Kept env p i = Kept-bind (load_service-Kept p) λ s.
    Kept-if (ltb i s.workers.max_workers) (at_slot (get_elem? s.workers.worker_slots i)) Kept-ok
  where
    at_slot :
        (o : Option WorkerStruct)
        → Kept {A = Option WorkerStruct} (elim o [ none ↦ fault | some w ↦ own_slot env w ])
    at_slot none = Kept-fault
    at_slot (some w) = own_slot-Kept env w

pub service_check_worker-Kept : (p token i : ℕ) → Kept (service_check_worker p token i)
unfolding service_check_worker
service_check_worker-Kept p token i = search steps

service_check_alive-Kept : (env : Env) (p : ℕ) → Kept (service_check_alive env p)
unfolding service_check_alive
service_check_alive-Kept env p = Kept-bind (lock_service-Kept p) λ _. Kept-load p λ s k h e.
    let t = record s {
      workers = record (s.workers) { count_registered = dec32 s.workers.count_registered };
    } in
    elim (s.destroy_me)
      as (λ b. Keeps (
        (if b
            then (do
              store_service p t
              if t.workers.count_registered == 0 then clean_service env p else unlock_service p
              pure false)
            else (do unlock_service p; pure true))
          k)) [
            | true ↦
                (Kept-bind {f = λ _. pure false}
                    (Kept-if (t.workers.count_registered == 0) (clean_service-Kept env p)
                      (unlock_service-Kept p))
                    (λ _. Kept-ok)).from
                  (put_service k p t) (Sound-store k p s t h e (h.whole p s e) refl)
            | false ↦
                (Kept-bind {f = λ _. pure true} (unlock_service-Kept p) (λ _. Kept-ok)).from k h
          ]

drop_job-Kept : (p i : ℕ) (w : WorkerStruct) → Kept (drop_job p i w)
unfolding drop_job
drop_job-Kept p i w =
    elim (w.request)
      as (λ o.
        Kept (elim o [ none ↦ skip | some req ↦ do up_request req; serve_in_slot p i none ])) [
          | none ↦ Kept-ok
          | some req ↦ Kept-bind (up_request-Kept req) λ _. serve_in_slot-Kept p i none
        ]

take_request-Kept : (env : Env) (p i : ℕ) → Kept (take_request env p i)
unfolding take_request
take_request-Kept env p i = Kept-bind (lock_service-Kept p) λ _.
    Kept-bind (get_request-Kept env p)
      λ req. Kept-bind (served req) λ _. Kept-bind (unlock_service-Kept p) λ _. Kept-ok
  where
    served : (o : Option ℕ) → Kept (elim o [ none ↦ skip | some q ↦ serve_in_slot p i (some q) ])
    served none = Kept-ok
    served (some q) = serve_in_slot-Kept p i (some q)

pub worker_wait-Kept : (env : Env) (p i : ℕ) → Kept (worker_wait_for_request env p i)
unfolding worker_wait_for_request
worker_wait-Kept env p i = Kept-choose _ (get_worker_by_id-Kept env p i) Kept-ok λ w.
    Kept-bind (drop_job-Kept p i w) λ _. Kept-bind (down-Kept (sem_for_request p)) λ _.
      Kept-bind (service_check_alive-Kept env p)
        λ alive. Kept-if alive (take_request-Kept env p i) (Kept-ok {a = none})

pub worker_get_request-Kept : (env : Env) (p i : ℕ) → Kept (worker_get_request env p i)
unfolding worker_get_request
worker_get_request-Kept env p i = Kept-bind (get_worker_by_id-Kept env p i) λ w. Kept-ok

add_completed-Kept : (p req : ℕ) → Kept (add_completed p req)
add_completed-Kept p req =
    edit_last-Kept p (λ s. record s { completed_requests = s.completed_requests ++ (req ∷ []) })
      (same_workers _ (λ s. refl) (λ s. refl))

pub move-Kept : (env : Env) (p i : ℕ) → Kept (move_from_worker_to_completed env p i)
unfolding move_from_worker_to_completed
move-Kept env p i = Kept-bind (lock_service-Kept p) λ _.
    Kept-choose _ (get_worker_by_id-Kept env p i)
      (Kept-bind {m = skip} Kept-ok λ _. Kept-bind (unlock_service-Kept p) λ _. Kept-fault)
      (λ w. moved w.request)
  where
    moved :
        (o : Option ℕ)
        → Kept {A = Unit {0}} (
            (do serve_in_slot p i none; elim o [ none ↦ skip | some q ↦ add_completed p q ])
            >> (do unlock_service p; elim o [ none ↦ fault | some q ↦ up_request q ]))
    moved none =
        Kept-bind (Kept-bind (serve_in_slot-Kept p i none) (λ _. Kept-ok))
          λ _. Kept-bind (unlock_service-Kept p) λ _. Kept-fault
    moved (some q) =
        Kept-bind (Kept-bind (serve_in_slot-Kept p i none) (λ _. add_completed-Kept p q))
          λ _. Kept-bind (unlock_service-Kept p) λ _. up_request-Kept q

setattr-Kept : (env : Env) (policy : Policy) → Kept (sched_setattr env policy)
setattr-Kept env policy = record {
  from = λ k h. elim (Bool-cases (env.setattr policy)) [
    | inl granted ↦ rw granted h
    | inr refused ↦ rw refused h
  ];
}

pub dispatch_as_best_effort-Kept : (env : Env) → Kept (dispatch_as_best_effort env)
unfolding dispatch_as_best_effort
dispatch_as_best_effort-Kept env = Kept-bind (setattr-Kept env _) λ _. Kept-ok

dispatch_as_real_time-Kept :
    (env : Env) (exec_time period rel : ℕ) → Kept (dispatch_as_real_time env exec_time period rel)
unfolding dispatch_as_real_time
dispatch_as_real_time-Kept env exec_time period rel = setattr-Kept env _

pub dispatch-Kept : (env : Env) (s : ServiceNode) (r : RequestNode) → Kept (dispatch env s r)
unfolding dispatch
dispatch-Kept env s r =
    Kept-if (r.abs_deadline_ns == 2 ^ 64 - 1) (dispatch_as_best_effort-Kept env) (
      Kept-if (is_expired (rel_deadline r.abs_deadline_ns env.now))
        (dispatch_as_best_effort-Kept env)
        (Kept-bind (dispatch_as_real_time-Kept env _ _ _)
          λ done. Kept-if done Kept-ok (dispatch_as_best_effort-Kept env)))
