-- ===== src/Driver/System/Calls.antt =====
-- Every ioctl call of driver/linber_main.c keeps the memory sound.
use linber.Prelude.{
  ℕ, ◌+◌, Bool, Option, none, some, List, [], ◌∷◌, ltb, get_elem?, set, Bool-cases, inl, inr,
}
use linber.Prelude.Int.{ℤ, pos}
use linber.Types.{ServiceNode}
use linber.Driver.Kernel.{
  Run, M, Env, ok, exit, oops, hang, sleep, ◌>>◌, pure, fault, of_status, of_param, of_uri,
  from_param, from_uri, to_uri, from_status, from_services, to_status, to_services, copy_to_user,
  unlock_service,
}
use linber.Driver.Params.{
  Ioctl, SystemStatus, ServiceStatus, register_service, request_service,
  request_service_get_response, register_service_worker, start_job, start_job_get_request, end_job,
  destroy_service, system_status, other, max_services,
}
use linber.Driver.Ioctl.{linber_ioctl, handle, with_params, check_kmalloc, returned, c_string}
use linber.Driver.Status.{
  report_service, report_services, read_status, read_services, write_status, write_services,
  linber_get_system_status, status_of,
}
use linber.Driver.System.Keeps.{
  Kept, Keeps, Kept-bind, Kept-choose, Kept-if, Kept-ok, Kept-exit, Kept-fault,
}
use linber.Driver.System.Clients.{register_service-Kept, request_service-Kept, get_response-Kept}
use linber.Driver.System.Servers.{
  register_worker-Kept, start_job-Kept, start_job_get_request-Kept, end_job-Kept, destroy-Kept,
}
use linber.Driver.System.Steps.{
  steps, kmalloc-Kept, check_copy-Kept, load_service-Kept, lock_service-Kept, get_linber-Kept,
  lock_linber-Kept, unlock_linber-Kept,
}

report_service-Kept :
    (env : Env) (i q : ℕ) (services : List ServiceStatus) → Kept (report_service env i q services)
unfolding report_service
report_service-Kept env i q services =
    Kept-bind (lock_service-Kept q)
      λ _. Kept-bind (load_service-Kept q) λ s. entry_of s (get_elem? services i)
  where
    entry_of :
        (s : ServiceNode) (o : Option ServiceStatus)
        → Kept {A = List ServiceStatus} (elim o [
          | none ↦ fault
          | some old ↦ do
            copy_to_user (env.copy to_uri) old.uri s.uri
            unlock_service q
            pure (set services i (status_of s old))
        ])
    entry_of s none = Kept-fault
    entry_of s (some old) = search steps

report_services-Kept :
    (env : Env) (count i : ℕ) (ps : List ℕ) (services : List ServiceStatus)
    → Kept (report_services env count i ps services)
unfolding report_services
report_services-Kept env count i [] services = Kept-ok
report_services-Kept env count i (q ∷ ps) services = Kept-bind get_linber-Kept λ l.
    Kept-bind (Kept-if (ltb i l.services_count) (report_service-Kept env i q services) Kept-ok)
      λ services'. report_services-Kept env count (i + 1) ps services'

read_status-Kept : (env : Env) (user : ℕ) → Kept (read_status env user)
read_status-Kept env user = record {
  from = λ k h. elim (Bool-cases (env.copy from_status)) [
    | inl fine ↦ rw fine h
    | inr failed ↦ rw failed h
  ];
}

read_services-Kept : (env : Env) (user : ℕ) → Kept (read_services env user)
read_services-Kept env user = record {
  from = λ k h. elim (Bool-cases (env.copy from_services)) [
    | inl fine ↦ rw fine h
    | inr failed ↦ rw failed h
  ];
}

write_status-Kept : (env : Env) (user : ℕ) (s : SystemStatus) → Kept (write_status env user s)
write_status-Kept env user s = record {
  from = λ k h. elim (Bool-cases (env.copy to_status)) [
    | inl fine ↦ rw fine h
    | inr failed ↦ rw failed h
  ];
}

write_services-Kept :
    (env : Env) (user count : ℕ) (services : List ServiceStatus)
    → Kept (write_services env user count services)
write_services-Kept env user count services = Kept-if (ltb max_services count) Kept-fault (record {
  from = λ k h. elim (Bool-cases (env.copy to_services)) [
    | inl fine ↦ rw fine h
    | inr failed ↦ rw failed h
  ];
})

status-Kept : (env : Env) (user : ℕ) → Kept (linber_get_system_status env user)
unfolding linber_get_system_status
status-Kept env user = Kept-choose _ (kmalloc-Kept (env.kmalloc of_status)) (Kept-exit _) λ _.
    Kept-bind (read_status-Kept env user) λ asked. Kept-bind get_linber-Kept λ l.
      Kept-bind
        (Kept-if (ltb 0 l.services_count)
          (Kept-bind (read_services-Kept env asked.services) λ array.
            Kept-bind lock_linber-Kept λ _.
              Kept-bind (report_services-Kept env l.services_count 0 l.services array)
                λ filled. Kept-bind unlock_linber-Kept λ _. Kept-ok {a = filled})
          Kept-ok)
        λ services.
          Kept-bind
            (write_status-Kept env user
              (record asked { max_working = l.max_working; services_count = l.services_count }))
            λ _. Kept-bind get_linber-Kept λ l'.
              Kept-bind (write_services-Kept env asked.services l'.services_count services)
                λ _. Kept-ok {a = pos 0}

check_kmalloc-Kept : (given : Bool) → Kept (check_kmalloc given)
check_kmalloc-Kept given = Kept-choose _ (kmalloc-Kept given) (Kept-exit _) λ _. Kept-ok

with_params-Kept : {m : M ℤ} (env : Env) → Kept m → Kept (with_params env m)
with_params-Kept env h = Kept-bind (check_kmalloc-Kept (env.kmalloc of_param)) λ _.
    Kept-bind (check_copy-Kept (env.copy from_param)) λ _.
      Kept-bind (check_kmalloc-Kept (env.kmalloc of_uri))
        λ _. Kept-bind (check_copy-Kept (env.copy from_uri)) λ _. h

handle-Kept : (env : Env) (cmd : Ioctl) → Kept (handle env cmd)
unfolding handle
handle-Kept env (register_service uri p) =
    with_params-Kept env (register_service-Kept env (c_string uri) p)
handle-Kept env (request_service uri p) =
    with_params-Kept env (request_service-Kept env (c_string uri) p)
handle-Kept env (request_service_get_response uri p) =
    with_params-Kept env (get_response-Kept env (c_string uri) p)
handle-Kept env (register_service_worker uri p) =
    with_params-Kept env (register_worker-Kept env (c_string uri) p)
handle-Kept env (start_job uri p) = with_params-Kept env (start_job-Kept env (c_string uri) p)
handle-Kept env (start_job_get_request uri p) =
    with_params-Kept env (start_job_get_request-Kept env (c_string uri) p)
handle-Kept env (end_job uri p) = with_params-Kept env (end_job-Kept env (c_string uri) p)
handle-Kept env (destroy_service uri token) =
    with_params-Kept env (destroy-Kept env (c_string uri) token)
handle-Kept env (system_status user) = status-Kept env user
handle-Kept env (other uri) = with_params-Kept env Kept-ok

returned-Keeps : (r : Run ℤ) → Keeps r → Keeps (returned r)
returned-Keeps (ok a k) h = h
returned-Keeps (exit a k) h = h
returned-Keeps oops h = h
returned-Keeps hang h = h
returned-Keeps (sleep w k go) h = (h.0, λ k' s. returned-Keeps (go k') (h.1 k' s))

pub ioctl-Kept : (env : Env) (cmd : Ioctl) → Kept (linber_ioctl env cmd)
unfolding linber_ioctl
ioctl-Kept env cmd = record {
  from = λ k h. returned-Keeps (handle env cmd k) ((handle-Kept env cmd).from k h);
}
