-- ===== src/Driver/Status.antt =====
-- linber_get_system_status of driver/linber_main.c.
use linber.Prelude.{
  ℕ, zero, suc, ◌+◌, ◌/◌, none, some, List, [], ◌∷◌, ltb, if◌then◌else◌, length, get_elem?, set,
}
use linber.Prelude.Int.{ℤ, pos}
use linber.Types.{ServiceNode}
use linber.Driver.Kernel
use linber.Driver.Kernel.{
  M, Env, of_status, from_status, from_services, to_uri, to_status, to_services, ◌>>=◌, ◌>>◌, pure,
  skip, return, fault, kmalloc, check_copy, load_service, get_linber, lock_service, unlock_service,
  lock_linber, unlock_linber, copy_to_user, update,
}
use linber.Driver.Params.{SystemStatus, ServiceStatus, max_services, kernel_memory_error}

-- nSEC_TO_mSEC
abbrev pub nsec_to_msec : ℕ → ℕ
nsec_to_msec nsec = nsec / 1000000

abbrev pub status_of : ServiceNode → ServiceStatus → ServiceStatus
status_of s old = record old {
  uri_len = length s.uri;
  requests_count = s.request_count;
  max_working = s.workers.max_workers;
  exec_time_ms = nsec_to_msec s.exec_time_ns;
  period_ms = nsec_to_msec s.period;
  budget_ms = nsec_to_msec s.budget;
}

abbrev pub no_status : ServiceStatus
no_status = record {
  uri = 0;
  uri_len = 0;
  requests_count = 0;
  max_working = 0;
  exec_time_ms = 0;
  budget_ms = 0;
  period_ms = 0;
}

-- An array of user memory, which reads as 0 past the end of what was stored.
abbrev pub array_of : ℕ → List ServiceStatus → List ServiceStatus
array_of zero xs = []
array_of (suc n) [] = no_status ∷ array_of n []
array_of (suc n) (x ∷ xs) = x ∷ array_of n xs

-- The first entries of `new`, written over the start of `old`.
abbrev pub overwrite_services : ℕ → (new old : List ServiceStatus) → List ServiceStatus
overwrite_services zero new old = old
overwrite_services (suc n) [] old = old
overwrite_services (suc n) (x ∷ new) [] = x ∷ overwrite_services n new []
overwrite_services (suc n) (x ∷ new) (y ∷ old) = x ∷ overwrite_services n new old

-- One service, into `services[i]`: an entry behind the array's end is a bad access. The copy of the
-- uri returns from the handler if it fails, with both mutexes held.
unfoldable pub report_service : Env → ℕ → ℕ → List ServiceStatus → M (List ServiceStatus)
report_service env i ser_node services = do
  lock_service ser_node
  s ← load_service ser_node
  elim (get_elem? services i) [
    | none ↦ fault
    | some old ↦ do
      copy_to_user (env.copy to_uri) old.uri s.uri
      unlock_service ser_node
      pure (set services i (status_of s old))
  ]

-- The walk over the list of services, from the i-th on.
unfoldable pub report_services : Env → ℕ → ℕ → List ℕ → List ServiceStatus → M (List ServiceStatus)
report_services env count i [] services = pure services
report_services env count i (ser_node ∷ rest) services = do
  l ← get_linber
  services' ←
      (if ltb i l.services_count then report_service env i ser_node services else pure services)
  report_services env count (i + 1) rest services'

abbrev pub read_status : Env → ℕ → M SystemStatus
read_status env user = do check_copy (env.copy from_status); (λ k. Kernel.ok (k.user_status user) k)

abbrev pub read_services : Env → ℕ → M (List ServiceStatus)
read_services env user = do
  check_copy (env.copy from_services)
  (λ k. Kernel.ok (array_of max_services (k.user_services user)) k)

abbrev pub write_status : Env → ℕ → SystemStatus → M (Unit {0})
write_status env user s = do
  check_copy (env.copy to_status)
  (λ k. Kernel.ok tt (record k { user_status = update k.user_status user s }))

-- `count` entries of an array of ten: more is a bad read.
abbrev pub write_services : Env → ℕ → ℕ → List ServiceStatus → M (Unit {0})
write_services env user count services = if ltb max_services count then fault else do
  check_copy (env.copy to_services)
  (λ k. Kernel.ok tt (record k {
    user_services =
        update k.user_services user (overwrite_services count services (k.user_services user));
  }))

unfoldable pub linber_get_system_status : Env → ℕ → M ℤ
unfolding report_services
linber_get_system_status env user = do
  room ← kmalloc (env.kmalloc of_status)
  elim room [
    | none ↦ return kernel_memory_error
    | some _ ↦ do
      asked ← read_status env user
      l ← get_linber
      let system = record asked { max_working = l.max_working; services_count = l.services_count }
      services ←
          (if ltb 0 l.services_count
            then (do
              array ← read_services env asked.services
              lock_linber
              filled ← report_services env l.services_count 0 l.services array
              unlock_linber
              pure filled)
            else pure [])
      write_status env user system
      l' ← get_linber
      write_services env asked.services l'.services_count services
      pure (pos 0)
  ]
