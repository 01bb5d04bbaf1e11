-- ===== src/Driver/System/Live.antt =====
-- What the sound memory of driver/linber_main.c means for the calls of a client and a worker.
use linber.Prelude.{
  ◌^◌, ℕ, suc, zero, ◌≡◌, ◌<◌, refl, sym, ◌∙◌, subst, Bool, true, false, some, List, [], ◌∷◌, ◌&&◌,
  ◌==◌, ltb, get_elem?, length, arith,
}
use linber.Types.{ServiceNode, WorkerStruct}
use linber.Driver.Kernel.{Kernel, ok}
use linber.Driver.Lifecycle.{find_service}
use linber.Driver.Steps.{find_service-ok, service_check_worker-ok}
use linber.Driver.Workers.{service_check_worker}
use linber.Driver.System.Reach.{System, Reached, Reached-SoundSystem}

get_elem-below :
    (ws : List WorkerStruct) (i : ℕ)
    → i < length ws
    → (w : WorkerStruct) × (get_elem? ws i ≡ some w)
get_elem-below [] i h = absurd (omega arith)
get_elem-below (w ∷ ws) zero h = (w, refl)
get_elem-below (w ∷ ws) (suc i) h = get_elem-below ws i (omega arith)

-- The service that a call works on, and the slot of the worker.
pub record Live (uri : List ℕ) (p worker_id : ℕ) (k : Kernel) : Type 0 where
  pub service : ServiceNode
  pub here : k.services p ≡ some service
  pub its_uri : service.uri ≡ uri
  pub slot : WorkerStruct
  pub its_slot : get_elem? service.workers.worker_slots worker_id ≡ some slot

ok-inj : {A : Type 0} {x y : A} (k : Kernel) → ok x k ≡ ok y k → x ≡ y
ok-inj k e = cc

in_range : (i m n : ℕ) (b : Bool) → (ltb i m && ltb i n && b) ≡ true → i < n
in_range i m n b e = ground arith

-- In every state that the module reaches, with the mutex of linber free, a uri that is found and a
-- worker id that is accepted with the token of the service lead to a service that is allocated and
-- has this uri, and to a slot of it.
pub rights-Live :
    (a : System) (uri : List ℕ) (p service_token worker_id : ℕ)
    → Reached a
    → a.memory.linber.mutex ≡ false
    → find_service uri a.memory ≡ ok (some p) a.memory
    → service_check_worker p service_token worker_id a.memory ≡ ok true a.memory
    → Live uri p worker_id a.memory
rights-Live a uri p service_token worker_id r free found rights =
    let h = (Reached-SoundSystem a r).0 in
    let (s, at, its) =
      h.mapped uri p (ok-inj a.memory (sym (find_service-ok uri a.memory free) ∙ found)) in
    let allowed =
      ok-inj a.memory
        (sym (service_check_worker-ok a.memory p at service_token worker_id) ∙ rights) in
    let below =
      in_range worker_id (2 ^ 31) s.workers.max_workers (s.token == service_token) allowed in
    let (w, here) =
      get_elem-below s.workers.worker_slots worker_id
        (subst (λ n. worker_id < n) (sym (h.whole p s at).0) below) in
    record { service = s; here = at; its_uri = its; slot = w; its_slot = here }
