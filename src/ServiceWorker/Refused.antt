-- ===== src/ServiceWorker/Refused.antt =====
-- A worker that the driver does not register, in libs/src/linberServiceWorker.cpp.
use linber.Prelude.{
  ℕ, suc, ◌+◌, ◌≡◌, refl, true, false, none, List, [], ◌∷◌, ◌++◌, ◌==◌, leb, length, length-append,
  arith,
}
use linber.Prelude.Int.{negsuc}
use linber.Driver.Kernel.{Kernel, ok, update, overwrite}
use linber.Driver.Params.{register_service_worker}
use linber.Api.Connection.{ioctl_send-device}
use linber.Api.Device.{linber_init}
use linber.Api.Process.{User, Os, returns, segv, is_negative, malloc, find_block, free, ◌>>=◌}
use linber.Api.Worker.{StartLocals, linber_register_service_worker, linber_destroy_worker}
use linber.Api.WorkerFile.{write_block-top}
use linber.ServiceWorker.{
  ServiceWorker, Job, new_worker, delete_worker, worker_job, terminate_worker,
}

-- The process when the constructor is done.
abbrev pub made : Os → List ℕ → User → User
made os uri u = record u {
  kernel = record (u.kernel) {
    user_bytes =
        update u.kernel.user_bytes (suc u.next)
          (overwrite (uri ++ (0 ∷ [])) (u.kernel.user_bytes (suc u.next)));
  };
  linber_fd = os.open_device;
  is_open = true;
  next = suc u.next;
  heap = (suc u.next, length uri + 1) ∷ u.heap;
}

abbrev built : List ℕ → (service_token : ℕ) → ServiceWorker → User → ServiceWorker
built uri service_token stale u = record stale {
  service_uri = suc u.next;
  uri = uri;
  service_token = service_token;
  request = 0;
  response = 0;
  worker_alive = true;
}

terminated_fits : (uri : List ℕ) → leb (length (uri ++ (0 ∷ []))) (length uri + 1) ≡ true
terminated_fits uri = ground (arith, length-append uri (0 ∷ []))

-- The driver refuses to register the worker.
pub record NotRegistered (os : Os) (uri : List ℕ) (service_token : ℕ) (stale : ServiceWorker)
    (u : User) (e : ℕ) (k : Kernel) : Type 0 where
  pub room : os.malloc (length uri + 1) ≡ true
  pub device : is_negative os.open_device ≡ false
  pub refused :
      os.device
        (register_service_worker uri
          (record { service_token = service_token; ptr_worker_id = stale.worker_id_at }))
        (made os uri u).kernel
      ≡ ok (negsuc e) k
  pub stale_pointer : (stale.file_str == 0) ≡ false
  pub no_block : find_block stale.file_str ((suc u.next, length uri + 1) ∷ u.heap) ≡ none

module _ (os : Os) (uri : List ℕ) (service_token : ℕ) (stale : ServiceWorker) (u : User) where
  new_worker-made :
      os.malloc (length uri + 1) ≡ true
      → is_negative os.open_device ≡ false
      → new_worker os uri service_token stale u
        ≡ returns (built uri service_token stale u) (made os uri u)
  unfolding new_worker malloc linber_init
  new_worker-made room device =
      rw
        (
          room,
          write_block-top (suc u.next) (length uri + 1) (uri ++ (0 ∷ [])) u.heap
              (record u { next = suc u.next }) (terminated_fits uri),
          device,
        )
        refl

  worker_job-refused :
      (rounds : List Os) (job : Job) (at : StartLocals) (e : ℕ) (k : Kernel)
      → NotRegistered os uri service_token stale u e k
      → worker_job os rounds job at (built uri service_token stale u) (made os uri u)
        ≡ returns
            (terminate_worker (built uri service_token stale u))
            (record (made os uri u) { kernel = k })
  unfolding worker_job linber_register_service_worker
  worker_job-refused rounds job at e k r =
      rw
        (
          ioctl_send-device os
              (register_service_worker uri
                (record { service_token = service_token; ptr_worker_id = stale.worker_id_at }))
              (made os uri u) r.device refl,
          r.refused,
        )
        refl

  -- A worker object whose registration the driver refuses is destroyed by freeing file_str, which
  -- nothing has set: where that is neither NULL nor a block of the process, the destructor meets a
  -- bad pointer. The uri is copied and the device file opened by the constructor.
  pub worker_refused-delete :
      (rounds : List Os) (job : Job) (at : StartLocals) (e : ℕ) (k : Kernel)
      → NotRegistered os uri service_token stale u e k
      → (do
        w ← new_worker os uri service_token stale
        w' ← worker_job os rounds job at w
        delete_worker w')
          u
        ≡ segv
  unfolding delete_worker linber_destroy_worker free
  worker_refused-delete rounds job at e k r =
      rw
        (
          new_worker-made r.room r.device,
          worker_job-refused rounds job at e k r,
          r.stale_pointer,
          r.no_block,
        )
        refl
