-- ===== src/Api/WorkerFile.antt =====
-- The name of a worker's file and the block for it, in linber_register_service_worker of
-- libs/src/linber_service_api.c.
use linber.Prelude.{
  ℕ, suc, ◌+◌, ◌≤◌, ◌<◌, ◌≡◌, refl, true, false, List, [], ◌∷◌, ◌++◌, leb, ltb, length,
  length-append, some, arith,
}
use linber.Prelude.Int.{pos}
use linber.Driver.Ioctl.{c_string}
use linber.Driver.Kernel.{Kernel, ok, update, overwrite}
use linber.Driver.Params.{register_service_worker}
use linber.Api.Connection.{ioctl_send-device}
use linber.Api.Process.{
  User, Os, returns, segv, is_negative, malloc, write_block, find_block, add_file,
}
use linber.Api.Worker.{decimal, worker_file, make_worker_file, linber_register_service_worker}

length-decimal : (n : ℕ) → length (decimal n) ≤ 2
length-decimal n = ground arith

length-decimal_two : (n : ℕ) → 10 ≤ n → length (decimal n) ≡ 2
length-decimal_two n h = ground arith

length-worker_file :
    (uri : List ℕ) (id : ℕ)
    → length (worker_file uri id) ≡ 7 + length (c_string uri) + length (decimal id)
length-worker_file uri id = omega (
  arith,
  length-append (c_string uri) (95 ∷ (decimal id ++ (0 ∷ []))),
  length-append (decimal id) (0 ∷ []),
)

worker_file_fits :
    (uri : List ℕ) (id : ℕ)
    → length (c_string uri) < length uri
    → leb (length (worker_file uri id)) (length uri + 8) ≡ true
worker_file_fits uri id nul = rw (length-worker_file uri id) (ground (arith, length-decimal id))

worker_file_over :
    (uri : List ℕ) (id : ℕ)
    → c_string uri ≡ uri
    → 10 ≤ id
    → leb (length (worker_file uri id)) (length uri + 8) ≡ false
worker_file_over uri id whole high =
    rw (length-worker_file uri id, whole, length-decimal_two id high) (ground arith)

-- The driver has registered a worker: its id is in memory.
pub record Registered (os : Os) (uri : List ℕ) (service_token worker_id id : ℕ) (u : User)
    (k : Kernel) : Type 0 where
  pub connected : is_negative u.linber_fd ≡ false
  pub opened : u.is_open ≡ true
  pub granted :
      os.device
        (register_service_worker uri
          (record { service_token = service_token; ptr_worker_id = worker_id }))
        u.kernel
      ≡ ok (pos 0) k
  pub assigned : k.user_word worker_id ≡ id
  pub low : id ≤ 99
  pub room : os.malloc (length uri + 8) ≡ true

-- The block and the file of the worker.
abbrev pub with_file : Os → List ℕ → ℕ → User → Kernel → User
with_file os uri id u k = record u {
  kernel = record k {
    user_bytes =
        update k.user_bytes (suc u.next)
          (overwrite (worker_file uri id) (k.user_bytes (suc u.next)));
  };
  next = suc u.next;
  heap = (suc u.next, length uri + 8) ∷ u.heap;
  files = add_file os (c_string (worker_file uri id)) u.files;
}

registered_low : (id : ℕ) → id ≤ 99 → ltb 99 id ≡ false
registered_low id h = ground arith

pub find_block-top :
    (p len : ℕ) (rest : List (ℕ × ℕ)) → find_block p ((p, len) ∷ rest) ≡ some (len, rest)
find_block-top p len rest = ground arith

module _ (p len : ℕ) (bs : List ℕ) (rest : List (ℕ × ℕ)) (u : User) where
  abbrev pub with_top : User
  with_top = record u { heap = (p, len) ∷ rest }

  pub write_block-top :
      leb (length bs) len ≡ true
      → write_block p bs with_top
        ≡ returns tt (record with_top {
          kernel = record (u.kernel) {
            user_bytes = update u.kernel.user_bytes p (overwrite bs (u.kernel.user_bytes p));
          };
        })
  unfolding write_block
  write_block-top fits = rw (write_block, find_block-top p len rest, fits) refl

  write_block_overflow : leb (length bs) len ≡ false → write_block p bs with_top ≡ segv
  unfolding write_block
  write_block_overflow over = rw (write_block, find_block-top p len rest, over) refl

module _ (os : Os) (uri : List ℕ) (service_token worker_id file_str id : ℕ) (u : User) (k : Kernel)
    (r : Registered os uri service_token worker_id id u k) where
  registered-make :
      linber_register_service_worker os uri service_token worker_id file_str u
      ≡ make_worker_file os uri id (record u { kernel = k })
  unfolding linber_register_service_worker
  registered-make =
      rw
        (
          ioctl_send-device os
              (register_service_worker uri
                (record { service_token = service_token; ptr_worker_id = worker_id }))
              u r.connected r.opened,
          r.granted,
          r.assigned,
        )
        (rw (registered_low id r.low) refl)

  pub register_worker-file :
      length (c_string uri) < length uri
      → linber_register_service_worker os uri service_token worker_id file_str u
        ≡ returns (pos 0, suc u.next) (with_file os uri id u k)
  unfolding make_worker_file malloc
  register_worker-file nul =
      rw
        (
          registered-make,
          r.room,
          write_block-top (suc u.next) (length uri + 8) (worker_file uri id) u.heap
              (record u { kernel = k; next = suc u.next }) (worker_file_fits uri id nul),
        )
        refl

  -- When the driver registers a worker with an id from 10 to 99 and the uri is passed with its
  -- length alone, its NUL not counted, linber_register_service_worker writes the name of the file
  -- over the end of the block that it has allocated for it.
  pub register_worker_overflow :
      c_string uri ≡ uri
      → 10 ≤ id
      → linber_register_service_worker os uri service_token worker_id file_str u ≡ segv
  unfolding make_worker_file malloc
  register_worker_overflow whole high =
      rw
        (
          registered-make,
          r.room,
          write_block_overflow (suc u.next) (length uri + 8) (worker_file uri id) u.heap
              (record u { kernel = k; next = suc u.next }) (worker_file_over uri id whole high),
        )
        refl
