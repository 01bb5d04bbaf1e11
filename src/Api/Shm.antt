-- ===== src/Api/Shm.antt =====
-- Shared memory in libs/src/linber_service_api.c. The calls of the operating system are answers; an
-- address that shmat gives is new. Permissions are not modelled.
use linber.Prelude.{ℕ, suc, ◌+◌, ◌%◌, ◌^◌, ◌-◌, none, some, List, ◌∷◌, ◌==◌, if◌then◌else◌}
use linber.Driver.Pending.{without}
use linber.Api.Process.{U, Os, returns, ◌>>◌, pure, store_word}

-- -1 as an int.
abbrev pub minus_one : ℕ
minus_one = 2 ^ 32 - 1

unfoldable pub shmat : Os → ℕ → U ℕ
shmat os id u =
    if os.shmat id
    then returns (suc u.next) (record u { next = suc u.next; attached = suc u.next ∷ u.attached })
    else returns 0 u

-- IPC_RMID: the segment goes when it is detached.
unfoldable pub self_destroy : ℕ → U (Unit {0})
self_destroy id u =
    if id == minus_one then returns tt u else returns tt (record u { doomed = id ∷ u.doomed })

-- An address where nothing is attached is reported, and nothing happens.
unfoldable pub detach_shm : ℕ → U (Unit {0})
detach_shm addr u = returns tt (record u { attached = without addr u.attached })

-- Both find the segment and attach it; the id is stored.
unfoldable pub attach_shm_from_key : Os → (key len id_at : ℕ) → U ℕ
attach_shm_from_key os key len id_at = elim (os.shmget key len) [
  | none ↦ do store_word id_at minus_one; pure 0
  | some id ↦ do store_word id_at id; shmat os id
]

unfoldable pub create_shm_from_key : Os → (key len id_at : ℕ) → U ℕ
create_shm_from_key os key len id_at = elim (os.shmget key len) [
  | none ↦ do store_word id_at minus_one; pure 0
  | some id ↦ do store_word id_at id; shmat os id
]

-- `(low_id + 1)%255` of an int that is not negative.
abbrev pub project_id : ℕ → ℕ
project_id low_id = (low_id + 1) % 255

unfoldable pub create_shm_from_filepath : Os → List ℕ → (low_id len key_at id_at : ℕ) → U ℕ
create_shm_from_filepath os file low_id len key_at id_at = elim (os.ftok file (project_id low_id)) [
  | none ↦ do store_word key_at minus_one; pure 0
  | some key ↦ do store_word key_at key; create_shm_from_key os key len id_at
]
