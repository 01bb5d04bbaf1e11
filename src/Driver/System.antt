-- ===== src/Driver/System.antt =====
-- What holds of the memory of driver/linber_main.c between any two steps of any tasks.
pub mod Keeps
pub mod Stores
pub mod Steps
pub mod Requests
pub mod Lifecycle
pub mod Clean
pub mod Create
pub mod Workers
pub mod Clients
pub mod Servers
pub mod Calls
pub mod Reach
pub mod Live
pub mod Tests
use linber.Prelude.{ℕ, suc, ◌≡◌, ◌≤◌, ◌<◌, Bool, true, false, Option, some, List, [], length}
use linber.Tree.{Tree, inorder}
use linber.Types.{ServiceNode, ServiceEntry}
use linber.Services.{get_service_node}
use linber.Services.Directory.{IsSorted}
use linber.Driver.Kernel.{Kernel}
use linber.Driver.Lifecycle.{is_in}

-- A slot for each worker that a service may have, and no id given behind them.
abbrev pub Whole : ServiceNode → Type 0
Whole s =
    (length s.workers.worker_slots ≡ s.workers.max_workers)
    × (s.workers.next_id ≤ s.workers.max_workers)

-- The services of the heap, the list of services and the tree of uris agree.
pub record SoundOf (services : ℕ → Option ServiceNode) (next : ℕ) (list : List ℕ)
    (tree : Tree ServiceEntry) : Type 0 where
  pub whole : (p : ℕ) (s : ServiceNode) → services p ≡ some s → Whole s
  pub below : (p : ℕ) (s : ServiceNode) → services p ≡ some s → p < next
  pub listed : (p : ℕ) → is_in p list ≡ true → p < next
  pub sorted : IsSorted (inorder tree)
  pub mapped :
      (uri : List ℕ) (p : ℕ)
      → get_service_node tree uri ≡ some p
      → (s : ServiceNode) × (services p ≡ some s) × (s.uri ≡ uri)

abbrev pub Sound : Kernel → Type 0
Sound k = SoundOf k.services k.next k.linber.services k.linber.services_rbtree
