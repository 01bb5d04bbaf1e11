-- ===== src/Services.antt =====
-- driver/src/linber_RBtree.c, the tree of services ordered by their uri. The kernel's tree functions
-- are the parameter `rb`.
pub mod Directory
pub mod Insert
pub mod Remove
pub mod Sequence
pub mod Tests
use linber.Prelude.{ℕ, Bool, true, false, Option, none, some, List, lt, eq, gt, if◌then◌else◌}
use linber.Strings.{strcmp}
use linber.Tree.{Tree, leaf, node, hit, free, get, descend, Rbtree}
use linber.Types.{ServiceEntry}

unfoldable pub get_service_node : Tree ServiceEntry → List ℕ → Option ℕ
get_service_node leaf service_uri = none
get_service_node (node l container r) service_uri =
    let left = get_service_node l service_uri in
    let right = get_service_node r service_uri in
    elim (strcmp service_uri container.service_uri) [
      | lt ↦ left
      | gt ↦ right
      | eq ↦ some container.service
    ]

module _ (rb : Rbtree ServiceEntry) where
  -- Insert_ServiceNode, of the service at address `ser_node` whose uri is `uri`: `kmalloc` says
  -- whether its node is given.
  unfoldable pub insert_service_node :
      (kmalloc : Bool) → Tree ServiceEntry → ℕ → List ℕ → Bool × Tree ServiceEntry
  insert_service_node kmalloc root ser_node uri =
      elim (descend (λ this. strcmp uri this.service_uri) root) [
        | hit p ↦ (false, root)
        | free p ↦
            if kmalloc
            then (true, rb.insert p (record { service_uri = uri; service = ser_node }) root)
            else (false, root)
      ]

  unfoldable pub remove_service : Tree ServiceEntry → List ℕ → Option ℕ × Tree ServiceEntry
  remove_service root service_uri =
      elim (descend (λ this. strcmp service_uri this.service_uri) root) [
        | free p ↦ (none, root)
        | hit p ↦ elim (get p root) [
          | none ↦ (none, root)
          | some container ↦ (some container.service, rb.erase p root)
        ]
      ]

  unfoldable pub remove_first_service : Tree ServiceEntry → Option ℕ × Tree ServiceEntry
  remove_first_service root = elim (rb.first root) [
    | none ↦ (none, root)
    | some p ↦ elim (get p root) [
      | none ↦ (none, root)
      | some container ↦ (some container.service, rb.erase p root)
    ]
  ]
