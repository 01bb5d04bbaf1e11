-- ===== src/Requests.antt =====
-- driver/src/linber_RBtree.c, the incoming requests of a service: a tree of deadlines, with the
-- requests of one deadline in a queue. The kernel's tree functions are the parameter `rb`.
pub mod Lookup
pub mod Order
pub mod Recent
pub mod Far
pub mod Schedule
pub mod Tests
pub mod Insert
pub mod Remove
pub mod Queue
use linber.Prelude.{
  ℕ, zero, suc, Bool, true, false, Option, none, some, List, [], ◌∷◌, ◌++◌, lt, eq, gt, ◌==◌,
  if◌then◌else◌,
}
use linber.Words.{sign64, sign32}
use linber.Tree.{Tree, leaf, node, Place, hit, free, get, replace, descend, Rbtree}
use linber.Types.{RequestNode, RequestEntry}

-- list_first_entry and list_del, unless the list is empty.
abbrev pub dequeue_request : List ℕ → Option ℕ × List ℕ
dequeue_request [] = (none, [])
dequeue_request (req ∷ rest) = (some req, rest)

abbrev pub is_empty {ℓ} : {A : Type ℓ} → List A → Bool
is_empty [] = true
is_empty (_ ∷ _) = false

-- list_add_tail to the queue of the node at a place.
pub add_to_queue : Place → ℕ → Tree RequestEntry → Tree RequestEntry
add_to_queue p req root = elim (get p root) [
  | none ↦ root
  | some this ↦ replace p (record this { request_head = this.request_head ++ (req ∷ []) }) root
]

-- The walk over one queue (list_for_each_entry). The outer `none` is a read of a freed request.
unfoldable pub scan_queue : (ℕ → Option RequestNode) → List ℕ → ℕ → Option (Option ℕ)
scan_queue heap [] token = some none
scan_queue heap (req ∷ rest) token =
    let next = scan_queue heap rest token in
    elim (heap req) [ none ↦ none | some r ↦ if r.token == token then some (some req) else next ]

-- The outcome of a search: `running` if it has not ended yet, `oops` for a bad pointer.
pub data Search : Type 0 where
  found : ℕ → Search
  missing : Search
  running : Search
  oops : Search

-- At a node of equal deadline the loop searches the queue and, if the token is not there, leaves
-- `node` as it is and goes round again.
unfoldable pub rbtree_get_request :
    ℕ → (ℕ → Option RequestNode) → Tree RequestEntry → ℕ → ℕ → Search
rbtree_get_request zero heap root deadline token = running
rbtree_get_request (suc fuel) heap leaf deadline token = missing
rbtree_get_request (suc fuel) heap (node l this r) deadline token =
    let left = rbtree_get_request fuel heap l deadline token in
    let right = rbtree_get_request fuel heap r deadline token in
    let again = rbtree_get_request fuel heap (node l this r) deadline token in
    elim (sign32 deadline this.unique_id) [
      | lt ↦ left
      | gt ↦ right
      | eq ↦ elim (scan_queue heap this.request_head token) [
        | none ↦ oops
        | some none ↦ again
        | some (some req) ↦ found req
      ]
    ]

module _ (rb : Rbtree RequestEntry) where
  -- Insert_ReqNode_Sorted_by_Deadline: `kmalloc` says whether the node of a new deadline is given.
  unfoldable pub insert_req_node_sorted_by_deadline :
      (kmalloc : Bool) → Tree RequestEntry → ℕ → ℕ → Bool × Tree RequestEntry
  unfolding add_to_queue
  insert_req_node_sorted_by_deadline kmalloc root req deadline =
      elim (descend (λ this. sign64 deadline this.unique_id) root) [
        | hit p ↦ (true, add_to_queue p req root)
        | free p ↦
            if kmalloc
            then (true, rb.insert p (record { unique_id = deadline; request_head = req ∷ [] }) root)
            else (false, root)
      ]

  -- What Remove_first_request does at the first node.
  pub take_first : Place → RequestEntry → Tree RequestEntry → Option ℕ × Tree RequestEntry
  take_first p this root =
      let (req, rest) = dequeue_request this.request_head in
      (
        req,
        if is_empty rest
            then rb.erase p root
            else replace p (record this { request_head = rest }) root,
      )

  unfoldable pub remove_first_request : Tree RequestEntry → Option ℕ × Tree RequestEntry
  unfolding take_first
  remove_first_request root = elim (rb.first root) [
    | none ↦ (none, root)
    | some p ↦ elim (get p root) [ none ↦ (none, root) | some this ↦ take_first p this root ]
  ]
