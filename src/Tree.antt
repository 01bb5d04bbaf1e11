-- ===== src/Tree.antt =====
-- The kernel's red-black trees as driver/src/linber_RBtree.c uses them: binary trees, the places in
-- them, and the loop by which that file descends from the root (its `new` and `parent` pointers
-- are a place here). The functions of linux/rbtree.h are not under the repository: `Rbtree` is what
-- they promise of the sorted sequence of nodes, whatever rotations they make.
pub mod Find
pub mod Places
pub mod Search
pub mod Sorted
pub mod Plain
use linber.Prelude.{
  ℕ, suc, ◌+◌, ◌≡◌, Bool, true, false, Option, none, some, List, [], ◌∷◌, ◌++◌, Ordering, lt, eq,
  gt,
}

pub data Tree {ℓ} (A : Type ℓ) : Type ℓ where
  leaf : Tree A
  node : Tree A → A → Tree A → Tree A

-- `rb_left` and `rb_right`, followed from the root.
pub data Dir : Type 0 where
  to_left to_right : Dir

abbrev pub Place : Type 0
Place = List Dir

-- What a descent ends at: a node, or a NULL link.
pub data Walk : Type 0 where
  hit : Place → Walk
  free : Place → Walk

abbrev pub push : Dir → Walk → Walk
push d (hit p) = hit (d ∷ p)
push d (free p) = free (d ∷ p)

module _ {ℓ} {A : Type ℓ} where
  -- No way down passes more nodes.
  abbrev pub height : Tree A → ℕ
  height leaf = 0
  height (node l x r) = suc (height l + height r)

  -- The nodes in sort order.
  abbrev pub inorder : Tree A → List A
  inorder leaf = []
  inorder (node l x r) = inorder l ++ (x ∷ inorder r)

  -- The node at a place.
  abbrev pub get : Place → Tree A → Option A
  get p leaf = none
  get [] (node l x r) = some x
  get (to_left ∷ p) (node l x r) = get p l
  get (to_right ∷ p) (node l x r) = get p r

  -- Whether the place is a NULL link, where a node can be linked.
  abbrev pub is_free : Place → Tree A → Bool
  is_free [] leaf = true
  is_free (d ∷ p) leaf = false
  is_free [] (node l x r) = false
  is_free (to_left ∷ p) (node l x r) = is_free p l
  is_free (to_right ∷ p) (node l x r) = is_free p r

  -- The nodes on the left and on the right of a place.
  abbrev pub before : Place → Tree A → List A
  before p leaf = []
  before [] (node l x r) = inorder l
  before (to_left ∷ p) (node l x r) = before p l
  before (to_right ∷ p) (node l x r) = inorder l ++ (x ∷ before p r)

  abbrev pub after : Place → Tree A → List A
  after p leaf = []
  after [] (node l x r) = inorder r
  after (to_left ∷ p) (node l x r) = after p l ++ (x ∷ inorder r)
  after (to_right ∷ p) (node l x r) = after p r

  -- A write into the node at a place, which leaves the tree's shape alone.
  unfoldable pub replace : Place → A → Tree A → Tree A
  replace p y leaf = leaf
  replace [] y (node l x r) = node l y r
  replace (to_left ∷ p) y (node l x r) = node (replace p y l) x r
  replace (to_right ∷ p) y (node l x r) = node l x (replace p y r)

  -- The `while` loop down the tree: `key` is how the searched key compares with a node's.
  unfoldable pub descend : (A → Ordering) → Tree A → Walk
  descend key leaf = free []
  descend key (node l x r) = elim (key x) [
    | lt ↦ push to_left (descend key l)
    | gt ↦ push to_right (descend key r)
    | eq ↦ hit []
  ]

-- `rb_link_node` with `rb_insert_color`, `rb_erase` and `rb_first` of linux/rbtree.h.
pub record Rbtree {ℓ} (A : Type ℓ) : Type ℓ where
  pub insert : Place → A → Tree A → Tree A
  pub erase : Place → Tree A → Tree A
  pub first : Tree A → Option Place
  -- The new node stands where it was linked, and no other node moves in the sort order.
  pub inorder-insert :
      (p : Place) (x : A) (t : Tree A)
      → is_free p t ≡ true
      → inorder (insert p x t) ≡ before p t ++ (x ∷ after p t)
  -- The erased node goes, and no other.
  pub inorder-erase :
      (p : Place) (x : A) (t : Tree A)
      → get p t ≡ some x
      → inorder (erase p t) ≡ before p t ++ after p t
  -- The first node in sort order, or NULL for an empty tree.
  pub first_none : (t : Tree A) → inorder t ≡ [] → first t ≡ none
  pub first_some :
      (x : A) (xs : List A) (t : Tree A)
      → inorder t ≡ x ∷ xs
      → (p : Place) × (first t ≡ some p) × (get p t ≡ some x) × (before p t ≡ [])
