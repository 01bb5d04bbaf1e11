-- ===== src/Tree/Search.antt =====
-- Where the descent of driver/src/linber_RBtree.c ends in a sorted tree.
use linber.Prelude.{
  ◌≡◌, refl, inl, inr, true, some, List, [], ◌∷◌, ◌++◌, Ordering, lt, eq, gt, All, All-append,
  All-append_left, All-append_right, arith, Ordering-cases,
}
use linber.Tree.{
  Tree, leaf, node, to_left, to_right, Place, Walk, hit, free, push, inorder, get, is_free, before,
  after, descend,
}

module _ {ℓ} {A : Type ℓ} where
  abbrev pub Beyond : (A → Ordering) → A → Type 0
  Beyond key x = key x ≡ gt

  abbrev pub Short : (A → Ordering) → A → Type 0
  Short key x = key x ≡ lt

abbrev pub Rest : Ordering → Type 0 → Type 0 → Type 0
Rest gt P Q = P
Rest _ P Q = Q

module _ {ℓ} {A : Type ℓ} (key : A → Ordering) where
  -- A key meets the nodes in sort order: those before it, at most one equal to it, those behind it.
  abbrev pub Splits : List A → Type 0
  Splits [] = Unit {0}
  Splits (x ∷ xs) = Rest (key x) (Splits xs) (All (Short key) xs)

  -- What the result of a descent says of the tree.
  pub data Located (t : Tree A) : Walk → Type ℓ where
    hit_at :
        {p : Place} (x : A)
        → get p t ≡ some x
        → key x ≡ eq
        → All (Beyond key) (before p t)
        → All (Short key) (after p t)
        → Located t (hit p)
    free_at :
        {p : Place}
        → is_free p t ≡ true
        → All (Beyond key) (before p t)
        → All (Short key) (after p t)
        → Located t (free p)

  Short-Splits : (xs : List A) → All (Short key) xs → Splits xs
  Short-Splits [] h = tt
  Short-Splits (x ∷ xs) h = rw h.0 h.1

  -- What stands behind a node that the key falls short of, and before one that it does not.
  pub split_lt :
      (xs : List A) (x : A) (ys : List A)
      → Splits (xs ++ (x ∷ ys))
      → key x ≡ lt
      → Splits xs × All (Short key) ys
  split_lt [] x ys s e = (tt, rw e at s)
  split_lt (y ∷ xs) x ys s e = ground (
    arith,
    split_lt xs x ys,
    Short-Splits xs,
    All-append_left (Short key) xs (x ∷ ys),
    All-append_right (Short key) xs (x ∷ ys),
  )

  pub split_gt :
      (xs : List A) (x : A) (ys : List A)
      → Splits (xs ++ (x ∷ ys))
      → key x ≡ gt
      → All (Beyond key) xs × Splits ys
  split_gt [] x ys s e = (tt, rw e at s)
  split_gt (y ∷ xs) x ys s e = ground (
    arith,
    split_gt xs x ys,
    Short-Splits xs,
    All-append_left (Short key) xs (x ∷ ys),
    All-append_right (Short key) xs (x ∷ ys),
  )

  pub split_eq :
      (xs : List A) (x : A) (ys : List A)
      → Splits (xs ++ (x ∷ ys))
      → key x ≡ eq
      → All (Beyond key) xs × All (Short key) ys
  split_eq [] x ys s e = (tt, rw e at s)
  split_eq (y ∷ xs) x ys s e = ground (
    arith,
    split_eq xs x ys,
    Short-Splits xs,
    All-append_left (Short key) xs (x ∷ ys),
    All-append_right (Short key) xs (x ∷ ys),
  )

  down_left :
      (l : Tree A) (x : A) (r : Tree A) {w : Walk}
      → key x ≡ lt
      → All (Short key) (inorder r)
      → Located l w
      → Located (node l x r) (push to_left w)
  down_left l x r e short (hit_at {p} y got same b a) =
      hit_at y got same b (All-append (Short key) (after p l) (x ∷ inorder r) a (e, short))
  down_left l x r e short (free_at {p} vacant b a) =
      free_at vacant b (All-append (Short key) (after p l) (x ∷ inorder r) a (e, short))

  down_right :
      (l : Tree A) (x : A) (r : Tree A) {w : Walk}
      → key x ≡ gt
      → All (Beyond key) (inorder l)
      → Located r w
      → Located (node l x r) (push to_right w)
  down_right l x r e beyond (hit_at {p} y got same b a) =
      hit_at y got same (All-append (Beyond key) (inorder l) (x ∷ before p r) beyond (e, b)) a
  down_right l x r e beyond (free_at {p} vacant b a) =
      free_at vacant (All-append (Beyond key) (inorder l) (x ∷ before p r) beyond (e, b)) a

  -- The descent ends at the node with the key, or at the link where it belongs.
  pub descend-Located : (t : Tree A) → Splits (inorder t) → Located t (descend key t)
  unfolding descend
  descend-Located leaf s = free_at refl tt tt
  descend-Located (node l x r) s = elim (Ordering-cases (key x)) [
    | inl e ↦
        rw (e, descend)
          (down_left l x r e (split_lt (inorder l) x (inorder r) s e).1
            (descend-Located l (split_lt (inorder l) x (inorder r) s e).0))
    | inr (inl e) ↦
        rw (e, descend)
          (hit_at x refl e (split_eq (inorder l) x (inorder r) s e).0
            (split_eq (inorder l) x (inorder r) s e).1)
    | inr (inr e) ↦
        rw (e, descend)
          (down_right l x r e (split_gt (inorder l) x (inorder r) s e).0
            (descend-Located r (split_gt (inorder l) x (inorder r) s e).1))
  ]
