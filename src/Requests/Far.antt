-- ===== src/Requests/Far.antt =====
-- The search of driver/src/linber_RBtree.c for a request whose deadline lies 2 ^ 31 ns or more after
-- that of the root.
use linber.Prelude.{
  ℕ, zero, suc, ◌+◌, ◌<◌, ◌≤◌, ◌^◌, ◌≡◌, refl, inl, inr, sym, ap, ◌∙◌, subst, true, Option, some,
  List, [], ◌∷◌, ◌++◌, All, lt, arith,
}
use linber.Words.{u64_mod, rank, sign32}
use linber.Tree.{Tree, height, leaf, node, inorder, Rbtree}
use linber.Types.{RequestNode, RequestEntry}
use linber.Requests.{missing, rbtree_get_request, insert_req_node_sorted_by_deadline}
use linber.Requests.Order.{InWindow, Later, Ascending}
use linber.Requests.Insert.{insert_entry-Ascending, insert-Inserted}
use linber.Requests.Lookup.{entry_of}
use linber.Requests.Recent.{grown, entry_of-insert_entry}

-- The int comparison takes a deadline that lies far after another for an earlier one.
sign32-far :
    (base deadline old : ℕ)
    → base < u64_mod
    → deadline < u64_mod
    → old < u64_mod
    → rank base deadline < 2 ^ 32
    → rank base old + 2 ^ 31 ≤ rank base deadline
    → sign32 deadline old ≡ lt
unfolding sign32
sign32-far base deadline old wb wd wo close far = ground arith

-- The searched deadline seems to lie before that of the node.
abbrev SeemsBefore : ℕ → RequestEntry → Type 0
SeemsBefore deadline e = sign32 deadline e.unique_id ≡ lt

All-left {ℓ κ} : {A : Type ℓ} (P : A → Type κ) (xs ys : List A) → All P (xs ++ ys) → All P xs
All-left P [] ys h = tt
All-left P (x ∷ xs) ys h = (h.0, All-left P xs ys h.1)

All-middle {ℓ κ} :
    {A : Type ℓ} (P : A → Type κ) (xs : List A) (y : A) (ys : List A) → All P (xs ++ (y ∷ ys)) → P y
All-middle P [] y ys h = h.0
All-middle P (x ∷ xs) y ys h = All-middle P xs y ys h.1

-- Then the search goes to the left down to the end.
leftwards :
    (heap : ℕ → Option RequestNode) (deadline token fuel : ℕ) (t : Tree RequestEntry)
    → height t < fuel
    → All (SeemsBefore deadline) (inorder t)
    → rbtree_get_request fuel heap t deadline token ≡ missing
unfolding rbtree_get_request
leftwards heap deadline token zero t h s = absurd (omega arith)
leftwards heap deadline token (suc fuel) leaf h s = refl
leftwards heap deadline token (suc fuel) (node l e r) h s =
    rw (All-middle (SeemsBefore deadline) (inorder l) e (inorder r) s, rbtree_get_request)
      (leftwards heap deadline token fuel l (omega arith)
        (All-left (SeemsBefore deadline) (inorder l) (e ∷ inorder r) s))

root-missing :
    (heap : ℕ → Option RequestNode) (deadline token fuel : ℕ) (l : Tree RequestEntry)
    (root : RequestEntry) (r : Tree RequestEntry)
    → All (SeemsBefore deadline) (inorder l)
    → SeemsBefore deadline root
    → height (node l root r) < fuel
    → rbtree_get_request fuel heap (node l root r) deadline token ≡ missing
unfolding rbtree_get_request
root-missing heap deadline token zero l root r s here h = absurd (omega arith)
root-missing heap deadline token (suc fuel) l root r s here h =
    rw (here, rbtree_get_request) (leftwards heap deadline token fuel l (omega arith) s)

module _ {base deadline : ℕ} (word : base < u64_mod) (at : InWindow base deadline)
    (close : rank base deadline < 2 ^ 32) where
  -- So it seems of a node far before the deadline, and of all nodes before that.
  before-SeemsBefore :
      (es : List RequestEntry) (root : RequestEntry) (fs : List RequestEntry)
      → Ascending base (es ++ (root ∷ fs))
      → rank base root.unique_id + 2 ^ 31 ≤ rank base deadline
      → All (SeemsBefore deadline) es × SeemsBefore deadline root
  before-SeemsBefore [] root fs a far =
      (tt, sign32-far base deadline root.unique_id word at.word a.0.word close far)
  before-SeemsBefore (e ∷ es) root fs a far =
      let (rest, here) = before-SeemsBefore es root fs a.2 far in
      let later = All-middle (Later base e.unique_id) es root fs a.1 in
      ((sign32-far base deadline e.unique_id word at.word a.0.word close (omega arith), rest), here)

-- A request that is inserted into a sorted tree is in the tree, under its deadline; but if its
-- deadline lies 2 ^ 31 ns or more after that of the node which is the root after the insertion, and
-- less than 2 ^ 32 ns after the base, the search for it, whatever the token, ends with missing. The
-- search is given more rounds than the tree is high.
pub far_request_lost :
    (rb : Rbtree RequestEntry) (base : ℕ) (t : Tree RequestEntry) (req deadline token fuel : ℕ)
    (heap : ℕ → Option RequestNode) (l : Tree RequestEntry) (root : RequestEntry)
    (r : Tree RequestEntry)
    → base < u64_mod
    → InWindow base deadline
    → Ascending base (inorder t)
    → (insert_req_node_sorted_by_deadline rb true t req deadline).1 ≡ node l root r
    → rank base root.unique_id + 2 ^ 31 ≤ rank base deadline
    → rank base deadline < 2 ^ 32
    → height (insert_req_node_sorted_by_deadline rb true t req deadline).1 < fuel
    → let t' = (insert_req_node_sorted_by_deadline rb true t req deadline).1 in
      (entry_of deadline (inorder t') ≡ some (grown req deadline (entry_of deadline (inorder t))))
      × (rbtree_get_request fuel heap t' deadline token ≡ missing)
far_request_lost rb base t req deadline token fuel heap l root r word at a top far close h =
    elim (insert-Inserted rb true req deadline t base word at a) [
      | inr (f, k, e) ↦ absurd (cc)
      | inl (done, e) ↦
          let sorted =
            subst (Ascending base) (sym e) (insert_entry-Ascending req word at (inorder t) a) in
          let (s, here) =
            before-SeemsBefore word at close (inorder l) root (inorder r)
              (subst (λ t'. Ascending base (inorder t')) top sorted) far in
          (
            ap (entry_of deadline) e ∙ entry_of-insert_entry req word at (inorder t) a,
            subst (λ x. height x < fuel → rbtree_get_request fuel heap x deadline token ≡ missing)
                (sym top) (root-missing heap deadline token fuel l root r s here) h,
          )
    ]
