-- ===== src/Requests/Lookup.antt =====
-- RBtree_get_request: what the search for a deadline and a token comes to, and when it never ends.
use linber.Prelude.{
  ℕ, zero, suc, ◌<◌, ◌^◌, ◌≡◌, refl, sym, ap, ◌∙◌, ◌⊎◌, inl, inr, Option, none, some, List, [], ◌∷◌,
  Ordering, eq, compare, All, arith, ◌==◌, if◌then◌else◌, Ordering-cases,
}
use linber.Words.{u64_mod, rank, rank-injective, sign32, sign32-compare}
use linber.Tree.{Tree, height, leaf, node, inorder}
use linber.Tree.Find.{entry_at, entry_at-lt, entry_at-eq, entry_at-gt}
use linber.Tree.Search.{Short, Splits, split_lt, split_gt, split_eq}
use linber.Types.{RequestNode, RequestEntry}
use linber.Requests.{Search, found, missing, running, oops, scan_queue, rbtree_get_request}
use linber.Requests.Order.{IsEntry, Later, Ascending}

-- The node of a deadline.
abbrev pub entry_of : ℕ → List RequestEntry → Option RequestEntry
entry_of deadline [] = none
entry_of deadline (e ∷ es) = if e.unique_id == deadline then some e else entry_of deadline es

-- What a search that reached a node comes to. A queue without the token keeps it running.
abbrev pub answer_of_scan : Option (Option ℕ) → Search
answer_of_scan none = oops
answer_of_scan (some none) = running
answer_of_scan (some (some req)) = found req

abbrev pub answer : (ℕ → Option RequestNode) → ℕ → Option RequestEntry → Search
answer heap token none = missing
answer heap token (some e) = answer_of_scan (scan_queue heap e.request_head token)

-- All deadlines within 2 ^ 31 ns, some 2.1 seconds, after the base.
abbrev pub IsNarrow : ℕ → RequestEntry → Type 0
IsNarrow base e = rank base e.unique_id < 2 ^ 31

module _ (heap : ℕ → Option RequestNode) (deadline token : ℕ) where
  abbrev by_int : RequestEntry → Ordering
  by_int this = sign32 deadline this.unique_id

  -- Round and round at one node.
  pub spin :
      (fuel : ℕ) (l : Tree RequestEntry) (e : RequestEntry) (r : Tree RequestEntry)
      → sign32 deadline e.unique_id ≡ eq
      → scan_queue heap e.request_head token ≡ some none
      → rbtree_get_request fuel heap (node l e r) deadline token ≡ running
  unfolding rbtree_get_request
  spin zero l e r same none' = refl
  spin (suc fuel) l e r same none' =
      rw (same, none', rbtree_get_request) (spin fuel l e r same none')

  at_node :
      (fuel : ℕ) (l : Tree RequestEntry) (e : RequestEntry) (r : Tree RequestEntry)
      → sign32 deadline e.unique_id ≡ eq
      → rbtree_get_request (suc fuel) heap (node l e r) deadline token ≡ answer heap token (some e)
  unfolding rbtree_get_request
  at_node fuel l e r same = ground (arith, spin fuel l e r same)

  search_walk :
      (fuel : ℕ) (t : Tree RequestEntry)
      → height t < fuel
      → Splits by_int (inorder t)
      → rbtree_get_request fuel heap t deadline token
        ≡ answer heap token (entry_at by_int (inorder t))
  unfolding rbtree_get_request
  search_walk zero t h s = absurd (omega arith)
  search_walk (suc fuel) leaf h s = refl
  search_walk (suc fuel) (node l e r) h s = elim (Ordering-cases (sign32 deadline e.unique_id)) [
    | inl c ↦
        rw (c, rbtree_get_request)
          (search_walk fuel l (omega arith) (split_lt by_int (inorder l) e (inorder r) s c).0
            ∙ ap (answer heap token) (sym (entry_at-lt by_int (inorder l) e (inorder r) c)))
    | inr (inl c) ↦
        at_node fuel l e r c
        ∙ ap (answer heap token) (
            sym (
              entry_at-eq by_int (inorder l) e (inorder r)
                (split_eq by_int (inorder l) e (inorder r) s c).0 c))
    | inr (inr c) ↦
        rw (c, rbtree_get_request)
          (search_walk fuel r (omega arith) (split_gt by_int (inorder l) e (inorder r) s c).1
            ∙ ap (answer heap token) (
                sym (
                  entry_at-gt by_int (inorder l) e (inorder r)
                    (split_gt by_int (inorder l) e (inorder r) s c).0 c)))
  ]

-- Among deadlines that close together the int comparison finds the node of the deadline.
module _ {base deadline : ℕ} (word : base < u64_mod) (dword : deadline < u64_mod)
    (near : rank base deadline < 2 ^ 31) where
  int_order :
      (e : RequestEntry)
      → IsEntry base e
      → IsNarrow base e
      → sign32 deadline e.unique_id ≡ compare (rank base deadline) (rank base e.unique_id)
  int_order e h n = sign32-compare base deadline e.unique_id word dword h.word near n

  Later-Short :
      (f : ℕ) (es : List RequestEntry)
      → (rank base deadline < rank base f) ⊎ (rank base deadline ≡ rank base f)
      → All (Later base f) es
      → All (IsNarrow base) es
      → Ascending base es
      → All (Short (λ this. sign32 deadline this.unique_id)) es
  Later-Short f [] le h n a = tt
  Later-Short f (e ∷ es) le h n a =
      (ground (arith, int_order e a.0 n.0), Later-Short f es le h.1 n.1 a.2)

  pub narrow-Splits :
      (es : List RequestEntry)
      → Ascending base es
      → All (IsNarrow base) es
      → Splits (λ this. sign32 deadline this.unique_id) es
  narrow-Splits [] a n = tt
  narrow-Splits (e ∷ es) a n =
      ground (arith, int_order e a.0 n.0, narrow-Splits es a.2 n.1, Later-Short e.unique_id es)

  entry_of-Later :
      (f : ℕ) (es : List RequestEntry)
      → rank base deadline < rank base f
      → All (Later base f) es
      → entry_of deadline es ≡ none
  entry_of-Later f [] lt' h = refl
  entry_of-Later f (e ∷ es) lt' h = ground (arith, entry_of-Later f es lt' h.1)

  pub entry_at-entry_of :
      (es : List RequestEntry)
      → Ascending base es
      → All (IsNarrow base) es
      → entry_at (λ this. sign32 deadline this.unique_id) es ≡ entry_of deadline es
  entry_at-entry_of [] a n = refl
  entry_at-entry_of (e ∷ es) a n = ground (
    arith,
    int_order e a.0 n.0,
    entry_at-entry_of es a.2 n.1,
    entry_of-Later e.unique_id es,
    rank-injective base deadline e.unique_id word dword a.0.word,
  )

  -- In a sorted tree, with every deadline and the one searched for within 2 ^ 31 of a base, and
  -- with more rounds than the tree is high, the search for a deadline and a token is missing if no
  -- node has the deadline; else it finds the first request of that node with the token, meets a bad
  -- pointer if it reads a freed request before, and still runs if no request of the node has the
  -- token.
  pub get_request-answer :
      (heap : ℕ → Option RequestNode) (token fuel : ℕ) (t : Tree RequestEntry)
      → height t < fuel
      → Ascending base (inorder t)
      → All (IsNarrow base) (inorder t)
      → rbtree_get_request fuel heap t deadline token
        ≡ answer heap token (entry_of deadline (inorder t))
  get_request-answer heap token fuel t h a n =
      search_walk heap deadline token fuel t h (narrow-Splits (inorder t) a n)
      ∙ ap (answer heap token) (entry_at-entry_of (inorder t) a n)
