-- ===== src/Requests/Recent.antt =====
-- The search for a request that waits in the tree of deadlines: found, lost or never ending.
use linber.Prelude.{
  ℕ, ◌<◌, ◌^◌, ◌≡◌, ◌≢◌, refl, inl, inr, sym, ap, ◌∙◌, subst, true, Option, none, some, List, [],
  ◌∷◌, ◌++◌, All, arith,
}
use linber.Words.{u64_mod, rank, rank-injective}
use linber.Tree.{Tree, height, inorder, Rbtree}
use linber.Tree.Sorted.{insert_at}
use linber.Types.{RequestNode, RequestEntry}
use linber.Requests.{
  found, running, scan_queue, rbtree_get_request, insert_req_node_sorted_by_deadline,
}
use linber.Requests.Order.{InWindow, Later, Ascending, sign64-IsEntry}
use linber.Requests.Insert.{
  insert_entry, insert_entry-Ascending, insert-Inserted, fresh_entry, append_request,
}
use linber.Requests.Lookup.{entry_of, answer, IsNarrow, get_request-answer}

-- None of the requests has the token.
abbrev pub OtherTokens : (ℕ → Option RequestNode) → ℕ → List ℕ → Type 0
OtherTokens heap token [] = Unit
OtherTokens heap token (req ∷ rest) =
    ((n : RequestNode) × (heap req ≡ some n) × (n.token ≢ token)) × OtherTokens heap token rest

module _ (heap : ℕ → Option RequestNode) (token : ℕ) where
  scan-last :
      (reqs : List ℕ) (req : ℕ) (n : RequestNode)
      → OtherTokens heap token reqs
      → heap req ≡ some n
      → n.token ≡ token
      → scan_queue heap (reqs ++ (req ∷ [])) token ≡ some (some req)
  unfolding scan_queue
  scan-last [] req n others live same = ground arith
  scan-last (x ∷ reqs) req n others live same =
      let (m, e, ne) = others.0 in ground (arith, e, ne, scan-last reqs req n others.1 live same)

  scan_missing :
      (reqs : List ℕ) → OtherTokens heap token reqs → scan_queue heap reqs token ≡ some none
  unfolding scan_queue
  scan_missing [] others = refl
  scan_missing (x ∷ reqs) others =
      let (m, e, ne) = others.0 in ground (arith, e, ne, scan_missing reqs others.1)

-- The node of the deadline after an insertion.
abbrev pub grown : ℕ → ℕ → Option RequestEntry → RequestEntry
grown req deadline none = fresh_entry req deadline
grown req deadline (some e) = append_request req e

module _ (req : ℕ) {base deadline : ℕ} (word : base < u64_mod) (at : InWindow base deadline) where
  entry_of-Later :
      (f : ℕ) (es : List RequestEntry)
      → rank base deadline < rank base f
      → All (Later base f) es
      → entry_of deadline es ≡ none
  entry_of-Later f [] lt' h = refl
  entry_of-Later f (e ∷ es) lt' h = ground (arith, entry_of-Later f es lt' h.1)

  pub entry_of-insert_entry :
      (es : List RequestEntry)
      → Ascending base es
      → entry_of deadline (insert_entry req deadline es)
        ≡ some (grown req deadline (entry_of deadline es))
  unfolding insert_at
  entry_of-insert_entry [] a = ground arith
  entry_of-insert_entry (e ∷ es) a = ground (
    arith,
    sign64-IsEntry word at e a.0,
    entry_of-insert_entry es a.2,
    entry_of-Later e.unique_id es,
    rank-injective base deadline e.unique_id word at.word a.0.word,
  )

  insert_entry-IsNarrow :
      (es : List RequestEntry)
      → rank base deadline < 2 ^ 31
      → All (IsNarrow base) es
      → All (IsNarrow base) (insert_entry req deadline es)
  unfolding insert_at
  insert_entry-IsNarrow [] near n = (near, tt)
  insert_entry-IsNarrow (e ∷ es) near n = ground (arith, insert_entry-IsNarrow es near n.1)

abbrev pub OthersAt : (ℕ → Option RequestNode) → ℕ → Option RequestEntry → Type 0
OthersAt heap token none = Unit
OthersAt heap token (some e) = OtherTokens heap token e.request_head

scan-grown :
    (heap : ℕ → Option RequestNode) (token req deadline : ℕ) (n : RequestNode)
    (o : Option RequestEntry)
    → OthersAt heap token o
    → heap req ≡ some n
    → n.token ≡ token
    → answer heap token (some (grown req deadline o)) ≡ found req
unfolding scan_queue
scan-grown heap token req deadline n none others live same = ground arith
scan-grown heap token req deadline n (some e) others live same =
    rw (scan-last heap token e.request_head req n others live same)

-- In a sorted tree with all deadlines within 2 ^ 31 of a base, a request just inserted is found
-- under its deadline and token, if no request that waits under the same deadline has the token and
-- the search is given more rounds than the tree is high.
pub get_request-insert :
    (rb : Rbtree RequestEntry) (base : ℕ) (t : Tree RequestEntry) (req deadline token fuel : ℕ)
    (heap : ℕ → Option RequestNode) (n : RequestNode)
    → base < u64_mod
    → InWindow base deadline
    → Ascending base (inorder t)
    → rank base deadline < 2 ^ 31
    → All (IsNarrow base) (inorder t)
    → heap req ≡ some n
    → n.token ≡ token
    → OthersAt heap token (entry_of deadline (inorder t))
    → height (insert_req_node_sorted_by_deadline rb true t req deadline).1 < fuel
    → rbtree_get_request fuel heap
        (insert_req_node_sorted_by_deadline rb true t req deadline).1
        deadline
        token
      ≡ found req
get_request-insert rb base t req deadline token fuel heap n word at a near narrow live same others
      h =
    elim (insert-Inserted rb true req deadline t base word at a) [
      | inr (f, k, e) ↦ absurd (cc)
      | inl (done, e) ↦
          get_request-answer word at.word near heap token fuel _ h
            (subst (Ascending base) (sym e) (insert_entry-Ascending req word at (inorder t) a))
            (subst (All (IsNarrow base)) (sym e)
              (insert_entry-IsNarrow req word at (inorder t) near narrow))
          ∙ ap (λ es. answer heap token (entry_of deadline es)) e
          ∙ ap (answer heap token) (entry_of-insert_entry req word at (inorder t) a)
          ∙ scan-grown heap token req deadline n (entry_of deadline (inorder t)) others live same
    ]

-- In a sorted tree with all deadlines within 2 ^ 31 of a base, the search for a deadline that has a
-- node, with a token that no request of that node has, still runs after any number of rounds
-- greater than the height of the tree.
pub get_request_never_ends :
    (base deadline token fuel : ℕ) (heap : ℕ → Option RequestNode) (t : Tree RequestEntry)
    (e : RequestEntry)
    → base < u64_mod
    → deadline < u64_mod
    → rank base deadline < 2 ^ 31
    → Ascending base (inorder t)
    → All (IsNarrow base) (inorder t)
    → entry_of deadline (inorder t) ≡ some e
    → OtherTokens heap token e.request_head
    → height t < fuel
    → rbtree_get_request fuel heap t deadline token ≡ running
get_request_never_ends base deadline token fuel heap t e word dword near a narrow at others h =
    get_request-answer word dword near heap token fuel t h a narrow
    ∙ ap (answer heap token) at
    ∙ rw (scan_missing heap token e.request_head others)
