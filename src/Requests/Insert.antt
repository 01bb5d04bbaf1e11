-- ===== src/Requests/Insert.antt =====
-- Insert_ReqNode_Sorted_by_Deadline on the sorted sequence of deadlines.
use linber.Prelude.{
  ℕ, ◌<◌, ◌≡◌, refl, sym, ◌∙◌, true, false, List, [], ◌∷◌, ◌++◌, All, length-append, arith,
  Bool-cases, Bool, ◌⊎◌, inl, inr,
}
use linber.Words.{u64_mod, sign64, rank, sign64-compare}
use linber.Tree.{Tree, Walk, inorder, descend, Rbtree}
use linber.Tree.Places.{inorder-replace}
use linber.Tree.Search.{Located, hit_at, free_at, descend-Located}
use linber.Tree.Sorted.{insert_at, insert_at-hit, insert_at-free}
use linber.Types.{RequestEntry}
use linber.Requests.{add_to_queue, insert_req_node_sorted_by_deadline}
use linber.Requests.Order.{InWindow, Later, Ascending, Ascending-Splits}

abbrev pub fresh_entry : ℕ → ℕ → RequestEntry
fresh_entry req deadline = record { unique_id = deadline; request_head = req ∷ [] }

abbrev pub append_request : ℕ → RequestEntry → RequestEntry
append_request req e = record e { request_head = e.request_head ++ (req ∷ []) }

-- The insertion in the sequence.
abbrev pub insert_entry : ℕ → ℕ → List RequestEntry → List RequestEntry
insert_entry req deadline =
    insert_at (λ this. sign64 deadline this.unique_id) (fresh_entry req deadline)
      (append_request req)

-- What an insertion comes to: the entry is in the sequence, or the allocation failed.
abbrev pub Inserted : Bool → Tree RequestEntry → ℕ → ℕ → Bool × Tree RequestEntry → Type 0
Inserted kmalloc t req deadline r =
    ((r.0 ≡ true) × (inorder r.1 ≡ insert_entry req deadline (inorder t)))
    ⊎ ((r.0 ≡ false) × (kmalloc ≡ false) × (r.1 ≡ t))

module _ (rb : Rbtree RequestEntry) (kmalloc : Bool) (req deadline : ℕ)
    (t : Tree RequestEntry) where
  insert_walk :
      (w : Walk)
      → descend (λ this. sign64 deadline this.unique_id) t ≡ w
      → Located (λ this. sign64 deadline this.unique_id) t w
      → Inserted kmalloc t req deadline
          (insert_req_node_sorted_by_deadline rb kmalloc t req deadline)
  unfolding insert_req_node_sorted_by_deadline
  insert_walk w e (hit_at {p} x got same beyond short) =
      rw (e, got, insert_req_node_sorted_by_deadline, add_to_queue)
        (inl (
          refl,
          inorder-replace p t x (append_request req x) got
              ∙ sym (insert_at-hit _ _ (append_request req) t p x got same beyond),
        ))
  insert_walk w e (free_at {p} vacant beyond short) = elim (Bool-cases kmalloc) [
    | inl yes' ↦
        rw (e, yes', insert_req_node_sorted_by_deadline)
          (inl (
            refl,
            rb.inorder-insert p (fresh_entry req deadline) t vacant
                ∙ sym (insert_at-free _ _ (append_request req) t p vacant beyond short),
          ))
    | inr no' ↦ rw (e, no', insert_req_node_sorted_by_deadline) (inr (refl, refl, refl))
  ]

  -- Into sorted nodes the request goes at the end of the queue of its deadline.
  pub insert-Inserted :
      (base : ℕ)
      → base < u64_mod
      → InWindow base deadline
      → Ascending base (inorder t)
      → Inserted kmalloc t req deadline
          (insert_req_node_sorted_by_deadline rb kmalloc t req deadline)
  insert-Inserted base word at a =
      insert_walk _ refl (descend-Located _ t (Ascending-Splits word at (inorder t) a))

module _ (req : ℕ) {base deadline : ℕ} (word : base < u64_mod) (at : InWindow base deadline) where
  insert_entry-Later :
      (d : ℕ) (es : List RequestEntry)
      → rank base d < rank base deadline
      → All (Later base d) es
      → All (Later base d) (insert_entry req deadline es)
  unfolding insert_at
  insert_entry-Later d [] lt' h = (lt', tt)
  insert_entry-Later d (e ∷ es) lt' h = ground (arith, insert_entry-Later d es lt' h.1)

  All-Later_mono :
      (d f : ℕ) (es : List RequestEntry)
      → rank base d < rank base f ⊎ (rank base d ≡ rank base f)
      → All (Later base f) es
      → All (Later base d) es
  All-Later_mono d f [] le h = tt
  All-Later_mono d f (e ∷ es) le h = (ground arith, All-Later_mono d f es le h.1)

  -- The nodes stay sorted, and no queue is empty.
  pub insert_entry-Ascending :
      (es : List RequestEntry) → Ascending base es → Ascending base (insert_entry req deadline es)
  unfolding insert_at
  insert_entry-Ascending [] a =
      ((record { word = at.word; near = at.near; some_request = omega arith }), tt, tt)
  insert_entry-Ascending (e ∷ es) a = ground (
    arith,
    sign64-compare base deadline e.unique_id word at.word a.0.word at.near a.0.near,
    All-Later_mono deadline e.unique_id es,
    insert_entry-Later e.unique_id es,
    insert_entry-Ascending es a.2,
    length-append e.request_head (req ∷ []),
  )
