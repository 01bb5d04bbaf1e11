-- ===== src/Requests/Schedule.antt =====
-- The tree of deadlines as a whole: the order in which a service's requests are served, and the
-- search for a request just inserted.
use linber.Prelude.{
  ℕ, zero, suc, ◌+◌, ◌<◌, ◌^◌, ◌-◌, ◌≡◌, ◌≢◌, refl, sym, ap, ◌∙◌, subst, inl, inr, Bool, true,
  false, none, some, List, [], ◌∷◌, All, arith, length,
}
use linber.Words.{u64_mod, rank}
use linber.Tree.{Tree, leaf, inorder, Rbtree}
use linber.Types.{RequestEntry}
use linber.Requests.{insert_req_node_sorted_by_deadline, remove_first_request}
use linber.Requests.Order.{InWindow, Later, Ascending}
use linber.Requests.Insert.{insert_entry-Ascending, insert-Inserted}
use linber.Requests.Remove.{remove_first-Removed}
use linber.Requests.Queue.{
  pending, edf_insert, edf_insert_front, first_of_queue, rest_of_queue, pending-insert_entry,
}

-- The deadline of a best effort request: -1 as an unsigned long.
abbrev pub best_effort : ℕ
best_effort = 2 ^ 64 - 1

-- What Insert_ReqNode_Sorted_by_Deadline comes to on the queue.
pub data Enqueued (base : ℕ) (kmalloc : Bool) (t : Tree RequestEntry) (req deadline : ℕ)
    (r : Bool × Tree RequestEntry) : Type 0 where
  enqueued :
      r.0 ≡ true
      → pending (inorder r.1) ≡ edf_insert base (deadline, req) (pending (inorder t))
      → Ascending base (inorder r.1)
      → Enqueued base kmalloc t req deadline r
  no_memory : r.0 ≡ false → kmalloc ≡ false → r.1 ≡ t → Enqueued base kmalloc t req deadline r

module _ (rb : Rbtree RequestEntry) where
  -- All the requests of a list arrive, none is served meanwhile, and memory does not run out.
  unfoldable pub arrive_all : List (ℕ × ℕ) → Tree RequestEntry → Tree RequestEntry
  arrive_all [] t = t
  arrive_all ((deadline, req) ∷ rest) t =
      arrive_all rest (insert_req_node_sorted_by_deadline rb true t req deadline).1

  -- Workers take requests until there is none, or `n` were taken.
  unfoldable pub serve_all : ℕ → Tree RequestEntry → List ℕ
  serve_all zero t = []
  serve_all (suc n) t =
      let more = serve_all n (remove_first_request rb t).1 in
      elim (remove_first_request rb t).0 [ none ↦ [] | some req ↦ req ∷ more ]

-- The arrivals sorted by deadline, one by one.
abbrev pub edf_sort : ℕ → List (ℕ × ℕ) → List (ℕ × ℕ) → List (ℕ × ℕ)
edf_sort base [] q = q
edf_sort base (new ∷ rest) q = edf_sort base rest (edf_insert base new q)

abbrev pub requests_of : List (ℕ × ℕ) → List ℕ
requests_of [] = []
requests_of (x ∷ q) = x.1 ∷ requests_of q

length-edf_insert :
    (base : ℕ) (new : ℕ × ℕ) (q : List (ℕ × ℕ)) → length (edf_insert base new q) ≡ suc (length q)
length-edf_insert base new [] = refl
length-edf_insert base new (old ∷ rest) = ground (arith, length-edf_insert base new rest)

length-edf_sort :
    (base : ℕ) (xs q : List (ℕ × ℕ)) → length (edf_sort base xs q) ≡ length xs + length q
length-edf_sort base [] q = omega arith
length-edf_sort base (new ∷ rest) q =
    omega (arith, length-edf_sort base rest (edf_insert base new q), length-edf_insert base new q)

module _ (rb : Rbtree RequestEntry) {base : ℕ} (word : base < u64_mod) where
  -- Into a sorted tree of deadlines whose queues are not empty, a request with a deadline within 2
  -- ^ 63 of the base is either inserted, behind every request whose deadline is not later and
  -- before all others, and the tree stays sorted with no empty queue; or the node allocation
  -- failed, the result is false and the tree is the same.
  pub insert-Enqueued :
      (kmalloc : Bool) (t : Tree RequestEntry) (req deadline : ℕ)
      → InWindow base deadline
      → Ascending base (inorder t)
      → Enqueued base kmalloc t req deadline
          (insert_req_node_sorted_by_deadline rb kmalloc t req deadline)
  insert-Enqueued kmalloc t req deadline at a =
      elim (insert-Inserted rb kmalloc req deadline t base word at a) [
        | inl (done, e) ↦
            enqueued done (ap pending e ∙ pending-insert_entry req word at (inorder t) a)
              (subst (Ascending base) (sym e) (insert_entry-Ascending req word at (inorder t) a))
        | inr (failed, k, e) ↦ no_memory failed k e
      ]

  insert_true :
      (t : Tree RequestEntry) (req deadline : ℕ)
      → InWindow base deadline
      → Ascending base (inorder t)
      → (pending (inorder (insert_req_node_sorted_by_deadline rb true t req deadline).1)
          ≡ edf_insert base (deadline, req) (pending (inorder t)))
        × Ascending base (inorder (insert_req_node_sorted_by_deadline rb true t req deadline).1)
  insert_true t req deadline at a = elim (insert-Enqueued true t req deadline at a) [
    | enqueued d e s ↦ (e, s)
    | no_memory f k e ↦ absurd (cc)
  ]

  arrive_all-edf_sort :
      (xs : List (ℕ × ℕ)) (t : Tree RequestEntry)
      → All (λ x. InWindow base x.0) xs
      → Ascending base (inorder t)
      → (pending (inorder (arrive_all rb xs t)) ≡ edf_sort base xs (pending (inorder t)))
        × Ascending base (inorder (arrive_all rb xs t))
  unfolding arrive_all
  arrive_all-edf_sort [] t h a = (refl, a)
  arrive_all-edf_sort ((deadline, req) ∷ xs) t h a =
      let (e, s) = insert_true t req deadline h.0 a in
      let (f, r) =
        arrive_all-edf_sort xs (insert_req_node_sorted_by_deadline rb true t req deadline).1 h.1
          s in
      (f ∙ ap (edf_sort base xs) e, r)

  serve_all-pending :
      (n : ℕ) (t : Tree RequestEntry) (q : List (ℕ × ℕ))
      → pending (inorder t) ≡ q
      → length q < n
      → Ascending base (inorder t)
      → serve_all rb n t ≡ requests_of q
  unfolding serve_all
  serve_all-pending zero t q e h a = absurd (omega arith)
  serve_all-pending (suc n) t [] e h a =
      let r = remove_first-Removed rb base t a in rw (r.taken ∙ ap first_of_queue e, serve_all)
  serve_all-pending (suc n) t (x ∷ q) e h a =
      let r = remove_first-Removed rb base t a in
      rw (r.taken ∙ ap first_of_queue e, serve_all)
        (ap (◌∷◌ x.1) (
          serve_all-pending n (remove_first_request rb t).1 q (r.left ∙ ap rest_of_queue e)
            (omega arith) r.sorted))

  -- From an empty tree, requests that arrive one after another with deadlines within 2 ^ 63 of a
  -- base are taken out again in the order of a stable sort by their distance from the base:
  -- earliest deadline first, and first come first served among equal deadlines. More rounds than
  -- requests take them all. Node allocation succeeds.
  pub serve-arrive :
      (n : ℕ) (xs : List (ℕ × ℕ))
      → All (λ x. InWindow base x.0) xs
      → length xs < n
      → serve_all rb n (arrive_all rb xs leaf) ≡ requests_of (edf_sort base xs [])
  serve-arrive n xs h fuel =
      let (e, s) = arrive_all-edf_sort xs leaf h tt in
      serve_all-pending n (arrive_all rb xs leaf) (edf_sort base xs []) e
        (omega (arith, length-edf_sort base xs [])) s

best_effort-Later :
    (es : List RequestEntry)
    → Ascending best_effort es
    → All (λ e. e.unique_id ≢ best_effort) es
    → All (Later best_effort best_effort) es
best_effort-Later [] a h = tt
best_effort-Later (e ∷ es) a h = (later e.unique_id a.0.word h.0, best_effort-Later es a.2 h.1)
  where
    later :
        (d : ℕ) → d < u64_mod → d ≢ best_effort → rank best_effort best_effort < rank best_effort d
    later d word ne = omega arith

-- A best effort request, with the deadline 2 ^ 64 - 1, inserted into a sorted tree of requests with
-- deadlines below 2 ^ 63 - 1, is the next to be served.
pub best_effort_first :
    (rb : Rbtree RequestEntry) (t : Tree RequestEntry) (req : ℕ)
    → Ascending best_effort (inorder t)
    → All (λ e. e.unique_id ≢ best_effort) (inorder t)
    → (remove_first_request rb (insert_req_node_sorted_by_deadline rb true t req best_effort).1).0
      ≡ some req
best_effort_first rb t req a others =
    let at : InWindow best_effort best_effort = record { word = omega arith; near = omega arith } in
    let (e, s) = insert_true rb (omega arith) t req best_effort at a in
    let r = remove_first-Removed rb best_effort _ s in
    r.taken
    ∙ ap first_of_queue (
        e
        ∙ edf_insert_front best_effort best_effort req (inorder t)
            (best_effort-Later (inorder t) a others) a)
