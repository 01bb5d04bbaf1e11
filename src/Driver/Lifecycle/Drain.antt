-- ===== src/Driver/Lifecycle/Drain.antt =====
-- The loop of linber_destroy_service over the tree of pending requests, and the one that wakes the
-- workers.
use linber.Prelude.{
  ℕ, zero, suc, ◌+◌, ◌<◌, ◌≡◌, ◌∙◌, ap, sym, refl, Option, some, none, List, [], ◌∷◌, ◌++◌, length,
  All, arith,
}
use linber.Tree.{Tree, leaf, node, inorder}
use linber.Types.{ServiceNode, RequestEntry}
use linber.Requests.{remove_first_request}
use linber.Requests.Order.{Ascending}
use linber.Requests.Queue.{pending, with_deadline, rest_of_queue, first_of_queue}
use linber.Requests.Remove.{remove_first-Removed}
use linber.Requests.Schedule.{requests_of}
use linber.Driver.Kernel.{Kernel, ok, Env, update, ◌>>◌, skip, store_service}
use linber.Driver.Client.Enqueue.{up_service-ok}
use linber.Driver.Lifecycle.{abort_pending, wake_workers}
use linber.Driver.Lifecycle.Abort.{
  IsLive, abort_at, abort_all, with_aborted, All-abort_at, destroy_request-ok,
}
use linber.Driver.Pending.{destroy_request}
use linber.Driver.Steps.{
  bind, load_service-ok, put_here, put_twice, put_service, update_same, update_twice,
}

not_empty : {A B : Type 0} (xs ys : List A) (y : A) → xs ++ (y ∷ ys) ≡ [] → B
not_empty [] ys y e = absurd (cc)
not_empty (x ∷ xs) ys y e = absurd (cc)

-- A tree without a node.
empty_tree : {A : Type 0} (t : Tree A) → inorder t ≡ [] → t ≡ leaf
empty_tree leaf e = refl
empty_tree (node l x r) e = not_empty (inorder l) (inorder r) x e

empty_queue : (base : ℕ) (es : List RequestEntry) → Ascending base es → pending es ≡ [] → es ≡ []
empty_queue base [] a e = refl
empty_queue base (x ∷ es) a e = go x.request_head a.0.some_request e
  where
    go :
        (reqs : List ℕ)
        → 0 < length reqs
        → with_deadline x.unique_id reqs ++ pending es ≡ []
        → x ∷ es ≡ []
    go [] n f = absurd (omega arith)
    go (r ∷ reqs) n f = absurd (cc)

module _ (env : Env) (base ser_node : ℕ) where
  pub abort_pending_lem :
      (fuel : ℕ) (q : List (ℕ × ℕ)) (k : Kernel) (s : ServiceNode)
      → length q < fuel
      → k.services ser_node ≡ some s
      → Ascending base (inorder s.requests_rbtree)
      → pending (inorder s.requests_rbtree) ≡ q
      → All (IsLive k.requests) (requests_of q)
      → abort_pending fuel env ser_node k
        ≡ ok tt (with_aborted k ser_node (record s { requests_rbtree = leaf }) (requests_of q))
  unfolding abort_pending
  abort_pending_lem zero q k s n here a e live = absurd (omega arith)
  abort_pending_lem (suc fuel) [] k s n here a e live =
      let r = remove_first-Removed env.request_tree base s.requests_rbtree a in
      let gone = empty_tree _ (empty_queue base _ r.sorted (r.left ∙ ap rest_of_queue e)) in
      bind _ (load_service-ok k ser_node here)
      ∙ ap
          (λ (x : Option ℕ × Tree RequestEntry).
            (store_service ser_node (record s { requests_rbtree = x.1 }) >> elim (x.0) [
              | none ↦ skip
              | some p ↦ do destroy_request p; abort_pending fuel env ser_node
            ])
              k)
          (ap (λ x. (x, (remove_first_request env.request_tree s.requests_rbtree).1))
              (r.taken ∙ ap first_of_queue e)
            ∙ ap (λ x. (none, x)) gone)
  abort_pending_lem (suc fuel) ((d, p) ∷ q) k s n here a e live =
      let r = remove_first-Removed env.request_tree base s.requests_rbtree a in
      let rest = (remove_first_request env.request_tree s.requests_rbtree).1 in
      let s1 = record s { requests_rbtree = rest } in
      let k1 = put_service k ser_node s1 in
      let k2 = record k1 { requests = abort_at p k.requests } in
      bind _ (load_service-ok k ser_node here)
      ∙ ap
          (λ (x : Option ℕ).
            (store_service ser_node s1 >> elim x [
              | none ↦ skip
              | some p ↦ do destroy_request p; abort_pending fuel env ser_node
            ])
              k)
          (r.taken ∙ ap first_of_queue e)
      ∙ bind _ (destroy_request-ok k1 p live.0)
      ∙ abort_pending_lem fuel q k2 s1 (omega arith) (put_here k ser_node s1) r.sorted
          (r.left ∙ ap rest_of_queue e) (All-abort_at p k.requests (requests_of q) live.0 live.1)
      ∙ ap
          (λ f. ok tt (record k {
            services = f;
            requests = abort_all (requests_of q) (abort_at p k.requests);
          }))
          (update_twice k.services ser_node _ _)

  pub wake_workers-ok :
      (n : ℕ) (k : Kernel) (s : ServiceNode)
      → k.services ser_node ≡ some s
      → wake_workers n ser_node k
        ≡ ok tt (
            put_service k ser_node (record s {
              workers = record (s.workers) { sem_for_request = s.workers.sem_for_request + n };
            }))
  unfolding wake_workers
  wake_workers-ok zero k s here =
      ap (λ f. ok tt (record k { services = f }))
        (sym (update_same k.services ser_node (some s) here)
          ∙ ap
              (λ m.
                update k.services ser_node
                  (some (record s { workers = record (s.workers) { sem_for_request = m } })))
              (omega arith))
  wake_workers-ok (suc n) k s here =
      let s1 = record s {
        workers = record (s.workers) { sem_for_request = s.workers.sem_for_request + 1 };
      } in
      bind _ (up_service-ok k ser_node here)
      ∙ wake_workers-ok n (put_service k ser_node s1) s1 (put_here k ser_node s1)
      ∙ ap (ok tt) (put_twice k ser_node s1 _)
      ∙ ap
          (λ m. ok tt (
            put_service k ser_node
              (record s { workers = record (s.workers) { sem_for_request = m } })))
          (omega arith)
