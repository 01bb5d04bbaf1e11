-- ===== src/Requests/Remove.antt =====
-- Remove_first_request on the sorted sequence of deadlines.
use linber.Prelude.{ℕ, ◌≡◌, refl, ap, Option, some, List, [], ◌∷◌, arith}
use linber.Tree.{Tree, Place, inorder, get, before, after, replace, Rbtree}
use linber.Tree.Places.{inorder-get, inorder-replace}
use linber.Types.{RequestEntry}
use linber.Requests.{take_first, remove_first_request}
use linber.Requests.Order.{Ascending}
use linber.Requests.Queue.{pending, first_of_queue, rest_of_queue}

-- What a removal comes to: the first request of the queue is taken, and the nodes stay sorted.
pub record Removed (base : ℕ) (es : List RequestEntry) (r : Option ℕ × Tree RequestEntry)
    : Type 0 where
  pub taken : r.0 ≡ first_of_queue (pending es)
  pub left : pending (inorder r.1) ≡ rest_of_queue (pending es)
  pub sorted : Ascending base (inorder r.1)

module _ (rb : Rbtree RequestEntry) (base : ℕ) (t : Tree RequestEntry) where
  take_first-Removed :
      (p : Place) (d : ℕ) (reqs : List ℕ) (es : List RequestEntry)
      → get p t ≡ some (record { unique_id = d; request_head = reqs })
      → before p t ≡ []
      → after p t ≡ es
      → Ascending base (record { unique_id = d; request_head = reqs } ∷ es)
      → Removed base
          (record { unique_id = d; request_head = reqs } ∷ es)
          (take_first rb p (record { unique_id = d; request_head = reqs }) t)
  unfolding take_first
  take_first-Removed p d [] es got front back a = absurd (omega (arith, a.0.some_request))
  take_first-Removed p d (x ∷ []) es got front back a =
      let e : inorder (rb.erase p t) ≡ es = ground (arith, rb.inorder-erase p _ t got) in
      record { taken = refl; left = ap pending e; sorted = rw e a.2 }
  take_first-Removed p d (x ∷ y ∷ reqs) es got front back a =
      let e : inorder (replace p (record { unique_id = d; request_head = y ∷ reqs }) t)
          ≡ record { unique_id = d; request_head = y ∷ reqs } ∷ es =
        ground
          (arith, inorder-replace p t _ (record { unique_id = d; request_head = y ∷ reqs }) got) in
      record { taken = refl; left = ap pending e; sorted = rw e (ground arith) }

  remove_walk :
      (es : List RequestEntry)
      → inorder t ≡ es
      → Ascending base es
      → Removed base es (remove_first_request rb t)
  unfolding remove_first_request
  remove_walk [] e a =
      rw (rb.first_none t e, remove_first_request)
        (record { taken = refl; left = ap pending e; sorted = rw e tt })
  remove_walk (x ∷ es) e a =
      let (p, isp, got, front) = rb.first_some x es t e in
      rw (isp, got, remove_first_request)
        (take_first-Removed p x.unique_id x.request_head es got front
          (ground (arith, inorder-get p t x got)) a)

  -- From a sorted tree of deadlines whose queues are not empty, the removal returns the first
  -- request of the whole queue, or none if there is none; the others stay in their order, and the
  -- tree stays sorted with no empty queue.
  pub remove_first-Removed :
      Ascending base (inorder t) → Removed base (inorder t) (remove_first_request rb t)
  remove_first-Removed a = remove_walk (inorder t) refl a
