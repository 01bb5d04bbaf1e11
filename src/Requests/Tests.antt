-- ===== src/Requests/Tests.antt =====
-- The theorems of the tree of deadlines at concrete trees, and runs of its functions.
use linber.Prelude.{ℕ, ◌+◌, ◌≡◌, refl, true, Option, some, [], ◌∷◌, arith}
use linber.Prelude.Int.{negsuc}
use linber.Words.{sign64}
use linber.Tree.{Tree, leaf, node, inorder, descend, replace}
use linber.Tree.Plain.{plain}
use linber.Types.{RequestNode, RequestEntry, garbage}
use linber.Requests.{
  found, missing, running, scan_queue, rbtree_get_request, insert_req_node_sorted_by_deadline,
  remove_first_request,
}
use linber.Requests.Order.{Ascending}
use linber.Requests.Insert.{fresh_entry}
use linber.Requests.Lookup.{get_request-answer}
use linber.Requests.Recent.{get_request-insert, get_request_never_ends}
use linber.Requests.Far.{far_request_lost}
use linber.Requests.Lookup.{entry_of}
use linber.Requests.Remove.{Removed, remove_first-Removed}
use linber.Requests.Schedule.{
  Enqueued, insert-Enqueued, arrive_all, serve_all, serve-arrive, best_effort, best_effort_first,
}

-- Two requests are due at 300, one at 100.
abbrev waiting : Tree RequestEntry
waiting =
    node (node leaf (fresh_entry 1 100) leaf)
      (record { unique_id = 300; request_head = 2 ∷ 3 ∷ [] }) leaf

abbrev request_with : ℕ → RequestNode
request_with token = record {
  request_sem = 0;
  client = 7;
  token = token;
  abs_deadline_ns = 300;
  result_cmd = negsuc 0;
  request_len = 0;
  response_len = 0;
  response_shm_mode = true;
  request_shm_mode = true;
  request = garbage;
  response = garbage;
}

-- The request at address a has the token a + 10.
abbrev heap : ℕ → Option RequestNode
heap a = some (request_with (a + 10))

waiting-Ascending : Ascending 0 (inorder waiting)
waiting-Ascending = omega arith

insert-Enqueued_example :
    Enqueued 0 true waiting 4 200 (insert_req_node_sorted_by_deadline plain true waiting 4 200)
insert-Enqueued_example =
    insert-Enqueued plain (omega arith) true waiting 4 200 (omega arith) waiting-Ascending

remove_first-Removed_example : Removed 0 (inorder waiting) (remove_first_request plain waiting)
remove_first-Removed_example = remove_first-Removed plain 0 waiting waiting-Ascending

serve-arrive_example :
    serve_all plain 4 (arrive_all plain ((300, 1) ∷ (100, 2) ∷ (300, 3) ∷ []) leaf) ≡ 2 ∷ 1 ∷ 3 ∷ []
serve-arrive_example =
    serve-arrive plain {base = 0} (omega arith) 4 ((300, 1) ∷ (100, 2) ∷ (300, 3) ∷ [])
      (omega arith) (omega arith)

best_effort_first_example :
    (remove_first_request plain
      (insert_req_node_sorted_by_deadline plain true waiting 4 best_effort).1).0
    ≡ some 4
best_effort_first_example = best_effort_first plain waiting 4 (omega arith) (omega arith)

get_request-answer_example : rbtree_get_request 5 heap waiting 300 13 ≡ found 3
unfolding scan_queue
get_request-answer_example =
    get_request-answer {base = 0} {deadline = 300} (omega arith) (omega arith) (omega arith) heap 13
      5 waiting (omega arith) waiting-Ascending (omega arith)

get_request-insert_example :
    rbtree_get_request 9 heap (insert_req_node_sorted_by_deadline plain true waiting 4 300).1 300 14
    ≡ found 4
unfolding insert_req_node_sorted_by_deadline descend replace sign64
get_request-insert_example =
    get_request-insert plain 0 waiting 4 300 14 9 heap (request_with 14) (omega arith) (omega arith)
      waiting-Ascending (omega arith) (omega arith) refl refl
      (((request_with 12, refl, omega arith), ((request_with 13, refl, omega arith), tt)))
      (omega arith)

-- The request with token 11 is not at 300: whoever asks for it under that deadline hangs.
get_request_never_ends_example : rbtree_get_request 1000 heap waiting 300 11 ≡ running
get_request_never_ends_example =
    get_request_never_ends 0 300 11 1000 heap waiting
      (record { unique_id = 300; request_head = 2 ∷ 3 ∷ [] }) (omega arith) (omega arith)
      (omega arith) waiting-Ascending (omega arith) refl
      ((request_with 12, refl, omega arith), ((request_with 13, refl, omega arith), tt))
      (omega arith)

-- 3 s against 0 s.
far_request_lost_example :
    let t' =
      (insert_req_node_sorted_by_deadline plain true
        (node leaf (fresh_entry 1 0) leaf)
        2
        3_000_000_000).1 in
    (entry_of 3_000_000_000 (inorder t') ≡ some (fresh_entry 2 3_000_000_000))
    × (rbtree_get_request 5 heap t' 3_000_000_000 12 ≡ missing)
unfolding insert_req_node_sorted_by_deadline descend sign64 plain
far_request_lost_example =
    far_request_lost plain 0 (node leaf (fresh_entry 1 0) leaf) 2 3_000_000_000 12 5 heap leaf
      (fresh_entry 1 0) (node leaf (fresh_entry 2 3_000_000_000) leaf) (omega arith) (omega arith)
      (omega arith) refl (omega arith) (omega arith) (omega arith)
