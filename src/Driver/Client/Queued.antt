-- ===== src/Driver/Client/Queued.antt =====
-- linber_request_service for a new request that does not block: the whole call.
use linber.Prelude.{ℕ, suc, ◌≡◌, ◌∙◌, ap, ◌<◌, Bool, true, false, List, ◌==◌, ltb, some}
use linber.Prelude.Int.{pos}
use linber.Words.{u64_mod}
use linber.Tree.{Tree, inorder}
use linber.Types.{ServiceNode, RequestEntry}
use linber.Requests.{insert_req_node_sorted_by_deadline}
use linber.Requests.Order.{InWindow, Ascending}
use linber.Requests.Queue.{pending, edf_insert}
use linber.Requests.Schedule.{enqueued, no_memory, insert-Enqueued}
use linber.Driver.Kernel.{Kernel, exit, Env, update, update_self, of_request_node, prefix, and_then}
use linber.Driver.Params.{Request, linber_max_mem_size, request_init, request_waiting}
use linber.Driver.Client.{
  linber_request_service, request_service_init, request_phases, request_service_completed,
}
use linber.Driver.Client.Enqueue.{
  Known, Granted, queued, with_request, new_request, fetch_request-ok, enqueue_request-ok,
  put_user-ok,
}
use linber.Driver.Steps.{
  bind, load_service-ok, load_request-ok, found-ok, put_service, put_request, then_branch,
  else_branch,
}

-- The tree with the request, which is at the address behind its buffer.
abbrev pub inserted : Env → Kernel → Request → ServiceNode → Bool × Tree RequestEntry
inserted env k p s =
    insert_req_node_sorted_by_deadline env.request_tree (env.kmalloc of_request_node)
      s.requests_rbtree (suc k.next) p.abs_deadline_ns

module _ (env : Env) (k : Kernel) (ser_node : ℕ) (p : Request) (s : ServiceNode) (g : Granted env)
    (mode : (p.request_shm_mode == 1) ≡ false) (blocking : (p.blocking == 1) ≡ false)
    (len : ltb linber_max_mem_size p.request_len ≡ false) where
  request_service_init-queued :
      k.services ser_node ≡ some s
      → s.service_mutex ≡ false
      → (inserted env k p s).0 ≡ true
      → request_service_init env ser_node p k
        ≡ exit (pos request_waiting) (queued env k p ser_node s (inserted env k p s).1)
  unfolding request_service_init
  request_service_init-queued here free done =
      let a = k.next in
      let k1 = record k {
        buffers = update k.buffers k.next (some (prefix p.request_len (k.user_bytes p.request)));
        next = suc k.next;
      } in
      let n = new_request env s a p.request_len p.abs_deadline_ns in
      let k2 =
        record (put_request (put_service k1 ser_node (with_request s (inserted env k p s).1))
          k1.next n) { next = suc k1.next } in
      let k3 = record k2 { user_word = update k.user_word p.ptr_token s.next_req_token } in
      rw (mode, blocking)
        (bind _ (fetch_request-ok env p k len g.data_memory g.request_copy)
          ∙ bind _ (
              enqueue_request-ok env k1 ser_node a p.request_len p.abs_deadline_ns here free
                g.request_memory done)
          ∙ bind _ (load_request-ok k2 k1.next (update_self k.requests k1.next (some n)))
          ∙ bind _ (put_user-ok k2 p.ptr_token s.next_req_token g.token_copy)
          ∙ else_branch _ _ k3 blocking)

  -- A call for a new request in memory that does not block, on a living service whose pending
  -- requests are sorted, with a deadline within 2 ^ 63 of their base, returns
  -- LINBER_REQUEST_WAITING. It leaves the bytes of the request in a buffer, the request with the
  -- next token behind every pending one whose deadline is not later and before all others, the
  -- token with the client, and the semaphore of the workers raised by one. Mutexes are free,
  -- allocation and copies succeed, the request has at most LINBER_MAX_MEM_SIZE bytes.
  pub request_service-queued :
      (uri : List ℕ) {base : ℕ}
      → Known uri k ser_node s
      → (p.status == request_init) ≡ true
      → env.kmalloc of_request_node ≡ true
      → base < u64_mod
      → InWindow base p.abs_deadline_ns
      → Ascending base (inorder s.requests_rbtree)
      → let tree = (inserted env k p s).1 in
        (linber_request_service env uri p k
          ≡ exit (pos request_waiting) (queued env k p ser_node s tree))
        × (pending (inorder tree)
            ≡ edf_insert base (p.abs_deadline_ns, suc k.next) (pending (inorder s.requests_rbtree)))
        × Ascending base (inorder tree)
  unfolding linber_request_service request_phases
  request_service-queued uri h init given word at a =
      elim (insert-Enqueued env.request_tree word (env.kmalloc of_request_node) s.requests_rbtree
        (suc k.next) p.abs_deadline_ns at a) [
          | no_memory f failed e ↦ absurd (cc)
          | enqueued done e sorted ↦ (
            bind _ (found-ok uri k h.linber_free h.known)
                ∙ bind _ (load_service-ok k ser_node h.here)
                ∙ else_branch _ _ k h.alive
                ∙ then_branch _ _ k init
                ∙ ap (λ x. and_then x (request_service_completed env p))
                    (request_service_init-queued h.here h.free done),
            e,
            sorted,
          )
        ]
