-- ===== src/Driver/Client/Enqueue.antt =====
-- linber_request_service for a new request that does not block, with its bytes in memory.
use linber.Prelude.{ℕ, suc, ◌+◌, ◌≡◌, ◌∙◌, ap, Bool, true, false, Option, some, List, ltb, arith}
use linber.Words.{inc32, inc64}
use linber.Tree.{Tree}
use linber.Types.{ServiceNode, RequestNode, RequestEntry, buffer}
use linber.Requests.{insert_req_node_sorted_by_deadline}
use linber.Services.{get_service_node}
use linber.Driver.Kernel.{
  Kernel, ok, Env, update, update_self, of_request, of_request_data, of_request_node, from_request,
  to_token, prefix, up_service, put_user,
}
use linber.Driver.Params.{Request, linber_max_mem_size, abort_request}
use linber.Driver.Client.{fetch_request}
use linber.Driver.Pending.{create_request, filled, announce_request, enqueue_request_for_service}
use linber.Driver.Steps.{
  bind, load_service-ok, load_request-ok, put_service, put_request, put_here, put_twice, locked,
  unlocked, lock_service-ok, unlock_service-ok, update_twice, then_branch,
}

-- A service that is known under a uri, lives and is not locked.
pub record Known (uri : List ℕ) (k : Kernel) (ser_node : ℕ) (s : ServiceNode) : Type 0 where
  pub linber_free : k.linber.mutex ≡ false
  pub known : get_service_node k.linber.services_rbtree uri ≡ some ser_node
  pub here : k.services ser_node ≡ some s
  pub free : s.service_mutex ≡ false
  pub alive : s.destroy_me ≡ false

abbrev unfilled : Env → RequestNode
unfilled env = record (env.stale_request) { result_cmd = abort_request; request_sem = 0 }

create_request-ok :
    (env : Env) (k : Kernel)
    → env.kmalloc of_request ≡ true
    → create_request env k
      ≡ ok (some k.next) (record (put_request k k.next (unfilled env)) { next = suc k.next })
unfolding create_request
create_request-ok env k given = ground arith

pub up_service-ok :
    (k : Kernel) (p : ℕ) {s : ServiceNode}
    → k.services p ≡ some s
    → up_service p k
      ≡ ok tt (
          put_service k p (record s {
            workers = record (s.workers) { sem_for_request = s.workers.sem_for_request + 1 };
          }))
unfolding up_service
up_service-ok k p here = ground arith

-- The service once a request is in its tree, announced to one worker.
abbrev pub with_request : ServiceNode → Tree RequestEntry → ServiceNode
with_request s tree = record s {
  service_mutex = false;
  next_req_token = inc64 s.next_req_token;
  requests_rbtree = tree;
  request_count = inc32 s.request_count;
  workers = record (s.workers) { sem_for_request = s.workers.sem_for_request + 1 };
}

announce_request-ok :
    (k : Kernel) (p req : ℕ) {s : ServiceNode}
    → k.services p ≡ some s
    → announce_request p req false k
      ≡ ok (some req) (
          put_service k p (record s {
            service_mutex = false;
            request_count = inc32 s.request_count;
            workers = record (s.workers) { sem_for_request = s.workers.sem_for_request + 1 };
          }))
unfolding announce_request
announce_request-ok k p req {s} here =
    let s1 = record s { request_count = inc32 s.request_count } in
    let s2 = unlocked s1 in
    let s3 = record s2 {
      workers = record (s.workers) { sem_for_request = s.workers.sem_for_request + 1 };
    } in
    let k1 = put_service k p s1 in
    let k2 = put_service k1 p s2 in
    bind _ (load_service-ok k p here)
    ∙ bind _ (unlock_service-ok k1 p (put_here k p s1))
    ∙ bind _ (up_service-ok k2 p (put_here k1 p s2))
    ∙ ap (ok (some req)) (put_twice k1 p s2 s3 ∙ put_twice k p s1 s3)

-- The request that enqueue_request_for_service makes.
abbrev pub new_request : Env → ServiceNode → (a len deadline : ℕ) → RequestNode
new_request env s a len deadline = filled env (unfilled env) s.next_req_token a len false 0 deadline

pub enqueue_request-ok :
    (env : Env) (k : Kernel) (ser_node a len deadline : ℕ) {s : ServiceNode}
    → k.services ser_node ≡ some s
    → s.service_mutex ≡ false
    → env.kmalloc of_request ≡ true
    → let inserted =
        insert_req_node_sorted_by_deadline env.request_tree
          (env.kmalloc of_request_node)
          s.requests_rbtree
          k.next
          deadline in
      inserted.0 ≡ true
      → enqueue_request_for_service env ser_node a len false false 0 deadline k
        ≡ ok
            (some k.next)
            (record (put_request
              (put_service k ser_node (with_request s inserted.1))
              k.next
              (new_request env s a len deadline)) { next = suc k.next })
unfolding enqueue_request_for_service
enqueue_request-ok env k ser_node a len deadline {s} here free given done =
    let tree =
      (insert_req_node_sorted_by_deadline env.request_tree (env.kmalloc of_request_node)
        s.requests_rbtree k.next deadline).1 in
    let n0 = unfilled env in
    let n1 = new_request env s a len deadline in
    let k0 = record (put_request k k.next n0) { next = suc k.next } in
    let s1 = record s { next_req_token = inc64 s.next_req_token } in
    let k1 = put_service k0 ser_node s1 in
    let k2 = put_request k1 k.next n1 in
    let k3 = put_service k2 ser_node (locked s1) in
    let s4 = record (locked s1) { requests_rbtree = tree } in
    let k4 = put_service k3 ser_node s4 in
    let s5 = with_request s tree in
    bind _ (create_request-ok env k given)
    ∙ bind _ (load_service-ok k0 ser_node here)
    ∙ bind _ (load_request-ok k1 k.next (update_self k.requests k.next (some n0)))
    ∙ bind _ (lock_service-ok k2 ser_node (put_here k0 ser_node s1) free)
    ∙ bind _ (load_service-ok k3 ser_node (put_here k2 ser_node (locked s1)))
    ∙ then_branch _ _ k4 done
    ∙ announce_request-ok k4 ser_node k.next (put_here k3 ser_node s4)
    ∙ ap
        (λ (f : ℕ → Option RequestNode).
          ok (some k.next) (record (put_service k4 ser_node s5) { requests = f }))
        (update_twice k.requests k.next (some n0) (some n1))
    ∙ ap
        (λ (f : ℕ → Option ServiceNode).
          ok (some k.next) (record (put_request k k.next n1) { services = f; next = suc k.next }))
        (update_twice _ ser_node _ _
          ∙ update_twice _ ser_node _ _
          ∙ update_twice k.services ser_node _ _)

pub fetch_request-ok :
    (env : Env) (p : Request) (k : Kernel)
    → ltb linber_max_mem_size p.request_len ≡ false
    → env.kmalloc of_request_data ≡ true
    → env.copy from_request ≡ true
    → fetch_request env p k
      ≡ ok k.next (record k {
        buffers = update k.buffers k.next (some (prefix p.request_len (k.user_bytes p.request)));
        next = suc k.next;
      })
unfolding fetch_request
fetch_request-ok env p k len given fine = ground arith

pub put_user-ok :
    {fine : Bool} (k : Kernel) (p v : ℕ)
    → fine ≡ true
    → put_user fine p v k ≡ ok tt (record k { user_word = update k.user_word p v })
put_user-ok k p v e = ap (λ (b : Bool). put_user b p v k) e

-- What a request that does not block leaves: its bytes in a buffer, itself behind the buffer and
-- in the tree, and its token with the client.
abbrev pub queued : Env → Kernel → Request → ℕ → ServiceNode → Tree RequestEntry → Kernel
queued env k p ser_node s tree = record k {
  buffers = update k.buffers k.next (some (prefix p.request_len (k.user_bytes p.request)));
  requests = update k.requests (suc k.next) (
      some (record (env.stale_request) {
        result_cmd = abort_request;
        request_sem = 0;
        client = env.current;
        token = s.next_req_token;
        abs_deadline_ns = p.abs_deadline_ns;
        request_shm_mode = false;
        request = buffer k.next;
        request_len = p.request_len;
      }));
  services = update k.services ser_node (some (with_request s tree));
  next = suc (suc k.next);
  user_word = update k.user_word p.ptr_token s.next_req_token;
}

-- The memory and the copies that the call needs.
pub record Granted (env : Env) : Type 0 where
  pub request_memory : env.kmalloc of_request ≡ true
  pub data_memory : env.kmalloc of_request_data ≡ true
  pub request_copy : env.copy from_request ≡ true
  pub token_copy : env.copy to_token ≡ true
