-- ===== src/Api/Send.antt =====
-- A request that the user library sends without blocking, as the driver receives it.
use linber.Prelude.{ℕ, suc, ◌<◌, ◌≡◌, refl, true, false, Option, List, ltb}
use linber.Prelude.Int.{pos}
use linber.Words.{u64_mod}
use linber.Tree.{inorder}
use linber.Types.{ServiceNode}
use linber.Requests.Order.{InWindow, Ascending}
use linber.Requests.Queue.{pending, edf_insert}
use linber.Driver.Kernel.{Kernel, exit, Env, of_request_node}
use linber.Driver.Params.{Request, linber_max_mem_size, request_waiting}
use linber.Driver.Client.{linber_request_service}
use linber.Driver.Client.Enqueue.{Known, Granted, queued}
use linber.Driver.Client.Queued.{inserted, request_service-queued}
use linber.Api.{abs_deadline, no_blocking_params}

-- The parameters of linber_request_service_no_blocking, received by the driver for a living service
-- whose pending requests are sorted, with the absolute deadline computed within 2 ^ 63 of their
-- base, make it return LINBER_REQUEST_WAITING and put the request with that deadline behind every
-- pending one whose deadline is not later and before all others. Mutexes are free, allocation and
-- copies succeed, the request has at most LINBER_MAX_MEM_SIZE bytes.
pub no_blocking-queued :
    (env : Env) (uri : List ℕ) (k : Kernel) (ser_node base : ℕ) (s : ServiceNode) (stack : Request)
    (now : Option (ℕ × ℕ)) (rel_deadline_ms token request request_len : ℕ)
    → Known uri k ser_node s
    → Granted env
    → env.kmalloc of_request_node ≡ true
    → ltb linber_max_mem_size request_len ≡ false
    → base < u64_mod
    → InWindow base (abs_deadline now rel_deadline_ms)
    → Ascending base (inorder s.requests_rbtree)
    → let p = no_blocking_params stack now rel_deadline_ms token request request_len in
      let tree = (inserted env k p s).1 in
      (linber_request_service env uri p k
        ≡ exit (pos request_waiting) (queued env k p ser_node s tree))
      × (pending (inorder tree)
          ≡ edf_insert base
              (abs_deadline now rel_deadline_ms, suc k.next)
              (pending (inorder s.requests_rbtree)))
      × Ascending base (inorder tree)
unfolding no_blocking_params
no_blocking-queued env uri k ser_node base s stack now rel token request len h g given short word at
      a =
    request_service-queued env k ser_node (no_blocking_params stack now rel token request len) s g
      refl refl short uri h refl given word at a
