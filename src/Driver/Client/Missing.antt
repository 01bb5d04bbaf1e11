-- ===== src/Driver/Client/Missing.antt =====
-- linber_request_service_get_response for a token that no completed request has.
use linber.Prelude.{ℕ, ◌≡◌, ◌∙◌, ap, true, false, some, List}
use linber.Types.{ServiceNode}
use linber.Requests.Recent.{OtherTokens}
use linber.Services.{get_service_node}
use linber.Driver.Kernel.{Kernel, ok, oops, Env, from_token}
use linber.Driver.Params.{Request}
use linber.Driver.Client.{linber_request_service_get_response}
use linber.Driver.Pending.{list_head, get_completed_request}
use linber.Driver.Steps.{
  bind, load_service-ok, found-ok, put_service, put_here, put_twice, locked, unlocked,
  lock_service-ok, unlock_service-ok, search_list_missing,
}

get_completed_request_missing :
    (k : Kernel) (p token : ℕ) (s : ServiceNode)
    → k.services p ≡ some s
    → s.service_mutex ≡ false
    → OtherTokens k.requests token s.completed_requests
    → get_completed_request p token k ≡ ok list_head (put_service k p (unlocked s))
unfolding get_completed_request
get_completed_request_missing k p token s here free others =
    let k' = put_service k p (locked s) in
    bind _ (lock_service-ok k p here free)
    ∙ bind _ (load_service-ok k' p (put_here k p (locked s)))
    ∙ bind _ (search_list_missing s.completed_requests token k' others)
    ∙ bind _ (unlock_service-ok k' p (put_here k p (locked s)))
    ∙ ap (ok list_head) (put_twice k p (locked s) (unlocked s))

-- With all mutexes free and the token readable, a call for the response of a token that no
-- completed request of a known, living service has reads the request out of the head of the list of
-- completed requests, a bad access.
pub get_response-missing :
    (env : Env) (uri : List ℕ) (p : Request) (k : Kernel) (ser_node : ℕ) (s : ServiceNode)
    → k.linber.mutex ≡ false
    → get_service_node k.linber.services_rbtree uri ≡ some ser_node
    → k.services ser_node ≡ some s
    → s.destroy_me ≡ false
    → s.service_mutex ≡ false
    → env.copy from_token ≡ true
    → OtherTokens k.requests (k.user_word p.ptr_token) s.completed_requests
    → linber_request_service_get_response env uri p k ≡ oops
unfolding linber_request_service_get_response
get_response-missing env uri p k ser_node s free known here alive unlocked' fine others =
    bind _ (found-ok uri k free known)
    ∙ bind _ (load_service-ok k ser_node here)
    ∙ rw (alive, fine)
        (bind _ (
          get_completed_request_missing k ser_node (k.user_word p.ptr_token) s here unlocked'
            others))
