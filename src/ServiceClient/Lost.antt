-- ===== src/ServiceClient/Lost.antt =====
-- What the methods of libs/src/linberServiceClient.cpp do with the response.
use linber.Prelude.{ℕ, ◌≡◌, refl, subst, Bool, true, false, ◌⊎◌, inl, inr, ◌||◌, if◌then◌else◌}
use linber.Prelude.Int.{ℤ}
use linber.Api.Client.{
  Locals, linber_request_service_shm, linber_request_service_no_blocking,
  linber_request_service_get_response, linber_request_service_clean,
}
use linber.Api.OnReturn.{OnReturn, OnReturn-then, OnReturn-after, OnReturn-if}
use linber.Api.Process.{User, U, Os, ◌>>=◌, pure, then_prog, free}
use linber.Api.Shm.{detach_shm}
use linber.ServiceClient.{
  ServiceClient, ShmLocals, Method, linber_send_request, linber_send_request_shm,
  linber_get_response, linber_end_operation, is_failure, answered, is_sent, is_shm_sent,
}
use linber.ServiceClient.Phases.{In, idle, shm_ready}

-- A request that waits, or a client that has none.
abbrev pub HandsOut : ℕ → ServiceClient × ℕ → User → Type 0
HandsOut req r _ = (r.1 ≡ 0) ⊎ (r.1 ≡ req)

get_response-request :
    (os : Os) (at : Locals) (c : ServiceClient) (u : User)
    → OnReturn (HandsOut c.request) (linber_get_response os at c u)
unfolding linber_get_response
get_response-request os at c u =
    OnReturn-if (HandsOut c.request) (is_sent c.request_state || is_shm_sent c.request_shm_state)
      (ask >>= hand_out) (pure (c, 0)) u
      (OnReturn-after (HandsOut c.request) (ask u) hand_out (λ r v.
        OnReturn-if (HandsOut c.request) (is_failure r.0) (pure (record c { response = r.1 }, 0))
          (pure (answered (record c { response = r.1 }), c.request)) v (inl refl) (inr refl)))
      (inl refl)
  where
    ask : U (ℤ × ℕ)
    ask =
        linber_request_service_get_response os c.service_uri at c.response_len_at
          c.response_shm_mode_at c.token_at c.abs_deadline

    hand_out : ℤ × ℕ → Method
    hand_out r =
        if is_failure r.0
        then pure (record c { response = r.1 }, 0)
        else pure (answered (record c { response = r.1 }), c.request)

-- A client object that sends a request without blocking and then asks for the response hands out
-- NULL or the pointer to its own request.
pub send-get_response :
    (os os' : Os) (at at' : Locals) (c : ServiceClient) (req req_len old res_len rel : ℕ) (u : User)
    → In idle c
    → OnReturn (HandsOut req) (
        (do
          r ← linber_send_request os at c req req_len old res_len false rel
          linber_get_response os' at' r.0)
          u)
unfolding linber_send_request
send-get_response os os' at at' c req req_len old res_len rel u h =
    rw (h.0, h.1)
      (OnReturn-then (λ r _. r.0.request ≡ req) (HandsOut req)
        (then_prog
          (linber_request_service_no_blocking os c.service_uri at rel req req_len c.token_at u) _)
        (λ r. linber_get_response os' at' r.0)
        (OnReturn-after (λ r _. r.0.request ≡ req)
          (linber_request_service_no_blocking os c.service_uri at rel req req_len c.token_at u) _
          (λ r v. refl))
        (λ r v e.
          subst (λ q. OnReturn (HandsOut q) (linber_get_response os' at' r.0 v)) e
            (get_response-request os' at' r.0 v)))

-- The memory of the process in blocks.
abbrev pub SameHeap : User → ServiceClient → User → Type 0
SameHeap v _ w = w.heap ≡ v.heap

clean_none-heap :
    {B : Type 0} (mode : Bool) (v : User) (b : B)
    → OnReturn
        (λ _ w. w.heap ≡ v.heap)
        (then_prog (linber_request_service_clean 0 mode v) (λ _. pure b))
unfolding linber_request_service_clean detach_shm free
clean_none-heap true v b = refl
clean_none-heap false v b = refl

-- After a blocking request of a client object in shared memory, with no response kept before,
-- linber_end_operation frees no block of the process, so a response in a block stays allocated.
pub send_shm-end_operation :
    (os : Os) (at : Locals) (loc : ShmLocals) (c : ServiceClient) (old res_len rel : ℕ) (u : User)
    → In shm_ready c
    → c.response ≡ 0
    → OnReturn
        (λ r v. OnReturn (SameHeap v) (linber_end_operation r.0 v))
        (linber_send_request_shm os at loc c old res_len true rel u)
unfolding linber_send_request_shm linber_end_operation
send_shm-end_operation os at loc c old res_len rel u h none =
    rw (h.0, h.1)
      (OnReturn-after (λ r v. OnReturn (SameHeap v) (linber_end_operation r.0 v))
        (linber_request_service_shm os c.service_uri at rel c.request_shm_key c.request_len
          loc.response_len loc.response_shm_mode u)
        _ (λ r v. rw none (clean_none-heap _ _ _)))
