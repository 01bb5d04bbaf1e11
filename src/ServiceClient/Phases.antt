-- ===== src/ServiceClient/Phases.antt =====
-- The phases of a linberServiceClient, and what the methods of libs/src/linberServiceClient.cpp do
-- to them.
use linber.Prelude.{ℕ, ◌≡◌, refl, Bool, true, false, List, [], ◌∷◌, ◌⊎◌, inl, inr, ◌==◌}
use linber.Api.Client.{
  Locals, linber_request_service, linber_request_service_shm, linber_request_service_no_blocking,
  linber_request_service_no_blocking_shm, linber_request_service_get_response,
}
use linber.Api.Device.{linber_init}
use linber.Api.OnReturn.{OnReturn, OnReturn-then, OnReturn-after, OnReturn-if}
use linber.Api.Process.{User, U, Os, ◌>>=◌, ◌>>◌, pure}
use linber.Api.Shm.{create_shm_from_filepath}
use linber.ServiceClient.{
  RequestState, none_sent, sent, completed, ShmState, no_shm, created, shm_sent, shm_completed,
  ServiceClient, ShmLocals, Method, linber_send_request, linber_create_shm, linber_send_request_shm,
  linber_get_response, linber_end_operation, is_failure, clean, reset, new_client,
}

pub data Phase : Type 0 where
  idle : Phase
  waits : Phase
  answers : Phase
  shm_ready : Phase
  shm_waits : Phase
  shm_answers : Phase

abbrev pub request_state_of : Phase → RequestState
request_state_of waits = sent
request_state_of answers = completed
request_state_of _ = none_sent

abbrev pub shm_state_of : Phase → ShmState
shm_state_of shm_ready = created
shm_state_of shm_waits = shm_sent
shm_state_of shm_answers = shm_completed
shm_state_of _ = no_shm

abbrev pub In : Phase → ServiceClient → Type 0
In p c = (c.request_state ≡ request_state_of p) × (c.request_shm_state ≡ shm_state_of p)

-- A call of a method, with its arguments and what its local variables are.
pub data Call : Type 0 where
  send : Locals → (req req_len old res_len : ℕ) → (blocking : Bool) → (rel_deadline : ℕ) → Call
  create_shm : (old req_len low_id key_at id_at : ℕ) → Call
  send_shm : Locals → ShmLocals → (old res_len : ℕ) → (blocking : Bool) → (rel_deadline : ℕ) → Call
  get_response : Locals → Call
  end_operation : Call

abbrev pub invoke : Os → Call → ServiceClient → Method
invoke os (send at req req_len old res_len blocking rel) c =
    linber_send_request os at c req req_len old res_len blocking rel
invoke os (create_shm old req_len low_id key_at id_at) c =
    linber_create_shm os c old req_len low_id key_at id_at
invoke os (send_shm at loc old res_len blocking rel) c =
    linber_send_request_shm os at loc c old res_len blocking rel
invoke os (get_response at) c = linber_get_response os at c
invoke os end_operation c = do c' ← linber_end_operation c; pure (c', 0)

-- The phase that a call leads to when it succeeds, a call that is out of place included.
abbrev pub after : Call → Phase → Phase
after (send _ _ _ _ _ true _) idle = answers
after (send _ _ _ _ _ false _) idle = waits
after (create_shm _ _ _ _ _) idle = shm_ready
after (send_shm _ _ _ _ true _) shm_ready = shm_answers
after (send_shm _ _ _ _ false _) shm_ready = shm_waits
after (get_response _) waits = answers
after (get_response _) shm_waits = shm_answers
after end_operation _ = idle
after _ p = p

-- Only these leave the phase when they fail.
abbrev pub may_fail : Call → Bool
may_fail (create_shm _ _ _ _ _) = true
may_fail (get_response _) = true
may_fail _ = false

abbrev pub Follows : Call → Phase → ServiceClient → Type 0
Follows m p c = In (after m p) c ⊎ ((may_fail m ≡ true) × In p c)

abbrev pub Moved : Call → Phase → ServiceClient × ℕ → User → Type 0
Moved m p r _ = Follows m p r.0

send-Moved :
    (os : Os) (at : Locals) (req req_len old res_len : ℕ) (blocking : Bool) (rel : ℕ)
    (c : ServiceClient) (p : Phase) (u : User)
    → In p c
    → OnReturn
        (Moved (send at req req_len old res_len blocking rel) p)
        (linber_send_request os at c req req_len old res_len blocking rel u)
unfolding linber_send_request
send-Moved os at req req_len old res_len true rel c idle u h =
    rw (h.0, h.1)
      (OnReturn-after (Moved (send at req req_len old res_len true rel) idle)
        (linber_request_service os c.service_uri at rel req req_len c.response_len_at
          c.response_shm_mode_at u)
        _ (λ r v. inl (refl, refl)))
send-Moved os at req req_len old res_len false rel c idle u h =
    rw (h.0, h.1)
      (OnReturn-after (Moved (send at req req_len old res_len false rel) idle)
        (linber_request_service_no_blocking os c.service_uri at rel req req_len c.token_at u) _
        (λ r v. inl (refl, refl)))
send-Moved os at req req_len old res_len blocking rel c waits u h = rw (h.0, h.1) (inl (refl, refl))
send-Moved os at req req_len old res_len blocking rel c answers u h =
    rw (h.0, h.1) (inl (refl, refl))
send-Moved os at req req_len old res_len blocking rel c _ u h = rw (h.0, h.1) (inl (refl, refl))

create_shm-Moved :
    (os : Os) (old req_len low_id key_at id_at : ℕ) (c : ServiceClient) (p : Phase) (u : User)
    → In p c
    → OnReturn
        (Moved (create_shm old req_len low_id key_at id_at) p)
        (linber_create_shm os c old req_len low_id key_at id_at u)
unfolding linber_create_shm
create_shm-Moved os old req_len low_id key_at id_at c idle u h =
    rw (h.0, h.1)
      (OnReturn-after (Moved (create_shm old req_len low_id key_at id_at) idle)
        (create_shm_from_filepath os (46 ∷ []) low_id req_len key_at id_at u) _
        (λ req v. OnReturn-if _ (req == 0) _ _ v (inr (refl, (refl, refl))) (inl (refl, refl))))
create_shm-Moved os old req_len low_id key_at id_at c _ u h = rw (h.0, h.1) (inl (refl, refl))

send_shm-Moved :
    (os : Os) (at : Locals) (loc : ShmLocals) (old res_len : ℕ) (blocking : Bool) (rel : ℕ)
    (c : ServiceClient) (p : Phase) (u : User)
    → In p c
    → OnReturn
        (Moved (send_shm at loc old res_len blocking rel) p)
        (linber_send_request_shm os at loc c old res_len blocking rel u)
unfolding linber_send_request_shm
send_shm-Moved os at loc old res_len true rel c shm_ready u h =
    rw (h.0, h.1)
      (OnReturn-after (Moved (send_shm at loc old res_len true rel) shm_ready)
        (linber_request_service_shm os c.service_uri at rel c.request_shm_key c.request_len
          loc.response_len loc.response_shm_mode u)
        _ (λ r v. inl (refl, refl)))
send_shm-Moved os at loc old res_len false rel c shm_ready u h =
    rw (h.0, h.1)
      (OnReturn-after (Moved (send_shm at loc old res_len false rel) shm_ready)
        (linber_request_service_no_blocking_shm os c.service_uri at rel c.request_shm_key
          c.request_len loc.token u)
        _ (λ r v. inl (refl, refl)))
send_shm-Moved os at loc old res_len blocking rel c _ u h = rw (h.0, h.1) (inl (refl, refl))

get_response-Moved :
    (os : Os) (at : Locals) (c : ServiceClient) (p : Phase) (u : User)
    → In p c
    → OnReturn (Moved (get_response at) p) (linber_get_response os at c u)
unfolding linber_get_response
get_response-Moved os at c waits u h =
    rw (h.0, h.1)
      (OnReturn-after (Moved (get_response at) waits)
        (linber_request_service_get_response os c.service_uri at c.response_len_at
          c.response_shm_mode_at c.token_at c.abs_deadline u)
        _
        (λ r v. OnReturn-if _ (is_failure r.0) _ _ v (inr (refl, (refl, refl))) (inl (refl, refl))))
get_response-Moved os at c shm_waits u h =
    rw (h.0, h.1)
      (OnReturn-after (Moved (get_response at) shm_waits)
        (linber_request_service_get_response os c.service_uri at c.response_len_at
          c.response_shm_mode_at c.token_at c.abs_deadline u)
        _
        (λ r v. OnReturn-if _ (is_failure r.0) _ _ v (inr (refl, (refl, refl))) (inl (refl, refl))))
get_response-Moved os at c _ u h = rw (h.0, h.1) (inl (refl, refl))

abbrev pub Idle : ServiceClient → User → Type 0
Idle c _ = In idle c

clean-Idle :
    (c : ServiceClient) (response : ℕ) (u : User)
    → OnReturn Idle ((do clean c response; pure (reset c)) u)
clean-Idle c response u =
    OnReturn-after Idle (clean c response u) (λ _. pure (reset c)) (λ _ v. (refl, refl))

end_operation-Idle :
    (c : ServiceClient) (p : Phase) (u : User) → In p c → OnReturn Idle (linber_end_operation c u)
unfolding linber_end_operation
end_operation-Idle c idle u h = rw (h.0, h.1) (refl, refl)
end_operation-Idle c waits u h = rw h.0 (clean-Idle c 0 u)
end_operation-Idle c answers u h = rw (h.0, h.1) (clean-Idle c c.response u)
end_operation-Idle c shm_ready u h = rw (h.0, h.1) (clean-Idle c 0 u)
end_operation-Idle c shm_waits u h = rw (h.0, h.1) (clean-Idle c 0 u)
end_operation-Idle c shm_answers u h = rw (h.0, h.1) (clean-Idle c c.response u)

end_operation-Moved :
    (os : Os) (c : ServiceClient) (p : Phase) (u : User)
    → In p c
    → OnReturn (Moved end_operation p) (invoke os end_operation c u)
end_operation-Moved os c p u h =
    OnReturn-then Idle (Moved end_operation p) (linber_end_operation c u) _
      (end_operation-Idle c p u h) (λ c' v i. inl i)

-- When a client object in one of its six phases (idle, waiting or answered, each of the two for
-- requests in memory and in shared memory, and shared memory created) has returned from a call of a
-- method, it is in the phase that the abstract machine gives for that call and phase; or, only for
-- linber_create_shm and linber_get_response, it is still in the same one.
pub invoke-Moved :
    (os : Os) (m : Call) (c : ServiceClient) (p : Phase) (u : User)
    → In p c
    → OnReturn (Moved m p) (invoke os m c u)
invoke-Moved os (send at req req_len old res_len blocking rel) c p u h =
    send-Moved os at req req_len old res_len blocking rel c p u h
invoke-Moved os (create_shm old req_len low_id key_at id_at) c p u h =
    create_shm-Moved os old req_len low_id key_at id_at c p u h
invoke-Moved os (send_shm at loc old res_len blocking rel) c p u h =
    send_shm-Moved os at loc old res_len blocking rel c p u h
invoke-Moved os (get_response at) c p u h = get_response-Moved os at c p u h
invoke-Moved os end_operation c p u h = end_operation-Moved os c p u h

-- Calls one after the other, each with the answers of the system.
unfoldable pub invoke_all : List (Os × Call) → ServiceClient → U ServiceClient
invoke_all [] c = pure c
invoke_all ((os, m) ∷ rest) c = do r ← invoke os m c; invoke_all rest r.0

abbrev pub OnePhase : ServiceClient → User → Type 0
OnePhase c _ = (p : Phase) × In p c

pub invoke_all-OnePhase :
    (calls : List (Os × Call)) (c : ServiceClient) (u : User)
    → OnePhase c u
    → OnReturn OnePhase (invoke_all calls c u)
unfolding invoke_all
invoke_all-OnePhase [] c u h = h
invoke_all-OnePhase ((os, m) ∷ rest) c u (p, h) =
    OnReturn-then (Moved m p) OnePhase (invoke os m c u) _ (invoke-Moved os m c p u h) λ r v moved.
      elim moved [
        | inl i ↦ invoke_all-OnePhase rest r.0 v (after m p, i)
        | inr (_, i) ↦ invoke_all-OnePhase rest r.0 v (p, i)
      ]

pub new_client-OnePhase :
    (os : Os) (uri : List ℕ) (stale : ServiceClient) (calls : List (Os × Call)) (u : User)
    → OnReturn OnePhase ((do c ← new_client os uri stale; invoke_all calls c) u)
unfolding new_client
new_client-OnePhase os uri stale calls u =
    OnReturn-then OnePhase OnePhase (new_client os uri stale u) (invoke_all calls)
      (OnReturn-after OnePhase (linber_init os u) _ (λ r v. (idle, (refl, refl))))
      (λ c v h. invoke_all-OnePhase calls c v h)
