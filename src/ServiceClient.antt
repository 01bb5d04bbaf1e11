-- ===== src/ServiceClient.antt =====
-- The class linberServiceClient of libs/src/linberServiceClient.cpp.
pub mod Phases
pub mod Lost
pub mod Tests
use linber.Prelude.{
  ℕ, ◌+◌, ◌^◌, ◌%◌, Bool, true, false, List, [], ◌∷◌, ◌&&◌, ◌||◌, not, ◌==◌, if◌then◌else◌,
}
use linber.Prelude.Int.{ℤ, pos, negsuc}
use linber.Api.Client.{
  Locals, linber_request_service, linber_request_service_shm, linber_request_service_no_blocking,
  linber_request_service_no_blocking_shm, linber_request_service_get_response,
  linber_request_service_clean,
}
use linber.Api.Device.{linber_init, linber_exit}
use linber.Api.Process.{User, U, Os, returns, ◌>>=◌, ◌>>◌, pure, skip, load_word, store_word}
use linber.Api.Shm.{create_shm_from_filepath}

-- request_state
pub data RequestState : Type 0 where
  none_sent : RequestState
  sent : RequestState
  completed : RequestState

-- request_shm_state
pub data ShmState : Type 0 where
  no_shm : ShmState
  created : ShmState
  shm_sent : ShmState
  shm_completed : ShmState

-- The members. Those that the library or the driver writes through a pointer are at addresses.
pub record ServiceClient : Type 0 where
  pub service_uri : List ℕ
  pub request_len : ℕ
  pub request : ℕ
  pub response : ℕ
  pub request_shm_key : ℕ
  pub request_shm_mode : Bool
  pub abs_deadline : ℕ
  pub rel_deadline : ℕ
  pub request_state : RequestState
  pub request_shm_state : ShmState
  pub response_len_at : ℕ
  pub response_shm_mode_at : ℕ
  pub token_at : ℕ

abbrev pub is_none_sent : RequestState → Bool
is_none_sent none_sent = true
is_none_sent _ = false

abbrev pub is_sent : RequestState → Bool
is_sent sent = true
is_sent _ = false

abbrev pub is_completed : RequestState → Bool
is_completed completed = true
is_completed _ = false

abbrev pub is_no_shm : ShmState → Bool
is_no_shm no_shm = true
is_no_shm _ = false

abbrev pub is_created : ShmState → Bool
is_created created = true
is_created _ = false

abbrev pub is_shm_sent : ShmState → Bool
is_shm_sent shm_sent = true
is_shm_sent _ = false

abbrev pub is_shm_completed : ShmState → Bool
is_shm_completed shm_completed = true
is_shm_completed _ = false

-- No request is under way.
abbrev pub is_ready : ServiceClient → Bool
is_ready c = is_none_sent c.request_state && is_no_shm c.request_shm_state

unfoldable pub new_client : Os → (uri : List ℕ) → (stale : ServiceClient) → U ServiceClient
new_client os uri stale = do
  _ ← linber_init os
  store_word stale.response_shm_mode_at 0
  pure (record stale {
    service_uri = uri;
    request = 0;
    response = 0;
    request_shm_mode = false;
    request_state = none_sent;
    request_shm_state = no_shm;
  })

unfoldable pub delete_client : U ℤ
delete_client = linber_exit

-- What a method gives: the object, and the pointer or the result that it hands out.
abbrev pub Method : Type 0
Method = U (ServiceClient × ℕ)

-- `*res` and `*res_len` are written only by a blocking call; the pointer handed out is `*res`, of
-- which `old` is the value before.
unfoldable pub linber_send_request :
    Os
    → Locals
    → ServiceClient
    → (req req_len old res_len : ℕ) → (blocking : Bool) → (rel_deadline : ℕ) → Method
linber_send_request os at c req req_len old res_len blocking rel_deadline =
    if is_ready c
    then (let c' : ServiceClient = record c {
      request_shm_mode = false;
      request = req;
      request_len = req_len;
      rel_deadline = rel_deadline;
    } in
        if blocking
        then (do
          r ←
              linber_request_service os c.service_uri at rel_deadline req req_len c.response_len_at
                c.response_shm_mode_at
          len ← load_word c.response_len_at
          store_word res_len len
          pure (record c' { response = r.1; request_state = completed }, r.1))
        else (do
          r ←
              linber_request_service_no_blocking os c.service_uri at rel_deadline req req_len
                c.token_at
          pure (record c' { abs_deadline = r.1; request_state = sent }, old)))
    else pure (c, old)

-- `*req`; `low_id` is the static counter of the function.
unfoldable pub linber_create_shm :
    Os → ServiceClient → (old req_len low_id key_at id_at : ℕ) → Method
linber_create_shm os c old req_len low_id key_at id_at =
    if is_ready c
    then (do
      req ← create_shm_from_filepath os (46 ∷ []) low_id req_len key_at id_at
      if req == 0 then pure (c, req) else do
        key ← load_word key_at
        pure (
          record c {
            request_shm_mode = true;
            request = req;
            request_len = req_len;
            request_shm_key = key;
            request_shm_state = created;
          },
          req,
        ))
    else pure (c, old)

-- The local variables hide the members of the same names.
pub record ShmLocals : Type 0 where
  pub token : ℕ
  pub response_len : ℕ
  pub response_shm_mode : ℕ

unfoldable pub linber_send_request_shm :
    Os
    → Locals
    → ShmLocals
    → ServiceClient
    → (old res_len : ℕ) → (blocking : Bool) → (rel_deadline : ℕ) → Method
linber_send_request_shm os at loc c old res_len blocking rel_deadline =
    if is_created c.request_shm_state
    then (let c' : ServiceClient = record c { rel_deadline = rel_deadline } in
        if blocking
        then (do
          r ←
              linber_request_service_shm os c.service_uri at rel_deadline c.request_shm_key
                c.request_len loc.response_len loc.response_shm_mode
          len ← load_word loc.response_len
          store_word res_len len
          pure (record c' { request_shm_state = shm_completed }, r.1))
        else (do
          r ←
              linber_request_service_no_blocking_shm os c.service_uri at rel_deadline
                c.request_shm_key c.request_len loc.token
          pure (record c' { abs_deadline = r.1; request_shm_state = shm_sent }, old)))
    else pure (c, old)

abbrev pub is_failure : ℤ → Bool
is_failure (pos n) = false
is_failure (negsuc n) = true

abbrev pub answered : ServiceClient → ServiceClient
answered c =
    if is_sent c.request_state
    then record c { request_state = completed }
    else record c { request_shm_state = shm_completed }

-- It hands out the pointer to the request.
unfoldable pub linber_get_response : Os → Locals → ServiceClient → Method
linber_get_response os at c =
    if is_sent c.request_state || is_shm_sent c.request_shm_state
    then (do
      r ←
          linber_request_service_get_response os c.service_uri at c.response_len_at
            c.response_shm_mode_at c.token_at c.abs_deadline
      let c' = (let x : ServiceClient = record c { response = r.1 } in x)
      if is_failure r.0 then pure (c', 0) else pure (answered c', c.request))
    else pure (c, 0)

abbrev pub reset : ServiceClient → ServiceClient
reset c = record c { response = 0; request_state = none_sent; request_shm_state = no_shm }

-- The response mode is read when the response is cleaned.
abbrev pub clean : ServiceClient → (response : ℕ) → U (Unit {0})
clean c response = do
  mode ← load_word c.response_shm_mode_at
  linber_request_service_clean response (not (mode == 0))

unfoldable pub linber_end_operation : ServiceClient → U ServiceClient
linber_end_operation c =
    if is_sent c.request_state
      || (is_created c.request_shm_state || is_shm_sent c.request_shm_state)
    then (do clean c 0; pure (reset c))
    else if is_completed c.request_state || is_shm_completed c.request_shm_state
    then (do clean c c.response; pure (reset c))
    else pure c
