-- ===== src/Driver/System/Clients.antt =====
-- The operations of a client in driver/linber_main.c keep the memory sound.
use linber.Prelude.{ℕ, List, not, ◌==◌, ltb}
use linber.Prelude.Int.{ℤ, pos}
use linber.Types.{Payload, buffer, shm_key, garbage}
use linber.Driver.Kernel.{
  Env, fault, of_request_data, request_sem, prefix, word_of_bool, to_response_len,
  to_response_shm_mode, to_response_key, to_response, from_token,
}
use linber.Driver.Params.{Registration, Request, linber_max_mem_size, request_init, request_waiting}
use linber.Driver.Pending.{Cursor, entry, list_head}
use linber.Driver.Client.{
  data_of, key_of, is_success, linber_register_service, fetch_request, request_service_init,
  request_service_wait, request_service_completed, request_phases, linber_request_service,
  deliver_response, linber_request_service_get_response,
}
use linber.Driver.System.Keeps.{
  Kept, Kept-bind, Kept-choose, Kept-if, Kept-ok, Kept-exit, Kept-fault,
}
use linber.Driver.System.Create.{create_service-Kept}
use linber.Driver.System.Lifecycle.{find_service-Kept}
use linber.Driver.System.Requests.{enqueue-Kept, find_waiting-Kept, get_completed_request-Kept}
use linber.Driver.System.Steps.{
  steps, kmalloc-Kept, load_request-Kept, load_service-Kept, load_buffer-Kept, free_buffer-Kept,
  free_request-Kept, put_user-Kept, get_user-Kept, copy_to_user-Kept, down-Kept,
}

pub data_of-Kept : (p : Payload) → Kept (data_of p)
data_of-Kept (buffer a) = Kept-ok
data_of-Kept (shm_key k) = Kept-fault
data_of-Kept garbage = Kept-fault

pub key_of-Kept : (p : Payload) → Kept (key_of p)
key_of-Kept (buffer a) = Kept-fault
key_of-Kept (shm_key k) = Kept-ok
key_of-Kept garbage = Kept-fault

pub register_service-Kept :
    (env : Env) (uri : List ℕ) (reg : Registration) → Kept (linber_register_service env uri reg)
unfolding linber_register_service
register_service-Kept env uri reg =
    Kept-choose _ (find_service-Kept uri)
      (Kept-choose _ (create_service-Kept env uri reg) Kept-ok λ p. search steps) (λ _. Kept-ok)

fetch_request-Kept : (env : Env) (p : Request) → Kept (fetch_request env p)
unfolding fetch_request
fetch_request-Kept env p =
    Kept-if (ltb linber_max_mem_size p.request_len) (Kept-exit _)
      (Kept-choose _ (kmalloc-Kept (env.kmalloc of_request_data)) (Kept-exit _) λ a. search steps)

request_service_init-Kept : (env : Env) (q : ℕ) (p : Request) → Kept (request_service_init env q p)
unfolding request_service_init
request_service_init-Kept env q p =
    Kept-bind (Kept-if (p.request_shm_mode == 1) Kept-ok (fetch_request-Kept env p)) λ a.
      Kept-choose _
        (enqueue-Kept env q a p.request_len (p.blocking == 1) (p.request_shm_mode == 1) _
          p.abs_deadline_ns)
        (Kept-exit _)
        λ r. Kept-bind (load_request-Kept r) λ n.
          Kept-bind (put_user-Kept _ _ _)
            λ _. Kept-if (p.blocking == 1) (Kept-ok {a = r}) (Kept-exit (pos request_waiting))

request_service_wait-Kept : (env : Env) (q : ℕ) (p : Request) → Kept (request_service_wait env q p)
unfolding request_service_wait
request_service_wait-Kept env q p = Kept-bind (get_user-Kept _ _) λ token.
    Kept-choose _ (find_waiting-Kept q p.abs_deadline_ns token) (Kept-exit _) λ r.
      Kept-bind (load_request-Kept r) λ n.
        Kept-if (n.client == env.current)
          (Kept-bind (down-Kept (request_sem r)) λ _. Kept-ok {a = r}) (Kept-exit _)

request_service_completed-Kept :
    (env : Env) (p : Request) (r : ℕ) → Kept (request_service_completed env p r)
unfolding request_service_completed
request_service_completed-Kept env p r = Kept-bind (load_request-Kept r) λ n.
    Kept-if (not (is_success n.result_cmd)) Kept-ok (
      Kept-bind (put_user-Kept (env.copy to_response_len) p.ptr_response_len n.response_len) λ _.
        Kept-bind
          (put_user-Kept (env.copy to_response_shm_mode) p.ptr_response_shm_mode
            (word_of_bool n.response_shm_mode))
          λ _.
            Kept-bind
              (Kept-if n.response_shm_mode
                (Kept-bind (key_of-Kept n.response)
                  λ k. put_user-Kept (env.copy to_response_key) p.ptr_shm_response_key k)
                Kept-ok)
              λ _. Kept-ok {a = n.result_cmd})

request_phases-Kept : (env : Env) (q : ℕ) (p : Request) → Kept (request_phases env q p)
unfolding request_phases
request_phases-Kept env q p =
    Kept-if (p.status == request_init)
      (Kept-bind (request_service_init-Kept env q p) λ r. request_service_completed-Kept env p r)
      (Kept-if (p.status == request_waiting)
        (Kept-bind (request_service_wait-Kept env q p) λ r. request_service_completed-Kept env p r)
        Kept-ok)

pub request_service-Kept :
    (env : Env) (uri : List ℕ) (p : Request) → Kept (linber_request_service env uri p)
unfolding linber_request_service
request_service-Kept env uri p = Kept-choose _ (find_service-Kept uri) Kept-ok λ q.
    Kept-bind (load_service-Kept q) λ s. Kept-if s.destroy_me Kept-ok (request_phases-Kept env q p)

deliver_response-Kept : (env : Env) (p : Request) (r : ℕ) → Kept (deliver_response env p r)
unfolding deliver_response
deliver_response-Kept env p r = Kept-bind (load_request-Kept r) λ n.
    Kept-bind
      (Kept-if n.response_shm_mode Kept-ok (
        Kept-bind (data_of-Kept n.response) λ a. Kept-bind (load_buffer-Kept a) λ bs.
          Kept-bind
            (copy_to_user-Kept (env.copy to_response) p.ptr_response (prefix n.response_len bs))
            λ _. free_buffer-Kept a))
      λ _.
        Kept-bind
          (Kept-if n.request_shm_mode Kept-ok
            (Kept-bind (data_of-Kept n.request) λ a. free_buffer-Kept a))
          λ _. Kept-bind (free_request-Kept r) λ _. Kept-ok {a = n.result_cmd}

pub get_response-Kept :
    (env : Env) (uri : List ℕ) (p : Request) → Kept (linber_request_service_get_response env uri p)
unfolding linber_request_service_get_response
get_response-Kept env uri p = Kept-choose _ (find_service-Kept uri) Kept-ok λ q.
    Kept-bind (load_service-Kept q) λ s. Kept-if s.destroy_me Kept-ok (
      Kept-bind (get_user-Kept (env.copy from_token) p.ptr_token)
        λ token. Kept-bind (get_completed_request-Kept q token) handed)
  where
    handed :
        (c : Cursor)
        → Kept {A = ℤ} (elim c [ list_head ↦ fault | entry r ↦ deliver_response env p r ])
    handed list_head = Kept-fault
    handed (entry r) = deliver_response-Kept env p r
