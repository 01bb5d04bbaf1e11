-- ===== src/ServiceClient/Tests.antt =====
-- A client object over the driver's handlers.
use linber.Prelude.{refl, true, false}
use linber.Driver.Tests.{uri}
use linber.Api.OnReturn.{OnReturn}
use linber.Api.Process.{◌>>=◌}
use linber.Api.Runs.{kind_os, connected, locals}
use linber.ServiceClient.{
  ServiceClient, ShmLocals, none_sent, no_shm, created, sent, linber_send_request,
  linber_get_response, linber_send_request_shm, linber_end_operation,
}
use linber.ServiceClient.Lost.{HandsOut, SameHeap, send-get_response, send_shm-end_operation}
use linber.ServiceClient.Phases.{waits, Moved, invoke, invoke-Moved, get_response}

abbrev idle_client : ServiceClient
idle_client = record {
  service_uri = uri;
  request_len = 0;
  request = 0;
  response = 0;
  request_shm_key = 7;
  request_shm_mode = false;
  abs_deadline = 0;
  rel_deadline = 0;
  request_state = none_sent;
  request_shm_state = no_shm;
  response_len_at = 312;
  response_shm_mode_at = 310;
  token_at = 311;
}

abbrev shm_locals : ShmLocals
shm_locals = record { token = 411; response_len = 412; response_shm_mode = 413 }

abbrev waiting_client : ServiceClient
waiting_client = record idle_client { request_state = sent; request = 500 }

invoke-Moved_example :
    OnReturn
      (Moved (get_response locals) waits)
      (invoke kind_os (get_response locals) waiting_client connected)
invoke-Moved_example =
    invoke-Moved kind_os (get_response locals) waiting_client waits connected (refl, refl)

send-get_response_example : OnReturn (HandsOut 500) (
    (do
      r ← linber_send_request kind_os locals idle_client 500 3 0 320 false 20
      linber_get_response kind_os locals r.0)
      connected)
send-get_response_example =
    send-get_response kind_os kind_os locals locals idle_client 500 3 0 320 20 connected
      (refl, refl)

abbrev shm_client : ServiceClient
shm_client = record idle_client { request_shm_state = created; request_len = 3 }

send_shm-end_operation_example :
    OnReturn
      (λ r v. OnReturn (SameHeap v) (linber_end_operation r.0 v))
      (linber_send_request_shm kind_os locals shm_locals shm_client 0 320 true 20 connected)
send_shm-end_operation_example =
    send_shm-end_operation kind_os locals shm_locals shm_client 0 320 20 connected (refl, refl) refl
