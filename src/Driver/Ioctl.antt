-- ===== src/Driver/Ioctl.antt =====
-- linber_ioctl of driver/linber_main.c: one call, from the copy of its parameters to its result.
use linber.Prelude.{ℕ, Bool, none, some, List, [], ◌∷◌, ◌==◌, if◌then◌else◌}
use linber.Prelude.Int.{ℤ}
use linber.Driver.Kernel.{
  M, Run, ok, exit, oops, hang, sleep, Env, of_param, of_uri, from_param, from_uri, ◌>>=◌, ◌>>◌,
  pure, skip, return, kmalloc, check_copy,
}
use linber.Driver.Params.{
  Ioctl, register_service, request_service, request_service_get_response, register_service_worker,
  start_job, start_job_get_request, end_job, destroy_service, system_status, other,
  ioctl_not_implemented, kernel_memory_error,
}
use linber.Driver.Client.{
  linber_register_service, linber_request_service, linber_request_service_get_response,
}
use linber.Driver.Jobs.{
  linber_register_service_worker, linber_start_job, linber_start_job_get_request, linber_end_job,
  linber_destroy_service,
}
use linber.Driver.Status.{linber_get_system_status}

-- A handler's `return` ends the handler, not the dispatcher.
abbrev pub returned : Run ℤ → Run ℤ
returned (ok r k) = ok r k
returned (exit r k) = ok r k
returned oops = oops
returned hang = hang
returned (sleep w k go) = sleep w k (λ k'. returned (go k'))

-- The bytes of a string before its terminating NUL.
abbrev pub c_string : List ℕ → List ℕ
c_string [] = []
c_string (b ∷ bs) = if b == 0 then [] else b ∷ c_string bs

-- CHECK_KMALLOC_ERROR
abbrev pub check_kmalloc : Bool → M (Unit {0})
check_kmalloc given = do
  p ← kmalloc given
  elim p [ none ↦ return kernel_memory_error | some _ ↦ skip ]

-- The parameters and the uri, copied from user space.
abbrev pub with_params : Env → M ℤ → M ℤ
with_params env handler = do
  check_kmalloc (env.kmalloc of_param)
  check_copy (env.copy from_param)
  check_kmalloc (env.kmalloc of_uri)
  check_copy (env.copy from_uri)
  handler

unfoldable pub handle : Env → Ioctl → M ℤ
handle env (register_service uri p) = with_params env (linber_register_service env (c_string uri) p)
handle env (request_service uri p) = with_params env (linber_request_service env (c_string uri) p)
handle env (request_service_get_response uri p) =
    with_params env (linber_request_service_get_response env (c_string uri) p)
handle env (register_service_worker uri p) =
    with_params env (linber_register_service_worker env (c_string uri) p)
handle env (start_job uri p) = with_params env (linber_start_job env (c_string uri) p)
handle env (start_job_get_request uri p) =
    with_params env (linber_start_job_get_request env (c_string uri) p)
handle env (end_job uri p) = with_params env (linber_end_job env (c_string uri) p)
handle env (destroy_service uri service_token) =
    with_params env (linber_destroy_service env (c_string uri) service_token)
handle env (system_status user) = linber_get_system_status env user
handle env (other uri) = with_params env (pure ioctl_not_implemented)

unfoldable pub linber_ioctl : Env → Ioctl → M ℤ
linber_ioctl env call k = returned (handle env call k)
