-- ===== src/Driver/Jobs/Fetch.antt =====
-- linber_Start_Job_get_request of driver/linber_main.c for a request in memory.
use linber.Prelude.{ℕ, ◌≡◌, ◌∙◌, ap, refl, Bool, true, some, List, arith}
use linber.Prelude.Int.{pos}
use linber.Types.{ServiceNode, RequestNode, buffer}
use linber.Driver.Kernel.{
  Kernel, ok, Env, update, to_request, prefix, overwrite, copy_to_user, load_buffer,
}
use linber.Driver.Params.{StartJob}
use linber.Driver.Client.{data_of}
use linber.Driver.Jobs.{linber_start_job_get_request}
use linber.Driver.Jobs.Finish.{Serving, get_worker_by_id-ok}
use linber.Driver.Jobs.Rights.{has_rights}
use linber.Driver.Steps.{bind, found-ok, load_request-ok, service_check_worker-ok, then_branch}

-- The worker has the bytes of its request.
abbrev pub fetched : Kernel → StartJob → RequestNode → List ℕ → Kernel
fetched k q n bs = record k {
  user_bytes =
      update k.user_bytes q.ptr_data
        (overwrite (prefix n.request_len bs) (k.user_bytes q.ptr_data));
}

copy_to_user-ok :
    {fine : Bool} (k : Kernel) (p : ℕ) (bs : List ℕ)
    → fine ≡ true
    → copy_to_user fine p bs k
      ≡ ok tt (record k { user_bytes = update k.user_bytes p (overwrite bs (k.user_bytes p)) })
copy_to_user-ok k p bs e = ap (λ (b : Bool). copy_to_user b p bs k) e

load_buffer-ok :
    (k : Kernel) (a : ℕ) {bs : List ℕ} → k.buffers a ≡ some bs → load_buffer a k ≡ ok bs k
load_buffer-ok k a e = ground arith

pub start_job_get_request-fetched :
    (env : Env) (uri : List ℕ) (k : Kernel) (ser_node : ℕ) (q : StartJob) (s : ServiceNode)
    (r a : ℕ) (n : RequestNode) (bs : List ℕ)
    → Serving env uri k ser_node q.worker_id s r n
    → s.token ≡ q.service_token
    → n.request ≡ buffer a
    → k.buffers a ≡ some bs
    → env.copy to_request ≡ true
    → linber_start_job_get_request env uri q k ≡ ok (pos 0) (fetched k q n bs)
unfolding linber_start_job_get_request
start_job_get_request-fetched env uri k ser_node q s r a n bs h token request filled fine =
    let right : has_rights s q.service_token q.worker_id ≡ true =
      rw (h.is_id, h.in_range, token) (ground arith) in
    bind _ (found-ok uri k h.linber_free h.known)
    ∙ bind _ (service_check_worker-ok k ser_node h.here q.service_token q.worker_id)
    ∙ then_branch _ _ k right
    ∙ bind _ (get_worker_by_id-ok env k ser_node q.worker_id h.here h.slot h.in_range refl)
    ∙ bind _ (load_request-ok k r h.there)
    ∙ bind _ (ap (λ x. data_of x k) request)
    ∙ bind _ (load_buffer-ok k a filled)
    ∙ bind _ (copy_to_user-ok k q.ptr_data (prefix n.request_len bs) fine)
