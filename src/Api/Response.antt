-- ===== src/Api/Response.antt =====
-- The response of a request and its release, in libs/src/linber_service_api.c.
use linber.Prelude.{
  ℕ, suc, ◌≡◌, refl, sym, subst, not, ap, ◌∙◌, Bool, true, false, List, ◌∷◌, ◌==◌, ==_refl,
  Bool-cases, Option-cases, inl, inr, if◌then◌else◌, arith,
}
use linber.Prelude.Int.{ℤ}
use linber.Driver.Client.{is_success}
use linber.Driver.Params.{Ioctl, Request, request_service_get_response}
use linber.Driver.Pending.{without}
use linber.Api.Client.{
  Locals, take_shared, take_copy, take_response, linber_request_service, linber_request_service_shm,
  linber_request_service_get_response, linber_request_service_clean,
}
use linber.Api.Device.{ioctl_send}
use linber.Api.Ensures.{Ensures, Ensures-then, Ensures-weaken, Kept, ioctl_send-Kept}
use linber.Api.Process.{User, Os, returns, then_prog, malloc, free, pure, ◌>>=◌}
use linber.Api.Shm.{attach_shm_from_key, shmat, self_destroy, detach_shm, minus_one}
use linber.Api.WorkerFile.{find_block-top}
use linber.Api.Words.{WordIs, Ensures-both, Answers, take_copy-word, take_shared-word}

-- The blocks and the attached addresses are those of `u`.
abbrev pub Restored : {B : Type 0} → User → B → User → Type 0
Restored u _ w = (w.heap ≡ u.heap) × (w.attached ≡ u.attached)

abbrev Releases : User → Bool → ℤ × ℕ → User → Type 0
Releases u mode r v = Ensures (Restored u) (linber_request_service_clean r.1 mode v)

suc_not_zero : (p : ℕ) → (suc p == 0) ≡ false
suc_not_zero p = ground arith

copy-Releases :
    (u v : User) (p len : ℕ) (ret : ℤ)
    → v.heap ≡ (suc p, len) ∷ u.heap
    → v.attached ≡ u.attached
    → Releases u false (ret, suc p) v
unfolding linber_request_service_clean free
copy-Releases u v p len ret h a =
    rw (h, find_block-top (suc p) len u.heap, suc_not_zero p) (refl, a)

nothing-Releases : (u v : User) (ret : ℤ) → Restored u tt v → Releases u false (ret, 0) v
unfolding linber_request_service_clean free
nothing-Releases u v ret h = h

-- A call of the driver before the release.
sent-Releases :
    (os : Os) (cmd : Ioctl) (mode : Bool) (p : ℕ) (u v : User)
    → ((ret : ℤ) (w : User) → Kept v w → Releases u mode (ret, p) w)
    → Ensures (Releases u mode) (then_prog (ioctl_send os cmd v) (λ ret. pure (ret, p)))
sent-Releases os cmd mode p u v h =
    Ensures-then (λ _. Kept v) (Releases u mode) (ioctl_send os cmd v) (λ ret. pure (ret, p))
      (ioctl_send-Kept os cmd v) h

take_copy-Releases :
    (os : Os) (uri : List ℕ) (p : Request) (response_len : ℕ) (u v : User)
    → Restored u tt v
    → Ensures (Releases u false) (take_copy os uri p response_len v)
unfolding take_copy malloc
take_copy-Releases os uri p response_len u v h =
    elim (os.malloc (v.kernel.user_word response_len))
      as (λ b. Ensures (Releases u false) (
        then_prog
          (if b
            then returns (suc v.next) (record v {
              next = suc v.next;
              heap = (suc v.next, v.kernel.user_word response_len) ∷ v.heap;
            })
            else returns 0 v)
          (λ response.
            ioctl_send os (request_service_get_response uri (record p { ptr_response = response }))
            >>= λ ret. pure (ret, response)))) [
              | true ↦
                  sent-Releases os _ false (suc v.next) u
                    (record v {
                      next = suc v.next;
                      heap = (suc v.next, v.kernel.user_word response_len) ∷ v.heap;
                    })
                    (λ ret w k.
                      copy-Releases u w v.next (v.kernel.user_word response_len) ret
                        (k.0 ∙ ap (λ hs. (suc v.next, v.kernel.user_word response_len) ∷ hs) h.0)
                        (k.1 ∙ h.1))
              | false ↦
                  sent-Releases os _ false 0 u v
                    (λ ret w k. nothing-Releases u w ret (k.0 ∙ h.0, k.1 ∙ h.1))
            ]

shared-Releases :
    (u v : User) (p : ℕ) (ret : ℤ)
    → v.heap ≡ u.heap
    → v.attached ≡ p ∷ u.attached
    → Releases u true (ret, p) v
unfolding linber_request_service_clean detach_shm
shared-Releases u v p ret h a = rw (a, ==_refl p) (h, refl)

-- Nothing is attached at address 0.
abbrev pub NullFree : User → Type 0
NullFree u = without 0 u.attached ≡ u.attached

unshared-Releases :
    (u v : User) (ret : ℤ) → NullFree u → Restored u tt v → Releases u true (ret, 0) v
unfolding linber_request_service_clean detach_shm
unshared-Releases u v ret z h = (h.0, ap (without 0) h.1 ∙ z)

shmat-Releases :
    (os : Os) (id : ℕ) (ret : ℤ) (u v : User)
    → NullFree u
    → Restored u tt v
    → Ensures (λ response. Releases u true (ret, response)) (shmat os id v)
unfolding shmat
shmat-Releases os id ret u v z h =
    elim (os.shmat id)
      as (λ b.
        Ensures (λ response. Releases u true (ret, response))
          (if b
            then returns (suc v.next)
                (record v { next = suc v.next; attached = suc v.next ∷ v.attached })
            else returns 0 v)) [
              | true ↦
                  shared-Releases u
                    (record v { next = suc v.next; attached = suc v.next ∷ v.attached })
                    (suc v.next) ret h.0 (ap (λ as'. suc v.next ∷ as') h.1)
              | false ↦ unshared-Releases u v ret z h
            ]

attach-Releases :
    (os : Os) (key len id_at : ℕ) (ret : ℤ) (u v : User)
    → NullFree u
    → Restored u tt v
    → Ensures (λ response. Releases u true (ret, response)) (attach_shm_from_key os key len id_at v)
unfolding attach_shm_from_key
attach-Releases os key len id_at ret u v z h = elim (Option-cases (os.shmget key len)) [
  | inl e ↦ rw (attach_shm_from_key, e) (unshared-Releases u _ ret z h)
  | inr (id, e) ↦ rw (attach_shm_from_key, e) (shmat-Releases os id ret u _ z h)
]

-- The segment is marked behind the attachment.
marked-Releases :
    (u w : User) (id response : ℕ) (ret : ℤ)
    → Releases u true (ret, response) w
    → Ensures (Releases u true) (then_prog (self_destroy id w) (λ _. pure (ret, response)))
unfolding self_destroy linber_request_service_clean detach_shm
marked-Releases u w id response ret h = elim (Bool-cases (id == minus_one)) [
  | inl e ↦ rw e h
  | inr e ↦ rw e h
]

take_shared-Releases :
    (os : Os) (at : Locals) (response_len : ℕ) (ret : ℤ) (u v : User)
    → NullFree u
    → Restored u tt v
    → Ensures (Releases u true) (take_shared os at response_len ret v)
unfolding take_shared
take_shared-Releases os at response_len ret u v z h =
    Ensures-then (λ response. Releases u true (ret, response)) (Releases u true)
      (attach_shm_from_key os (v.kernel.user_word at.response_key) (v.kernel.user_word response_len)
        at.response_shm_id v)
      _ (attach-Releases os _ _ _ ret u v z h)
      (λ response w r. marked-Releases u w (w.kernel.user_word at.response_shm_id) response ret r)

-- `*response_shm_mode`, the mode that the caller finds and passes on.
abbrev pub mode_at : ℕ → User → Bool
mode_at response_shm_mode v = not (v.kernel.user_word response_shm_mode == 0)

abbrev pub Released : User → (response_shm_mode : ℕ) → ℤ × ℕ → User → Type 0
Released u response_shm_mode r v = Releases u (mode_at response_shm_mode v) r v

-- A release behind a run that left the word of the mode.
with_word :
    (u : User) (b : Bool) (response_shm_mode word : ℕ) (r : ℤ × ℕ) (v : User)
    → (word == 0) ≡ not b
    → Releases u b r v × WordIs response_shm_mode word r v
    → Released u response_shm_mode r v
with_word u b m word r v e (h, same) =
    subst (λ c. Releases u c r v)
      (sym (
        ap (λ x. not (x == 0)) same
        ∙ ap not e
        ∙ elim b as (λ c. not (not c) ≡ c) [ true ↦ refl | false ↦ refl ]))
      h

no-response :
    (u v : User) (m : ℕ) (ret : ℤ) → NullFree u → Restored u tt v → Released u m (ret, 0) v
no-response u v m ret z h =
    elim (v.kernel.user_word m == 0) as (λ b. Releases u (not b) (ret, 0) v) [
      | true ↦ nothing-Releases u v ret h
      | false ↦ unshared-Releases u v ret z h
    ]

module _ (os : Os) (uri : List ℕ) (at : Locals) (response_len response_shm_mode : ℕ)
    (answers : Answers os uri) (apart : (at.response_shm_id == response_shm_mode) ≡ false) where
  take_response-Released :
      (p : Request) (ret : ℤ) (u v : User)
      → NullFree u
      → Restored u tt v
      → Ensures
          (Released u response_shm_mode)
          (take_response os uri at p response_len response_shm_mode ret v)
  unfolding take_response
  take_response-Released p ret u v z h = elim (Bool-cases (is_success ret)) [
    | inr e ↦ rw e (no-response u v response_shm_mode ret z h)
    | inl e ↦ rw e (elim (Bool-cases (v.kernel.user_word response_shm_mode == 0)) [
      | inl f ↦ rw f (
          Ensures-weaken _ (Released u response_shm_mode) (take_copy os uri p response_len v)
            (Ensures-both (Releases u false) (WordIs response_shm_mode _)
              (take_copy os uri p response_len v) (take_copy-Releases os uri p response_len u v h)
              (take_copy-word os uri p response_len response_shm_mode answers v))
            (λ r w. with_word u false response_shm_mode _ r w f))
      | inr f ↦ rw f (
          Ensures-weaken _ (Released u response_shm_mode) (take_shared os at response_len ret v)
            (Ensures-both (Releases u true) (WordIs response_shm_mode _)
              (take_shared os at response_len ret v)
              (take_shared-Releases os at response_len ret u v z h)
              (take_shared-word os at response_len response_shm_mode ret apart v))
            (λ r w. with_word u true response_shm_mode _ r w f))
    ])
  ]

  -- A call of the driver, and then the response.
  sent_then-Released :
      (cmd : Ioctl) (p : Request) (u : User)
      → NullFree u
      → Ensures (Released u response_shm_mode) (
          then_prog
            (ioctl_send os cmd u)
            (take_response os uri at p response_len response_shm_mode))
  sent_then-Released cmd p u z =
      Ensures-then (λ _. Kept u) (Released u response_shm_mode) (ioctl_send os cmd u) _
        (ioctl_send-Kept os cmd u) (λ ret v k. take_response-Released p ret u v z (k.0, k.1))

  -- A process that calls linber_request_service, linber_request_service_shm or
  -- linber_request_service_get_response does not meet a bad pointer, and when the call returns,
  -- whatever the result and whatever other processes did while it was blocked,
  -- linber_request_service_clean of the response in the mode that stands at response_shm_mode does
  -- not either and leaves the blocks and the attached memory of the process as before the request.
  -- Nothing is attached at address 0, the mode and the id of the segment stand at two addresses,
  -- and the call of the driver by which the response is fetched writes no word of the process and
  -- does not block.
  pub responses-Released :
      (rel_deadline_ms request request_key request_len ptr_token abs_deadline : ℕ) (u : User)
      → NullFree u
      → Ensures (Released u response_shm_mode) (
          linber_request_service os uri at rel_deadline_ms request request_len response_len
            response_shm_mode u)
        × Ensures (Released u response_shm_mode) (
            linber_request_service_shm os uri at rel_deadline_ms request_key request_len
              response_len response_shm_mode u)
        × Ensures (Released u response_shm_mode) (
            linber_request_service_get_response os uri at response_len response_shm_mode ptr_token
              abs_deadline u)
  unfolding linber_request_service linber_request_service_shm linber_request_service_get_response
  responses-Released rel request key request_len token d u z =
      (sent_then-Released _ _ u z, sent_then-Released _ _ u z, sent_then-Released _ _ u z)
