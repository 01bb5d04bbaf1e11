-- ===== src/Driver/Lifecycle/Abort.antt =====
-- The loops of linber_destroy_service in driver/linber_main.c, which abort the requests of a
-- service.
use linber.Prelude.{
  ℕ, ◌≡◌, ◌∙◌, ap, sym, subst, refl, true, false, Option, some, none, List, [], ◌∷◌, ◌==◌, All,
  if◌then◌else◌, arith,
}
use linber.Types.{ServiceNode, RequestNode}
use linber.Driver.Kernel.{Kernel, ok, update}
use linber.Driver.Params.{abort_request}
use linber.Driver.Lifecycle.{abort_completed}
use linber.Driver.Pending.{destroy_request, without}
use linber.Driver.Steps.{
  upped, up_request-ok, put_request_twice, request_here, bind, load_request-ok, update_same,
  load_service-ok, put_here, put_service, put_request, update_twice,
}

-- The request whose client is woken to an abort.
abbrev pub aborted : RequestNode → RequestNode
aborted n = upped (record n { result_cmd = abort_request })

-- An address at which there is a request is still one after an abort.
abbrev pub IsLive : (ℕ → Option RequestNode) → ℕ → Type 0
IsLive heap p = (n : RequestNode) × (heap p ≡ some n)

abbrev pub abort_at : ℕ → (ℕ → Option RequestNode) → ℕ → Option RequestNode
abort_at p heap = update heap p (elim (heap p) [ none ↦ none | some n ↦ some (aborted n) ])

abbrev pub abort_all : List ℕ → (ℕ → Option RequestNode) → ℕ → Option RequestNode
abort_all [] heap = heap
abort_all (p ∷ ps) heap = abort_all ps (abort_at p heap)

update-IsLive :
    (p q : ℕ) (heap : ℕ → Option RequestNode) (m : RequestNode)
    → IsLive heap q
    → IsLive (update heap p (some m)) q
unfolding update
update-IsLive p q heap m (n, e) =
    elim (p == q) as (λ b. (x : RequestNode) × ((if b then some m else heap q) ≡ some x)) [
      | true ↦ (m, refl)
      | false ↦ (n, e)
    ]

-- The abort of a live request.
abort_at-some :
    (p : ℕ) (heap : ℕ → Option RequestNode) (n : RequestNode)
    → heap p ≡ some n
    → abort_at p heap ≡ update heap p (some (aborted n))
abort_at-some p heap n e =
    ap
      (λ (x : Option RequestNode).
        update heap p (elim x [ none ↦ none | some m ↦ some (aborted m) ]))
      e

abort_at-IsLive :
    (p q : ℕ) (heap : ℕ → Option RequestNode)
    → IsLive heap p
    → IsLive heap q
    → IsLive (abort_at p heap) q
abort_at-IsLive p q heap (m, f) h =
    subst (λ x. IsLive x q) (sym (abort_at-some p heap m f)) (update-IsLive p q heap (aborted m) h)

pub All-abort_at :
    (p : ℕ) (heap : ℕ → Option RequestNode) (ps : List ℕ)
    → IsLive heap p
    → All (IsLive heap) ps
    → All (IsLive (abort_at p heap)) ps
All-abort_at p heap [] l h = tt
All-abort_at p heap (q ∷ ps) l h = (abort_at-IsLive p q heap l h.0, All-abort_at p heap ps l h.1)

pub destroy_request-ok :
    (k : Kernel) (p : ℕ)
    → IsLive k.requests p
    → destroy_request p k ≡ ok tt (record k { requests = abort_at p k.requests })
unfolding destroy_request
destroy_request-ok k p (n, e) =
    let n1 = record n { result_cmd = abort_request } in
    bind _ (load_request-ok k p e)
    ∙ up_request-ok (put_request k p n1) p (request_here k p n1)
    ∙ ap (ok tt) (
        put_request_twice k p n1 (aborted n)
        ∙ ap (λ f. record k { requests = f }) (sym (abort_at-some p k.requests n e)))

-- A service whose fields `f` a loop has changed, with requests aborted.
abbrev pub with_aborted : Kernel → ℕ → ServiceNode → List ℕ → Kernel
with_aborted k ser_node s ps = record (put_service k ser_node s) {
  requests = abort_all ps k.requests;
}

pub abort_completed_lem :
    (ps : List ℕ) (ser_node : ℕ) (k : Kernel) (s : ServiceNode)
    → k.services ser_node ≡ some s
    → s.completed_requests ≡ ps
    → All (IsLive k.requests) ps
    → abort_completed ps ser_node k
      ≡ ok tt (with_aborted k ser_node (record s { completed_requests = [] }) ps)
unfolding abort_completed
abort_completed_lem [] ser_node k s here e live =
    ap (λ f. ok tt (record k { services = f }))
      (sym (
        update_same k.services ser_node (some (record s { completed_requests = [] }))
          (here ∙ ap (λ l. some (record s { completed_requests = l })) e)))
abort_completed_lem (p ∷ ps) ser_node k s here e live =
    let s1 = record s { completed_requests = without p s.completed_requests } in
    let k1 = put_service k ser_node s1 in
    let k2 = record k1 { requests = abort_at p k.requests } in
    bind _ (load_service-ok k ser_node here)
    ∙ bind _ (destroy_request-ok k1 p live.0)
    ∙ abort_completed_lem ps ser_node k2 s1 (put_here k ser_node s1)
        (ap (without p) e ∙ ground arith) (All-abort_at p k.requests ps live.0 live.1)
    ∙ ap (λ f. ok tt (record k { services = f; requests = abort_all ps (abort_at p k.requests) }))
        (update_twice k.services ser_node _ _)
