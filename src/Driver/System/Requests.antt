-- ===== src/Driver/System/Requests.antt =====
-- The helpers on requests of driver/linber_main.c keep the memory sound.
use linber.Prelude.{
  ℕ, suc, ◌≡◌, ◌≤◌, refl, sym, subst, length, Bool, none, some, List, [], ◌∷◌, ◌==◌, if◌then◌else◌,
}
use linber.Tree.{height}
use linber.Words.{inc32, dec32, inc64}
use linber.Types.{Workers, ServiceNode, WorkerStruct}
use linber.Requests.{
  found, missing, running, oops, rbtree_get_request, remove_first_request,
  insert_req_node_sorted_by_deadline,
}
use linber.Driver.Kernel
use linber.Driver.Kernel.{
  Kernel, M, Env, of_request, of_request_node, ◌>>=◌, ◌>>◌, pure, ok, load_service, store_service,
  load_request, unlock_service, skip,
}
use linber.Driver.Pending.{
  create_request, destroy_request, Cursor, entry, list_head, search_list, get_completed_request,
  get_request, search_slots, search_completed, search_serving, find_waiting_or_completed_request,
  announce_request, enqueue_request_for_service, without,
}
use linber.Driver.System.Keeps.{Kept, Keeps, Kept-bind, Kept-choose, Kept-if, Kept-ok}
use linber.Driver.System.Stores.{Sound-store}
use linber.Driver.System.Steps.{
  steps, edit-Kept, edit_last-Kept, Edits, lock_service-Kept, unlock_service-Kept,
  load_request-Kept, load_service-Kept, Kept-load, kmalloc-Kept, store_request-Kept,
  up_service-Kept, down-Kept,
}

pub create_request-Kept : (env : Env) → Kept (create_request env)
unfolding create_request
create_request-Kept env =
    Kept-choose _ (kmalloc-Kept (env.kmalloc of_request)) Kept-ok (λ r. search steps)

pub destroy_request-Kept : (p : ℕ) → Kept (destroy_request p)
unfolding destroy_request
destroy_request-Kept p = search steps

search_list-Kept : (ps : List ℕ) (token : ℕ) → Kept (search_list ps token)
unfolding search_list
search_list-Kept [] token = search steps
search_list-Kept (p ∷ ps) token =
    Kept-bind (load_request-Kept p)
      λ r. Kept-if (r.token == token) Kept-ok (search_list-Kept ps token)

-- Changes of a service that leave its workers and its uri.
pub same_workers :
    (f : ServiceNode → ServiceNode)
    → ((s : ServiceNode) → (f s).workers ≡ s.workers)
    → ((s : ServiceNode) → (f s).uri ≡ s.uri)
    → Edits f
same_workers f w u = record {
  whole = λ s h.
      subst (λ (x : Workers). (length x.worker_slots ≡ x.max_workers) × (x.next_id ≤ x.max_workers))
        (sym (w s)) h;
  same_uri = u;
}

pub get_completed_request-Kept : (p token : ℕ) → Kept (get_completed_request p token)
unfolding get_completed_request
get_completed_request-Kept p token = Kept-bind (lock_service-Kept p) λ _.
    Kept-bind (load_service-Kept p) λ s.
      Kept-bind (search_list-Kept s.completed_requests token)
        λ c. Kept-bind (taken c) (λ _. search steps)
  where
    taken :
        (c : Cursor)
        → Kept (elim c [
          | list_head ↦ skip
          | entry p' ↦ do
            s' ← load_service p
            store_service p (record s' { completed_requests = without p' s'.completed_requests })
        ])
    taken list_head = Kept-ok
    taken (entry p') = edit_last-Kept p _ (same_workers _ (λ s. refl) (λ s. refl))

pub get_request-Kept : (env : Env) (p : ℕ) → Kept (get_request env p)
unfolding get_request
get_request-Kept env p = Kept-load p λ s k sound e.
    let rest = (remove_first_request env.request_tree s.requests_rbtree).1 in
    elim ((remove_first_request env.request_tree s.requests_rbtree).0)
      as (λ o. Keeps (
        ((elim o [
          | none ↦ store_service p (record s { requests_rbtree = rest })
          | some _ ↦
              store_service p
                (record s { requests_rbtree = rest; request_count = dec32 s.request_count })
        ])
            >> pure o)
          k)) [
            | none ↦
                Sound-store k p s (record s { requests_rbtree = rest }) sound e (sound.whole p s e)
                  refl
            | some _ ↦
                Sound-store k p s
                  (record s { requests_rbtree = rest; request_count = dec32 s.request_count }) sound
                  e (sound.whole p s e) refl
          ]

search_slots-Kept : (ws : List WorkerStruct) (token : ℕ) → Kept (search_slots ws token)
unfolding search_slots
search_slots-Kept [] token = search steps
search_slots-Kept (w ∷ ws) token =
    elim (w.request)
      as (λ o. Kept (elim o [
        | none ↦ search_slots ws token
        | some p ↦ do
          r ← load_request p
          if r.token == token then pure (some p) else search_slots ws token
      ])) [
        | none ↦ search_slots-Kept ws token
        | some p ↦
            Kept-bind (load_request-Kept p)
              λ r. Kept-if (r.token == token) Kept-ok (search_slots-Kept ws token)
      ]

search_completed-Kept : (p token : ℕ) → Kept (search_completed p token)
unfolding search_completed
search_completed-Kept p token = Kept-bind (load_service-Kept p) λ s.
    Kept-bind (search_list-Kept s.completed_requests token) λ c.
      Kept-bind (unlock_service-Kept p) λ _.
        elim c as (λ d. Kept (elim d [ list_head ↦ pure none | entry q ↦ pure (some q) ])) [
          | list_head ↦ Kept-ok
          | entry q ↦ Kept-ok
        ]

search_serving-Kept : (p token : ℕ) → Kept (search_serving p token)
unfolding search_serving
search_serving-Kept p token = Kept-bind (load_service-Kept p) λ s.
    Kept-choose _ (search_slots-Kept s.workers.worker_slots token) (search_completed-Kept p token)
      (λ q. search steps)

pub find_waiting-Kept : (p d token : ℕ) → Kept (find_waiting_or_completed_request p d token)
unfolding find_waiting_or_completed_request
find_waiting-Kept p d token = Kept-bind (lock_service-Kept p) λ _.
    Kept-bind (load_service-Kept p) λ s. record {
      from = λ k h.
          elim (rbtree_get_request (suc (height s.requests_rbtree)) k.requests s.requests_rbtree d
              token)
            as (λ r. Keeps (elim r [
              | found q ↦ (unlock_service p >> pure (some q)) k
              | missing ↦ search_serving p token k
              | running ↦ Kernel.hang
              | oops ↦ Kernel.oops
            ])) [
              | found q ↦
                  (Kept-bind {f = λ _. pure (some q)} (unlock_service-Kept p) (λ _. Kept-ok)).from k
                    h
              | missing ↦ (search_serving-Kept p token).from k h
              | running ↦ tt
              | oops ↦ tt
            ];
    }

announce_request-Kept : (p req : ℕ) (blocking : Bool) → Kept (announce_request p req blocking)
unfolding announce_request
announce_request-Kept p req blocking =
    edit-Kept p (λ s. record s { request_count = inc32 s.request_count })
      (same_workers _ (λ s. refl) (λ s. refl))
      λ s. Kept-bind (unlock_service-Kept p) λ _.
        Kept-bind (up_service-Kept p)
          λ _. Kept-bind (Kept-if blocking (down-Kept _) Kept-ok) λ _. Kept-ok

pub enqueue-Kept :
    (env : Env) (p request request_len : ℕ) (blocking shm_mode : Bool) (req_key d : ℕ)
    → Kept (enqueue_request_for_service env p request request_len blocking shm_mode req_key d)
unfolding enqueue_request_for_service
enqueue-Kept env p request request_len blocking shm_mode req_key d =
    Kept-choose _ (create_request-Kept env) Kept-ok λ req.
      edit-Kept p (λ s. record s { next_req_token = inc64 s.next_req_token })
        (same_workers _ (λ s. refl) (λ s. refl))
        λ s. Kept-bind (load_request-Kept req) λ r. Kept-bind (store_request-Kept req _) λ _.
          Kept-bind (lock_service-Kept p) λ _.
            edit-Kept p
              (λ s'. record s' {
                requests_rbtree =
                    (insert_req_node_sorted_by_deadline env.request_tree
                      (env.kmalloc of_request_node) s'.requests_rbtree req d).1;
              })
              (same_workers _ (λ s. refl) (λ s. refl))
              λ s'.
                Kept-if
                  (insert_req_node_sorted_by_deadline env.request_tree (env.kmalloc of_request_node)
                    s'.requests_rbtree req d).0
                  (announce_request-Kept p req blocking)
                  (Kept-bind (unlock_service-Kept p)
                    λ _. Kept-bind (destroy_request-Kept req) λ _. Kept-ok {a = none})
