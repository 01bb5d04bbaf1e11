-- ===== src/Driver/Client/Deliver.antt =====
-- linber_request_service_get_response for a request that a worker has ended with a response in
-- memory.
use linber.Prelude.{
  ℕ, zero, suc, ◌≡◌, ◌∙◌, ap, refl, true, false, Option, some, none, List, [], ◌∷◌, ◌++◌, ◌==◌, ltb,
  arith,
}
use linber.Prelude.Int.{pos}
use linber.Types.{ServiceNode, RequestNode, buffer}
use linber.Requests.Recent.{OtherTokens}
use linber.Driver.Kernel.{
  Kernel, ok, Env, update, update_self, update_other, from_token, to_response, prefix, overwrite,
  of_response_data, from_response,
}
use linber.Driver.Params.{Request, EndJob, linber_max_mem_size, request_success}
use linber.Driver.Client.{linber_request_service_get_response, deliver_response}
use linber.Driver.Jobs.{linber_end_job}
use linber.Driver.Jobs.Finish.{Serving, finished, completed, answer, answered_in, end_job-finished}
use linber.Driver.Pending.{entry, without, search_list, get_completed_request}
use linber.Driver.Steps.{
  upped, else_branch, get_user-ok, bind, load_service-ok, found-ok, put_service, put_here,
  put_twice, locked, unlocked, lock_service-ok, unlock_service-ok, update_twice,
}
use linber.Driver.Workers.{put_slot}

search_list-last :
    (ps : List ℕ) (token r : ℕ) (k : Kernel) (n : RequestNode)
    → OtherTokens k.requests token ps
    → k.requests r ≡ some n
    → n.token ≡ token
    → search_list (ps ++ (r ∷ [])) token k ≡ ok (entry r) k
unfolding search_list
search_list-last [] token r k n others there same = ground arith
search_list-last (p ∷ ps) token r k n others there same =
    let (m, live, other) = others.0 in
    ground (arith, live, other, search_list-last ps token r k n others.1 there same)

-- A request with another token is another request.
without-last :
    (ps : List ℕ) (token r : ℕ) (heap : ℕ → Option RequestNode) (n : RequestNode)
    → OtherTokens heap token ps
    → heap r ≡ some n
    → n.token ≡ token
    → without r (ps ++ (r ∷ [])) ≡ ps
without-last [] token r heap n others there same = ground arith
without-last (p ∷ ps) token r heap n others there same =
    let (m, live, other) = others.0 in
    ground (arith, live, other, without-last ps token r heap n others.1 there same)

update-OtherTokens :
    (ps : List ℕ) (token r : ℕ) (heap : ℕ → Option RequestNode) (n m : RequestNode)
    → OtherTokens heap token ps
    → heap r ≡ some n
    → n.token ≡ token
    → OtherTokens (update heap r (some m)) token ps
unfolding update
update-OtherTokens [] token r heap n m others there same = tt
update-OtherTokens (p ∷ ps) token r heap n m others there same =
    let (m', live, other) = others.0 in
    (
      (m', ground (arith, live, other), other),
      update-OtherTokens ps token r heap n m others.1 there same,
    )

pub prefix_twice : (len : ℕ) (bs : List ℕ) → prefix len (prefix len bs) ≡ prefix len bs
prefix_twice zero bs = refl
prefix_twice (suc len) [] = ap (λ x. 0 ∷ x) (prefix_twice len [])
prefix_twice (suc len) (b ∷ bs) = ap (λ x. b ∷ x) (prefix_twice len bs)

get_completed_request-last :
    (k : Kernel) (p token r : ℕ) (s : ServiceNode) (ps : List ℕ) (n : RequestNode)
    → k.services p ≡ some s
    → s.service_mutex ≡ false
    → s.completed_requests ≡ ps ++ (r ∷ [])
    → OtherTokens k.requests token ps
    → k.requests r ≡ some n
    → n.token ≡ token
    → get_completed_request p token k
      ≡ ok (entry r) (put_service k p (record (unlocked s) { completed_requests = ps }))
unfolding get_completed_request
get_completed_request-last k p token r s ps n here free last others there same =
    let k1 = put_service k p (locked s) in
    let s2 = record (locked s) { completed_requests = without r s.completed_requests } in
    let k2 = put_service k1 p s2 in
    bind _ (lock_service-ok k p here free)
    ∙ bind _ (load_service-ok k1 p (put_here k p (locked s)))
    ∙ bind _
        (ap (λ l. search_list l token k1) last ∙ search_list-last ps token r k1 n others there same)
    ∙ bind _ (bind _ (load_service-ok k1 p (put_here k p (locked s))))
    ∙ bind _ (unlock_service-ok k2 p (put_here k1 p s2))
    ∙ ap (ok (entry r)) (
        put_twice k1 p s2 (unlocked s2)
        ∙ put_twice k p (locked s) (unlocked s2)
        ∙ ap (λ l. put_service k p (record (unlocked s) { completed_requests = l }))
            (ap (without r) last ∙ without-last ps token r k.requests n others there same))

deliver_response-ok :
    (env : Env) (p : Request) (k : Kernel) (r a b : ℕ) (bs sent : List ℕ) {n : RequestNode}
    → k.requests r ≡ some n
    → n.response_shm_mode ≡ false
    → n.response ≡ buffer b
    → k.buffers b ≡ some bs
    → n.request_shm_mode ≡ false
    → n.request ≡ buffer a
    → k.buffers a ≡ some sent
    → (b == a) ≡ false
    → env.copy to_response ≡ true
    → deliver_response env p r k
      ≡ ok n.result_cmd (record k {
        requests = update k.requests r none;
        buffers = update (update k.buffers b none) a none;
        user_bytes =
            update k.user_bytes p.ptr_response
              (overwrite (prefix n.response_len bs) (k.user_bytes p.ptr_response));
      })
unfolding deliver_response update
deliver_response-ok env p k r a b bs sent there response_mode response filled request_mode request
      live apart fine =
    ground arith

-- The worker's slot is free, the request and its buffers are gone, and the client has the answer.
abbrev pub delivered :
    Env → Kernel → EndJob → Request → (ser_node : ℕ) → ServiceNode → (r a : ℕ) → Kernel
delivered env k q p ser_node s r a = record k {
  services = update k.services ser_node (
      some (record (put_slot s q.worker_id (record { task = some env.current; request = none })) {
        service_mutex = false;
      }));
  requests = update k.requests r none;
  buffers = update (update k.buffers k.next none) a none;
  next = suc k.next;
  user_bytes =
      update k.user_bytes p.ptr_response (overwrite (answer k q) (k.user_bytes p.ptr_response));
}

-- A worker that serves a request in its slot ends the job with a response in memory of at most
-- LINBER_MAX_MEM_SIZE bytes: the call returns 0 and leaves the request completed with the response
-- in a new buffer. The client, whose token is that of the request and of no other completed one,
-- then asks for the response: it gets LINBER_REQUEST_SUCCESS and exactly the bytes that the worker
-- gave, the slot is free, and the request and its two buffers are freed; nothing else has changed.
-- Mutexes are free, the service is alive, the request is in memory, in a buffer that is allocated
-- and not the next one to be given, allocation and copies succeed.
pub end_job-get_response :
    (env env' : Env) (uri : List ℕ) (k : Kernel) (ser_node : ℕ) (q : EndJob) (p : Request) (r a : ℕ)
    (sent : List ℕ) (s : ServiceNode) (n : RequestNode)
    → Serving env uri k ser_node q.worker_id s r n
    → s.token ≡ q.service_token
    → (q.response_shm_mode == 1) ≡ false
    → ltb linber_max_mem_size q.response_len ≡ false
    → env.kmalloc of_response_data ≡ true
    → env.copy from_response ≡ true
    → s.destroy_me ≡ false
    → n.request_shm_mode ≡ false
    → n.request ≡ buffer a
    → k.buffers a ≡ some sent
    → (k.next == a) ≡ false
    → n.token ≡ k.user_word p.ptr_token
    → OtherTokens k.requests (k.user_word p.ptr_token) s.completed_requests
    → env'.copy from_token ≡ true
    → env'.copy to_response ≡ true
    → let k1 = finished env k q ser_node s r n in
      (linber_end_job env uri q k ≡ ok (pos 0) k1)
      × (linber_request_service_get_response env' uri p k1
          ≡ ok request_success (delivered env k q p ser_node s r a))
unfolding linber_request_service_get_response
end_job-get_response env env' uri k ser_node q p r a sent s n h token mode len given fine alive
      request_mode request live apart same others fine1 fine2 =
    let token' = k.user_word p.ptr_token in
    let k1 = finished env k q ser_node s r n in
    let s1 = completed env s q.worker_id r in
    let n1 = upped (answered_in k.next q n) in
    let s2 = record s1 { completed_requests = s.completed_requests } in
    let k2 = put_service k1 ser_node s2 in
    let there = update_self k.requests r (some n1) in
    (
      end_job-finished env uri k ser_node q r h token mode len given fine,
      bind _ (found-ok uri k1 h.linber_free h.known)
          ∙ bind _ (load_service-ok k1 ser_node (update_self k.services ser_node (some s1)))
          ∙ else_branch _ _ k1 alive
          ∙ bind _ (get_user-ok k1 p.ptr_token fine1)
          ∙ bind _ (
              get_completed_request-last k1 ser_node token' r s1 s.completed_requests n1
                (update_self k.services ser_node (some s1)) refl refl
                (update-OtherTokens s.completed_requests token' r k.requests n n1 others h.there
                  same)
                there same)
          ∙ deliver_response-ok env' p k2 r a k.next (answer k q) sent there refl refl
              (update_self k.buffers k.next (some (answer k q))) request_mode request
              (update_other k.buffers k.next a (some (answer k q)) apart ∙ live) apart fine2
          ∙ rw
              (
                update_twice k.requests r (some n1) none,
                update_twice k.services ser_node (some s1) (some s2),
                update_twice k.buffers k.next (some (answer k q)) none,
                prefix_twice q.response_len (k.user_bytes q.response),
              )
              refl,
    )
