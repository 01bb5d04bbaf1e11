-- ===== src/Driver/Client/Register.antt =====
-- linber_register_service of driver/linber_main.c, the whole call.
use linber.Prelude.{ℕ, suc, ◌≡◌, ◌∙◌, true, false, some, none, List}
use linber.Tree.{inorder}
use linber.Services.{get_service_node, insert_service_node}
use linber.Services.Directory.{IsSorted}
use linber.Services.Insert.{insert-Registered, registered, taken, no_memory}
use linber.Services.Sequence as Sequence
use linber.Driver.Kernel.{
  Kernel, ok, Env, update, of_service, of_slots, of_service_node, to_service_token,
}
use linber.Driver.Params.{Registration, registration_success}
use linber.Driver.Client.{linber_register_service}
use linber.Driver.Client.Enqueue.{put_user-ok}
use linber.Driver.Lifecycle.{new_service, with_slots}
use linber.Driver.Lifecycle.Create.{linked, create_service-ok}
use linber.Driver.Steps.{bind, absent-ok, load_service-ok, put_service, put_here}

-- What a registration leaves: the new service with all its slots free, known under its uri, and
-- its token with the caller.
abbrev pub with_service : Env → Kernel → List ℕ → Registration → Kernel
with_service env k uri reg =
    let s = with_slots (new_service env uri reg) in
    let tree =
      (insert_service_node env.service_tree (env.kmalloc of_service_node) k.linber.services_rbtree
        k.next uri).1 in
    record (linked (record (put_service k k.next s) { next = suc (suc k.next) }) k.next s tree) {
      user_word = update k.user_word reg.ptr_service_token env.random_token;
    }

module _ (env : Env) (k : Kernel) (uri : List ℕ) (reg : Registration)
    (free : k.linber.mutex ≡ false) where
  register_with :
      get_service_node k.linber.services_rbtree uri ≡ none
      → env.kmalloc of_service ≡ true
      → env.kmalloc of_slots ≡ true
      → env.copy to_service_token ≡ true
      → let inserted =
          insert_service_node env.service_tree
            (env.kmalloc of_service_node)
            k.linber.services_rbtree
            k.next
            uri in
        inserted.0 ≡ true
        → linber_register_service env uri reg k
          ≡ ok registration_success (with_service env k uri reg)
  unfolding linber_register_service
  register_with absent given given' fine done =
      let s = with_slots (new_service env uri reg) in
      let tree =
        (insert_service_node env.service_tree (env.kmalloc of_service_node) k.linber.services_rbtree
          k.next uri).1 in
      let k1 = linked (record (put_service k k.next s) { next = suc (suc k.next) }) k.next s tree in
      bind _ (absent-ok uri k free absent)
      ∙ bind _ (create_service-ok env k uri reg free given given' done)
      ∙ bind _ (load_service-ok k1 k.next (put_here k k.next s))
      ∙ bind _ (put_user-ok k1 reg.ptr_service_token env.random_token fine)

  -- A registration under a uri that the sorted tree of services does not map returns
  -- LINBER_SERVICE_REGISTRATION_SUCCESS where allocation and copies succeed: the new service, with
  -- all its slots free, is in the list and the counters, its uri and no other is mapped to it, and
  -- the caller has its token.
  pub register_service-known :
      get_service_node k.linber.services_rbtree uri ≡ none
      → IsSorted (inorder k.linber.services_rbtree)
      → env.kmalloc of_service ≡ true
      → env.kmalloc of_slots ≡ true
      → env.kmalloc of_service_node ≡ true
      → env.copy to_service_token ≡ true
      → let after = with_service env k uri reg in
        (linber_register_service env uri reg k ≡ ok registration_success after)
        × ((v : List ℕ)
            → get_service_node after.linber.services_rbtree v
              ≡ Sequence.update (get_service_node k.linber.services_rbtree) uri (some k.next) v)
        × IsSorted (inorder after.linber.services_rbtree)
  register_service-known absent sorted given given' given2 fine =
      elim (insert-Registered env.service_tree k.linber.services_rbtree sorted
        (env.kmalloc of_service_node) k.next uri) [
          | registered new done map s ↦ (register_with absent given given' fine done, map, s)
          | taken old e f ↦ absurd (cc)
          | no_memory f e ↦ absurd (cc)
        ]
