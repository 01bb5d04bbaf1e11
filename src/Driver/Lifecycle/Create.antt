-- ===== src/Driver/Lifecycle/Create.antt =====
-- create_service of driver/linber_main.c, where memory does not run out.
use linber.Prelude.{ℕ, suc, ◌≡◌, ◌∙◌, ap, Bool, true, false, some, List, [], ◌∷◌, ◌++◌, arith}
use linber.Words.{inc32, add32}
use linber.Tree.{Tree}
use linber.Types.{ServiceNode, ServiceEntry}
use linber.Services.{insert_service_node}
use linber.Driver.Kernel.{
  Kernel, ok, Env, lock_linber, unlock_linber, kmalloc, of_service, of_slots, of_service_node,
}
use linber.Driver.Params.{Registration}
use linber.Driver.Lifecycle.{link_service, create_service, new_service, with_slots}
use linber.Driver.Steps.{bind, load_service-ok, put_here, put_service, put_twice, then_branch}

-- The module's own lock, taken or not.
abbrev pub with_mutex : Bool → Kernel → Kernel
with_mutex b k = record k { linber = record (k.linber) { mutex = b } }

lock_linber-ok : (k : Kernel) → k.linber.mutex ≡ false → lock_linber k ≡ ok tt (with_mutex true k)
unfolding lock_linber
lock_linber-ok k free = ground arith

unlock_linber-ok : (k : Kernel) → unlock_linber k ≡ ok tt (with_mutex false k)
unfolding unlock_linber
unlock_linber-ok k = ground arith

pub kmalloc-ok :
    {given : Bool} (k : Kernel)
    → given ≡ true
    → kmalloc given k ≡ ok (some k.next) (record k { next = suc k.next })
kmalloc-ok k e = ap (λ (b : Bool). kmalloc b k) e

-- The service in the tree, the list and the counters.
abbrev pub linked : Kernel → ℕ → ServiceNode → Tree ServiceEntry → Kernel
linked k ser_node s tree = record k {
  linber = record (k.linber) {
    mutex = false;
    services_rbtree = tree;
    services = k.linber.services ++ (ser_node ∷ []);
    services_count = inc32 k.linber.services_count;
    max_working = add32 k.linber.max_working s.workers.max_workers;
  };
}

link_service-ok :
    (env : Env) (k : Kernel) (ser_node : ℕ) (uri : List ℕ) {s : ServiceNode}
    → k.services ser_node ≡ some s
    → k.linber.mutex ≡ false
    → let inserted =
        insert_service_node env.service_tree
          (env.kmalloc of_service_node)
          k.linber.services_rbtree
          ser_node
          uri in
      inserted.0 ≡ true
      → link_service env ser_node uri k ≡ ok (some ser_node) (linked k ser_node s inserted.1)
unfolding link_service
link_service-ok env k ser_node uri {s} here free done =
    let tree =
      (insert_service_node env.service_tree (env.kmalloc of_service_node) k.linber.services_rbtree
        ser_node uri).1 in
    let k1 = with_mutex true k in
    let k2 = record k1 { linber = record (k1.linber) { services_rbtree = tree } } in
    bind _ (lock_linber-ok k free)
    ∙ then_branch _ _ k2 done
    ∙ bind _ (load_service-ok k2 ser_node here)
    ∙ bind _ (unlock_linber-ok _)

pub create_service-ok :
    (env : Env) (k : Kernel) (uri : List ℕ) (reg : Registration)
    → k.linber.mutex ≡ false
    → env.kmalloc of_service ≡ true
    → env.kmalloc of_slots ≡ true
    → let inserted =
        insert_service_node env.service_tree
          (env.kmalloc of_service_node)
          k.linber.services_rbtree
          k.next
          uri in
      inserted.0 ≡ true
      → let s = with_slots (new_service env uri reg) in
        create_service env uri reg k
        ≡ ok (some k.next) (
            linked
              (record (put_service k k.next s) { next = suc (suc k.next) })
              k.next
              s
              inserted.1)
unfolding create_service
create_service-ok env k uri reg free given given' done =
    let s0 = new_service env uri reg in
    let s = with_slots s0 in
    let tree =
      (insert_service_node env.service_tree (env.kmalloc of_service_node) k.linber.services_rbtree
        k.next uri).1 in
    let k1 = record k { next = suc k.next } in
    let k2 = put_service k1 k.next s0 in
    let k3 = record k2 { next = suc k2.next } in
    bind _ (kmalloc-ok k given)
    ∙ bind _ (kmalloc-ok k2 given')
    ∙ link_service-ok env (put_service k3 k.next s) k.next uri (put_here k3 k.next s) free done
    ∙ ap (λ x. ok (some k.next) (linked x k.next s tree))
        (put_twice (record k { next = suc (suc k.next) }) k.next s0 s)
