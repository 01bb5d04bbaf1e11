-- ===== src/Driver/Client/Failed.antt =====
-- linber_register_service of driver/linber_main.c when there is no memory for the slots of
-- the workers.
use linber.Prelude.{ℕ, suc, ◌≡◌, ◌∙◌, ap, refl, Bool, true, false, none, List, ◌==◌}
use linber.Words.{dec32}
use linber.Types.{ServiceNode}
use linber.Services.{get_service_node}
use linber.Driver.Kernel.{Kernel, Run, oops, M, Env, and_then, kmalloc, of_service, of_slots}
use linber.Driver.Params.{Registration}
use linber.Driver.Client.{linber_register_service}
use linber.Driver.Lifecycle.{new_service, create_service, destroy_service, clean_service, is_in}
use linber.Driver.Lifecycle.Create.{kmalloc-ok}
use linber.Driver.Lifecycle.Destroy.{Destroyable, marked, destroy_service-marked}
use linber.Driver.Steps.{bind, absent-ok, put_service, put_here, then_branch, else_branch}

-- A step that fails ends the whole.
oops_then : {A B : Type 0} {r : Run A} (f : A → M B) → r ≡ oops → and_then r f ≡ oops
oops_then f e = ap (λ x. and_then x f) e

-- A service that is in no list cannot be taken out of one.
clean_service_unlisted :
    (env : Env) (k : Kernel) (ser_node : ℕ)
    → is_in ser_node k.linber.services ≡ false
    → clean_service env ser_node k ≡ oops
unfolding clean_service
clean_service_unlisted env k ser_node unlisted =
    let k1 = record k {
      linber = record (k.linber) { services_count = dec32 k.linber.services_count };
    } in
    oops_then _ (else_branch _ _ k1 unlisted)

destroy_service_unlisted :
    (env : Env) (k : Kernel) (ser_node base : ℕ) (s : ServiceNode)
    → Destroyable k ser_node base s
    → (s.workers.count_registered == 0) ≡ true
    → is_in ser_node k.linber.services ≡ false
    → destroy_service env ser_node k ≡ oops
destroy_service_unlisted env k ser_node base s h no_worker unlisted =
    destroy_service-marked env k ser_node base s h
    ∙ then_branch _ _ (marked k ser_node s) no_worker
    ∙ clean_service_unlisted env (marked k ser_node s) ser_node unlisted

pub create_service_no_slots :
    (env : Env) (k : Kernel) (uri : List ℕ) (reg : Registration)
    → is_in k.next k.linber.services ≡ false
    → env.kmalloc of_service ≡ true
    → env.kmalloc of_slots ≡ false
    → create_service env uri reg k ≡ oops
unfolding create_service
create_service_no_slots env k uri reg unlisted given refused =
    let s = new_service env uri reg in
    let k1 = put_service (record k { next = suc k.next }) k.next s in
    bind _ (kmalloc-ok k given)
    ∙ bind _ (ap (λ (b : Bool). kmalloc b k1) refused)
    ∙ oops_then _ (
        destroy_service_unlisted env k1 k.next 0 s
          (record {
            here = put_here (record k { next = suc k.next }) k.next s;
            free = refl;
            sorted = tt;
            live = tt;
            live_completed = tt;
          })
          refl unlisted)

-- A registration under a uri that is not mapped, at which the memory for the service is given and
-- that for the slots of its workers is refused, ends at a bad pointer: the service that is to be
-- destroyed is unlinked from a list in which it is not.
pub register_service_no_slots :
    (env : Env) (k : Kernel) (uri : List ℕ) (reg : Registration)
    → k.linber.mutex ≡ false
    → get_service_node k.linber.services_rbtree uri ≡ none
    → is_in k.next k.linber.services ≡ false
    → env.kmalloc of_service ≡ true
    → env.kmalloc of_slots ≡ false
    → linber_register_service env uri reg k ≡ oops
unfolding linber_register_service
register_service_no_slots env k uri reg free absent unlisted given refused =
    bind _ (absent-ok uri k free absent)
    ∙ oops_then _ (create_service_no_slots env k uri reg unlisted given refused)
