-- ===== src/Driver/Lifecycle/Clean.antt =====
-- clean_service of driver/linber_main.c, and the destruction of a service without workers.
use linber.Prelude.{ℕ, ◌≡◌, ◌∙◌, ap, true, some, none, ◌==◌}
use linber.Words.{dec32, sub32}
use linber.Types.{ServiceNode}
use linber.Services.{remove_service}
use linber.Driver.Kernel.{Kernel, ok, Env, update}
use linber.Driver.Lifecycle.{clean_service, destroy_service, is_in, unlink_service}
use linber.Driver.Lifecycle.Destroy.{
  Destroyable, condemned, marked, recounted, all_aborted, destroy_service-marked,
}
use linber.Driver.Pending.{without}
use linber.Driver.Steps.{
  bind, load_service-ok, put_here, update_twice, unlock_service-ok, locked, unlocked, then_branch,
}

-- The service at its address and in its list and tree is gone.
abbrev pub cleaned : Env → Kernel → ℕ → ServiceNode → Kernel
cleaned env k ser_node s = record k {
  services = update k.services ser_node none;
  linber = record (k.linber) {
    services_count = dec32 k.linber.services_count;
    services = without ser_node k.linber.services;
    services_rbtree = (remove_service env.service_tree k.linber.services_rbtree s.uri).1;
    max_working = sub32 k.linber.max_working s.workers.max_workers;
  };
}

unlink_service-ok :
    (k : Kernel) (ser_node : ℕ)
    → is_in ser_node k.linber.services ≡ true
    → unlink_service ser_node k
      ≡ ok tt (record k {
        linber = record (k.linber) { services = without ser_node k.linber.services };
      })
unlink_service-ok k ser_node listed = then_branch _ _ k listed

clean_service-ok :
    (env : Env) (k : Kernel) (ser_node : ℕ) (s : ServiceNode)
    → k.services ser_node ≡ some s
    → is_in ser_node k.linber.services ≡ true
    → clean_service env ser_node k ≡ ok tt (cleaned env k ser_node s)
unfolding clean_service
clean_service-ok env k ser_node s here listed =
    let k1 = record k {
      linber = record (k.linber) { services_count = dec32 k.linber.services_count };
    } in
    let k2 = record k1 {
      linber = record (k1.linber) { services = without ser_node k.linber.services };
    } in
    let k3 = record (cleaned env k ser_node s) { services = k.services } in
    bind _ (unlink_service-ok k1 ser_node listed)
    ∙ bind _ (load_service-ok k2 ser_node here)
    ∙ bind _ (unlock_service-ok k3 ser_node here)
    ∙ ap (λ f. ok tt (record (cleaned env k ser_node s) { services = f }))
        (update_twice k.services ser_node (some (unlocked s)) none)

-- What the destruction of a service without workers leaves.
abbrev pub destroyed : Env → Kernel → ℕ → ServiceNode → Kernel
destroyed env k ser_node s = record (cleaned env (recounted k) ser_node s) {
  requests = all_aborted k s;
}

pub destroy_service-destroyed :
    (env : Env) (k : Kernel) (ser_node base : ℕ) (s : ServiceNode)
    → Destroyable k ser_node base s
    → (s.workers.count_registered == 0) ≡ true
    → is_in ser_node k.linber.services ≡ true
    → destroy_service env ser_node k ≡ ok tt (destroyed env k ser_node s)
destroy_service-destroyed env k ser_node base s h none_left listed =
    let s1 = locked (condemned s) in
    destroy_service-marked env k ser_node base s h
    ∙ then_branch _ _ (marked k ser_node s) none_left
    ∙ clean_service-ok env (marked k ser_node s) ser_node s1 (put_here (recounted k) ser_node s1)
        listed
    ∙ ap (λ f. ok tt (record (destroyed env k ser_node s) { services = f }))
        (update_twice k.services ser_node (some s1) none)
