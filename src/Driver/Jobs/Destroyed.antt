-- ===== src/Driver/Jobs/Destroyed.antt =====
-- linber_destroy_service of driver/linber_main.c, the whole call.
use linber.Prelude.{ℕ, ◌≡◌, ◌∙◌, ap, true, false, some, none, List, ◌==◌}
use linber.Prelude.Int.{pos}
use linber.Tree.{inorder}
use linber.Types.{ServiceNode}
use linber.Services.{get_service_node}
use linber.Services.Directory.{IsSorted}
use linber.Services.Remove.{remove-Unregistered}
use linber.Services.Sequence as Sequence
use linber.Driver.Kernel.{Kernel, ok, Env}
use linber.Driver.Jobs.{linber_destroy_service}
use linber.Driver.Jobs.Rights.{has_rights}
use linber.Driver.Lifecycle.{is_in}
use linber.Driver.Lifecycle.Clean.{destroyed, destroy_service-destroyed}
use linber.Driver.Lifecycle.Destroy.{Destroyable, left_to_workers, destroy_service-condemned}
use linber.Driver.Steps.{bind, found-ok, service_check_worker-ok, then_branch}

module _ (env : Env) (uri : List ℕ) (service_token : ℕ) (k : Kernel) (ser_node base : ℕ)
    (s : ServiceNode) (free : k.linber.mutex ≡ false)
    (known : get_service_node k.linber.services_rbtree uri ≡ some ser_node)
    (h : Destroyable k ser_node base s) (right : has_rights s service_token 0 ≡ true) where
  -- With the token of a service that has registered workers, linber_destroy_service returns 0:
  -- every pending and completed request is aborted and its client woken, the semaphore of the
  -- workers is raised by the number of workers, and the service stays without requests, marked for
  -- destruction. The pending requests are sorted and all requests are at their addresses, the
  -- mutexes free.
  pub destroy-condemned :
      (s.workers.count_registered == 0) ≡ false
      → linber_destroy_service env uri service_token k ≡ ok (pos 0) (left_to_workers k ser_node s)
  unfolding linber_destroy_service
  destroy-condemned workers =
      bind _ (found-ok uri k free known)
      ∙ bind _ (service_check_worker-ok k ser_node h.here service_token 0)
      ∙ then_branch _ _ k right
      ∙ bind _ (destroy_service-condemned env k ser_node base s h workers)

  -- With the token of a service that has no registered worker, is in the list and whose tree of
  -- services is sorted, linber_destroy_service returns 0: every pending request, in the order of
  -- service, and then every completed one is marked as aborted and its client woken, the service is
  -- freed and leaves the list, its uri and no other is unmapped, and the counters are reduced. The
  -- pending requests are sorted and all requests are at their addresses, the mutexes free.
  pub destroy-destroyed :
      (s.workers.count_registered == 0) ≡ true
      → is_in ser_node k.linber.services ≡ true
      → s.uri ≡ uri
      → IsSorted (inorder k.linber.services_rbtree)
      → let after = destroyed env k ser_node s in
        (linber_destroy_service env uri service_token k ≡ ok (pos 0) after)
        × ((v : List ℕ)
            → get_service_node after.linber.services_rbtree v
              ≡ Sequence.update (get_service_node k.linber.services_rbtree) uri none v)
        × IsSorted (inorder after.linber.services_rbtree)
  unfolding linber_destroy_service
  destroy-destroyed none_left listed same sorted =
      let gone = remove-Unregistered env.service_tree k.linber.services_rbtree sorted s.uri in
      (
        bind _ (found-ok uri k free known)
            ∙ bind _ (service_check_worker-ok k ser_node h.here service_token 0)
            ∙ then_branch _ _ k right
            ∙ bind _ (destroy_service-destroyed env k ser_node base s h none_left listed),
        λ v.
            gone.unmapped v
            ∙ ap (λ u. Sequence.update (get_service_node k.linber.services_rbtree) u none v) same,
        gone.sorted,
      )
