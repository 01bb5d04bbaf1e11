-- ===== src/Driver/System/Clean.antt =====
-- The end of a service in driver/linber_main.c keeps the memory sound.
use linber.Prelude.{
  ℕ, suc, ◌≡◌, refl, sym, ap, ◌∙◌, subst, true, false, Option, none, some, List, ◌==◌, length, inl,
  inr, Bool-cases,
}
use mathlib.Core.Option.{some-injective}
use linber.Words.{dec32, sub32}
use linber.Tree.{inorder}
use linber.Types.{ServiceNode, LinberStruct}
use linber.Requests.Queue.{pending}
use linber.Services.{get_service_node, remove_service}
use linber.Services.Directory.{IsSorted}
use linber.Services.Remove.{remove-Unregistered}
use linber.Strings.{strcmp, strcmp_refl, is_eq}
use linber.Driver.Kernel.{Kernel, Env, ◌>>◌, free_service, unlock_service}
use linber.Driver.Lifecycle.{clean_service, destroy_service}
use linber.Driver.Steps.{unlock_service-ok, put_service, unlocked, bind}
use linber.Driver.System.{Sound}
use linber.Driver.System.Keeps.{Kept, Keeps, Kept-bind, Kept-if}
use linber.Driver.System.Lifecycle.{
  Sound-free, count_out-Kept, unlink_service-Kept, abort_pending-Kept, abort_completed-Kept,
  wake_workers-Kept,
}
use linber.Driver.System.Stores.{Sound-store}
use linber.Driver.System.Steps.{
  edit-Kept, Kept-load, lock_service-Kept, unlock_service-Kept, load_service-Kept,
}

-- The uri of the service at `p` is unmapped.
module _ (env : Env) (k : Kernel) (p : ℕ) (s : ServiceNode) (h : Sound k)
    (e : k.services p ≡ some s) where
  removed_other :
      (v : List ℕ) (q : ℕ)
      → get_service_node (remove_service env.service_tree k.linber.services_rbtree s.uri).1 v
        ≡ some q
      → (is_eq (strcmp v s.uri) ≡ false) × (get_service_node k.linber.services_rbtree v ≡ some q)
  removed_other v q g =
      let u = remove-Unregistered env.service_tree k.linber.services_rbtree h.sorted s.uri in
      let g' = sym (u.unmapped v) ∙ g in
      elim (Bool-cases (is_eq (strcmp v s.uri))) [
        | inl same ↦ (let x : ◌≡◌ {A = Option ℕ} none (some q) = rw same at g' in cc)
        | inr other ↦ (other, rw other at g')
      ]

  unmapped :
      (v : List ℕ)
      → get_service_node (remove_service env.service_tree k.linber.services_rbtree s.uri).1 v
        ≡ some p
      → ⊥
  unmapped v g =
      let (other, old) = removed_other v p g in
      let (x, at, its) = h.mapped v p old in
      let same : v ≡ s.uri =
        sym its ∙ ap (λ (r : ServiceNode). r.uri) (some-injective x s (sym at ∙ e)) in
      let eq' : is_eq (strcmp v s.uri) ≡ true =
        subst (λ w. is_eq (strcmp v w) ≡ true) same (ap is_eq (strcmp_refl v)) in
      cc

  Sound-unmap :
      (l : LinberStruct)
      → l.services ≡ k.linber.services
      → l.services_rbtree ≡ (remove_service env.service_tree k.linber.services_rbtree s.uri).1
      → Sound (record k { linber = l })
  Sound-unmap l same_list tree =
      let u = remove-Unregistered env.service_tree k.linber.services_rbtree h.sorted s.uri in
      record {
        whole = h.whole;
        below = h.below;
        listed = λ q i. h.listed q (rw same_list at i);
        sorted = subst (λ r. IsSorted (inorder r)) (sym tree) u.sorted;
        mapped = λ v q g. h.mapped v q (removed_other v q (rw tree at g)).1;
      }

  release-Keeps :
      (l : LinberStruct)
      → l.services ≡ k.linber.services
      → l.services_rbtree ≡ (remove_service env.service_tree k.linber.services_rbtree s.uri).1
      → Keeps ((unlock_service p >> free_service p) (record k { linber = l }))
  release-Keeps l same_list tree =
      let k1 = record k { linber = l } in
      subst Keeps (sym (bind (λ _. free_service p) (unlock_service-ok k1 p e))) (
        Sound-free (put_service k1 p (unlocked s)) p
          (Sound-store k1 p s (unlocked s) (Sound-unmap l same_list tree) e (h.whole p s e) refl)
          (λ v g. unmapped v (rw tree at g)))

pub clean_service-Kept : (env : Env) (p : ℕ) → Kept (clean_service env p)
unfolding clean_service
clean_service-Kept env p =
    count_out-Kept (λ l. record l { services_count = dec32 l.services_count }) (λ l. refl)
      (λ l. refl)
      (Kept-bind (unlink_service-Kept p)
        λ _. Kept-load p λ s k h e. release-Keeps env k p s h e _ refl refl)

pub destroy_service-Kept : (env : Env) (p : ℕ) → Kept (destroy_service env p)
unfolding destroy_service
destroy_service-Kept env p = Kept-bind (lock_service-Kept p) λ _.
    Kept-bind (load_service-Kept p) λ s.
      Kept-bind (abort_pending-Kept (suc (length (pending (inorder s.requests_rbtree)))) env p) λ _.
        count_out-Kept (λ l. record l { request_count = sub32 l.request_count 0 }) (λ l. refl)
          (λ l. refl)
          (Kept-bind (abort_completed-Kept s.completed_requests p) λ _.
            Kept-bind (wake_workers-Kept s.workers.count_registered p) λ _.
              edit-Kept p (λ s'. record s' { destroy_me = true })
                (record { whole = λ s w. w; same_uri = λ s. refl })
                λ s'.
                  Kept-if (s'.workers.count_registered == 0) (clean_service-Kept env p)
                    (unlock_service-Kept p))
