-- ===== src/Driver/System/Lifecycle.antt =====
-- The creation and destruction of services in driver/linber_main.c keep the memory sound.
use linber.Prelude.{
  ℕ, zero, suc, ◌≡◌, refl, sym, ◌∙◌, subst, true, false, Option, none, some, List, [], ◌∷◌, ◌++◌,
  ◌==◌, ◌⊎◌, if◌then◌else◌, arith, inl, inr, Bool-cases,
}
use linber.Tree.{inorder}
use linber.Types.{ServiceNode, LinberStruct}
use linber.Requests.{remove_first_request}
use linber.Services.{get_service_node}
use linber.Services.Directory.{IsSorted}
use linber.Driver.Kernel.{Kernel, M, oops, Env, ◌>>=◌, ◌>>◌, skip, get_linber, put_linber, update}
use linber.Driver.Pending.{without, destroy_request}
use linber.Driver.Lifecycle.{
  is_in, unlink_service, abort_pending, abort_completed, wake_workers, find_service,
}
use linber.Driver.System.{Sound}
use linber.Driver.System.Keeps.{Kept, Keeps, Kept-bind, Kept-ok}
use linber.Driver.System.Requests.{destroy_request-Kept, same_workers}
use linber.Driver.System.Steps.{steps, edit-Kept, up_service-Kept}

pub find_service-Kept : (uri : List ℕ) → Kept (find_service uri)
unfolding find_service
find_service-Kept uri = search steps

is_in-without : (p q : ℕ) (ps : List ℕ) → is_in q (without p ps) ≡ true → is_in q ps ≡ true
is_in-without p q [] h = h
is_in-without p q (x ∷ ps) h = ground (arith, is_in-without p q ps)

pub is_in-append :
    (q p : ℕ) (ps : List ℕ) → is_in q (ps ++ (p ∷ [])) ≡ true → (is_in q ps ≡ true) ⊎ (p ≡ q)
is_in-append q p [] h = ground arith
is_in-append q p (x ∷ ps) h = ground (arith, is_in-append q p ps)

-- The list loses a service at most.
pub Sound-unlist :
    (k : Kernel) (p : ℕ) (l : LinberStruct)
    → Sound k
    → l.services ≡ without p k.linber.services
    → l.services_rbtree ≡ k.linber.services_rbtree
    → Sound (record k { linber = l })
Sound-unlist k p l h e t = record {
  whole = h.whole;
  below = h.below;
  listed = λ q i. h.listed q (is_in-without p q k.linber.services (rw e at i));
  sorted = subst (λ r. IsSorted (inorder r)) (sym t) h.sorted;
  mapped = λ uri q g. h.mapped uri q (rw t at g);
}

pub count_out-Kept :
    {A : Type 0} {m : M A} (f : LinberStruct → LinberStruct)
    → ((l : LinberStruct) → (f l).services ≡ l.services)
    → ((l : LinberStruct) → (f l).services_rbtree ≡ l.services_rbtree)
    → Kept m
    → Kept (get_linber >>= λ l. put_linber (f l) >> m)
count_out-Kept f e t h = record {
  from = λ k s.
      h.from (record k { linber = f k.linber })
        (record {
          whole = s.whole;
          below = s.below;
          listed = λ q i. s.listed q (rw (e k.linber) at i);
          sorted = subst (λ r. IsSorted (inorder r)) (sym (t k.linber)) s.sorted;
          mapped = λ uri q g. s.mapped uri q (rw (t k.linber) at g);
        });
}

pub freed :
    (f : ℕ → Option ServiceNode) (p q : ℕ) (x : ServiceNode)
    → update f p none q ≡ some x
    → f q ≡ some x
unfolding update
freed f p q x e = ground arith

pub still_there :
    (f : ℕ → Option ServiceNode) (p q : ℕ) (v : Option ServiceNode)
    → (p == q) ≡ false
    → update f p v q ≡ f q
unfolding update
still_there f p q v e = rw e refl

pub eq_of_same : (p q : ℕ) → (p == q) ≡ true → q ≡ p
eq_of_same p q e = ground arith

-- A service whose uri is not mapped can be freed.
pub Sound-free :
    (k : Kernel) (p : ℕ)
    → Sound k
    → ((uri : List ℕ) → get_service_node k.linber.services_rbtree uri ≡ some p → ⊥)
    → Sound (record k { services = update k.services p none })
Sound-free k p h unmapped = record {
  whole = λ q x e. h.whole q x (freed k.services p q x e);
  below = λ q x e. h.below q x (freed k.services p q x e);
  listed = h.listed;
  sorted = h.sorted;
  mapped = λ uri q g. elim (Bool-cases (p == q)) [
    | inl same ↦ absurd (
        unmapped uri (
          subst (λ r. get_service_node k.linber.services_rbtree uri ≡ some r) (eq_of_same p q same)
            g))
    | inr other ↦
        let (x, at, its) = h.mapped uri q g in (x, still_there k.services p q none other ∙ at, its)
  ];
}

aborted-Kept :
    {m : M (Unit {0})} (o : Option ℕ)
    → Kept m
    → Kept (elim o [ none ↦ skip | some q ↦ do destroy_request q; m ])
aborted-Kept none h = Kept-ok
aborted-Kept (some q) h = Kept-bind (destroy_request-Kept q) λ _. h

pub abort_pending-Kept : (fuel : ℕ) (env : Env) (p : ℕ) → Kept (abort_pending fuel env p)
unfolding abort_pending
abort_pending-Kept zero env p = record { from = λ k h. tt }
abort_pending-Kept (suc fuel) env p =
    edit-Kept p
      (λ s. record s {
        requests_rbtree = (remove_first_request env.request_tree s.requests_rbtree).1;
      })
      (same_workers _ (λ s. refl) (λ s. refl))
      λ s.
        aborted-Kept (remove_first_request env.request_tree s.requests_rbtree).0
          (abort_pending-Kept fuel env p)

pub abort_completed-Kept : (ps : List ℕ) (p : ℕ) → Kept (abort_completed ps p)
unfolding abort_completed
abort_completed-Kept [] p = Kept-ok
abort_completed-Kept (q ∷ ps) p =
    edit-Kept p (λ s. record s { completed_requests = without q s.completed_requests })
      (same_workers _ (λ s. refl) (λ s. refl))
      λ s. Kept-bind (destroy_request-Kept q) λ _. abort_completed-Kept ps p

pub wake_workers-Kept : (n p : ℕ) → Kept (wake_workers n p)
unfolding wake_workers
wake_workers-Kept zero p = Kept-ok
wake_workers-Kept (suc n) p = Kept-bind (up_service-Kept p) λ _. wake_workers-Kept n p

pub unlink_service-Kept : (p : ℕ) → Kept (unlink_service p)
unlink_service-Kept p = record {
  from = λ k h.
      elim (is_in p k.linber.services)
        as (λ b. Keeps (
          (if b
              then put_linber (record (k.linber) { services = without p k.linber.services })
              else (λ j. oops))
            k)) [
              | true ↦
                  Sound-unlist k p (record (k.linber) { services = without p k.linber.services }) h
                    refl refl
              | false ↦ tt
            ];
}
