-- ===== src/Driver/System/Stores.antt =====
-- A service that is written, and a semaphore that is lowered, in driver/linber_main.c keep the memory
-- sound.
use linber.Prelude.{
  ℕ, ◌-◌, ◌≡◌, ◌<◌, refl, ◌∙◌, sym, subst, ap, inl, inr, Option, none, some, ◌==◌, arith,
  Bool-cases,
}
use mathlib.Core.Option.{some-injective}
use linber.Types.{ServiceNode}
use linber.Driver.Kernel.{
  Kernel, Wait, request_sem, sem_for_request, lower, lower_request, lower_service, update,
}
use linber.Driver.System.{Whole, Sound}

-- What is at an address after a write.
pub data Written (p q : ℕ) (t x : ServiceNode) (old : Option ServiceNode) : Type 0 where
  here : p ≡ q → t ≡ x → Written p q t x old
  there : old ≡ some x → Written p q t x old

pub written :
    (f : ℕ → Option ServiceNode) (p q : ℕ) (t x : ServiceNode)
    → update f p (some t) q ≡ some x
    → Written p q t x (f q)
unfolding update
written f p q t x e = elim (Bool-cases (p == q)) [
  | inl same ↦ here (ground arith) (some-injective t x (rw same at e))
  | inr other ↦ there (rw other at e)
]

-- A service is still there, with its uri.
kept_at :
    (f : ℕ → Option ServiceNode) (p q : ℕ) (s t x : ServiceNode)
    → f p ≡ some s
    → t.uri ≡ s.uri
    → f q ≡ some x
    → (y : ServiceNode) × (update f p (some t) q ≡ some y) × (y.uri ≡ x.uri)
unfolding update
kept_at f p q s t x e u e' = elim (Bool-cases (p == q)) [
  | inl same ↦ (
    t,
    rw same refl,
    u
        ∙ ap (λ (r : ServiceNode). r.uri)
            (some-injective s x (sym e ∙ subst (λ r. f r ≡ some x) (sym (ground arith)) e')),
  )
  | inr other ↦ (x, rw other e', refl)
]

pub Sound-store :
    (k : Kernel) (p : ℕ) (s t : ServiceNode)
    → Sound k
    → k.services p ≡ some s
    → Whole t
    → t.uri ≡ s.uri
    → Sound (record k { services = update k.services p (some t) })
Sound-store k p s t h e w u = record {
  whole = λ q x e'. elim (written k.services p q t x e') [
    | here same is ↦ subst Whole is w
    | there old ↦ h.whole q x old
  ];
  below = λ q x e'. elim (written k.services p q t x e') [
    | here same is ↦ subst (λ r. r < k.next) same (h.below p s e)
    | there old ↦ h.below q x old
  ];
  listed = h.listed;
  sorted = h.sorted;
  mapped = λ uri q e'.
      let (x, at, its) = h.mapped uri q e' in
      let (y, at', its') = kept_at k.services p q s t x e u at in (y, at', its' ∙ its);
}

pub lower-Sound : (w : Wait) (k : Kernel) → Sound k → Sound (lower w k)
lower-Sound (request_sem p) k h = elim (k.requests p) as (λ o. Sound (lower_request k p o)) [
  | none ↦ h
  | some r ↦ h
]
lower-Sound (sem_for_request p) k h = lowered (k.services p) refl
  where
    lowered : (o : Option ServiceNode) → k.services p ≡ o → Sound (lower_service k p o)
    lowered none e = h
    lowered (some s) e =
        Sound-store k p s
          (record s {
            workers = record (s.workers) { sem_for_request = s.workers.sem_for_request - 1 };
          })
          h e (h.whole p s e) refl
