-- ===== src/Driver/System/Create.antt =====
-- A new service in driver/linber_main.c keeps the memory sound.
use linber.Prelude.{
  ℕ, suc, ◌≡◌, ◌<◌, refl, sym, ap, ◌∙◌, subst, Bool, true, false, none, some, List, [], ◌∷◌, ◌++◌,
  length-replicate, arith, inl, inr, Bool-cases,
}
use mathlib.Core.Option.{some-injective}
use linber.Words.{inc32, add32}
use linber.Tree.{Tree, inorder}
use linber.Types.{ServiceNode, LinberStruct, ServiceEntry}
use linber.Services.{insert_service_node}
use linber.Services.Directory.{IsSorted}
use linber.Services.Insert.{Registered, registered, taken, no_memory, insert-Registered}
use linber.Strings.{strcmp, eq_of_strcmp, is_eq}
use linber.Driver.Kernel.{
  Kernel, Env, of_service, of_slots, of_service_node, ◌>>=◌, ◌>>◌, pure, load_service, get_linber,
  put_linber, update, update_self, lock_linber, unlock_linber,
}
use linber.Driver.Params.{Registration}
use linber.Driver.Lifecycle.{
  is_in, new_service, with_slots, link_service, create_service, empty_slot,
}
use linber.Driver.Steps.{update_twice}
use linber.Driver.System.{Whole, Sound}
use linber.Driver.System.Keeps.{Kept, Keeps, Kept-bind, Kept-if, Kept-ok}
use linber.Driver.System.Lifecycle.{still_there, is_in-append}
use linber.Driver.System.Steps.{Kept-load, unlock_linber-Kept}
use linber.Driver.Client.Failed.{create_service_no_slots}
use linber.Driver.System.Stores.{written, here, there}
use linber.Driver.System.Clean.{destroy_service-Kept}

-- The uri of a service is mapped to it.
module _ (k : Kernel) (p : ℕ) (s : ServiceNode) (uri : List ℕ) (h : Sound k)
    (e : k.services p ≡ some s) (its : s.uri ≡ uri) where
  same_maps :
      (l : LinberStruct) (r : Bool × Tree ServiceEntry)
      → l.services ≡ k.linber.services
      → l.services_rbtree ≡ r.1
      → r ≡ (false, k.linber.services_rbtree)
      → Sound (record k { linber = l })
  same_maps l r same_list tree same =
      let t = tree ∙ ap (λ (x : Bool × Tree ServiceEntry). x.1) same in
      record {
        whole = h.whole;
        below = h.below;
        listed = λ q i. h.listed q (rw same_list at i);
        sorted = subst (λ t. IsSorted (inorder t)) (sym t) h.sorted;
        mapped = λ v q g. h.mapped v q (rw t at g);
      }

  Sound-map :
      (given : Bool) (l : LinberStruct) (r : Bool × Tree ServiceEntry)
      → Registered given k.linber.services_rbtree p uri r
      → l.services ≡ k.linber.services
      → l.services_rbtree ≡ r.1
      → Sound (record k { linber = l })
  Sound-map given l r (registered fresh done maps sorted') same_list tree = record {
    whole = h.whole;
    below = h.below;
    listed = λ q i. h.listed q (rw same_list at i);
    sorted = subst (λ t. IsSorted (inorder t)) (sym tree) sorted';
    mapped = λ v q g.
        let g' = sym (maps v) ∙ (rw tree at g) in
        elim (Bool-cases (is_eq (strcmp v uri))) [
          | inl same ↦ (
            s,
            subst (λ x. k.services x ≡ some s) (some-injective p q (rw same at g')) e,
            its ∙ sym (eq_of_strcmp v uri (ground arith)),
          )
          | inr other ↦ h.mapped v q (rw other at g')
        ];
  }
  Sound-map given l r (taken old at same) same_list tree = same_maps l r same_list tree same
  Sound-map given l r (no_memory refused same) same_list tree = same_maps l r same_list tree same

-- A new service at the next address.
Sound-fresh :
    (k : Kernel) (n : ℕ) (s : ServiceNode)
    → Sound k
    → k.next < n
    → Whole s
    → Sound (record k { services = update k.services k.next (some s); next = n })
Sound-fresh k n s h lt w = record {
  whole = λ q x e. elim (written k.services k.next q s x e) [
    | here same is ↦ subst Whole is w
    | there old ↦ h.whole q x old
  ];
  below = λ q x e. elim (written k.services k.next q s x e) [
    | here same is ↦ ground (arith, same)
    | there old ↦ ground (arith, h.below q x old)
  ];
  listed = λ q i. ground (arith, h.listed q i);
  sorted = h.sorted;
  mapped = λ uri q g.
      let (x, at, its) = h.mapped uri q g in
      let lt' = h.below q x at in
      (x, still_there k.services k.next q (some s) (ground arith) ∙ at, its);
}

list_it :
    (k : Kernel) (p : ℕ) (s : ServiceNode) (l : LinberStruct)
    → Sound k
    → k.services p ≡ some s
    → l.services ≡ k.linber.services ++ (p ∷ [])
    → l.services_rbtree ≡ k.linber.services_rbtree
    → Sound (record k { linber = l })
list_it k p s l h e listed tree = record {
  whole = h.whole;
  below = h.below;
  listed = λ q i. elim (is_in-append q p k.linber.services (rw listed at i)) [
    | inl old ↦ h.listed q old
    | inr new ↦ subst (λ r. r < k.next) new (h.below p s e)
  ];
  sorted = subst (λ t. IsSorted (inorder t)) (sym tree) h.sorted;
  mapped = λ v q g. h.mapped v q (rw tree at g);
}

-- The last part of create_service, for a service that is in the tree.
listed-Kept :
    (p : ℕ)
    → Kept (do
      s ← load_service p
      l' ← get_linber
      put_linber (record l' {
        services = l'.services ++ (p ∷ []);
        services_count = inc32 l'.services_count;
        max_working = add32 l'.max_working s.workers.max_workers;
      })
      unlock_linber
      pure (some p))
listed-Kept p = Kept-load p λ s k h e.
    let l : LinberStruct = record (k.linber) {
      services = k.linber.services ++ (p ∷ []);
      services_count = inc32 k.linber.services_count;
      max_working = add32 k.linber.max_working s.workers.max_workers;
    } in
    (Kept-bind {f = λ _. pure (some p)} unlock_linber-Kept (λ _. Kept-ok)).from
      (record k { linber = l }) (list_it k p s l h e refl refl)

link_service-Keeps :
    (env : Env) (k : Kernel) (p : ℕ) (s : ServiceNode) (uri : List ℕ)
    → Sound k
    → k.services p ≡ some s
    → s.uri ≡ uri
    → Keeps (link_service env p uri k)
unfolding link_service lock_linber
link_service-Keeps env k p s uri h e its = elim (Bool-cases k.linber.mutex) [
  | inl held ↦ rw (lock_linber, held) tt
  | inr free ↦
      let inserted =
        insert_service_node env.service_tree (env.kmalloc of_service_node) k.linber.services_rbtree
          p uri in
      let l : LinberStruct = record (k.linber) { mutex = true; services_rbtree = inserted.1 } in
      rw (lock_linber, free)
        ((Kept-if inserted.0 (listed-Kept p) (
            Kept-bind unlock_linber-Kept
              λ _. Kept-bind (destroy_service-Kept env p) λ _. Kept-ok {a = none})).from
          (record k { linber = l })
          (Sound-map k p s uri h e its (env.kmalloc of_service_node) l inserted
            (insert-Registered env.service_tree k.linber.services_rbtree h.sorted
              (env.kmalloc of_service_node) p uri)
            refl refl))
]

pub create_service-Kept :
    (env : Env) (uri : List ℕ) (reg : Registration) → Kept (create_service env uri reg)
unfolding create_service
create_service-Kept env uri reg = record {
  from = λ k h. elim (Bool-cases (env.kmalloc of_service)) [
    | inr none_left ↦ rw none_left h
    | inl given ↦ elim (Bool-cases (env.kmalloc of_slots)) [
      | inr refused ↦
          subst Keeps (sym (create_service_no_slots env k uri reg (unlisted k h) given refused)) tt
      | inl given' ↦
          rw (given, given')
            (link_service-Keeps env _ k.next (with_slots (new_service env uri reg)) uri
              (new_Sound k h) (update_self _ k.next (some (with_slots (new_service env uri reg))))
              refl)
    ]
  ];
}
  where
    unlisted : (k : Kernel) → Sound k → is_in k.next k.linber.services ≡ false
    unlisted k h = elim (Bool-cases (is_in k.next k.linber.services)) [
      | inl i ↦ (let lt = h.listed k.next i in ground arith)
      | inr no_way ↦ no_way
    ]

    new_Sound :
        (k : Kernel)
        → Sound k
        → Sound (record k {
          services =
              update
                (update k.services k.next (some (new_service env uri reg)))
                k.next
                (some (with_slots (new_service env uri reg)));
          next = suc (suc k.next);
        })
    new_Sound k h =
        subst (λ f. Sound (record k { services = f; next = suc (suc k.next) }))
          (sym (
            update_twice k.services k.next (some (new_service env uri reg))
              (some (with_slots (new_service env uri reg)))))
          (Sound-fresh k (suc (suc k.next)) (with_slots (new_service env uri reg)) h (omega arith)
            (length-replicate reg.max_working empty_slot, omega arith))
