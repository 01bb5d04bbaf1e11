-- ===== src/Services/Remove.antt =====
-- Remove_Service and Remove_first_Service as updates of the map from uris.
use linber.Prelude.{
  ℕ, ◌≡◌, refl, sym, ap, ◌∙◌, subst, inl, inr, Option, none, some, List, [], ◌∷◌, ◌++◌, eq, All,
  arith, if◌then◌else◌, Bool-cases,
}
use linber.Strings.{strcmp, is_eq, eq_of_strcmp}
use linber.Tree.{Tree, Walk, Place, inorder, get, before, after, descend, Rbtree}
use linber.Tree.Places.{inorder-get, inorder-free}
use linber.Tree.Search.{Beyond, Short, Located, hit_at, free_at, descend-Located}
use linber.Types.{ServiceEntry}
use linber.Services.{get_service_node, remove_service, remove_first_service}
use linber.Services.Directory.{by_uri, IsSorted, find_uri, IsSorted-Splits}
use linber.Services.Sequence.{
  update, get-sequence, find_uri-here, find_uri-none, find_uri-erase, IsSorted-erase,
}

-- What Remove_Service comes to: the service of the uri is returned and the uri is unmapped.
pub record Unregistered (t : Tree ServiceEntry) (uri : List ℕ) (r : Option ℕ × Tree ServiceEntry)
    : Type 0 where
  pub returned : r.0 ≡ get_service_node t uri
  pub unmapped : (v : List ℕ) → get_service_node r.1 v ≡ update (get_service_node t) uri none v
  pub sorted : IsSorted (inorder r.1)

module _ (rb : Rbtree ServiceEntry) (t : Tree ServiceEntry) (sorted : IsSorted (inorder t)) where
  erase-Unregistered :
      (uri : List ℕ) (p : Place) (x : ServiceEntry)
      → get p t ≡ some x
      → strcmp uri x.service_uri ≡ eq
      → All (Beyond (by_uri uri)) (before p t)
      → All (Short (by_uri uri)) (after p t)
      → Unregistered t uri (some x.service, rb.erase p t)
  erase-Unregistered uri p x got same b a =
      let seq = inorder-get p t x got in
      let old = subst IsSorted seq sorted in
      let seq' = rb.inorder-erase p x t got in
      let srt = IsSorted-erase x (before p t) (after p t) old in
      let u : uri ≡ x.service_uri = eq_of_strcmp uri x.service_uri same in
      let b' = subst (λ w. All (Beyond (by_uri w)) (before p t)) u b in
      let a' = subst (λ w. All (Short (by_uri w)) (after p t)) u a in
      record {
        returned =
            sym
              (get-sequence uri t _ seq old ∙ find_uri-here x (before p t) (after p t) uri same b);
        unmapped = λ v.
            get-sequence v (rb.erase p t) _ seq' srt
            ∙ find_uri-erase v x (before p t) (after p t) b' a'
            ∙ ap
                (λ w.
                  if is_eq (strcmp v w) then none else find_uri v (before p t ++ (x ∷ after p t)))
                (sym u)
            ∙ ap (λ o. if is_eq (strcmp v uri) then none else o) (sym (get-sequence v t _ seq old));
        sorted = subst IsSorted (sym seq') srt;
      }

  absent-Unregistered :
      (uri : List ℕ) → get_service_node t uri ≡ none → Unregistered t uri (none, t)
  absent-Unregistered uri absent = record {
    returned = sym absent;
    unmapped = λ v. unchanged v;
    sorted = sorted;
  }
    where
      unchanged : (v : List ℕ) → get_service_node t v ≡ update (get_service_node t) uri none v
      unchanged v = elim (Bool-cases (is_eq (strcmp v uri))) [
        | inl same ↦ rw same (ap (get_service_node t) (eq_of_strcmp v uri (ground arith)) ∙ absent)
        | inr other ↦ rw other
      ]

  remove_walk :
      (uri : List ℕ) (w : Walk)
      → descend (by_uri uri) t ≡ w
      → Located (by_uri uri) t w
      → Unregistered t uri (remove_service rb t uri)
  unfolding remove_service
  remove_walk uri w e (hit_at {p} x got same b a) =
      rw (e, got, remove_service) (erase-Unregistered uri p x got same b a)
  remove_walk uri w e (free_at {p} vacant b a) =
      let seq = inorder-free p t vacant in
      rw (e, remove_service)
        (absent-Unregistered uri (
          get-sequence uri t _ seq (subst IsSorted seq sorted)
          ∙ find_uri-none (before p t) (after p t) uri b a))

  -- From a sorted tree of services, the removal of a uri returns the service that a lookup finds,
  -- unmaps the uri and no other, and keeps the tree sorted.
  pub remove-Unregistered : (uri : List ℕ) → Unregistered t uri (remove_service rb t uri)
  remove-Unregistered uri =
      remove_walk uri _ refl
        (descend-Located (by_uri uri) t (IsSorted-Splits uri (inorder t) sorted))

abbrev pub first_service : List ServiceEntry → Option ℕ
first_service [] = none
first_service (e ∷ es) = some e.service

abbrev pub other_services : List ServiceEntry → List ServiceEntry
other_services [] = []
other_services (e ∷ es) = es

-- The removal of the first service returns the service of the first node of the tree and leaves the
-- other nodes in order; on an empty tree it returns none and changes nothing.
pub remove_first-sequence :
    (rb : Rbtree ServiceEntry) (t : Tree ServiceEntry) (es : List ServiceEntry)
    → inorder t ≡ es
    → ((remove_first_service rb t).0 ≡ first_service es)
      × (inorder (remove_first_service rb t).1 ≡ other_services es)
unfolding remove_first_service
remove_first-sequence rb t [] e = rw (rb.first_none t e, remove_first_service) (refl, e)
remove_first-sequence rb t (x ∷ es) e =
    let (p, isp, got, front) = rb.first_some x es t e in
    rw (isp, got, remove_first_service)
      (refl, ground (arith, rb.inorder-erase p x t got, inorder-get p t x got))
