-- ===== src/Services/Insert.antt =====
-- Insert_ServiceNode as an update of the map from uris.
use linber.Prelude.{
  ℕ, ◌≡◌, refl, sym, ap, ◌∙◌, subst, inl, inr, Bool, true, false, none, some, List, if◌then◌else◌,
  Bool-cases,
}
use linber.Strings.{strcmp, is_eq}
use linber.Tree.{Tree, Walk, inorder, before, after, descend, Rbtree}
use linber.Tree.Places.{inorder-get, inorder-free}
use linber.Tree.Search.{Located, hit_at, free_at, descend-Located}
use linber.Types.{ServiceEntry}
use linber.Services.{get_service_node, insert_service_node}
use linber.Services.Directory.{by_uri, IsSorted, IsSorted-Splits}
use linber.Services.Sequence.{
  update, get-sequence, find_uri-here, find_uri-none, find_uri-insert, IsSorted-insert,
}

-- What Insert_ServiceNode comes to: the uri is mapped to the service, or nothing changes, because
-- the uri is taken or the allocation failed.
pub data Registered (kmalloc : Bool) (t : Tree ServiceEntry) (ser_node : ℕ) (uri : List ℕ)
    (r : Bool × Tree ServiceEntry) : Type 0 where
  registered :
      get_service_node t uri ≡ none
      → r.0 ≡ true
      → ((v : List ℕ) → get_service_node r.1 v ≡ update (get_service_node t) uri (some ser_node) v)
      → IsSorted (inorder r.1)
      → Registered kmalloc t ser_node uri r
  taken :
      (old : ℕ)
      → get_service_node t uri ≡ some old
      → r ≡ (false, t)
      → Registered kmalloc t ser_node uri r
  no_memory : kmalloc ≡ false → r ≡ (false, t) → Registered kmalloc t ser_node uri r

module _ (rb : Rbtree ServiceEntry) (t : Tree ServiceEntry) (sorted : IsSorted (inorder t)) where
  insert_walk :
      (kmalloc : Bool) (ser_node : ℕ) (uri : List ℕ) (w : Walk)
      → descend (by_uri uri) t ≡ w
      → Located (by_uri uri) t w
      → Registered kmalloc t ser_node uri (insert_service_node rb kmalloc t ser_node uri)
  unfolding insert_service_node
  insert_walk kmalloc ser_node uri w e (hit_at {p} x got same b a) =
      let seq = inorder-get p t x got in
      rw (e, insert_service_node)
        (taken x.service
          (get-sequence uri t _ seq (subst IsSorted seq sorted)
            ∙ find_uri-here x (before p t) (after p t) uri same b)
          refl)
  insert_walk kmalloc ser_node uri w e (free_at {p} vacant b a) = elim (Bool-cases kmalloc) [
    | inr failed ↦ rw (e, failed, insert_service_node) (no_memory refl refl)
    | inl given ↦
        let new : ServiceEntry = record { service_uri = uri; service = ser_node } in
        let seq = inorder-free p t vacant in
        let old = subst IsSorted seq sorted in
        let seq' = rb.inorder-insert p new t vacant in
        let srt = IsSorted-insert new (before p t) (after p t) old b a in
        rw (e, given, insert_service_node)
          (registered
            (get-sequence uri t _ seq old ∙ find_uri-none (before p t) (after p t) uri b a) refl
            (λ v.
              get-sequence v (rb.insert p new t) _ seq' srt
              ∙ find_uri-insert v new (before p t) (after p t) b
              ∙ ap (λ o. if is_eq (strcmp v uri) then some ser_node else o)
                  (sym (get-sequence v t _ seq old)))
            (subst IsSorted (sym seq') srt))
  ]

  -- Into a sorted tree of services, the insertion maps the new uri to its service, maps every other
  -- uri as before and keeps the tree sorted; or it returns false with the tree unchanged, because
  -- the uri is taken or because the node allocation failed.
  pub insert-Registered :
      (kmalloc : Bool) (ser_node : ℕ) (uri : List ℕ)
      → Registered kmalloc t ser_node uri (insert_service_node rb kmalloc t ser_node uri)
  insert-Registered kmalloc ser_node uri =
      insert_walk kmalloc ser_node uri _ refl
        (descend-Located (by_uri uri) t (IsSorted-Splits uri (inorder t) sorted))
