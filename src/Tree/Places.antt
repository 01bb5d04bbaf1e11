-- ===== src/Tree/Places.antt =====
-- The sorted sequence of a tree around a place, and what a write at the place does to it.
use linber.Prelude.{◌≡◌, refl, sym, true, some, [], ◌∷◌, ◌++◌, append_assoc}
use linber.Tree.{
  Tree, leaf, node, to_left, to_right, Place, inorder, get, is_free, before, after, replace,
}

module _ {ℓ} {A : Type ℓ} where
  pub inorder-get :
      (p : Place) (t : Tree A) (x : A)
      → get p t ≡ some x
      → inorder t ≡ before p t ++ (x ∷ after p t)
  inorder-get p leaf x e = cc
  inorder-get [] (node l y r) x e = cc
  inorder-get (to_left ∷ p) (node l y r) x e =
      rw (inorder-get p l x e) (append_assoc (before p l) (x ∷ after p l) (y ∷ inorder r))
  inorder-get (to_right ∷ p) (node l y r) x e =
      rw (inorder-get p r x e) (sym (append_assoc (inorder l) (y ∷ before p r) (x ∷ after p r)))

  pub inorder-free :
      (p : Place) (t : Tree A) → is_free p t ≡ true → inorder t ≡ before p t ++ after p t
  inorder-free [] leaf e = refl
  inorder-free (d ∷ p) leaf e = refl
  inorder-free [] (node l y r) e = cc
  inorder-free (to_left ∷ p) (node l y r) e =
      rw (inorder-free p l e) (append_assoc (before p l) (after p l) (y ∷ inorder r))
  inorder-free (to_right ∷ p) (node l y r) e =
      rw (inorder-free p r e) (sym (append_assoc (inorder l) (y ∷ before p r) (after p r)))

  pub inorder-replace :
      (p : Place) (t : Tree A) (x y : A)
      → get p t ≡ some x
      → inorder (replace p y t) ≡ before p t ++ (y ∷ after p t)
  unfolding replace
  inorder-replace p leaf x y e = cc
  inorder-replace [] (node l z r) x y e = refl
  inorder-replace (to_left ∷ p) (node l z r) x y e =
      rw (inorder-replace p l x y e) (append_assoc (before p l) (y ∷ after p l) (z ∷ inorder r))
  inorder-replace (to_right ∷ p) (node l z r) x y e =
      rw (inorder-replace p r x y e)
        (sym (append_assoc (inorder l) (z ∷ before p r) (y ∷ after p r)))
