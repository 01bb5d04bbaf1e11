-- ===== src/Tree/Sorted.antt =====
-- Linking a node at the end of a descent, as an insertion into the sorted sequence.
use linber.Prelude.{◌≡◌, refl, ap, ◌∙◌, true, some, List, [], ◌∷◌, ◌++◌, Ordering, lt, eq, gt, All}
use linber.Tree.{Tree, Place, inorder, get, is_free, before, after}
use linber.Tree.Places.{inorder-get, inorder-free}
use linber.Tree.Search.{Beyond, Short}

module _ {ℓ} {A : Type ℓ} (key : A → Ordering) where
  -- `x` goes where the key belongs; an entry with the key becomes what `merge` makes of it.
  unfoldable pub insert_at : A → (A → A) → List A → List A
  insert_at x merge [] = x ∷ []
  insert_at x merge (y ∷ ys) = elim (key y) [
    | lt ↦ x ∷ y ∷ ys
    | eq ↦ merge y ∷ ys
    | gt ↦ y ∷ insert_at x merge ys
  ]

  pub insert_at-Beyond :
      (x : A) (merge : A → A) (xs ys : List A)
      → All (Beyond key) xs
      → insert_at x merge (xs ++ ys) ≡ xs ++ insert_at x merge ys
  unfolding insert_at
  insert_at-Beyond x merge [] ys h = refl
  insert_at-Beyond x merge (y ∷ xs) ys h =
      rw (h.0, insert_at) (ap (◌∷◌ y) (insert_at-Beyond x merge xs ys h.1))

  pub insert_at-Short :
      (x : A) (merge : A → A) (ys : List A) → All (Short key) ys → insert_at x merge ys ≡ x ∷ ys
  unfolding insert_at
  insert_at-Short x merge [] h = refl
  insert_at-Short x merge (y ∷ ys) h = rw (h.0, insert_at)

  pub insert_at-hit :
      (x : A) (merge : A → A) (t : Tree A) (p : Place) (y : A)
      → get p t ≡ some y
      → key y ≡ eq
      → All (Beyond key) (before p t)
      → insert_at x merge (inorder t) ≡ before p t ++ (merge y ∷ after p t)
  unfolding insert_at
  insert_at-hit x merge t p y got same beyond =
      ap (insert_at x merge) (inorder-get p t y got)
      ∙ insert_at-Beyond x merge (before p t) (y ∷ after p t) beyond
      ∙ ap (◌++◌ (before p t)) (rw (same, insert_at))

  pub insert_at-free :
      (x : A) (merge : A → A) (t : Tree A) (p : Place)
      → is_free p t ≡ true
      → All (Beyond key) (before p t)
      → All (Short key) (after p t)
      → insert_at x merge (inorder t) ≡ before p t ++ (x ∷ after p t)
  insert_at-free x merge t p vacant beyond short =
      ap (insert_at x merge) (inorder-free p t vacant)
      ∙ insert_at-Beyond x merge (before p t) (after p t) beyond
      ∙ ap (◌++◌ (before p t)) (insert_at-Short x merge (after p t) short)
