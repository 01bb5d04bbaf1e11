-- ===== src/Tree/Find.antt =====
-- The node that a search of a sorted tree comes to.
use linber.Prelude.{◌≡◌, Option, none, some, List, [], ◌∷◌, ◌++◌, Ordering, lt, eq, gt, All, arith}
use linber.Tree.Search.{Beyond}

module _ {ℓ} {A : Type ℓ} (key : A → Ordering) where
  -- Past the nodes before the key, the node with the key, if it is there.
  abbrev pub entry_at : List A → Option A
  entry_at [] = none
  entry_at (x ∷ xs) = elim (key x) [ lt ↦ none | eq ↦ some x | gt ↦ entry_at xs ]

  pub entry_at-lt :
      (xs : List A) (x : A) (ys : List A) → key x ≡ lt → entry_at (xs ++ (x ∷ ys)) ≡ entry_at xs
  entry_at-lt [] x ys e = rw e
  entry_at-lt (y ∷ xs) x ys e = ground (arith, entry_at-lt xs x ys e)

  pub entry_at-eq :
      (xs : List A) (x : A) (ys : List A)
      → All (Beyond key) xs
      → key x ≡ eq
      → entry_at (xs ++ (x ∷ ys)) ≡ some x
  entry_at-eq [] x ys h e = rw e
  entry_at-eq (y ∷ xs) x ys h e = rw (h.0, entry_at) (entry_at-eq xs x ys h.1 e)

  pub entry_at-gt :
      (xs : List A) (x : A) (ys : List A)
      → All (Beyond key) xs
      → key x ≡ gt
      → entry_at (xs ++ (x ∷ ys)) ≡ entry_at ys
  entry_at-gt [] x ys h e = rw e
  entry_at-gt (y ∷ xs) x ys h e = rw (h.0, entry_at) (entry_at-gt xs x ys h.1 e)
