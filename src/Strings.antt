-- ===== src/Strings.antt =====
-- strcmp of the C library, on the bytes before the terminating NUL, and the laws of its order.
use linber.Prelude.{
  ℕ, ◌≡◌, refl, Bool, true, false, List, [], ◌∷◌, Ordering, lt, eq, gt, compare, arith,
}

-- The sign of `strcmp(a, b)`.
unfoldable pub strcmp : List ℕ → List ℕ → Ordering
strcmp [] [] = eq
strcmp [] (y ∷ ys) = lt
strcmp (x ∷ xs) [] = gt
strcmp (x ∷ xs) (y ∷ ys) = elim (compare x y) [ lt ↦ lt | eq ↦ strcmp xs ys | gt ↦ gt ]

abbrev pub is_eq : Ordering → Bool
is_eq eq = true
is_eq _ = false

pub strcmp_refl : (a : List ℕ) → strcmp a a ≡ eq
unfolding strcmp
strcmp_refl [] = refl
strcmp_refl (x ∷ xs) = ground (arith, strcmp_refl xs)

pub eq_of_strcmp : (a b : List ℕ) → strcmp a b ≡ eq → a ≡ b
unfolding strcmp
eq_of_strcmp [] [] e = refl
eq_of_strcmp [] (y ∷ ys) e = cc
eq_of_strcmp (x ∷ xs) [] e = cc
eq_of_strcmp (x ∷ xs) (y ∷ ys) e = ground (arith, eq_of_strcmp xs ys)

pub lt_of_gt : (a b : List ℕ) → strcmp a b ≡ gt → strcmp b a ≡ lt
unfolding strcmp
lt_of_gt [] [] e = cc
lt_of_gt [] (y ∷ ys) e = cc
lt_of_gt (x ∷ xs) [] e = refl
lt_of_gt (x ∷ xs) (y ∷ ys) e = ground (arith, lt_of_gt xs ys)

pub strcmp_trans : (a b c : List ℕ) → strcmp a b ≡ lt → strcmp b c ≡ lt → strcmp a c ≡ lt
unfolding strcmp
strcmp_trans [] [] c h k = cc
strcmp_trans [] (y ∷ ys) [] h k = cc
strcmp_trans [] (y ∷ ys) (z ∷ zs) h k = refl
strcmp_trans (x ∷ xs) [] c h k = cc
strcmp_trans (x ∷ xs) (y ∷ ys) [] h k = cc
strcmp_trans (x ∷ xs) (y ∷ ys) (z ∷ zs) h k = ground (arith, strcmp_trans xs ys zs)
