-- ===== src/Tree/Plain.antt =====
-- A tree that never rotates keeps the promises of `Rbtree`: they can be met.
use linber.Prelude.{
  ◌≡◌, refl, sym, ap, ◌∙◌, true, Option, none, some, List, [], ◌∷◌, ◌++◌, append_assoc, ◌≢◌,
}
use linber.Tree.{
  Tree, leaf, node, to_left, to_right, Place, inorder, get, is_free, before, after, Rbtree,
}

module _ {ℓ} {A : Type ℓ} where
  link : Place → A → Tree A → Tree A
  link p y leaf = node leaf y leaf
  link [] y (node l x r) = node l x r
  link (to_left ∷ p) y (node l x r) = node (link p y l) x r
  link (to_right ∷ p) y (node l x r) = node l x (link p y r)

  -- Hangs the right tree under the last node of the left one.
  join : Tree A → Tree A → Tree A
  join leaf r = r
  join (node l x m) r = node l x (join m r)

  unlink : Place → Tree A → Tree A
  unfolding join
  unlink p leaf = leaf
  unlink [] (node l x r) = join l r
  unlink (to_left ∷ p) (node l x r) = node (unlink p l) x r
  unlink (to_right ∷ p) (node l x r) = node l x (unlink p r)

  -- The way down the left links.
  spine : Tree A → Place
  spine leaf = []
  spine (node l x r) = to_left ∷ spine l

  leftmost : Tree A → Option Place
  unfolding spine
  leftmost leaf = none
  leftmost (node l x r) = some (spine l)

  inorder-link :
      (p : Place) (y : A) (t : Tree A)
      → is_free p t ≡ true
      → inorder (link p y t) ≡ before p t ++ (y ∷ after p t)
  unfolding link
  inorder-link [] y leaf e = refl
  inorder-link (d ∷ p) y leaf e = refl
  inorder-link [] y (node l x r) e = cc
  inorder-link (to_left ∷ p) y (node l x r) e =
      rw (inorder-link p y l e) (append_assoc (before p l) (y ∷ after p l) (x ∷ inorder r))
  inorder-link (to_right ∷ p) y (node l x r) e =
      rw (inorder-link p y r e) (sym (append_assoc (inorder l) (x ∷ before p r) (y ∷ after p r)))

  inorder-join : (l r : Tree A) → inorder (join l r) ≡ inorder l ++ inorder r
  unfolding join
  inorder-join leaf r = refl
  inorder-join (node l x m) r =
      rw (inorder-join m r) (sym (append_assoc (inorder l) (x ∷ inorder m) (inorder r)))

  inorder-unlink :
      (p : Place) (y : A) (t : Tree A)
      → get p t ≡ some y
      → inorder (unlink p t) ≡ before p t ++ after p t
  unfolding unlink
  inorder-unlink p y leaf e = cc
  inorder-unlink [] y (node l x r) e = inorder-join l r
  inorder-unlink (to_left ∷ p) y (node l x r) e =
      rw (inorder-unlink p y l e) (append_assoc (before p l) (after p l) (x ∷ inorder r))
  inorder-unlink (to_right ∷ p) y (node l x r) e =
      rw (inorder-unlink p y r e) (sym (append_assoc (inorder l) (x ∷ before p r) (after p r)))

  append-ne-nil : (xs : List A) (y : A) (ys : List A) → xs ++ (y ∷ ys) ≢ []
  append-ne-nil [] y ys e = cc
  append-ne-nil (x ∷ xs) y ys e = cc

  abbrev head_or : List A → A → A
  head_or [] d = d
  head_or (x ∷ xs) d = x

  head_or-append :
      (xs : List A) (y : A) (ys : List A) (d : A) → head_or (xs ++ (y ∷ ys)) d ≡ head_or xs y
  head_or-append [] y ys d = refl
  head_or-append (x ∷ xs) y ys d = refl

  get-spine :
      (l : Tree A) (z : A) (r : Tree A) → get (spine l) (node l z r) ≡ some (head_or (inorder l) z)
  unfolding spine
  get-spine leaf z r = refl
  get-spine (node ll y lr) z r =
      get-spine ll y lr ∙ ap some (sym (head_or-append (inorder ll) y (inorder lr) z))

  before-spine : (l : Tree A) (z : A) (r : Tree A) → before (spine l) (node l z r) ≡ []
  unfolding spine
  before-spine leaf z r = refl
  before-spine (node ll y lr) z r = before-spine ll y lr

  leftmost_none : (t : Tree A) → inorder t ≡ [] → leftmost t ≡ none
  unfolding leftmost
  leftmost_none leaf e = refl
  leftmost_none (node l x r) e = absurd (append-ne-nil (inorder l) x (inorder r) e)

  leftmost_some :
      (x : A) (xs : List A) (t : Tree A)
      → inorder t ≡ x ∷ xs
      → (p : Place) × (leftmost t ≡ some p) × (get p t ≡ some x) × (before p t ≡ [])
  unfolding leftmost
  leftmost_some x xs leaf e = absurd (cc)
  leftmost_some x xs (node l z r) e = (
    spine l,
    refl,
    get-spine l z r
        ∙ ap some (sym (head_or-append (inorder l) z (inorder r) x) ∙ ap (λ w. head_or w x) e),
    before-spine l z r,
  )

  unfoldable pub plain : Rbtree A
  unfolding link unlink leftmost inorder-link inorder-unlink leftmost_none leftmost_some
      inorder-join append-ne-nil get-spine head_or-append before-spine
  plain = record {
    insert = link;
    erase = unlink;
    first = leftmost;
    inorder-insert = inorder-link;
    inorder-erase = inorder-unlink;
    first_none = leftmost_none;
    first_some = leftmost_some;
  }
