-- ===== src/Services/Directory.antt =====
-- The tree of services is a map from uris to services.
use linber.Prelude.{
  ℕ, ◌≡◌, refl, sym, ◌∙◌, subst, inl, inr, Option, none, some, List, [], ◌∷◌, ◌++◌, Ordering, lt,
  eq, gt, All, arith, if◌then◌else◌, Ordering-cases,
}
use linber.Strings.{strcmp, is_eq, eq_of_strcmp, strcmp_trans}
use linber.Tree.{Tree, leaf, node, inorder}
use linber.Tree.Search.{Beyond, Short, Splits, split_lt, split_gt, split_eq}
use linber.Types.{ServiceEntry}
use linber.Services.{get_service_node}

abbrev pub by_uri : List ℕ → ServiceEntry → Ordering
by_uri uri this = strcmp uri this.service_uri

-- The uris rise strictly in the order of strcmp.
abbrev pub IsSorted : List ServiceEntry → Type 0
IsSorted [] = Unit
IsSorted (e ∷ es) = All (Short (by_uri e.service_uri)) es × IsSorted es

-- The service of a uri in a sequence of nodes.
abbrev pub find_uri : List ℕ → List ServiceEntry → Option ℕ
find_uri uri [] = none
find_uri uri (e ∷ es) = if is_eq (strcmp uri e.service_uri) then some e.service else find_uri uri es

Short-trans :
    (u : List ℕ) (e : ServiceEntry) (es : List ServiceEntry)
    → strcmp u e.service_uri ≡ lt
    → All (Short (by_uri e.service_uri)) es
    → All (Short (by_uri u)) es
Short-trans u e [] h a = tt
Short-trans u e (x ∷ es) h a =
    (strcmp_trans u e.service_uri x.service_uri h a.0, Short-trans u e es h a.1)

pub IsSorted-Splits : (u : List ℕ) (es : List ServiceEntry) → IsSorted es → Splits (by_uri u) es
IsSorted-Splits u [] s = tt
IsSorted-Splits u (e ∷ es) s = elim (Ordering-cases (strcmp u e.service_uri)) [
  | inl c ↦ rw c (Short-trans u e es c s.0)
  | inr (inl c) ↦
      rw c (subst (λ w. All (Short (by_uri w)) es) (sym (eq_of_strcmp u e.service_uri c)) s.0)
  | inr (inr c) ↦ rw c (IsSorted-Splits u es s.1)
]

pub find_uri-Short :
    (u : List ℕ) (es : List ServiceEntry) → All (Short (by_uri u)) es → find_uri u es ≡ none
find_uri-Short u [] a = refl
find_uri-Short u (e ∷ es) a = rw (a.0, find_uri) (find_uri-Short u es a.1)

pub find_uri-Beyond :
    (u : List ℕ) (xs ys : List ServiceEntry)
    → All (Beyond (by_uri u)) xs
    → find_uri u (xs ++ ys) ≡ find_uri u ys
find_uri-Beyond u [] ys a = refl
find_uri-Beyond u (e ∷ xs) ys a = rw (a.0, find_uri) (find_uri-Beyond u xs ys a.1)

find_uri-lt :
    (u : List ℕ) (xs : List ServiceEntry) (e : ServiceEntry) (ys : List ServiceEntry)
    → strcmp u e.service_uri ≡ lt
    → All (Short (by_uri u)) ys
    → find_uri u (xs ++ (e ∷ ys)) ≡ find_uri u xs
find_uri-lt u [] e ys c a = rw (c, find_uri) (find_uri-Short u ys a)
find_uri-lt u (x ∷ xs) e ys c a = ground (arith, find_uri-lt u xs e ys c a)

-- The loop down the tree finds what a walk over the nodes would.
pub get-find_uri :
    (u : List ℕ) (t : Tree ServiceEntry)
    → Splits (by_uri u) (inorder t)
    → get_service_node t u ≡ find_uri u (inorder t)
unfolding get_service_node
get-find_uri u leaf s = refl
get-find_uri u (node l e r) s = elim (Ordering-cases (strcmp u e.service_uri)) [
  | inl c ↦
      let (left, right) = split_lt (by_uri u) (inorder l) e (inorder r) s c in
      rw (c, get_service_node)
        (get-find_uri u l left ∙ sym (find_uri-lt u (inorder l) e (inorder r) c right))
  | inr (inl c) ↦
      let (left, right) = split_eq (by_uri u) (inorder l) e (inorder r) s c in
      rw (c, get_service_node)
        (sym (find_uri-Beyond u (inorder l) (e ∷ inorder r) left ∙ here u e (inorder r) c))
  | inr (inr c) ↦
      let (left, right) = split_gt (by_uri u) (inorder l) e (inorder r) s c in
      rw (c, get_service_node)
        (get-find_uri u r right
          ∙ sym (find_uri-Beyond u (inorder l) (e ∷ inorder r) left ∙ past u e (inorder r) c))
]
  where
    here :
        (u : List ℕ) (e : ServiceEntry) (es : List ServiceEntry)
        → strcmp u e.service_uri ≡ eq
        → find_uri u (e ∷ es) ≡ some e.service
    here u e es c = rw c

    past :
        (u : List ℕ) (e : ServiceEntry) (es : List ServiceEntry)
        → strcmp u e.service_uri ≡ gt
        → find_uri u (e ∷ es) ≡ find_uri u es
    past u e es c = rw c
