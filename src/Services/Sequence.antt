-- ===== src/Services/Sequence.antt =====
-- The sorted nodes of the tree of services as a map from uris: one more, and one less.
use linber.Prelude.{
  ℕ, ◌≡◌, refl, sym, ap, ◌∙◌, subst, inl, inr, true, Option, none, some, List, [], ◌∷◌, ◌++◌, eq,
  All, All-append, All-append_left, All-append_right, arith, if◌then◌else◌, Bool-cases,
}
use linber.Strings.{strcmp, is_eq, eq_of_strcmp, lt_of_gt}
use linber.Tree.{Tree, inorder}
use linber.Tree.Search.{Beyond, Short}
use linber.Types.{ServiceEntry}
use linber.Services.{get_service_node}
use linber.Services.Directory.{
  by_uri, IsSorted, find_uri, IsSorted-Splits, find_uri-Short, find_uri-Beyond, get-find_uri,
}

-- A map, changed at one uri.
abbrev pub update : (List ℕ → Option ℕ) → List ℕ → Option ℕ → List ℕ → Option ℕ
update f uri s v = if is_eq (strcmp v uri) then s else f v

-- The lookup, over any sequence that is the tree's.
pub get-sequence :
    (v : List ℕ) (t : Tree ServiceEntry) (es : List ServiceEntry)
    → inorder t ≡ es
    → IsSorted es
    → get_service_node t v ≡ find_uri v es
get-sequence v t es e s =
    get-find_uri v t (IsSorted-Splits v (inorder t) (subst IsSorted (sym e) s)) ∙ ap (find_uri v) e

pub find_uri-here :
    (e : ServiceEntry) (xs ys : List ServiceEntry) (u : List ℕ)
    → strcmp u e.service_uri ≡ eq
    → All (Beyond (by_uri u)) xs
    → find_uri u (xs ++ (e ∷ ys)) ≡ some e.service
find_uri-here e xs ys u same b = find_uri-Beyond u xs (e ∷ ys) b ∙ rw same

pub find_uri-none :
    (xs ys : List ServiceEntry) (u : List ℕ)
    → All (Beyond (by_uri u)) xs
    → All (Short (by_uri u)) ys
    → find_uri u (xs ++ ys) ≡ none
find_uri-none xs ys u b a = find_uri-Beyond u xs ys b ∙ find_uri-Short u ys a

-- A node more in the sequence, at the place of its uri.
pub find_uri-insert :
    (v : List ℕ) (e : ServiceEntry) (xs ys : List ServiceEntry)
    → All (Beyond (by_uri e.service_uri)) xs
    → find_uri v (xs ++ (e ∷ ys))
      ≡ (if is_eq (strcmp v e.service_uri) then some e.service else find_uri v (xs ++ ys))
find_uri-insert v e [] ys b = refl
find_uri-insert v e (x ∷ xs) ys b = ground (
  arith,
  find_uri-insert v e xs ys b.1,
  eq_of_strcmp v e.service_uri,
  eq_of_strcmp v x.service_uri,
)

pub uri_of_same :
    (v : List ℕ) (e : ServiceEntry) → is_eq (strcmp v e.service_uri) ≡ true → v ≡ e.service_uri
uri_of_same v e same = eq_of_strcmp v e.service_uri (ground arith)

-- The node of a uri goes from the sequence.
pub find_uri-erase :
    (v : List ℕ) (e : ServiceEntry) (xs ys : List ServiceEntry)
    → All (Beyond (by_uri e.service_uri)) xs
    → All (Short (by_uri e.service_uri)) ys
    → find_uri v (xs ++ ys)
      ≡ (if is_eq (strcmp v e.service_uri) then none else find_uri v (xs ++ (e ∷ ys)))
find_uri-erase v e xs ys b s = elim (Bool-cases (is_eq (strcmp v e.service_uri))) [
  | inl same ↦ rw same (
      subst (λ w. find_uri w (xs ++ ys) ≡ none) (sym (uri_of_same v e same))
        (find_uri-Beyond e.service_uri xs ys b ∙ find_uri-Short e.service_uri ys s))
  | inr other ↦ rw other (sym (find_uri-insert v e xs ys b ∙ rw other))
]

pub IsSorted-insert :
    (e : ServiceEntry) (xs ys : List ServiceEntry)
    → IsSorted (xs ++ ys)
    → All (Beyond (by_uri e.service_uri)) xs
    → All (Short (by_uri e.service_uri)) ys
    → IsSorted (xs ++ (e ∷ ys))
IsSorted-insert e [] ys s b a = (a, s)
IsSorted-insert e (x ∷ xs) ys s b a =
    let P = Short (by_uri x.service_uri) in
    (
      All-append P xs (e ∷ ys) (All-append_left P xs ys s.0)
          (lt_of_gt e.service_uri x.service_uri b.0, All-append_right P xs ys s.0),
      IsSorted-insert e xs ys s.1 b.1 a,
    )

pub IsSorted-erase :
    (e : ServiceEntry) (xs ys : List ServiceEntry) → IsSorted (xs ++ (e ∷ ys)) → IsSorted (xs ++ ys)
IsSorted-erase e [] ys s = s.1
IsSorted-erase e (x ∷ xs) ys s =
    let P = Short (by_uri x.service_uri) in
    (
      All-append P xs ys (All-append_left P xs (e ∷ ys) s.0) (All-append_right P xs (e ∷ ys) s.0).1,
      IsSorted-erase e xs ys s.1,
    )
