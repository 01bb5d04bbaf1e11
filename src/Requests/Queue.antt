-- ===== src/Requests/Queue.antt =====
-- What the tree of deadlines promises: one queue of requests in order of deadline, first come first
-- served among equals. A deadline is a distance on the circle of 64-bit words from a base.
use linber.Prelude.{
  ℕ, ◌<◌, ◌≡◌, refl, sym, ap, ◌∙◌, true, false, Option, none, some, List, [], ◌∷◌, ◌++◌, All, arith,
  Ordering-cases, inl, inr, append_assoc, ltb, if◌then◌else◌, length,
}
use linber.Words.{u64_mod, sign64, rank, rank-injective}
use linber.Tree.Sorted.{insert_at}
use linber.Types.{RequestEntry}
use linber.Requests.Order.{InWindow, sign64-IsEntry, Later, Ascending}
use linber.Requests.Insert.{insert_entry, append_request}

abbrev pub with_deadline : ℕ → List ℕ → List (ℕ × ℕ)
with_deadline d [] = []
with_deadline d (req ∷ rest) = (d, req) ∷ with_deadline d rest

-- The requests in the order of the nodes and of their queues, each with its deadline.
abbrev pub pending : List RequestEntry → List (ℕ × ℕ)
pending [] = []
pending (e ∷ es) = with_deadline e.unique_id e.request_head ++ pending es

-- The queue's insertion: behind every request whose deadline is not later.
abbrev pub edf_insert : ℕ → ℕ × ℕ → List (ℕ × ℕ) → List (ℕ × ℕ)
edf_insert base new [] = new ∷ []
edf_insert base new (old ∷ rest) =
    if ltb (rank base new.0) (rank base old.0)
    then new ∷ old ∷ rest
    else old ∷ edf_insert base new rest

-- The request that is served first, and those that stay.
abbrev pub first_of_queue : List (ℕ × ℕ) → Option ℕ
first_of_queue [] = none
first_of_queue (x ∷ q) = some x.1

abbrev pub rest_of_queue : List (ℕ × ℕ) → List (ℕ × ℕ)
rest_of_queue [] = []
rest_of_queue (x ∷ q) = q

with_deadline-append :
    (d : ℕ) (xs ys : List ℕ) → with_deadline d (xs ++ ys) ≡ with_deadline d xs ++ with_deadline d ys
with_deadline-append d [] ys = refl
with_deadline-append d (x ∷ xs) ys = ap (◌∷◌ (d, x)) (with_deadline-append d xs ys)

-- Past requests whose deadline is not later.
edf_insert_past :
    (base d req e : ℕ) (xs : List ℕ) (q : List (ℕ × ℕ))
    → ltb (rank base d) (rank base e) ≡ false
    → edf_insert base (d, req) (with_deadline e xs ++ q)
      ≡ with_deadline e xs ++ edf_insert base (d, req) q
edf_insert_past base d req e [] q h = refl
edf_insert_past base d req e (x ∷ xs) q h =
    rw h (ap (◌∷◌ (e, x)) (edf_insert_past base d req e xs q h))

-- Before requests whose deadline is later.
edf_insert_before :
    (base d req e : ℕ) (xs : List ℕ) (q : List (ℕ × ℕ))
    → ltb (rank base d) (rank base e) ≡ true
    → 0 < length xs
    → edf_insert base (d, req) (with_deadline e xs ++ q) ≡ (d, req) ∷ (with_deadline e xs ++ q)
edf_insert_before base d req e [] q h n = absurd (omega arith)
edf_insert_before base d req e (x ∷ xs) q h n = rw h

pub edf_insert_front :
    (base d req : ℕ) (es : List RequestEntry)
    → All (Later base d) es
    → Ascending base es
    → edf_insert base (d, req) (pending es) ≡ (d, req) ∷ pending es
edf_insert_front base d req [] h a = refl
edf_insert_front base d req (e ∷ es) h a =
    edf_insert_before base d req e.unique_id e.request_head (pending es) (ground arith)
      a.0.some_request

append_at_end :
    (base deadline req : ℕ) (e : RequestEntry) (es : List RequestEntry)
    → deadline ≡ e.unique_id
    → Ascending base (e ∷ es)
    → pending (append_request req e ∷ es) ≡ edf_insert base (deadline, req) (pending (e ∷ es))
append_at_end base deadline req e es same a =
    ap (λ xs. xs ++ pending es) (with_deadline-append e.unique_id e.request_head (req ∷ []))
    ∙ append_assoc (with_deadline e.unique_id e.request_head) ((e.unique_id, req) ∷ []) (pending es)
    ∙ ap (λ xs. with_deadline e.unique_id e.request_head ++ xs)
        (sym (edf_insert_front base e.unique_id req es a.1 a.2))
    ∙ sym (
        edf_insert_past base e.unique_id req e.unique_id e.request_head (pending es) (ground arith))
    ∙ ap (λ d. edf_insert base (d, req) (pending (e ∷ es))) (sym same)

module _ (req : ℕ) {base deadline : ℕ} (word : base < u64_mod) (at : InWindow base deadline) where
  -- The tree's insertion is the queue's.
  pub pending-insert_entry :
      (es : List RequestEntry)
      → Ascending base es
      → pending (insert_entry req deadline es) ≡ edf_insert base (deadline, req) (pending es)
  unfolding insert_at
  pending-insert_entry [] a = refl
  pending-insert_entry (e ∷ es) a = elim (Ordering-cases (sign64 deadline e.unique_id)) [
    | inl c ↦
        rw (c, insert_at)
          (sym (
            edf_insert_before base deadline req e.unique_id e.request_head (pending es)
              (ground (arith, sign64-IsEntry word at e a.0)) a.0.some_request))
    | inr (inl c) ↦
        rw (c, insert_at)
          (append_at_end base deadline req e es
            (rank-injective base _ _ word at.word a.0.word
              (ground (arith, sign64-IsEntry word at e a.0)))
            a)
    | inr (inr c) ↦
        rw (c, insert_at)
          (ap (◌++◌ (with_deadline e.unique_id e.request_head)) (pending-insert_entry es a.2)
            ∙ sym (
                edf_insert_past base deadline req e.unique_id e.request_head (pending es)
                  (ground (arith, sign64-IsEntry word at e a.0))))
  ]
