-- ===== src/Requests/Order.antt =====
-- The sorted order of the tree of deadlines.
use linber.Prelude.{ℕ, ◌<◌, ◌^◌, ◌≡◌, ◌⊎◌, List, [], ◌∷◌, Ordering, All, length, arith, compare}
use linber.Words.{u64_mod, rank, sign64, sign64-compare}
use linber.Tree.Search.{Short, Splits}
use linber.Types.{RequestEntry}

-- A deadline within 2 ^ 63 ns after the base.
pub record InWindow (base deadline : ℕ) : Type 0 where
  pub word : deadline < u64_mod
  pub near : rank base deadline < 2 ^ 63

-- A node of the tree: its deadline is in the window, and its queue is not empty.
pub record IsEntry (base : ℕ) (e : RequestEntry) : Type 0 where
  pub word : e.unique_id < u64_mod
  pub near : rank base e.unique_id < 2 ^ 63
  pub some_request : 0 < length e.request_head

abbrev pub Later : ℕ → ℕ → RequestEntry → Type 0
Later base deadline e = rank base deadline < rank base e.unique_id

-- The nodes' deadlines rise strictly in their distance from the base.
abbrev pub Ascending : ℕ → List RequestEntry → Type 0
Ascending base [] = Unit
Ascending base (e ∷ es) = IsEntry base e × All (Later base e.unique_id) es × Ascending base es

module _ {base deadline : ℕ} (word : base < u64_mod) (at : InWindow base deadline) where
  abbrev pub by_deadline : RequestEntry → Ordering
  by_deadline this = sign64 deadline this.unique_id

  pub sign64-IsEntry :
      (e : RequestEntry)
      → IsEntry base e
      → sign64 deadline e.unique_id ≡ compare (rank base deadline) (rank base e.unique_id)
  sign64-IsEntry e h = sign64-compare base deadline e.unique_id word at.word h.word at.near h.near

  Later-Short :
      (e : RequestEntry) (es : List RequestEntry)
      → rank base deadline < rank base e.unique_id ⊎ (rank base deadline ≡ rank base e.unique_id)
      → All (Later base e.unique_id) es
      → Ascending base es
      → All (Short by_deadline) es
  Later-Short e [] le h a = tt
  Later-Short e (x ∷ es) le h a =
      (ground (arith, sign64-IsEntry x a.0), Later-Short e es le h.1 a.2)

  -- So a new deadline splits the sorted nodes.
  pub Ascending-Splits : (es : List RequestEntry) → Ascending base es → Splits by_deadline es
  Ascending-Splits [] a = tt
  Ascending-Splits (e ∷ es) a =
      ground (arith, sign64-IsEntry e a.0, Ascending-Splits es a.2, Later-Short e es)
