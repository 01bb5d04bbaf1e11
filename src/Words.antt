-- ===== src/Words.antt =====
-- The machine integers of driver/linber_main.c and driver/src/linber_RBtree.c: a word is its value
-- below 2 ^ 64 (unsigned long) or 2 ^ 32 (unsigned int), and a signed one is read off its top bit.
use linber.Prelude.{
  ℕ, ◌+◌, ◌-◌, ◌%◌, ◌^◌, ◌<◌, ◌≡◌, compare, Ordering, lt, eq, gt, arith, ltb, ◌==◌, if◌then◌else◌,
}

abbrev pub u64_mod : ℕ
u64_mod = 2 ^ 64

abbrev pub u32_mod : ℕ
u32_mod = 2 ^ 32

-- a - b of two unsigned longs, which wraps around.
abbrev pub sub64 : ℕ → ℕ → ℕ
sub64 a b = (a + u64_mod - b) % u64_mod

-- `++`, `--` and `-` of an unsigned int, and `++` of an unsigned long.
abbrev pub inc32 : ℕ → ℕ
inc32 a = (a + 1) % u32_mod

abbrev pub dec32 : ℕ → ℕ
dec32 a = (a + u32_mod - 1) % u32_mod

abbrev pub add32 : ℕ → ℕ → ℕ
add32 a b = (a + b) % u32_mod

abbrev pub sub32 : ℕ → ℕ → ℕ
sub32 a b = (a + u32_mod - b) % u32_mod

abbrev pub inc64 : ℕ → ℕ
inc64 a = (a + 1) % u64_mod

-- The sign of `long int result = a - b`.
unfoldable pub sign64 : ℕ → ℕ → Ordering
sign64 a b = if sub64 a b == 0 then eq else if ltb (sub64 a b) (2 ^ 63) then gt else lt

-- The sign of `int result = a - b`: the difference loses its upper 32 bits.
unfoldable pub sign32 : ℕ → ℕ → Ordering
sign32 a b =
    let low = sub64 a b % u32_mod in if low == 0 then eq else if ltb low (2 ^ 31) then gt else lt

-- How far `a` lies after `base` on the circle of the 64-bit words.
abbrev pub rank : ℕ → ℕ → ℕ
rank base a = sub64 a base

-- Two words within 2 ^ 63 after one base compare by their distances from it.
pub sign64-compare :
    (base a b : ℕ)
    → base < u64_mod
    → a < u64_mod
    → b < u64_mod
    → rank base a < 2 ^ 63
    → rank base b < 2 ^ 63
    → sign64 a b ≡ compare (rank base a) (rank base b)
unfolding sign64
sign64-compare base a b hb ha hc wa wb = ground arith

-- Only within 2 ^ 31 does the comparison of `int` do so.
pub sign32-compare :
    (base a b : ℕ)
    → base < u64_mod
    → a < u64_mod
    → b < u64_mod
    → rank base a < 2 ^ 31
    → rank base b < 2 ^ 31
    → sign32 a b ≡ compare (rank base a) (rank base b)
unfolding sign32
sign32-compare base a b hb ha hc wa wb = ground arith

pub rank-injective :
    (base a b : ℕ) → base < u64_mod → a < u64_mod → b < u64_mod → rank base a ≡ rank base b → a ≡ b
rank-injective base a b h ha hb e = omega arith
