-- ===== src/Word.antt =====
-- The C integers of the benchmarks: `size_t` and pointers modulo 2^64, and `int`, which is kept as
-- the 64-bit pattern that it is converted to in mixed arithmetic (sign-extended).
use mpidt_benchmark.Base.{ℕ, ◌+◌, ◌-◌, ◌%◌, ◌^◌, ◌≤◌, ◌<◌, ◌≡◌, arith, ltb, if◌then◌else◌}

-- The value of a `size_t` after it is stored in an `int` and read back as a `size_t`.
unfoldable pub narrow : ℕ → ℕ
narrow v = if ltb (v % 2 ^ 32) (2 ^ 31) then v % 2 ^ 32 else v % 2 ^ 32 + (2 ^ 64 - 2 ^ 32)

-- The rounds of `for (i = 0; i < n; i++)` where `n` is an `int`: none if it is negative.
unfoldable pub rounds : ℕ → ℕ
rounds n = if ltb n (2 ^ 63) then n else 0

unfoldable pub ptr_add : ℕ → ℕ → ℕ
ptr_add p o = (p + o) % 2 ^ 64

unfoldable pub add64 : ℕ → ℕ → ℕ
add64 a b = (a + b) % 2 ^ 64

unfoldable pub sub64 : ℕ → ℕ → ℕ
sub64 a b = (a + 2 ^ 64 - b) % 2 ^ 64

pub narrow-id : (v : ℕ) → v < 2 ^ 31 → narrow v ≡ v
unfolding narrow
narrow-id v h = ground arith

pub rounds-id : (v : ℕ) → v < 2 ^ 31 → rounds v ≡ v
unfolding rounds
rounds-id v h = ground arith

pub ptr_add-id : (p o : ℕ) → p + o < 2 ^ 64 → ptr_add p o ≡ p + o
unfolding ptr_add
ptr_add-id p o h = omega arith

pub add64-id : (a b : ℕ) → a + b < 2 ^ 64 → add64 a b ≡ a + b
unfolding add64
add64-id a b h = omega arith

pub sub64-id : (a b : ℕ) → b ≤ a → a < 2 ^ 64 → sub64 a b ≡ a - b
unfolding sub64
sub64-id a b h k = omega arith
