-- ===== src/Memory.antt =====
-- Byte buffers at addresses, and the C library's `memcpy` and `memset` on them. An access outside
-- the buffer is undefined behaviour in C, and the error `segfault` here.
pub mod Blit
use mpidt_benchmark.Base.{ℕ, ◌+◌, ◌-◌, ◌≡◌, Bool, ◌&&◌, ltb, leb, if◌then◌else◌}

-- How a process can end before it returns from `main`. MPI ends it on an error, by its default
-- error handler.
pub data Error : Type 0 where
  segfault assert_failed div_by_zero mpi_error no_fuel : Error

pub data Result {ℓ} (A : Type ℓ) : Type ℓ where
  ok : A → Result A
  err : Error → Result A

infixl 5 ◌>>=◌
abbrev pub ◌>>=◌ {ℓ κ} : {A : Type ℓ} {B : Type κ} → Result A → (A → Result B) → Result B
ok a >>= f = f a
err e >>= f = err e

-- A buffer: its first address, its length, and the bytes by address.
pub record Region : Type 0 where
  pub base : ℕ
  pub size : ℕ
  pub cell : ℕ → ℕ

-- A buffer with other contents.
pub record SamePlace (r r' : Region) : Type 0 where
  pub base : r'.base ≡ r.base
  pub size : r'.size ≡ r.size

abbrev pub within : Region → ℕ → ℕ → Bool
within r p n = leb r.base p && leb (p + n) (r.base + r.size)

abbrev pub copied : (ℕ → ℕ) → ℕ → (ℕ → ℕ) → ℕ → ℕ → ℕ → ℕ
copied d p s q n a = if leb p a && ltb a (p + n) then s (q + (a - p)) else d a

-- The destination after `n` bytes at `q` of `s` are copied to `p`.
unfoldable pub blit : Region → ℕ → Region → ℕ → ℕ → Region
blit d p s q n = record d { cell = copied d.cell p s.cell q n }

unfoldable pub memcpy : Region → ℕ → Region → ℕ → ℕ → Result Region
memcpy d p s q n = if within d p n && within s q n then ok (blit d p s q n) else err segfault

unfoldable pub memset : Region → ℕ → ℕ → ℕ → Result Region
memset d p b n =
    if within d p n
    then ok (record d { cell = λ a. if leb p a && ltb a (p + n) then b else d.cell a })
    else err segfault
