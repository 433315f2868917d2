-- ===== src/Iovec.antt =====
-- `struct iovec`, the arrays of it that the benchmarks build, and reads of such an array: an index
-- outside the array is an error.
pub mod Tiling
use mpidt_benchmark.Base.{
  ℕ, zero, suc, ◌+◌, ◌*◌, Option, none, some, List, [], ◌∷◌, get_elem?, length, leb, if◌then◌else◌,
  take, drop,
}
use mpidt_benchmark.Word.{ptr_add}
use mpidt_benchmark.Memory.{Result, ok, err, segfault}

pub record Iovec : Type 0 where
  pub iov_base : ℕ
  pub iov_len : ℕ

abbrev pub iovec : ℕ → ℕ → Iovec
iovec b n = record { iov_base = b; iov_len = n }

-- `for (i = 0; i < nblocks; i++) { liov[i].iov_base = lbuf + i * blocksize; ... }`, from entry `i`
-- with `k` entries left.
unfoldable pub init_iovec : ℕ → ℕ → ℕ → ℕ → List Iovec
init_iovec lbuf blocksize zero i = []
init_iovec lbuf blocksize (suc k) i =
    iovec (ptr_add lbuf (i * blocksize)) blocksize ∷ init_iovec lbuf blocksize k (suc i)

-- `liov[i]`
unfoldable pub at : List Iovec → ℕ → Result Iovec
at liov i = elim (get_elem? liov i) [ none ↦ err segfault | some v ↦ ok v ]

-- The `n` entries from `&liov[i]`, for a callee that reads them all.
unfoldable pub slice : List Iovec → ℕ → ℕ → Result (List Iovec)
slice liov i n = if leb (i + n) (length liov) then ok (take n (drop i liov)) else err segfault
