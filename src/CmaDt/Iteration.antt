-- ===== src/CmaDt/Iteration.antt =====
-- The iterations of the program of src/cma_dt.c.
use mpidt_benchmark.Base.{ℕ, ◌^◌, ◌<◌, ◌≡◌, ◌==◌, refl, List, Bool-cases, inl, inr}
use mpidt_benchmark.Word.{rounds-id}
use mpidt_benchmark.Iovec.{Iovec}
use mpidt_benchmark.World.{Env, World}
use mpidt_benchmark.Shmem.{skip_iter}
use mpidt_benchmark.Cma.{Readv, read_remote, cma_round, cma_iteration}
use mpidt_benchmark.CmaDt.{receive, iteration}

-- For a number of blocks that an int holds, an iteration of the program, whose nblocks is a size_t,
-- is one of benchmark_cma, whose nblocks is an int.
pub cma_iteration-eq :
    (env : Env) (read : Readv) (liov : List Iovec) (nblocks bufsize j : ℕ) (w : World)
    → nblocks < 2 ^ 31
    → iteration env read liov nblocks bufsize j w ≡ cma_iteration env read liov nblocks bufsize j w
unfolding iteration receive cma_iteration cma_round read_remote
cma_iteration-eq env read liov nblocks bufsize j w range = elim (Bool-cases (j == skip_iter)) [
  | inl now ↦ rw (now, rounds-id nblocks range) refl
  | inr later ↦ rw (later, rounds-id nblocks range) refl
]
