-- ===== src/PipelineDt/Iteration.antt =====
-- The iterations of the program of src/shmem_pipeline_dt.c.
use mpidt_benchmark.Base.{ℕ, ◌/◌, ◌<◌, ◌≡◌, ◌==◌, refl, List, Bool-cases, inl, inr}
use mpidt_benchmark.Iovec.{Iovec}
use mpidt_benchmark.World.{Env, World}
use mpidt_benchmark.Shmem.{skip_iter}
use mpidt_benchmark.Shmem.Copy.{divide-ok}
use mpidt_benchmark.Pipeline.{pip_round, pip_iteration, pipeline_depth}
use mpidt_benchmark.PipelineDt.{iteration}

-- For a positive block size, an iteration of the program, which divides once in front of its loop,
-- does what an iteration of benchmark_shmem_pip does, which divides in each round.
pub pipeline_iteration-eq :
    (env : Env) (liov : List Iovec) (bufsize bs j : ℕ) (w : World)
    → 0 < bs
    → iteration env liov (bufsize / bs) bufsize j w
      ≡ pip_iteration env pipeline_depth liov bufsize bs j w
unfolding iteration pip_iteration pip_round
pipeline_iteration-eq env liov bufsize bs j w pos = elim (Bool-cases (j == skip_iter)) [
  | inl now ↦ rw (now, divide-ok bufsize bs pos) refl
  | inr later ↦ rw (later, divide-ok bufsize bs pos) refl
]
