-- ===== src/Tests/Fault.antt =====
-- Runs of benchmark_cma in src/bench.c that fail: a receiver whose process_vm_readv transfers six of
-- eight bytes, and an array of 2^27 entries; and of src/shmem_dt.c behind a failed ftruncate.
use mpidt_benchmark.Base.{false, ◌≡◌, refl, arith}
use mpidt_benchmark.Memory.{err, assert_failed}
use mpidt_benchmark.World.{Env}
use mpidt_benchmark.Shmem.Copy.{whole_iovec}
use mpidt_benchmark.Cma.{Readv, benchmark_cma}
use mpidt_benchmark.Cma.Fault.{benchmark_cma-short}
use mpidt_benchmark.ShmemDt
use mpidt_benchmark.Tests.{process, world}

abbrev node : Env
node = process 1 1024 8 2

abbrev six_bytes : Readv
six_bytes l r d = (6, d)

benchmark_cma-short_example :
    benchmark_cma node six_bytes (whole_iovec 8192 8 2) 8 2 (world 8) ≡ err assert_failed
benchmark_cma-short_example =
    benchmark_cma-short node six_bytes 8 2 6 (world 8) (omega arith) refl refl (omega arith)
      (omega arith) (omega arith) (omega arith) (λ e. absurd (omega arith)) (λ l r d. refl)

-- An empty file that cannot be extended.
abbrev full_disk : Env
full_disk = record node { truncated = false; backed = 0 }
