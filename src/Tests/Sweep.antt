-- ===== src/Tests/Sweep.antt =====
-- A run of main of src/bench.c at a receiver: 64 KB in blocks of 2048 and of 4096 bytes.
use mpidt_benchmark.Base.{ℕ, zero, suc, ◌*◌, ◌^◌, ◌≤◌, ◌≡◌, refl, arith, ◌∷◌, [], inl}
use native.Mathlib.Nat.{pow-le-pow_right}
use mpidt_benchmark.World.{Env, init, barrier, finalize}
use mpidt_benchmark.World.Returns.{Returns}
use mpidt_benchmark.Shmem.Copy.{whole_iovec}
use mpidt_benchmark.Xpmem.Shapes.{by_block, by_page}
use mpidt_benchmark.Bench.{main}
use mpidt_benchmark.Bench.Phases.{IsSystem, IsSize}
use mpidt_benchmark.Bench.Run.{sweep_comm, IsRounds, bench_main-runs}
use mpidt_benchmark.Tests.{process, world, kernel, kernel-ReadsBlocks}

abbrev node : Env
node = process 1 1024 65536 2048

IsSystem-node : IsSystem node 65536 8192 65536
IsSystem-node = record {
  opened = refl;
  truncated = refl;
  mapped = refl;
  some_bytes = omega arith;
  int_range = omega arith;
  pieces = refl;
  lbuf_end = omega arith;
  shmem_end = omega arith;
  peer_room = omega arith;
  peer_end = omega arith;
  shown = λ r b o h. refl;
  some_limit = omega arith;
  works = refl;
  attaches = λ a. refl;
}

IsSize-2048 : IsSize node (kernel node) (whole_iovec 4096 65536 2048) 65536 8192 2048
IsSize-2048 = record {
  positive = omega arith;
  exact = refl;
  count = omega arith;
  arrived = refl;
  transfers = kernel-ReadsBlocks node 8192 2048 65536;
  few = inl (omega arith);
  shape = by_page (record {
    aligned = refl;
    not_null = omega arith;
    small = omega arith;
    inside = λ i h. omega arith;
  });
  more = λ h. omega arith;
}

IsSize-4096 : IsSize node (kernel node) (whole_iovec 4096 65536 4096) 65536 8192 4096
IsSize-4096 = record {
  positive = omega arith;
  exact = refl;
  count = omega arith;
  arrived = refl;
  transfers = kernel-ReadsBlocks node 8192 4096 65536;
  few = inl (omega arith);
  shape = by_block (omega arith);
  more = λ h. omega arith;
}

IsSize-both :
    (k : ℕ)
    → 2048 * 2 ^ k ≤ 4096
    → IsSize node (kernel node) (whole_iovec 4096 65536 (2048 * 2 ^ k)) 65536 8192 (2048 * 2 ^ k)
IsSize-both zero h = IsSize-2048
IsSize-both (suc zero) h = IsSize-4096
IsSize-both (suc (suc k)) h =
    absurd (
      omega (arith, pow-le-pow_right {n = 2} (omega arith) {i = 2} {j = suc (suc k)} (omega arith)))

bench_main-runs_example :
    Returns
      (λ _ w'.
        (k : ℕ) × IsRounds 2048 4096 k
        × (w'.comm ≡ finalize ∷ sweep_comm node 65536 2048 k (barrier ∷ init ∷ [])))
      (main node (kernel node) (whole_iovec 4096 65536) 4 65536 2048 4096 (world 0))
bench_main-runs_example =
    bench_main-runs node (kernel node) (whole_iovec 4096 65536) 65536 2048 4096 65536 IsSystem-node
      IsSize-both (world 0) (omega arith, omega arith, omega arith)
