-- ===== src/Tests/Attach.antt =====
-- Tests of the XPMEM benchmarks of src/bench.c, and of src/xpmem_dt.c and src/xpmem_cache_dt.c, with a
-- buffer of two pages.
use mpidt_benchmark.Base.{refl, arith, ℕ, ◌+◌, ◌<◌, ◌≡◌, false, []}
use mpidt_benchmark.World.{Env, is_sender}
use mpidt_benchmark.World.Returns.{Returns}
use mpidt_benchmark.Xpmem.{benchmark_xpmem_nocache, benchmark_xpmem_cached}
use mpidt_benchmark.Xpmem.Attach.{IsSource}
use mpidt_benchmark.Xpmem.Attach.Small.{IsInPages}
use mpidt_benchmark.Xpmem.Shapes.{by_page}
use mpidt_benchmark.Xpmem.Run.{IsDone, benchmark_xpmem_nocache-runs, benchmark_xpmem_cached-runs}
use mpidt_benchmark.XpmemDt.{nocache_main, cached_main}
use mpidt_benchmark.XpmemDt.Run.{xpmem_main_comm, xpmem_cached_main-runs, xpmem_nocache_main-runs}
use mpidt_benchmark.Tests.{process, world}

abbrev two_pages : Env
two_pages = process 1 2 8192 2048

IsSource-two : IsSource two_pages 2048 4
IsSource-two = record {
  entries = refl;
  positive = omega arith;
  readable = omega arith;
  end = omega arith;
  int_range = omega arith;
  works = λ a. refl;
}

IsInPages-two : IsInPages two_pages 2048 4
IsInPages-two = record {
  aligned = refl;
  not_null = omega arith;
  small = omega arith;
  inside = λ i h. omega arith;
}

benchmark_xpmem_cached-runs_example :
    Returns
      (λ _ w'. IsDone two_pages 8192 4 (world 8192) w')
      (benchmark_xpmem_cached two_pages 8192 2048 (world 8192))
benchmark_xpmem_cached-runs_example =
    benchmark_xpmem_cached-runs two_pages 8192 2048 (world 8192) (omega arith) (omega arith)
      (omega arith) (omega arith) refl (omega arith) (λ _. (IsSource-two, by_page IsInPages-two))

benchmark_xpmem_nocache-runs_example :
    Returns
      (λ _ w'. IsDone two_pages 8192 4 (world 8192) w')
      (benchmark_xpmem_nocache two_pages 8192 2048 (world 8192))
benchmark_xpmem_nocache-runs_example =
    benchmark_xpmem_nocache-runs two_pages 8192 2048 (world 8192) (omega arith) (omega arith)
      (omega arith) (omega arith) refl (omega arith) (λ _. (IsSource-two, by_page IsInPages-two))
      (λ _. omega arith)

xpmem_cached_main-runs_example :
    Returns
      (λ _ w'.
        (w'.comm ≡ xpmem_main_comm two_pages 4 [])
        × (is_sender two_pages ≡ false → (o : ℕ) → o < 8192 → w'.lbuf.cell (8192 + o) ≡ 4096 + o))
      (cached_main two_pages 3 2048 8192 (world 0))
xpmem_cached_main-runs_example =
    xpmem_cached_main-runs two_pages 8192 2048 (world 0) (omega arith) (omega arith) (omega arith)
      refl (omega arith) (omega arith) (λ _. (IsSource-two, by_page IsInPages-two))

xpmem_nocache_main-runs_example :
    Returns
      (λ _ w'.
        (w'.comm ≡ xpmem_main_comm two_pages 4 [])
        × (is_sender two_pages ≡ false → (o : ℕ) → o < 8192 → w'.lbuf.cell (8192 + o) ≡ 4096 + o))
      (nocache_main two_pages 3 2048 8192 (world 0))
xpmem_nocache_main-runs_example =
    xpmem_nocache_main-runs two_pages 8192 2048 (world 0) (omega arith) (omega arith) (omega arith)
      refl (omega arith) (omega arith) (λ _. (IsSource-two, by_page IsInPages-two))
      (λ _. omega arith)
