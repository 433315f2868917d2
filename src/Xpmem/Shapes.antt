-- ===== src/Xpmem/Shapes.antt =====
-- The loops of benchmark_xpmem_nocache and benchmark_xpmem_cached in src/bench.c at a receiver, for
-- the blocks that can be attached.
use mpidt_benchmark.Base.{ℕ, ◌+◌, ◌*◌, ◌^◌, ◌≤◌, ◌<◌, ◌≡◌, ◌≢◌, refl, sym, ◌∙◌, arith, false, []}
use mpidt_benchmark.World.{Env, World, is_sender}
use mpidt_benchmark.World.Returns.{Returns}
use mpidt_benchmark.Shmem.{num_iter, skip_iter}
use mpidt_benchmark.Cma.{iovec_bytes}
use mpidt_benchmark.Xpmem.{no_page, nocache_loop, cached_loop}
use mpidt_benchmark.Xpmem.Attach.{IsSource}
use mpidt_benchmark.Xpmem.Attach.Large.{attach_large}
use mpidt_benchmark.Xpmem.Attach.Small.{IsInPages, other_page, page_at, last_page, attach_small}
use mpidt_benchmark.Xpmem.Loops.{Called, HasBytes, nocache_loop-receiver}
use mpidt_benchmark.Xpmem.Loops.Cached.{cached_loop-receiver}

-- The blocks that the benchmarks can attach: of at least a page, or inside of pages.
pub data IsShape (env : Env) (bs n : ℕ) : Type 0 where
  by_block : env.page_size ≤ bs → IsShape env bs n
  by_page : IsInPages env bs n → IsShape env bs n

module _ (env : Env) (bs n : ℕ) (source : IsSource env bs n) (shape : IsShape env bs n)
    (r : is_sender env ≡ false) (lb size : ℕ) (fits : lb + n * bs < 2 ^ 64) (room : n * bs ≤ size)
    (count : n * iovec_bytes < 2 ^ 31) where
  some_block : env.page_size < n * bs → 0 < n
  some_block more = grind arith

  pub cached_loop-Ends :
      (w : World)
      → w.lbuf.base ≡ lb
      → w.lbuf.size ≡ size
      → Returns
          (λ o w'.
            Called env n (num_iter + skip_iter) w.comm o w'
            × HasBytes env bs n source r lb size fits room w')
          (cached_loop env n 110 0 [] no_page w)
  cached_loop-Ends w eb es =
      cached_loop-receiver env bs n source r lb size fits room count
        (λ v. elim shape [
          | by_block large ↦
              (no_page, attach_large env bs n source large n 0 no_page v (omega arith))
          | by_page pages ↦
              let a =
                attach_small env bs n source pages n 0 no_page v (omega arith)
                  (other_page λ e. absurd (omega arith)) in
              (a.0, a.1)
        ])
        109 w refl eb es

  -- Small blocks have to lie in more than one page, so that the last page is not the first.
  pub nocache_loop-Ends :
      (bs < env.page_size → env.page_size < n * bs)
      → (w : World) → w.lbuf.base ≡ lb
      → w.lbuf.size ≡ size
      → Returns
          (λ o w'.
            Called env n (num_iter + skip_iter) w.comm o w'
            × HasBytes env bs n source r lb size fits room w')
          (nocache_loop env n 110 0 no_page w)
  nocache_loop-Ends more w eb es = elim shape [
    | by_block large ↦
        nocache_loop-receiver env bs n source r lb size fits room (λ _. Unit {0})
          (λ last v _. (last, attach_large env bs n source large n 0 last v (omega arith), tt))
          count 110 0 no_page w tt
          (record { base = eb; same_size = es; got = λ z. absurd (omega arith) })
    | by_page pages ↦
        nocache_loop-receiver env bs n source r lb size fits room
          (λ last. last.page ≢ page_at env bs n source pages 0)
          (λ last v other.
            let a =
              attach_small env bs n source pages n 0 last v (omega arith) (other_page other) in
            (
              a.0,
              a.1,
              λ e.
                  last_page env bs n source pages (more pages.small)
                    (sym (a.2 (some_block (more pages.small))) ∙ e),
            ))
          count 110 0 no_page w (λ e. absurd (omega arith))
          (record { base = eb; same_size = es; got = λ z. absurd (omega arith) })
  ]
