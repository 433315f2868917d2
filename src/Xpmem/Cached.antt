-- ===== src/Xpmem/Cached.antt =====
-- benchmark_xpmem_cached of src/bench.c where the sender's buffer lies in one page.
use mpidt_benchmark.Base.{
  ℕ, suc, ◌+◌, ◌*◌, ◌/◌, ◌^◌, ◌≤◌, ◌<◌, ◌≡◌, arith, true, false, ◌∷◌, repeat_append, mul_mono,
}
use native.Mathlib.Nat.{mod-eq_of_lt}
use mpidt_benchmark.World.{Env, World, bcast, barrier, is_sender}
use mpidt_benchmark.World.Returns
use mpidt_benchmark.World.Returns.{Returns}
use mpidt_benchmark.Shmem.{num_iter, skip_iter}
use mpidt_benchmark.Cma.{iovec_bytes}
use mpidt_benchmark.Cma.Iteration.{cma_comm}
use mpidt_benchmark.Xpmem.{benchmark_xpmem_cached}
use mpidt_benchmark.Xpmem.Page.{OnePage}
use mpidt_benchmark.Xpmem.Attach.{IsSource}
use mpidt_benchmark.Xpmem.Attach.Small.{IsInPages}
use mpidt_benchmark.Xpmem.Shapes.{by_page}
use mpidt_benchmark.Xpmem.Run.{benchmark_xpmem_cached-runs}

OnePage-IsSource : (env : Env) (bs n : ℕ) → OnePage env bs n → IsSource env bs n
OnePage-IsSource env bs n p = record {
  entries = p.entries;
  positive = p.positive;
  readable = omega (arith, p.one, p.readable);
  end = omega (arith, p.one, p.end);
  int_range = p.int_range;
  works = p.works;
}

OnePage-IsInPages : (env : Env) (bs n : ℕ) → OnePage env bs n → IsInPages env bs n
OnePage-IsInPages env bs n p = record {
  aligned = p.aligned;
  not_null = p.not_null;
  small = p.small;
  inside = λ i h.
      let m : suc i * bs ≤ n * bs = mul_mono (suc i) n bs (omega arith) in
      rw (mod-eq_of_lt {n = i * bs} {m = env.page_size} (omega (arith, p.one, p.positive)))
        (omega (arith, p.one));
}

-- Where the blocks of the sender lie in one page, are smaller than it, and can be attached, a
-- receiver's run of benchmark_xpmem_cached with an XPMEM driver that works and a buffer that is large
-- enough, and an array whose bytes an int counts, ends without error: the bytes of all the whole blocks of the sender are in its own buffer,
-- after a broadcast of the segment's number, a broadcast and a gather in each of the 110 iterations,
-- and a barrier.
pub benchmark_xpmem_cached-receiver :
    (env : Env) (bufsize bs : ℕ) (w : World)
    → OnePage env bs (bufsize / bs)
    → 0 < bufsize / bs
    → env.xpmem_works ≡ true
    → is_sender env ≡ false
    → bufsize < 2 ^ 31
    → bufsize ≤ w.lbuf.size
    → w.lbuf.base + bufsize < 2 ^ 64
    → bufsize / bs * iovec_bytes < 2 ^ 31
    → Returns
        (λ _ w'.
          (w'.comm
            ≡ barrier
              ∷ repeat_append
                  (num_iter + skip_iter)
                  (cma_comm env (bufsize / bs))
                  (bcast env.sender env.segid_bytes ∷ w.comm))
          × ((o : ℕ)
              → o < bufsize / bs * bs
              → w'.lbuf.cell (w.lbuf.base + o) ≡ env.peer.cell (env.peer.base + o)))
        (benchmark_xpmem_cached env bufsize bs w)
benchmark_xpmem_cached-receiver env bufsize bs w p some_blocks works r int_range room fits count =
    let n = bufsize / bs in
    Returns.mono
      (benchmark_xpmem_cached-runs env bufsize bs w p.positive int_range room fits works count
        (λ _. (OnePage-IsSource env bs n p, by_page (OnePage-IsInPages env bs n p))))
      (λ _ w' done. (done.called, done.got r))
