-- ===== src/Xpmem/Stale.antt =====
-- benchmark_xpmem_nocache of src/bench.c where the sender's buffer lies in one page.
use mpidt_benchmark.Base.{
  ℕ, suc, ◌+◌, ◌-◌, ◌*◌, ◌/◌, ◌^◌, ◌≤◌, ◌<◌, ◌≡◌, refl, sym, ap, ◌∙◌, arith, true, false, ◌∷◌,
}
use mpidt_benchmark.Word.{narrow-id}
use mpidt_benchmark.Memory.{err, segfault}
use mpidt_benchmark.World.{Env, World, bcast, gather, alloc, is_sender, mpi_bcast}
use mpidt_benchmark.Shmem.{new_dummybuf}
use mpidt_benchmark.Shmem.Copy.{divide-ok}
use mpidt_benchmark.Shmem.Run.{filled, fill_lbuf-ok}
use mpidt_benchmark.Cma.{iovec_bytes}
use mpidt_benchmark.Cma.Iteration.{bcast_iov-ok}
use mpidt_benchmark.Xpmem.{no_page, nocache_loop, run_xpmem, benchmark_xpmem_nocache}
use mpidt_benchmark.Xpmem.Page.{OnePage, nocache_receive-first, nocache_receive-stale}

nocache_loop-stale :
    (env : Env) (bs n : ℕ) (p : OnePage env bs n) (k rest : ℕ) (w : World)
    → suc k ≡ n
    → is_sender env ≡ false
    → n * bs ≤ w.lbuf.size
    → w.lbuf.base + n * bs < 2 ^ 64
    → n * iovec_bytes < 2 ^ 31
    → nocache_loop env (suc k) (suc (suc rest)) 0 no_page w ≡ err segfault
unfolding nocache_loop mpi_bcast
nocache_loop-stale env bs n p k rest w e r room fits count =
    let w1 = record w {
      shmem = record w.shmem { cell = env.shared w.bcasts };
      bcasts = suc w.bcasts;
      comm = bcast env.sender (suc k * iovec_bytes) ∷ w.comm;
    } in
    let small : suc k * iovec_bytes < 2 ^ 31 = omega arith in
    let (s, w2, run, gone) = nocache_receive-first env bs n p k w1 e room fits in
    let w3 = record w2 {
      shmem = record w2.shmem { cell = env.shared w2.bcasts };
      bcasts = suc w2.bcasts;
      comm = bcast env.sender (suc k * iovec_bytes) ∷ gather env.sender 1 ∷ w2.comm;
    } in
    rw
      (
        bcast_iov-ok env (suc k) _ small,
        r,
        run,
        bcast_iov-ok env (suc k) _ small,
        r,
        nocache_receive-stale env bs n p s k w3 e gone,
      )
      refl

-- Where the blocks of the sender lie in one page, are smaller than it, and can be attached, a
-- receiver's run of benchmark_xpmem_nocache with an XPMEM driver that works and a buffer that is
-- large enough, and an array whose bytes an int counts, ends with an access to a segment that is not attached any more.
pub benchmark_xpmem_nocache-stale :
    (env : Env) (bufsize bs : ℕ) (w : World)
    → OnePage env bs (bufsize / bs)
    → 0 < bufsize / bs
    → env.xpmem_works ≡ true
    → is_sender env ≡ false
    → bufsize < 2 ^ 31
    → bufsize ≤ w.lbuf.size
    → w.lbuf.base + bufsize < 2 ^ 64
    → bufsize / bs * iovec_bytes < 2 ^ 31
    → benchmark_xpmem_nocache env bufsize bs w ≡ err segfault
unfolding benchmark_xpmem_nocache run_xpmem new_dummybuf mpi_bcast
benchmark_xpmem_nocache-stale env bufsize bs w p some_blocks works r int_range room fits count =
    let n = bufsize / bs in
    let k = n - 1 in
    let e : suc k ≡ n = omega arith in
    let le : n * bs ≤ bufsize = grind arith in
    let fewer : n ≤ bufsize = let b = p.positive in grind arith in
    let w1 = record w {
      lbuf = filled env w.lbuf bufsize;
      shmem = record w.shmem { cell = env.shared w.bcasts };
      bcasts = suc w.bcasts;
      blocks = suc w.blocks;
      comm = bcast env.sender env.segid_bytes ∷ w.comm;
      log = alloc w.blocks (8 * n) ∷ w.log;
    } in
    let loop = nocache_loop-stale env bs n p k 108 w1 e r (omega arith) (omega arith) count in
    let loop' : nocache_loop env n 110 0 no_page w1 ≡ err segfault =
      sym (ap (λ (t : ℕ). nocache_loop env t 110 0 no_page w1) e) ∙ loop in
    rw (divide-ok bufsize bs p.positive, narrow-id n (omega arith))
      (simp works (rw (r, fill_lbuf-ok env bufsize w room, loop') refl))
