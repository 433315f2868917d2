-- ===== src/XpmemDt.antt =====
-- src/xpmem_dt.c and src/xpmem_cache_dt.c: the XPMEM benchmarks as programs of their own. The steps
-- of an iteration are those of src/bench.c.
pub mod Loops
pub mod Run
use mpidt_benchmark.Base.{
  Bool, true, false, ℕ, zero, suc, not, Option, List, [], ◌==◌, if◌then◌else◌, ltb, ◌*◌, ◌+◌,
}
use mpidt_benchmark.World.{
  Env, M, ◌>>=◌, ◌>>◌, pure, when, assert, lift, note, malloc, collective, init, barrier, finalize,
  seg_make, seg_get, print, wtime, free, is_sender, memalign_lbuf, mpi_bcast, mpi_gather,
}
use mpidt_benchmark.Shmem.{num_iter, skip_iter, divide, fill_lbuf, new_dummybuf, free_dummybuf}
use mpidt_benchmark.Cma.{bcast_iov}
use mpidt_benchmark.Xpmem.{
  Outcome, finished, gave_up, Last, no_page, Attached, failed, attached_all, attach_blocks,
  copy_out, detach_all, release_apid,
}

module _ (env : Env) where
  -- The loop of src/xpmem_dt.c; `nblocks` is a size_t.
  unfoldable pub nocache_loop : ℕ → ℕ → ℕ → Last → M Outcome
  nocache_loop nblocks zero j last = pure finished
  nocache_loop nblocks (suc k) j last =
      when (j == skip_iter) (note wtime)
      >> bcast_iov env nblocks
      >> (if is_sender env
          then (mpi_gather env >>= λ _. nocache_loop nblocks k (suc j) last)
          else (note seg_get >> attach_blocks env env.peer_iov nblocks 0 last >>= λ r. elim r [
            | failed ↦ pure gave_up
            | attached_all segs last' ↦
                copy_out env nblocks segs >> detach_all env segs >> mpi_gather env >>= λ _.
                nocache_loop nblocks k (suc j) last'
          ]))

  -- The loop of src/xpmem_cache_dt.c, where use_cache is 1.
  unfoldable pub cached_attach : ℕ → ℕ → List (Option ℕ) → Last → M Attached
  cached_attach nblocks j segs last =
      if j == 0
      then note seg_get >> attach_blocks env env.peer_iov nblocks 0 last
      else pure (attached_all segs last)

  unfoldable pub cached_loop : ℕ → ℕ → ℕ → List (Option ℕ) → Last → M Outcome
  cached_loop nblocks zero j segs last = pure finished
  cached_loop nblocks (suc k) j segs last =
      when (j == skip_iter) (note wtime)
      >> bcast_iov env nblocks
      >> (if is_sender env
          then (mpi_gather env >>= λ _. cached_loop nblocks k (suc j) segs last)
          else (cached_attach nblocks j segs last >>= λ r. elim r [
            | failed ↦ pure gave_up
            | attached_all segs' last' ↦
                copy_out env nblocks segs'
                >> when (suc j == num_iter + skip_iter) (detach_all env segs')
                >> mpi_gather env
                >>= λ _. cached_loop nblocks k (suc j) segs' last'
          ]))

  -- The two programs from xpmem_version to the end: `loop` is the loop of either. A driver that does
  -- not work is only reported. Only the sender prints, and it never jumps to fn_exit. The programs
  -- free the iovec array and dummybuf in different orders.
  unfoldable pub run : (ℕ → M Outcome) → Bool → ℕ → ℕ → M (Unit {0})
  run loop iov_first nblocks bufsize = do
    when (not env.xpmem_works) (note print)
    when (is_sender env) (note seg_make)
    mpi_bcast env env.segid_bytes
    lost ← malloc bufsize
    lbuf ← memalign_lbuf env bufsize
    fill_lbuf env bufsize
    iov_block ← malloc (16 * nblocks)
    seglist ← malloc (8 * nblocks)
    dummybuf ← new_dummybuf env
    collective barrier
    outcome ← loop nblocks
    elim outcome [ finished ↦ note wtime | gave_up ↦ pure tt ]
    when (is_sender env) (note print)
    release_apid env
    note (free seglist)
    note (free lbuf)
    when iov_first (note (free iov_block))
    free_dummybuf env dummybuf
    when (not iov_first) (note (free iov_block))
    collective barrier
    collective finalize

  unfoldable pub start : (ℕ → M Outcome) → Bool → ℕ → ℕ → ℕ → M (Unit {0})
  start loop iov_first argc blocksize bufsize = do
    collective init
    assert (argc == 3)
    nblocks ← lift (divide bufsize blocksize)
    assert (ltb 0 blocksize)
    assert (ltb 0 bufsize)
    run loop iov_first nblocks bufsize

  unfoldable pub nocache_main : ℕ → ℕ → ℕ → M (Unit {0})
  nocache_main = start (λ nblocks. nocache_loop nblocks (num_iter + skip_iter) 0 no_page) true

  unfoldable pub cached_main : ℕ → ℕ → ℕ → M (Unit {0})
  cached_main = start (λ nblocks. cached_loop nblocks (num_iter + skip_iter) 0 [] no_page) false
