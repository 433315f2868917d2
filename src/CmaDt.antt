-- ===== src/CmaDt.antt =====
-- src/cma_dt.c: the cross-memory benchmark as a program of its own.
pub mod Iteration
pub mod Run
use mpidt_benchmark.Base.{ℕ, not, List, ◌==◌, ltb, ◌*◌, ◌+◌, suc}
use mpidt_benchmark.Memory.{memset}
use mpidt_benchmark.Iovec.{Iovec, init_iovec}
use mpidt_benchmark.World.{
  Env, M, ◌>>=◌, ◌>>◌, when, assert, lift, get, set_lbuf, note, malloc, for, collective, init,
  barrier, finalize, getpid, print, wtime, free, is_sender, memalign_lbuf, mpi_bcast, mpi_gather,
}
use mpidt_benchmark.Shmem.{num_iter, skip_iter, divide, new_dummybuf, free_dummybuf}
use mpidt_benchmark.Cma.{Readv, bcast_iov, iovec_bytes, pid_bytes, read_loop}

module _ (env : Env) (read : Readv) where
  -- `nblocks` is a size_t here.
  unfoldable pub receive : List Iovec → ℕ → ℕ → M (Unit {0})
  receive liov nblocks bufsize = do
    w ← get
    r ←
        lift
          (read_loop read env.iov_limit nblocks liov env.peer_iov (suc nblocks) 0 bufsize 0 w.lbuf)
    set_lbuf r.1
    assert (r.0 == bufsize)

  unfoldable pub iteration : List Iovec → ℕ → ℕ → ℕ → M (Unit {0})
  iteration liov nblocks bufsize j = do
    when (j == skip_iter) (note wtime)
    bcast_iov env nblocks
    when (not (is_sender env)) (receive liov nblocks bufsize)
    mpi_gather env

  -- Every process fills its buffer with 'x', a receiver too.
  unfoldable pub fill_all : ℕ → M (Unit {0})
  fill_all bufsize = do w ← get; r ← lift (memset w.lbuf w.lbuf.base b'x' bufsize); set_lbuf r

  unfoldable pub main : ℕ → ℕ → ℕ → M (Unit {0})
  main argc blocksize bufsize = do
    collective init
    assert (argc == 3)
    nblocks ← lift (divide bufsize blocksize)
    assert (ltb 0 blocksize)
    assert (ltb 0 bufsize)
    when (is_sender env) (note getpid)
    lost ← malloc bufsize
    lbuf ← memalign_lbuf env bufsize
    fill_all bufsize
    liov_block ← malloc (16 * nblocks)
    riov_block ← malloc (16 * nblocks)
    w ← get
    let liov = init_iovec w.lbuf.base blocksize nblocks 0
    dummybuf ← new_dummybuf env
    mpi_bcast env pid_bytes
    collective barrier
    for (num_iter + skip_iter) 0 (iteration liov nblocks bufsize)
    note wtime
    when (is_sender env) (note print)
    note (free lbuf)
    free_dummybuf env dummybuf
    note (free liov_block)
    note (free riov_block)
    collective barrier
    collective finalize
