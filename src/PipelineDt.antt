-- ===== src/PipelineDt.antt =====
-- src/shmem_pipeline_dt.c: the pipelined shared-memory benchmark as a program of its own.
pub mod Iteration
pub mod Run
use mpidt_benchmark.Base.{ℕ, not, Option, none, some, List, ◌==◌, if◌then◌else◌, ltb, ◌*◌, ◌+◌, suc}
use mpidt_benchmark.Word.{narrow}
use mpidt_benchmark.Iovec.{Iovec, init_iovec}
use mpidt_benchmark.World.{
  Env, M, ◌>>=◌, ◌>>◌, when, assert, lift, get, set_shmem, note, malloc, for, collective, init,
  barrier, finalize, shm_open, shm_close, ftruncate, mmap, munmap, print, wtime, free, is_sender,
  memalign_lbuf,
}
use mpidt_benchmark.Shmem.{
  unmapped, num_iter, skip_iter, divide, fill_lbuf, new_dummybuf, free_dummybuf,
}
use mpidt_benchmark.ShmemDt.{is_extended, address, backed_bytes}
use mpidt_benchmark.Pipeline.{cursor, pipeline_depth, send_loop, recv_loop, finish}

module _ (env : Env) where
  -- The iteration of the program: `niov = nblocks`, which was computed once.
  unfoldable pub iteration : List Iovec → ℕ → ℕ → ℕ → M (Unit {0})
  iteration liov nblocks bufsize j =
      let niov = narrow nblocks in
      let start = cursor 0 0 0 0 in
      let sending =
        send_loop env pipeline_depth liov (suc bufsize) niov start
        >>= finish env pipeline_depth liov niov bufsize in
      let receiving =
        recv_loop env pipeline_depth liov (suc bufsize) niov start
        >>= finish env pipeline_depth liov niov bufsize in
      when (j == skip_iter) (note wtime) >> (if is_sender env then sending else receiving)

  -- As in src/shmem_dt.c.
  unfoldable pub map_shared : ℕ → M (Unit {0})
  map_shared bufsize = do
    note shm_open
    when (not env.opened) (note print)
    note (ftruncate bufsize)
    when (not (is_extended env)) (note print)
    note (mmap bufsize)
    elim (address env) [
      | none ↦ note print >> set_shmem unmapped
      | some base ↦
          set_shmem (record { base = base; size = backed_bytes env bufsize; cell = env.garbage })
    ]

  -- From the barrier in front of the loop to the end of the program.
  unfoldable pub run : List Iovec → ℕ → ℕ → ℕ → ℕ → Option ℕ → M (Unit {0})
  run liov nblocks bufsize lbuf liov_block dummybuf = do
    collective barrier
    for (num_iter + skip_iter) 0 (iteration liov nblocks bufsize)
    note wtime
    collective barrier
    when (is_sender env) (note print)
    note (free lbuf)
    note (free liov_block)
    note (munmap bufsize)
    set_shmem unmapped
    free_dummybuf env dummybuf
    when env.opened (note shm_close)
    collective finalize

  unfoldable pub main : ℕ → ℕ → ℕ → M (Unit {0})
  main argc blocksize bufsize = do
    collective init
    assert (argc == 3)
    nblocks ← lift (divide bufsize blocksize)
    assert (ltb 0 blocksize)
    assert (ltb 0 bufsize)
    lost ← malloc bufsize
    lbuf ← memalign_lbuf env bufsize
    fill_lbuf env bufsize
    liov_block ← malloc (16 * nblocks)
    w ← get
    let liov = init_iovec w.lbuf.base blocksize nblocks 0
    dummybuf ← new_dummybuf env
    map_shared bufsize
    run liov nblocks bufsize lbuf liov_block dummybuf
