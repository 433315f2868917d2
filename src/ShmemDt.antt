-- ===== src/ShmemDt.antt =====
-- src/shmem_dt.c: the shared-memory benchmark as a program of its own.
pub mod Run
pub mod Fault
use mpidt_benchmark.Base.{
  ℕ, not, Option, none, some, List, ◌==◌, if◌then◌else◌, ltb, ◌*◌, ◌+◌, ◌&&◌, ◌||◌, Bool,
}
use mpidt_benchmark.Memory.{Region, Result, memset}
use mpidt_benchmark.Iovec.{Iovec, init_iovec}
use mpidt_benchmark.World.{
  Env, World, M, ◌>>=◌, ◌>>◌, pure, when, assert, lift, get, set_lbuf, set_shmem, note, malloc, for,
  collective, init, barrier, finalize, shm_open, shm_close, ftruncate, mmap, munmap, print, wtime,
  free, is_sender, memalign_lbuf, mpi_bcast, mpi_gather,
}
use mpidt_benchmark.Shmem.{
  unmapped, num_iter, skip_iter, divide, store_shared, load_shared, copy_blocks, fill_lbuf,
  new_dummybuf, free_dummybuf,
}

unfoldable pub copy_to_shmem : Region → List Iovec → ℕ → ℕ → Region → Result (Region × ℕ)
copy_to_shmem lbuf = copy_blocks (store_shared lbuf)

unfoldable pub copy_from_shmem : Region → List Iovec → ℕ → ℕ → Region → Result (Region × ℕ)
copy_from_shmem shmem = copy_blocks (load_shared shmem)

module _ (env : Env) where
  unfoldable pub send : List Iovec → ℕ → ℕ → M (Unit {0})
  send liov blocksize bufsize = do
    w ← get
    r ← lift (copy_to_shmem w.lbuf liov blocksize bufsize w.shmem)
    set_shmem r.0
    assert (r.1 == bufsize)

  unfoldable pub receive : List Iovec → ℕ → ℕ → M (Unit {0})
  receive liov blocksize bufsize = do
    w ← get
    r ← lift (copy_from_shmem w.shmem liov blocksize bufsize w.lbuf)
    set_lbuf r.0
    assert (r.1 == bufsize)

  unfoldable pub iteration : List Iovec → ℕ → ℕ → ℕ → M (Unit {0})
  iteration liov bufsize blocksize i = do
    when (i == skip_iter) (note wtime)
    when (is_sender env) (send liov blocksize bufsize)
    mpi_bcast env 1
    when (not (is_sender env)) (receive liov blocksize bufsize)
    mpi_gather env

  -- On the file descriptor of a failed open, -1, ftruncate and mmap fail too.
  abbrev pub is_extended : Bool
  is_extended = env.opened && env.truncated

  abbrev pub address : Option ℕ
  address = if env.opened then env.mapped else none

  -- What of the mapping can be accessed: the rest lies behind the end of the file.
  unfoldable pub backed_bytes : ℕ → ℕ
  backed_bytes bufsize = if is_extended || not (ltb env.backed bufsize) then bufsize else env.backed

  -- open, ftruncate and mmap, whose failures are only printed. After a failed mmap no address is
  -- mapped.
  unfoldable pub map_shared : ℕ → M (Unit {0})
  map_shared bufsize = do
    note shm_open
    when (not env.opened) (note print)
    note (ftruncate bufsize)
    when (not is_extended) (note print)
    note (mmap bufsize)
    elim address [
      | none ↦ note print >> set_shmem unmapped
      | some base ↦
          set_shmem (record { base = base; size = backed_bytes bufsize; cell = env.garbage })
    ]

  -- The sizes are what atoi yields, converted to size_t. The division comes before the assertion.
  unfoldable pub main : ℕ → ℕ → ℕ → M (Unit {0})
  main argc blocksize bufsize = do
    collective init
    assert (argc == 3)
    nblocks ← lift (divide bufsize blocksize)
    assert (ltb 0 blocksize)
    assert (ltb 0 bufsize)
    lost ← malloc bufsize
    lbuf ← memalign_lbuf env bufsize
    fill_lbuf env bufsize
    liov_block ← malloc (16 * nblocks)
    w ← get
    let liov = init_iovec w.lbuf.base blocksize nblocks 0
    map_shared bufsize
    dummybuf ← new_dummybuf env
    collective barrier
    for (num_iter + skip_iter) 0 (iteration liov bufsize blocksize)
    note wtime
    collective barrier
    when (is_sender env) (note print)
    note (free lbuf)
    note (free liov_block)
    note (munmap bufsize)
    set_shmem unmapped
    free_dummybuf env dummybuf
    when env.opened (note shm_close)
    collective finalize
