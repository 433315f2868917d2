-- ===== src/Cma.antt =====
-- The copy by cross-memory attach: the read loop of src/bench.c and src/cma_dt.c, and benchmark_cma.
-- process_vm_readv is the kernel's, and a parameter.
pub mod Read
pub mod Iteration
pub mod Run
pub mod Fault
use mpidt_benchmark.Base.{ℕ, zero, suc, ◌+◌, ◌*◌, not, List, ◌==◌, if◌then◌else◌, ltb, ◌&&◌, ◌^◌}
use mpidt_benchmark.Word.{narrow, rounds, add64, sub64}
use mpidt_benchmark.Memory.{Region, Result, ok, err, mpi_error, no_fuel}
use mpidt_benchmark.Memory
use mpidt_benchmark.Iovec.{Iovec, slice}
use mpidt_benchmark.World.{
  Env, World, M, ◌>>=◌, ◌>>◌, pure, when, assert, lift, get, set_lbuf, note, for, collective,
  barrier, wtime, getpid, is_sender, mpi_bcast, mpi_gather,
}
use mpidt_benchmark.Shmem.{num_iter, skip_iter, divide, fill_lbuf, new_dummybuf, free_dummybuf}

-- process_vm_readv of the sender's process: local and remote entries and the local buffer; the
-- result as a 64-bit pattern (2^64 - 1 for -1), and the local buffer behind the call.
abbrev pub Readv : Type 0
Readv = List Iovec → List Iovec → Region → ℕ × Region

-- sizeof(pid_t) and sizeof(struct iovec)
abbrev pub pid_bytes : ℕ
pid_bytes = 4

abbrev pub iovec_bytes : ℕ
iovec_bytes = 16

-- `MPI_Bcast(iov, nblocks*sizeof(struct iovec), MPI_BYTE, ...)`: the count is an int there, and MPI
-- refuses a negative one.
unfoldable pub bcast_iov : Env → ℕ → M (Unit {0})
bcast_iov env nblocks w =
    let count = narrow (nblocks * iovec_bytes) in
    if ltb count (2 ^ 63) then mpi_bcast env count w else err mpi_error

-- `int curr_blks = (nblocks < CMA_IOV_LIMIT) ? nblocks : CMA_IOV_LIMIT`
unfoldable pub curr_blks : ℕ → ℕ → ℕ
curr_blks nblocks limit = if ltb nblocks limit then nblocks else limit

-- `while (remaining > 0 && iov_off < nblocks)`, on fuel; the result is total_copied and the local
-- buffer. The kernel is handed `curr_blks` entries from `iov_off`, of both arrays.
unfoldable pub read_loop :
    Readv → ℕ → ℕ → List Iovec → List Iovec → ℕ → ℕ → ℕ → ℕ → Region → Result (ℕ × Region)
read_loop read limit nblocks liov riov zero iov_off remaining total d = err no_fuel
read_loop read limit nblocks liov riov (suc fuel) iov_off remaining total d =
    if ltb 0 remaining && ltb iov_off nblocks
    then (Memory.◌>>=◌ (slice liov iov_off (curr_blks nblocks limit)) λ l.
        Memory.◌>>=◌ (slice riov iov_off (curr_blks nblocks limit)) λ r.
          let (bytes, d') = read l r d in
          read_loop read limit nblocks liov riov fuel (iov_off + curr_blks nblocks limit)
            (sub64 remaining bytes) (add64 total bytes) d')
    else ok (total, d)

module _ (env : Env) (read : Readv) (liov : List Iovec) where
  -- The receiver's side of an iteration, with one round of fuel for each block.
  unfoldable pub read_remote : ℕ → ℕ → M (Unit {0})
  read_remote nblocks bufsize = do
    w ← get
    r ←
        lift
          (read_loop read env.iov_limit nblocks liov env.peer_iov (suc nblocks) 0 bufsize 0 w.lbuf)
    set_lbuf r.1
    assert (r.0 == bufsize)

  -- What an iteration does between its time stamps. The broadcast hands the sender's array over.
  unfoldable pub cma_round : ℕ → ℕ → M (Unit {0})
  cma_round nblocks bufsize = do
    bcast_iov env nblocks
    when (not (is_sender env)) (read_remote (rounds nblocks) bufsize)
    mpi_gather env

  unfoldable pub cma_iteration : ℕ → ℕ → ℕ → M (Unit {0})
  cma_iteration nblocks bufsize j = when (j == skip_iter) (note wtime) >> cma_round nblocks bufsize

  unfoldable pub benchmark_cma : ℕ → ℕ → M (Unit {0})
  benchmark_cma bufsize blocksize = do
    quotient ← lift (divide bufsize blocksize)
    let nblocks = narrow quotient
    when (is_sender env) (note getpid)
    mpi_bcast env pid_bytes
    dummybuf ← new_dummybuf env
    fill_lbuf env bufsize
    for (num_iter + skip_iter) 0 (cma_iteration nblocks bufsize)
    note wtime
    collective barrier
    free_dummybuf env dummybuf
