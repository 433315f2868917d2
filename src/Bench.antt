-- ===== src/Bench.antt =====
-- `main` of src/bench.c: the arguments, and the sweep over the block sizes with all five benchmarks.
pub mod Sweep
pub mod Phases
pub mod Measure
pub mod Run
use mpidt_benchmark.Base.{
  ℕ, zero, suc, ◌*◌, ◌/◌, ◌%◌, ◌^◌, not, List, ◌==◌, if◌then◌else◌, ltb, leb, ◌&&◌,
}
use mpidt_benchmark.Memory.{err, no_fuel}
use mpidt_benchmark.Iovec.{Iovec, init_iovec}
use mpidt_benchmark.World.{
  Env, World, M, ◌>>=◌, ◌>>◌, pure, when, assert, lift, get, note, malloc, collective, init,
  barrier, finalize, print, free, is_sender, memalign_lbuf,
}
use mpidt_benchmark.Shmem.{divide, init_shmem, cleanup_shmem, benchmark_shmem}
use mpidt_benchmark.Pipeline.{benchmark_shmem_pip}
use mpidt_benchmark.Cma.{Readv, benchmark_cma}
use mpidt_benchmark.Xpmem.{benchmark_xpmem_nocache, benchmark_xpmem_cached}

-- `while (blocksize <= max_bs) { ...; blocksize = (blocksize << 1); }`, on fuel.
unfoldable pub sweep : (ℕ → M (Unit {0})) → ℕ → ℕ → ℕ → M (Unit {0})
sweep body max_bs zero blocksize = λ _. err no_fuel
sweep body max_bs (suc fuel) blocksize =
    if leb blocksize max_bs
    then (body blocksize >>= λ _. sweep body max_bs fuel (blocksize * 2 % 2 ^ 64))
    else pure tt

-- `assert(min_bs <= max_bs && max_bs <= bufsize && max_bs > 0 && min_bs > 0)`
unfoldable pub check_sizes : ℕ → ℕ → ℕ → M (Unit {0})
check_sizes bufsize min_bs max_bs =
    assert (ltb 0 bufsize)
    >> assert (leb min_bs max_bs && leb max_bs bufsize && ltb 0 max_bs && ltb 0 min_bs)

module _ (env : Env) (read : Readv) where
  -- The body of the sweep at one block size. The result of init_shmem is not looked at.
  unfoldable pub measure : ℕ → ℕ → M (Unit {0})
  measure bufsize blocksize = do
    nblocks ← lift (divide bufsize blocksize)
    assert (ltb 0 blocksize)
    liov_block ← malloc (16 * nblocks)
    riov_block ← malloc (16 * nblocks)
    w ← get
    let liov = init_iovec w.lbuf.base blocksize nblocks 0
    status ← init_shmem env bufsize
    benchmark_shmem env liov bufsize blocksize
    collective barrier
    benchmark_shmem_pip env liov bufsize blocksize
    cleanup_shmem env bufsize
    collective barrier
    benchmark_cma env read liov bufsize blocksize
    collective barrier
    benchmark_xpmem_nocache env bufsize blocksize
    collective barrier
    benchmark_xpmem_cached env bufsize blocksize
    collective barrier
    when (env.rank == 0) (note print)
    note (free liov_block)
    note (free riov_block)

module _ (env : Env) (read : Readv) where
  -- The sizes are what atoi yields, converted to size_t. A block size below 2^64 is doubled at most
  -- 64 times. The first buffer, from malloc, is forgotten when posix_memalign stores the second.
  -- `sent blocksize` is the array that the sender broadcasts at a block size.
  unfoldable pub main : (ℕ → List Iovec) → ℕ → ℕ → ℕ → ℕ → M (Unit {0})
  main sent argc bufsize min_bs max_bs =
      collective init
      >> (if not (argc == 4) then note print >> collective finalize else (do
        check_sizes bufsize min_bs max_bs
        lost ← malloc bufsize
        lbuf ← memalign_lbuf env bufsize
        collective barrier
        when (is_sender env) (note print)
        sweep
            (λ blocksize. measure (record env { peer_iov = sent blocksize }) read bufsize blocksize)
            max_bs 65 min_bs
        note (free lbuf)
        collective finalize))
