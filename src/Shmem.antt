-- ===== src/Shmem.antt =====
-- The shared-memory copy of src/bench.c: the region's set-up and release, the sender's copy into it
-- and the receivers' copy out of it, and benchmark_shmem.
pub mod Copy
pub mod Iteration
pub mod Run
use mpidt_benchmark.Base.{
  ℕ, zero, suc, ◌+◌, ◌-◌, ◌*◌, ◌/◌, ◌^◌, Bool, true, false, not, Option, none, some, List, ◌==◌,
  if◌then◌else◌,
}
use mpidt_benchmark.Word.{narrow, rounds, ptr_add, add64}
use mpidt_benchmark.Memory.{Region, Result, ok, err, div_by_zero, memcpy, memset}
use mpidt_benchmark.Memory
use mpidt_benchmark.Iovec.{Iovec, at}
use mpidt_benchmark.World.{
  Env, World, M, ◌>>=◌, ◌>>◌, pure, when, assert, lift, get, set_lbuf, set_shmem, note, malloc, for,
  collective, barrier, shm_open, shm_close, ftruncate, mmap, munmap, wtime, free, is_sender,
  mpi_bcast, mpi_gather,
}

-- NUM_ITER and SKIP_ITER of include/util.h
abbrev pub num_iter : ℕ
num_iter = 100

abbrev pub skip_iter : ℕ
skip_iter = 10

-- `bufsize / blocksize`, which stops the process at a zero divisor.
unfoldable pub divide : ℕ → ℕ → Result ℕ
divide a b = if b == 0 then err div_by_zero else ok (a / b)

-- One memcpy of a copy loop: offset in the shared region, local address, length.
abbrev pub Copy : Type 0
Copy = ℕ → ℕ → ℕ → Region → Result Region

-- `memcpy(shmem_ptr + offset, base, len)` out of the buffer `lbuf`.
unfoldable pub store_shared : Region → Copy
store_shared lbuf offset addr len shmem = memcpy shmem (ptr_add shmem.base offset) lbuf addr len

-- `memcpy(base, shmem_ptr + offset, len)` into the local buffer.
unfoldable pub load_shared : Region → Copy
load_shared shmem offset addr len lbuf = memcpy lbuf addr shmem (ptr_add shmem.base offset) len

-- The loop over the blocks, from block `i` with `k` rounds left; the result is `sum`.
unfoldable pub copy_loop : Copy → List Iovec → ℕ → ℕ → ℕ → ℕ → Region → Result (Region × ℕ)
copy_loop copy liov zero i offset sum d = ok (d, sum)
copy_loop copy liov (suc k) i offset sum d = Memory.◌>>=◌ (at liov i) λ v.
    Memory.◌>>=◌ (copy offset v.iov_base v.iov_len d)
      λ d'. copy_loop copy liov k (suc i) (narrow (offset + v.iov_len)) (add64 sum v.iov_len) d'

-- The body that copy_to_shmem and copy_from_shmem share. The result goes through `int`.
unfoldable pub copy_blocks : Copy → List Iovec → ℕ → ℕ → Region → Result (Region × ℕ)
copy_blocks copy liov blocksize bufsize d = Memory.◌>>=◌ (divide bufsize blocksize) λ nblocks.
    Memory.◌>>=◌ (copy_loop copy liov (rounds (narrow nblocks)) 0 0 0 d) λ r. ok (r.0, narrow r.1)

unfoldable pub copy_to_shmem : Region → List Iovec → ℕ → ℕ → Region → Result (Region × ℕ)
copy_to_shmem lbuf = copy_blocks (store_shared lbuf)

unfoldable pub copy_from_shmem : Region → List Iovec → ℕ → ℕ → Region → Result (Region × ℕ)
copy_from_shmem shmem = copy_blocks (load_shared shmem)

-- Where nothing is mapped: MAP_FAILED, or an address that was unmapped.
abbrev pub unmapped : Region
unmapped = record { base = 2 ^ 64 - 1; size = 0; cell = λ _. 0 }

-- The return code of init_shmem, without its sign.
pub data InitStatus : Type 0 where
  done open_failed ftruncate_failed mmap_failed : InitStatus

module _ (env : Env) where
  -- The file descriptor is not kept: `env.opened` says whether it is a valid one.
  unfoldable pub init_shmem : ℕ → M InitStatus
  init_shmem bufsize =
      note shm_open
      >> (if not env.opened
          then pure open_failed
          else note (ftruncate bufsize)
            >> (if not env.truncated
                then pure ftruncate_failed
                else note (mmap bufsize) >> elim env.mapped [
                  | none ↦ set_shmem unmapped >> pure mmap_failed
                  | some base ↦
                      set_shmem (record { base = base; size = bufsize; cell = env.garbage })
                      >> pure done
                ]))

  -- The result of munmap is only printed.
  unfoldable pub cleanup_shmem : ℕ → M (Unit {0})
  cleanup_shmem bufsize =
      note (munmap bufsize) >> set_shmem unmapped >> when env.opened (note shm_close)

  -- `memset(lbuf, 'x', bufsize)` at the sender, zeros elsewhere.
  unfoldable pub fill_lbuf : ℕ → M (Unit {0})
  fill_lbuf bufsize = do
    w ← get
    r ← lift (memset w.lbuf w.lbuf.base (if is_sender env then b'x' else 0) bufsize)
    set_lbuf r

  -- `dummybuf`, the block that the gather fills: only the sender has it.
  unfoldable pub new_dummybuf : M (Option ℕ)
  new_dummybuf = if is_sender env then (malloc env.size >>= λ b. pure (some b)) else pure none

  unfoldable pub free_dummybuf : Option ℕ → M (Unit {0})
  free_dummybuf none = pure tt
  free_dummybuf (some b) = note (free b)

  unfoldable pub sender_copy : List Iovec → ℕ → ℕ → M (Unit {0})
  sender_copy liov blocksize bufsize = do
    w ← get
    r ← lift (copy_to_shmem w.lbuf liov blocksize bufsize w.shmem)
    set_shmem r.0
    assert (r.1 == bufsize)

  unfoldable pub receiver_copy : List Iovec → ℕ → ℕ → M (Unit {0})
  receiver_copy liov blocksize bufsize = do
    w ← get
    r ← lift (copy_from_shmem w.shmem liov blocksize bufsize w.lbuf)
    set_lbuf r.0
    assert (r.1 == bufsize)

  -- One iteration of the loop of benchmark_shmem. VALIDATE is 0.
  unfoldable pub shmem_iteration : List Iovec → ℕ → ℕ → ℕ → M (Unit {0})
  shmem_iteration liov bufsize blocksize i = do
    when (i == skip_iter) (note wtime)
    when (is_sender env) (sender_copy liov blocksize bufsize)
    mpi_bcast env 1
    when (not (is_sender env)) (receiver_copy liov blocksize bufsize)
    mpi_gather env

  -- The latency, a float computed from the two times, is not modelled.
  unfoldable pub benchmark_shmem : List Iovec → ℕ → ℕ → M (Unit {0})
  benchmark_shmem liov bufsize blocksize = do
    dummybuf ← new_dummybuf
    fill_lbuf bufsize
    for (num_iter + skip_iter) 0 (shmem_iteration liov bufsize blocksize)
    note wtime
    collective barrier
    free_dummybuf dummybuf
