-- ===== src/Pipeline.antt =====
-- The pipelined shared-memory copy: benchmark_shmem_pip of src/bench.c. The sender fills the shared
-- region in pieces of SHMEM_PIPELINE_DEPTH bytes and broadcasts after each one; a receiver waits for
-- the broadcast and empties the piece.
pub mod Pass
pub mod Send
pub mod Receive
pub mod Round
pub mod Bench
use mpidt_benchmark.Base.{
  ℕ, zero, suc, ◌+◌, ◌*◌, Bool, not, Option, List, ◌==◌, if◌then◌else◌, ltb, leb, ◌&&◌,
}
use mpidt_benchmark.Word.{narrow, rounds, ptr_add, add64, sub64}
use mpidt_benchmark.Memory.{Region, Result, ok, err, no_fuel}
use mpidt_benchmark.Memory
use mpidt_benchmark.Iovec.{Iovec, at}
use mpidt_benchmark.World.{
  Env, World, M, ◌>>=◌, ◌>>◌, pure, when, assert, lift, get, set_lbuf, set_shmem, note, for,
  collective, barrier, wtime, is_sender, mpi_bcast, mpi_gather,
}
use mpidt_benchmark.Shmem.{
  num_iter, skip_iter, divide, Copy, store_shared, load_shared, fill_lbuf, new_dummybuf,
  free_dummybuf,
}

-- SHMEM_PIPELINE_DEPTH of include/util.h
abbrev pub pipeline_depth : ℕ
pipeline_depth = 65536

-- iovcnt, iov_off, shm_off and nread: the next block, the bytes of it that are done, the offset in
-- the shared region, and the bytes in all.
pub record Cursor : Type 0 where
  pub iovcnt : ℕ
  pub iov_off : ℕ
  pub shm_off : ℕ
  pub nread : ℕ

abbrev pub cursor : ℕ → ℕ → ℕ → ℕ → Cursor
cursor c o s n = record { iovcnt = c; iov_off = o; shm_off = s; nread = n }

-- The cursor behind the rest of a block, of `len` bytes, and inside a block.
unfoldable pub next_block : Cursor → ℕ → Cursor
next_block p len = cursor (suc p.iovcnt) 0 (narrow (p.shm_off + len)) (add64 p.nread len)

unfoldable pub inside_block : Cursor → ℕ → Cursor
inside_block p len =
    cursor p.iovcnt (narrow (p.iov_off + len)) (narrow (p.shm_off + len)) (add64 p.nread len)

-- `while (capacity > 0)`, on fuel; `capacity + 1` rounds are enough where blocks are not empty.
unfoldable pub pass : ℕ → Copy → List Iovec → ℕ → Cursor → Region → Result (Cursor × Region)
pass zero copy liov capacity p d = err no_fuel
pass (suc fuel) copy liov capacity p d =
    if capacity == 0
    then ok (p, d)
    else (Memory.◌>>=◌ (at liov p.iovcnt) λ v.
        let left = sub64 v.iov_len p.iov_off in
        if leb left capacity
        then (Memory.◌>>=◌ (copy p.shm_off (ptr_add v.iov_base p.iov_off) left d)
            λ d'. pass fuel copy liov (sub64 capacity left) (next_block p left) d')
        else (Memory.◌>>=◌ (copy p.shm_off (ptr_add v.iov_base p.iov_off) capacity d)
            λ d'. pass fuel copy liov (sub64 capacity capacity) (inside_block p capacity) d'))

-- The inner loops of the sender and of a receiver.
unfoldable pub fill : Region → List Iovec → ℕ → Cursor → Region → Result (Cursor × Region)
fill lbuf liov full = pass (suc full) (store_shared lbuf) liov full

unfoldable pub drain : Region → List Iovec → ℕ → Cursor → Region → Result (Cursor × Region)
drain shmem liov full = pass (suc full) (load_shared shmem) liov full

module _ (env : Env) (full : ℕ) (liov : List Iovec) where
  -- `while (iovcnt < niov)` of the sender, on fuel.
  unfoldable pub send_loop : ℕ → ℕ → Cursor → M Cursor
  send_loop zero niov p = λ _. err no_fuel
  send_loop (suc fuel) niov p =
      if ltb p.iovcnt (rounds niov)
      then (do
        w ← get
        r ← lift (fill w.lbuf liov full p w.shmem)
        set_shmem r.1
        mpi_bcast env 1
        send_loop fuel niov r.0)
      else pure p

  unfoldable pub recv_loop : ℕ → ℕ → Cursor → M Cursor
  recv_loop zero niov p = λ _. err no_fuel
  recv_loop (suc fuel) niov p =
      if ltb p.iovcnt (rounds niov)
      then (do
        mpi_bcast env 1
        w ← get
        r ← lift (drain w.shmem liov full p w.lbuf)
        set_lbuf r.1
        recv_loop fuel niov r.0)
      else pure p

  -- The gather and the two assertions behind either loop.
  unfoldable pub finish : ℕ → ℕ → Cursor → M (Unit {0})
  finish niov bufsize p = do mpi_gather env; assert (p.iovcnt == niov); assert (p.nread == bufsize)

  -- What an iteration does between its time stamps, with fuel for one byte a broadcast.
  unfoldable pub pip_round : ℕ → ℕ → M (Unit {0})
  pip_round bufsize blocksize = do
    nblocks ← lift (divide bufsize blocksize)
    let niov = narrow nblocks
    let start = cursor 0 0 0 0
    let sending = send_loop (suc bufsize) niov start >>= finish niov bufsize
    let receiving = recv_loop (suc bufsize) niov start >>= finish niov bufsize
    if is_sender env then sending else receiving

  -- One iteration of the loop of benchmark_shmem_pip.
  unfoldable pub pip_iteration : ℕ → ℕ → ℕ → M (Unit {0})
  pip_iteration bufsize blocksize j =
      when (j == skip_iter) (note wtime) >> pip_round bufsize blocksize

  -- The whole benchmark at a depth of `full` bytes.
  unfoldable pub run_pipeline : ℕ → ℕ → M (Unit {0})
  run_pipeline bufsize blocksize = do
    dummybuf ← new_dummybuf env
    fill_lbuf env bufsize
    for (num_iter + skip_iter) 0 (pip_iteration bufsize blocksize)
    note wtime
    collective barrier
    free_dummybuf env dummybuf

unfoldable pub benchmark_shmem_pip : Env → List Iovec → ℕ → ℕ → M (Unit {0})
benchmark_shmem_pip env liov = run_pipeline env pipeline_depth liov
