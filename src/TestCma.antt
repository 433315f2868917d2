-- ===== src/TestCma.antt =====
-- src/misc-tests/test_cma.c: process_vm_readv of one entry, for every power of two up to the size of
-- the buffers.
pub mod Run
use mpidt_benchmark.Base.{ℕ, ◌+◌, ◌*◌, ◌%◌, not, List, [], ◌∷◌, Bool, if◌then◌else◌, ◌==◌}
use mpidt_benchmark.Memory.{Region, memset}
use mpidt_benchmark.Iovec.{Iovec, iovec}
use mpidt_benchmark.World.{
  Env, World, M, ◌>>=◌, ◌>>◌, pure, when, assert, get, set_lbuf, note, malloc, for, collective,
  init, barrier, finalize, getpid, print, wtime, free, is_sender, memalign_lbuf, mpi_bcast,
}
use mpidt_benchmark.Cma.{Readv, pid_bytes, iovec_bytes}
use mpidt_benchmark.TestMemcpy.{clear}
use mpidt_benchmark.Bench.{sweep}

-- ITER and SKIP
abbrev pub iter : ℕ
iter = 100

abbrev pub skip : ℕ
skip = 10

abbrev pub bufsize : ℕ
bufsize = 1024 * 1024 * 32

-- `heard size` is the entry that the sender broadcasts for a size.
module _ (env : Env) (read : Readv) (heard : ℕ → Iovec) where
  unfoldable pub read_once : ℕ → ℕ → M (Unit {0})
  read_once size i = do
    when (i == skip) (note wtime)
    w ← get
    let (nbytes, d) = read (iovec w.lbuf.base size ∷ []) (heard size ∷ []) w.lbuf
    set_lbuf d
    assert (nbytes == size)

  -- Only receivers read and print.
  unfoldable pub reads : ℕ → M (Unit {0})
  reads size = do for (iter + skip) 0 (read_once size); note wtime; note print

  -- The body of the loop over the sizes.
  unfoldable pub round : ℕ → M (Unit {0})
  round size = do mpi_bcast env iovec_bytes; when (not (is_sender env)) (reads size)

  -- Both memsets store the low byte of their value.
  unfoldable pub main : M (Unit {0})
  main = do
    collective init
    lost ← malloc bufsize
    block ← memalign_lbuf env bufsize
    when (is_sender env) (note getpid)
    clear (if is_sender env then 0xFFFFFFFF else 0x00000000)
    mpi_bcast env pid_bytes
    when (not (is_sender env)) (note print)
    collective barrier
    sweep round bufsize 65 1
    collective barrier
    note (free block)
    collective finalize
