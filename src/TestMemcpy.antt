-- ===== src/TestMemcpy.antt =====
-- src/misc-tests/test_memcpy.c: memcpy between two buffers of one process, for every power of two up
-- to the size of the buffers. The second buffer is the local one.
pub mod Run
use mpidt_benchmark.Base.{ℕ, ◌+◌, ◌*◌, ◌%◌, Bool, if◌then◌else◌, ◌==◌}
use mpidt_benchmark.Memory.{Region, memcpy, memset}
use mpidt_benchmark.World.{
  Env, World, M, ◌>>=◌, ◌>>◌, pure, when, lift, get, set_lbuf, note, malloc, for, print, wtime,
  memalign_lbuf,
}
use mpidt_benchmark.Bench.{sweep}

-- ITER and SKIP
abbrev pub iter : ℕ
iter = 100

abbrev pub skip : ℕ
skip = 10

abbrev pub bufsize : ℕ
bufsize = 1024 * 1024 * 32

-- `memset(buf, c, bufsize)` stores the low byte of `c`.
unfoldable pub clear : ℕ → M (Unit {0})
clear c = do w ← get; r ← lift (memset w.lbuf w.lbuf.base (c % 256) bufsize); set_lbuf r

unfoldable pub copy : Region → ℕ → ℕ → M (Unit {0})
copy sbuf size i = do
  when (i == skip) (note wtime)
  w ← get
  r ← lift (memcpy w.lbuf w.lbuf.base sbuf sbuf.base size)
  set_lbuf r

unfoldable pub round : Region → ℕ → M (Unit {0})
round sbuf size = do for (iter + skip) 0 (copy sbuf size); note wtime; note print

-- `sbase` is the address of the first buffer. Nothing is freed.
unfoldable pub main : Env → ℕ → M (Unit {0})
main env sbase = do
  lost ← malloc bufsize
  sblock ← malloc bufsize
  sbuf ← lift (
      memset (record { base = sbase; size = bufsize; cell = env.garbage }) sbase (0xFFFFFFFF % 256)
        bufsize)
  lost' ← malloc bufsize
  rblock ← memalign_lbuf env bufsize
  clear 0x00000000
  note print
  sweep (round sbuf) bufsize 65 1
