-- ===== src/ShmemDt/Fault.antt =====
-- The program of src/shmem_dt.c behind a failed ftruncate.
use mpidt_benchmark.Base.{ℕ, ◌/◌, ◌^◌, ◌≤◌, ◌<◌, List}
use mpidt_benchmark.Memory.{Region}
use mpidt_benchmark.Iovec.{Iovec, init_iovec}
use mpidt_benchmark.World.{Env, World}
use mpidt_benchmark.Shmem.{Copy}

-- What is mapped of a file that backs `backed` bytes.
abbrev short_file : Env → ℕ → Region
short_file env base = record { base = base; size = env.backed; cell = env.garbage }

-- The first iteration over such a file, with `k` more of them to come.
module _ (env : Env) (w : World) (bs bufsize : ℕ) (pos : 0 < bs) (short : w.shmem.size < bs)
    (int_range : bufsize < 2 ^ 31) (whole : bs ≤ bufsize) (end : w.shmem.base < 2 ^ 64) where
  abbrev liov : List Iovec
  liov = init_iovec w.lbuf.base bs (bufsize / bs) 0
