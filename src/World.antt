-- ===== src/World.antt =====
-- One process of a benchmark run: its buffers, the MPI calls that it has made, the operating
-- system's calls with their results, and a monad in which the C functions are written.
pub mod Returns
use mpidt_benchmark.Base.{
  ℕ, zero, suc, ◌+◌, Bool, true, false, not, Option, none, some, List, [], ◌∷◌, ◌==◌, if◌then◌else◌,
}
use mpidt_benchmark.Iovec.{Iovec}
use mpidt_benchmark.Memory
use mpidt_benchmark.Memory.{Region, Result, ok, err, Error, assert_failed}

-- The collective calls on MPI_COMM_WORLD, with root and byte count.
pub data Comm : Type 0 where
  init barrier finalize : Comm
  bcast : ℕ → ℕ → Comm
  gather : ℕ → ℕ → Comm

-- What the process asks of the C library and the kernel. Heap blocks are numbered.
pub data Event : Type 0 where
  alloc : ℕ → ℕ → Event
  free : ℕ → Event
  shm_open shm_close wtime print getpid : Event
  ftruncate mmap munmap : ℕ → Event
  seg_make seg_get seg_release : Event
  attach : ℕ → ℕ → Event
  detach : ℕ → Event

-- A live XPMEM attachment: its number, which stands for its local address, the address in the
-- other process, and the length.
pub record Mapping : Type 0 where
  pub segment : ℕ
  pub remote : ℕ
  pub bytes : ℕ

-- What the process is given: its place among the processes, and the answers of the system.
-- `backed` is how many bytes of a mapping the shared file backs if ftruncate has failed.
-- `shared n` is what the shared file holds when the n-th broadcast returns to a receiver,
-- `peer_iov` the array that a receiver has behind the broadcast of it, `peer` the sender's buffer, `attached n` whether
-- the n-th xpmem_attach succeeds, and `junk_apid` whether an apid that was never set is not zero.
pub record Env : Type 0 where
  pub rank : ℕ
  pub size : ℕ
  pub sender : ℕ
  pub page_size : ℕ
  pub iov_limit : ℕ
  pub heap_base : ℕ
  pub garbage : ℕ → ℕ
  pub opened : Bool
  pub truncated : Bool
  pub backed : ℕ
  pub mapped : Option ℕ
  pub shared : ℕ → ℕ → ℕ
  pub peer_iov : List Iovec
  pub peer : Region
  pub xpmem_works : Bool
  pub segid_bytes : ℕ
  pub attached : ℕ → Bool
  pub junk_apid : Bool

pub record World : Type 0 where
  pub lbuf : Region
  pub shmem : Region
  pub maps : List Mapping
  pub attaches : ℕ
  pub bcasts : ℕ
  pub blocks : ℕ
  pub comm : List Comm
  pub log : List Event

abbrev pub M : Type 0 → Type 0
M A = World → Result (A × World)

abbrev pub pure : {A : Type 0} → A → M A
pure a w = ok (a, w)

infixl 5 ◌>>=◌ ◌>>◌
abbrev pub ◌>>=◌ : {A B : Type 0} → M A → (A → M B) → M B
◌>>=◌ m f w = Memory.◌>>=◌ (m w) (λ r. f r.0 r.1)

abbrev pub ◌>>◌ : {A B : Type 0} → M A → M B → M B
m >> n = m >>= λ _. n

abbrev pub when : Bool → M (Unit {0}) → M (Unit {0})
when b m = if b then m else pure tt

abbrev pub assert : Bool → M (Unit {0})
assert b w = if b then ok (tt, w) else err assert_failed

abbrev pub lift : {A : Type 0} → Result A → M A
lift r w = Memory.◌>>=◌ r (λ a. ok (a, w))

abbrev pub get : M World
get w = ok (w, w)

abbrev pub set_lbuf : Region → M (Unit {0})
set_lbuf r w = ok (tt, record w { lbuf = r })

abbrev pub set_shmem : Region → M (Unit {0})
set_shmem r w = ok (tt, record w { shmem = r })

abbrev pub note : Event → M (Unit {0})
note e w = ok (tt, record w { log = e ∷ w.log })

abbrev pub malloc : ℕ → M ℕ
malloc n w = ok (w.blocks, record w { blocks = suc w.blocks; log = alloc w.blocks n ∷ w.log })

abbrev pub collective : Comm → M (Unit {0})
collective c w = ok (tt, record w { comm = c ∷ w.comm })

-- `for (i = start; ...; i++)` with `k` rounds left.
unfoldable pub for : ℕ → ℕ → (ℕ → M (Unit {0})) → M (Unit {0})
for zero i body = pure tt
for (suc k) i body = body i >>= λ _. for k (suc i) body

module _ (env : Env) where
  abbrev pub is_sender : Bool
  is_sender = env.rank == env.sender

  -- A broadcast returns to a receiver only after the sender's call: from then on the receiver
  -- sees what the sender stored in the shared file before.
  unfoldable pub mpi_bcast : ℕ → M (Unit {0})
  mpi_bcast n w = ok (
    tt,
    record w {
      shmem = if is_sender then w.shmem else record w.shmem { cell = env.shared w.bcasts };
      bcasts = suc w.bcasts;
      comm = bcast env.sender n ∷ w.comm;
    },
  )

  abbrev pub mpi_gather : M (Unit {0})
  mpi_gather = collective (gather env.sender 1)

  -- `posix_memalign(&lbuf, PAGE_SIZE, bufsize)`: a new block, with what was there before.
  unfoldable pub memalign_lbuf : ℕ → M ℕ
  memalign_lbuf n w = ok (
    w.blocks,
    record w {
      lbuf = record { base = env.heap_base; size = n; cell = env.garbage };
      blocks = suc w.blocks;
      log = alloc w.blocks n ∷ w.log;
    },
  )
