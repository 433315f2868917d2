-- ===== src/Handshake.antt =====
-- The sender and the receivers of benchmark_shmem in src/bench.c together: the broadcast (the RTS
-- packet) tells that the data is in the shared file, the gather (the FIN packet) that all have copied
-- it. Their steps interleave in any order that MPI_Bcast and MPI_Gather allow.
pub mod Invariant
pub mod Keep
pub mod Safety
pub mod Refine
use mpidt_benchmark.Base.{ℕ, suc, ◌+◌, ◌-◌, ◌<◌, ◌≡◌, List, true, ◌==◌}
use mpidt_benchmark.Memory.{Region, ok}
use mpidt_benchmark.Iovec.{Iovec}
use mpidt_benchmark.Shmem.{copy_to_shmem, copy_from_shmem}
use mpidt_benchmark.Shmem.Copy.{whole_iovec}
use mpidt_benchmark.Joint.{update, iterations, mapped}

-- Where a process is in an iteration: in front of the copy (of the broadcast at a receiver), between
-- the copy and the broadcast (between the broadcast and the copy), or in front of the gather.
pub data Stage : Type 0 where
  at_head at_middle at_gather : Stage

-- One process: the iterations that are behind it, its stage, the broadcasts that it has entered (or
-- left, at a receiver), and its local buffer.
pub record Process : Type 0 where
  pub round : ℕ
  pub stage : Stage
  pub bcasts : ℕ
  pub buf : Region

pub record Group : Type 0 where
  pub file : ℕ → ℕ
  pub sender : Process
  pub receivers : ℕ → Process

module _ (bufsize bs : ℕ) where
  abbrev pub liov : Process → List Iovec
  liov p = whole_iovec p.buf.base bufsize bs

  -- The steps of a sender that maps the file at `base`, and of `n` receivers that map it at `bases`.
  pub data Move (n base : ℕ) (bases : ℕ → ℕ) : Group → Group → Type 0 where
    store :
        (y : Group) (d : Region) (nread : ℕ)
        → y.sender.round < iterations
        → y.sender.stage ≡ at_head
        → copy_to_shmem y.sender.buf (liov y.sender) bs bufsize (mapped base bufsize y.file)
          ≡ ok (d, nread)
        → (nread == bufsize) ≡ true
        → Move n base bases y (record y {
          file = λ o. d.cell (base + o);
          sender = record y.sender { stage = at_middle };
        })
    announce :
        (y : Group)
        → y.sender.stage ≡ at_middle
        → Move n base bases y (record y {
          sender = record y.sender { stage = at_gather; bcasts = suc y.sender.bcasts };
        })
    collect :
        (y : Group)
        → y.sender.stage ≡ at_gather
        → ((i : ℕ) → i < n → y.sender.round < (y.receivers i).round)
        → Move n base bases y
            (record y { sender = record y.sender { stage = at_head; round = suc y.sender.round } })
    hear :
        (y : Group) (i : ℕ)
        → i < n
        → (y.receivers i).round < iterations
        → (y.receivers i).stage ≡ at_head
        → (y.receivers i).bcasts < y.sender.bcasts
        → Move n base bases y (record y {
          receivers =
              update y.receivers i
                (record (y.receivers i) { stage = at_middle; bcasts = suc (y.receivers i).bcasts });
        })
    load :
        (y : Group) (i : ℕ) (d : Region) (nread : ℕ)
        → i < n
        → (y.receivers i).stage ≡ at_middle
        → copy_from_shmem
            (mapped (bases i) bufsize y.file)
            (liov (y.receivers i))
            bs
            bufsize
            (y.receivers i).buf
          ≡ ok (d, nread)
        → (nread == bufsize) ≡ true
        → Move n base bases y (record y {
          receivers = update y.receivers i (record (y.receivers i) { stage = at_gather; buf = d });
        })
    join :
        (y : Group) (i : ℕ)
        → i < n
        → (y.receivers i).stage ≡ at_gather
        → Move n base bases y (record y {
          receivers =
              update y.receivers i
                (record (y.receivers i) { stage = at_head; round = suc (y.receivers i).round });
        })

  pub data Moves (n base : ℕ) (bases : ℕ → ℕ) (x : Group) : Group → Type 0 where
    none_yet : Moves n base bases x x
    one_more :
        {y z : Group} → Moves n base bases x y → Move n base bases y z → Moves n base bases x z

-- In front of the first iteration.
abbrev pub ready : Region → Process
ready buf = record { round = 0; stage = at_head; bcasts = 0; buf = buf }

abbrev pub begin : (ℕ → ℕ) → Region → (ℕ → Region) → Group
begin file lbuf lbufs = record {
  file = file;
  sender = ready lbuf;
  receivers = λ i. ready (lbufs i);
}
