-- ===== src/Joint.antt =====
-- The sender and the receivers of benchmark_shmem_pip in src/bench.c together: they share one file,
-- each runs its own loops, and their steps interleave in any order that MPI_Bcast and MPI_Gather
-- allow.
pub mod Invariant
pub mod Loop
pub mod Pieces
pub mod Moves
pub mod Safety
pub mod Totals
pub mod Progress
pub mod Refine
use mpidt_benchmark.Base.{
  ℕ, zero, suc, ◌+◌, ◌-◌, ◌/◌, ◌≤◌, ◌<◌, ◌≡◌, Bool, true, false, List, ltb, ◌==◌, ◌&&◌,
  if◌then◌else◌,
}
use mpidt_benchmark.Word.{narrow, rounds}
use mpidt_benchmark.Memory.{Region, ok}
use mpidt_benchmark.Iovec.{Iovec}
use mpidt_benchmark.Shmem.{num_iter, skip_iter}
use mpidt_benchmark.Shmem.Copy.{whole_iovec}
use mpidt_benchmark.Pipeline.{Cursor, cursor, fill, drain}

-- Where a process is in an iteration: at the head of its outer loop; or in the body, which is behind
-- the inner loop and in front of the broadcast at the sender, and behind the broadcast and in front
-- of the inner loop at a receiver.
pub data Phase : Type 0 where
  at_loop in_body : Phase

-- One process: the iterations that are behind it, its cursor, its phase, the broadcasts that it has
-- left, and its local buffer.
pub record Side : Type 0 where
  pub round : ℕ
  pub at : Cursor
  pub phase : Phase
  pub bcasts : ℕ
  pub buf : Region

-- The bytes of the shared file, and the processes.
pub record System : Type 0 where
  pub file : ℕ → ℕ
  pub sender : Side
  pub receivers : ℕ → Side

abbrev pub update {ℓ} : {A : Type ℓ} → (ℕ → A) → ℕ → A → ℕ → A
update f i a j = if j == i then a else f j

abbrev pub iterations : ℕ
iterations = num_iter + skip_iter

-- A process's mapping of the file.
abbrev pub mapped : ℕ → ℕ → (ℕ → ℕ) → Region
mapped base size file = record { base = base; size = size; cell = λ a. file (a - base) }

module _ (full bufsize bs : ℕ) where
  -- `iovcnt < niov`
  unfoldable pub going : Cursor → Bool
  going p = ltb p.iovcnt (rounds (narrow (bufsize / bs)))

  -- The two assertions behind the outer loop.
  unfoldable pub complete : Cursor → Bool
  complete p = p.iovcnt == narrow (bufsize / bs) && p.nread == bufsize

  abbrev pub array : Side → List Iovec
  array p = whole_iovec p.buf.base bufsize bs

  -- The steps of a sender that maps the file at `base`, and of `n` receivers that map it at `bases`.
  -- A receiver leaves its b-th broadcast after the sender has entered the b-th. The sender leaves its
  -- gather after all the receivers have entered it; a receiver need not wait.
  pub data Step (n base : ℕ) (bases : ℕ → ℕ) : System → System → Type 0 where
    store :
        (y : System) (p : Cursor) (d : Region)
        → y.sender.round < iterations
        → y.sender.phase ≡ at_loop
        → going y.sender.at ≡ true
        → fill y.sender.buf (array y.sender) full y.sender.at (mapped base bufsize y.file)
          ≡ ok (p, d)
        → Step n base bases y (record y {
          file = λ o. d.cell (base + o);
          sender = record y.sender { at = p; phase = in_body };
        })
    announce :
        (y : System)
        → y.sender.phase ≡ in_body
        → Step n base bases y (record y {
          sender = record y.sender { phase = at_loop; bcasts = suc y.sender.bcasts };
        })
    collect :
        (y : System)
        → y.sender.round < iterations
        → y.sender.phase ≡ at_loop
        → going y.sender.at ≡ false
        → complete y.sender.at ≡ true
        → ((i : ℕ) → i < n → y.sender.round < (y.receivers i).round)
        → Step n base bases y (record y {
          sender = record y.sender { round = suc y.sender.round; at = cursor 0 0 0 0 };
        })
    hear :
        (y : System) (i : ℕ)
        → i < n
        → (y.receivers i).round < iterations
        → (y.receivers i).phase ≡ at_loop
        → going (y.receivers i).at ≡ true
        → (y.receivers i).bcasts < y.sender.bcasts
        → Step n base bases y (record y {
          receivers =
              update y.receivers i
                (record (y.receivers i) { phase = in_body; bcasts = suc (y.receivers i).bcasts });
        })
    load :
        (y : System) (i : ℕ) (p : Cursor) (d : Region)
        → i < n
        → (y.receivers i).phase ≡ in_body
        → drain
            (mapped (bases i) bufsize y.file)
            (array (y.receivers i))
            full
            (y.receivers i).at
            (y.receivers i).buf
          ≡ ok (p, d)
        → Step n base bases y (record y {
          receivers =
              update y.receivers i (record (y.receivers i) { at = p; phase = at_loop; buf = d });
        })
    join :
        (y : System) (i : ℕ)
        → i < n
        → (y.receivers i).round < iterations
        → (y.receivers i).phase ≡ at_loop
        → going (y.receivers i).at ≡ false
        → complete (y.receivers i).at ≡ true
        → Step n base bases y (record y {
          receivers =
              update y.receivers i
                (record (y.receivers i) { round = suc (y.receivers i).round; at = cursor 0 0 0 0 });
        })

  pub data Reach (n base : ℕ) (bases : ℕ → ℕ) (x : System) : System → Type 0 where
    here : Reach n base bases x x
    next : {y z : System} → Reach n base bases x y → Step n base bases y z → Reach n base bases x z

-- A process in front of its first iteration.
abbrev pub fresh : Region → Side
fresh buf = record { round = 0; at = cursor 0 0 0 0; phase = at_loop; bcasts = 0; buf = buf }

abbrev pub start : (ℕ → ℕ) → Region → (ℕ → Region) → System
start file lbuf lbufs = record {
  file = file;
  sender = fresh lbuf;
  receivers = λ i. fresh (lbufs i);
}
