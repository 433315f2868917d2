-- ===== src/Joint/Invariant.antt =====
-- What holds between two steps of the sender and the receivers of benchmark_shmem_pip.
use mpidt_benchmark.Base.{ℕ, suc, ◌+◌, ◌*◌, ◌≤◌, ◌<◌, ◌≡◌, ◌⊎◌}
use mpidt_benchmark.Memory.{Region}
use mpidt_benchmark.Pipeline.Pass.{IsAt}
use mpidt_benchmark.Joint.{Side, System, at_loop, in_body, iterations}

-- One process: `done` pieces are behind its cursor, and `heard` broadcasts of the iteration behind it.
-- `count` gives the phases in which they differ.
pub record IsSide (full bs m done heard : ℕ) (p : Side) : Type 0 where
  pub at : IsAt bs (done * full) p.at
  pub count : p.bcasts ≡ p.round * m + heard
  pub rounds : p.round ≤ iterations
  pub done_le : done ≤ m
  pub heard_le : heard ≤ m
  pub at_head : p.phase ≡ at_loop → done ≡ heard

-- The bytes `cell` are those of `content` in the pieces that are done, and in the whole buffer when
-- an iteration is behind.
pub record IsFilled (content cell : ℕ → ℕ) (full bufsize done round : ℕ) : Type 0 where
  pub held : (o : ℕ) → o < done * full → cell o ≡ content o
  pub kept : (o : ℕ) → 0 < round → o < bufsize → cell o ≡ content o

-- A receiver is in the sender's iteration and has left at most the broadcasts that the sender has
-- entered, or is an iteration ahead of a sender that waits in its gather.
abbrev pub Follows : ℕ → ℕ → ℕ → ℕ → ℕ → Type 0
Follows m s_round sent r_round heard =
    ((r_round ≡ s_round) × (heard ≤ sent)) ⊎ ((r_round ≡ suc s_round) × (heard ≡ 0) × (sent ≡ m))

pub record IsReceiver (content : ℕ → ℕ) (full bufsize bs m s_round sent done heard : ℕ)
    (lbuf : Region) (p : Side) : Type 0 where
  pub side : IsSide full bs m done heard p
  pub in_body_lag : p.phase ≡ in_body → heard ≡ suc done
  pub base : p.buf.base ≡ lbuf.base
  pub size : p.buf.size ≡ lbuf.size
  pub filled : IsFilled content (λ o. p.buf.cell (lbuf.base + o)) full bufsize done p.round
  pub follows : Follows m s_round sent p.round heard

pub record Inv (content : ℕ → ℕ) (full bufsize bs m n : ℕ) (lbuf : Region) (lbufs : ℕ → Region)
    (y : System) : Type 0 where
  pub stored : ℕ
  pub sent : ℕ
  pub done : ℕ → ℕ
  pub heard : ℕ → ℕ
  pub side : IsSide full bs m stored sent y.sender
  pub in_body_lead : y.sender.phase ≡ in_body → stored ≡ suc sent
  pub own : y.sender.buf ≡ lbuf
  pub filled : IsFilled content y.file full bufsize stored y.sender.round
  pub receiver :
      (i : ℕ)
      → i < n
      → IsReceiver content full bufsize bs m y.sender.round sent
          (done i)
          (heard i)
          (lbufs i)
          (y.receivers i)
