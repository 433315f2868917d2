-- ===== src/Handshake/Invariant.antt =====
-- What holds between two steps of the sender and the receivers of benchmark_shmem.
use mpidt_benchmark.Base.{ℕ, ◌+◌, ◌%◌, ◌≤◌, ◌<◌, ◌≡◌, inl, inr, ap, ◌∙◌, arith, ◌==◌, Bool-cases}
use mpidt_benchmark.Memory.{Region, ok, blit}
use mpidt_benchmark.Shmem.{copy_to_shmem, copy_from_shmem}
use mpidt_benchmark.Shmem.Copy.{
  Fits, whole_iovec, covered, copy_to_shmem-blit, copy_from_shmem-blit,
}
use mpidt_benchmark.Shmem.Iteration.{covered-eq}
use mpidt_benchmark.Joint.{update, iterations, mapped}
use mpidt_benchmark.Handshake.{Stage, at_head, at_middle, at_gather, Process, Group, liov}

-- Whether a process is past its first call of an iteration, and past its second.
unfoldable pub busy : Stage → ℕ
busy at_head = 0
busy _ = 1

unfoldable pub last : Stage → ℕ
last at_gather = 1
last _ = 0

pub last-le-busy : (s : Stage) → last s ≤ busy s
unfolding last busy
last-le-busy at_head = omega arith
last-le-busy at_middle = omega arith
last-le-busy at_gather = omega arith

pub last-le : (s : Stage) → last s ≤ 1
unfolding last
last-le at_head = omega arith
last-le at_middle = omega arith
last-le at_gather = omega arith

pub at_head-weights : {s : Stage} → s ≡ at_head → (busy s ≡ 0) × (last s ≡ 0)
unfolding busy last
at_head-weights e = (ap busy e, ap last e)

pub at_middle-weights : {s : Stage} → s ≡ at_middle → (busy s ≡ 1) × (last s ≡ 0)
unfolding busy last
at_middle-weights e = (ap busy e, ap last e)

pub at_gather-weights : {s : Stage} → s ≡ at_gather → (busy s ≡ 1) × (last s ≡ 1)
unfolding busy last
at_gather-weights e = (ap busy e, ap last e)

pub update_all :
    {A : Type 0} (Q : ℕ → A → Type 0) (n : ℕ) (p : ℕ → A) (i : ℕ) (s : A)
    → Q i s
    → ((j : ℕ) → j < n → Q j (p j))
    → (j : ℕ) → j < n
    → Q j (update p i s j)
update_all Q n p i s new old j lt = elim (Bool-cases (j == i)) [
  | inl same ↦ let e : i ≡ j = ground arith in rw (same, ← e) new
  | inr other ↦ rw other (old j lt)
]

-- The buffers and mappings of a run, for whole blocks.
pub record IsReady (bufsize bs n base : ℕ) (bases : ℕ → ℕ) (lbuf : Region) (lbufs : ℕ → Region)
    : Type 0 where
  pub sender_fits : Fits lbuf (mapped base bufsize (λ _. 0)) bufsize bs
  pub receiver_fits :
      (i : ℕ) → i < n → Fits (lbufs i) (mapped (bases i) bufsize (λ _. 0)) bufsize bs
  pub whole : bufsize % bs ≡ 0

-- A receiver of a sender that is at iteration `s_round` and has entered `s_bcasts` broadcasts.
pub record IsFollower (content : ℕ → ℕ) (bufsize s_round s_bcasts : ℕ) (lbuf : Region) (p : Process)
    : Type 0 where
  pub left : p.bcasts ≡ p.round + busy p.stage
  pub rounds : p.round + busy p.stage ≤ iterations
  pub behind : p.bcasts ≤ s_bcasts
  pub not_passed : s_round ≤ p.round
  pub base : p.buf.base ≡ lbuf.base
  pub size : p.buf.size ≡ lbuf.size
  pub got :
      0 < p.round + last p.stage → (o : ℕ) → o < bufsize → p.buf.cell (lbuf.base + o) ≡ content o

pub record Inv (content : ℕ → ℕ) (bufsize n : ℕ) (lbuf : Region) (lbufs : ℕ → Region) (y : Group)
    : Type 0 where
  pub entered : y.sender.bcasts ≡ y.sender.round + last y.sender.stage
  pub rounds : y.sender.round + busy y.sender.stage ≤ iterations
  pub own : y.sender.buf ≡ lbuf
  pub stored :
      0 < y.sender.round + busy y.sender.stage → (o : ℕ) → o < bufsize → y.file o ≡ content o
  pub receiver :
      (i : ℕ)
      → i < n
      → IsFollower content bufsize y.sender.round y.sender.bcasts (lbufs i) (y.receivers i)

module _ (bufsize bs n base : ℕ) (bases : ℕ → ℕ) (lbuf : Region) (lbufs : ℕ → Region)
    (setup : IsReady bufsize bs n base bases lbuf lbufs) where
  open setup use {sender_fits, receiver_fits, whole}

  content : ℕ → ℕ
  content o = lbuf.cell (lbuf.base + o)

  abbrev pub IsInv : Group → Type 0
  IsInv = Inv (λ o. lbuf.cell (lbuf.base + o)) bufsize n lbuf lbufs

  all_covered : covered bufsize bs ≡ bufsize
  all_covered = covered-eq bufsize bs whole

  -- The copies of the sender and of a receiver.
  pub sender_copies :
      (y : Group)
      → y.sender.buf ≡ lbuf
      → copy_to_shmem y.sender.buf
          (liov bufsize bs y.sender)
          bs
          bufsize
          (mapped base bufsize y.file)
        ≡ ok (blit (mapped base bufsize y.file) base lbuf lbuf.base bufsize, bufsize)
  sender_copies y own =
      let f : Fits lbuf (mapped base bufsize y.file) bufsize bs = omega (arith, sender_fits) in
      ap
        (λ (r : Region).
          copy_to_shmem r (whole_iovec r.base bufsize bs) bs bufsize (mapped base bufsize y.file))
        own
      ∙ copy_to_shmem-blit f
      ∙ ap (λ (k : ℕ). ok (blit (mapped base bufsize y.file) base lbuf lbuf.base k, k)) all_covered

  pub receiver_copies :
      (y : Group) (i : ℕ)
      → i < n
      → (y.receivers i).buf.base ≡ (lbufs i).base
      → (y.receivers i).buf.size ≡ (lbufs i).size
      → copy_from_shmem
          (mapped (bases i) bufsize y.file)
          (liov bufsize bs (y.receivers i))
          bs
          bufsize
          (y.receivers i).buf
        ≡ ok (
          blit
              (y.receivers i).buf
              (y.receivers i).buf.base
              (mapped (bases i) bufsize y.file)
              (bases i)
              bufsize,
          bufsize,
        )
  receiver_copies y i lt eb es =
      let g = receiver_fits i lt in
      let f : Fits (y.receivers i).buf (mapped (bases i) bufsize y.file) bufsize bs =
        omega (arith, g, eb, es) in
      copy_from_shmem-blit f
      ∙ ap
          (λ (k : ℕ). ok (
            blit (y.receivers i).buf (y.receivers i).buf.base (mapped (bases i) bufsize y.file)
                (bases i) k,
            k,
          ))
          all_covered

  -- A receiver between its broadcast and its copy is in the sender's iteration, and the sender waits
  -- in the gather.
  pub waiting :
      (y : Group) (inv : IsInv y) (i : ℕ)
      → i < n
      → (y.receivers i).stage ≡ at_middle
      → ((y.receivers i).round ≡ y.sender.round) × (last y.sender.stage ≡ 1)
  waiting y inv i lt middle =
      let r = inv.receiver i lt in
      let (b, _) = at_middle-weights middle in
      let small = last-le y.sender.stage in
      (
        omega (arith, inv.entered, r.left, r.behind, r.not_passed),
        omega (arith, inv.entered, r.left, r.behind, r.not_passed),
      )
