-- ===== src/Joint/Pieces.antt =====
-- The passes of the sender and of a receiver over one piece of the shared file.
use mpidt_benchmark.Base.{
  ℕ, suc, ◌+◌, ◌-◌, ◌*◌, ◌%◌, ◌≤◌, ◌<◌, ◌≡◌, ◌⊎◌, inl, inr, refl, ap, sym, ◌∙◌, arith, true, dec_lt,
  Bool-cases, ◌==◌,
}
use mpidt_benchmark.Memory.{Region, ok, err, blit}
use mpidt_benchmark.Memory.Blit.{blit-inside, blit-below, blit-above}
use mpidt_benchmark.Shmem.Copy.{Fits, whole_iovec}
use mpidt_benchmark.Pipeline.{Cursor, fill, drain}
use mpidt_benchmark.Pipeline.Pass.{IsAt}
use mpidt_benchmark.Pipeline.Send.{IsDepth, fill-blit, nonempty_of_lt}
use mpidt_benchmark.Pipeline.Receive.{drain-blit}
use mpidt_benchmark.Joint.{Side, System, update, mapped}
use mpidt_benchmark.Joint.Invariant.{IsFilled, Inv}
use mpidt_benchmark.Joint.Loop.{blocks, piece_le}

pub ok-injective {ℓ} : {A : Type ℓ} {x y : A} → ok x ≡ ok y → x ≡ y
ok-injective {x} e = ap (λ r. elim r [ ok a ↦ a | err _ ↦ x ]) e

==→eq : (a b : ℕ) → (a == b) ≡ true → a ≡ b
==→eq a b h = ground arith

-- What holds at every index holds after an update at one.
pub update-all :
    (Q : ℕ → ℕ → ℕ → Side → Type 0) (n : ℕ) (done heard : ℕ → ℕ) (p : ℕ → Side) (i d h : ℕ)
    (s : Side)
    → Q i d h s
    → ((j : ℕ) → j < n → Q j (done j) (heard j) (p j))
    → (j : ℕ) → j < n
    → Q j (update done i d j) (update heard i h j) (update p i s j)
update-all Q n done heard p i d h s new old j lt = elim (Bool-cases (j == i)) [
  | inl same ↦ let e : i ≡ j = sym (==→eq j i same) in rw (same, ← e) new
  | inr other ↦ rw other (old j lt)
]

module _ (content : ℕ → ℕ) (full bufsize : ℕ) where
  -- One more piece.
  pub IsFilled-piece :
      (cell cell' : ℕ → ℕ) (k round : ℕ)
      → IsFilled content cell full bufsize k round
      → ((o : ℕ) → k * full ≤ o → o < k * full + full → cell' o ≡ content o)
      → ((o : ℕ) → (o < k * full) ⊎ (k * full + full ≤ o) → cell' o ≡ cell o)
      → IsFilled content cell' full bufsize (suc k) round
  IsFilled-piece cell cell' k round filled new old = record {
    held = λ o lt. elim (dec_lt o (k * full)) [
      | yes before ↦ old o (inl before) ∙ filled.held o before
      | no from ↦ new o (omega arith) (omega arith)
    ];
    kept = λ o some_round lt. elim (dec_lt o (k * full)) [
      | yes before ↦ old o (inl before) ∙ filled.held o before
      | no from ↦ elim (dec_lt o (k * full + full)) [
        | yes inside ↦ new o (omega arith) inside
        | no behind ↦ old o (inr (omega arith)) ∙ filled.kept o some_round lt
      ]
    ];
  }

  -- All the pieces, and a new iteration.
  pub IsFilled-round :
      (cell : ℕ → ℕ) (m round : ℕ)
      → m * full ≡ bufsize
      → IsFilled content cell full bufsize m round
      → IsFilled content cell full bufsize 0 (suc round)
  IsFilled-round cell m round even filled = record {
    held = λ o lt. absurd (omega arith);
    kept = λ o _ lt. filled.held o (omega arith);
  }

-- The processes of a run: the sender's buffer and mapping, and those of `n` receivers, for whole
-- blocks and `m` whole pieces, at least one.
pub record IsSetup (full bufsize bs m n base : ℕ) (bases : ℕ → ℕ) (lbuf : Region)
    (lbufs : ℕ → Region) : Type 0 where
  pub sender_fits : Fits lbuf (mapped base bufsize (λ _. 0)) bufsize bs
  pub receiver_fits :
      (i : ℕ) → i < n → Fits (lbufs i) (mapped (bases i) bufsize (λ _. 0)) bufsize bs
  pub depth : IsDepth full
  pub whole : bufsize % bs ≡ 0
  pub even : m * full ≡ bufsize
  pub some_pieces : 0 < m

module _ (full bufsize bs m n base : ℕ) (bases : ℕ → ℕ) (lbuf : Region) (lbufs : ℕ → Region)
    (setup : IsSetup full bufsize bs m n base bases lbuf lbufs) where
  open setup use {sender_fits, receiver_fits, depth, whole, even, some_pieces}

  abbrev pub content : ℕ → ℕ
  content o = lbuf.cell (lbuf.base + o)

  abbrev pub Holds : System → Type 0
  Holds = Inv content full bufsize bs m n lbuf lbufs

  -- The sender's pass over piece `k`.
  pub fill-piece :
      (y : System) (k : ℕ)
      → IsAt bs (k * full) y.sender.at
      → k < m
      → y.sender.buf ≡ lbuf
      → (p : Cursor) × (fill y.sender.buf
            (whole_iovec y.sender.buf.base bufsize bs)
            full
            y.sender.at
            (mapped base bufsize y.file)
          ≡ ok (
            p,
            blit (mapped base bufsize y.file) (base + k * full) lbuf (lbuf.base + k * full) full,
          ))
        × IsAt bs (suc k * full) p
  fill-piece y k at lt own =
      let file0 = mapped base bufsize (λ _. 0) in
      let all = blocks lbuf file0 full bufsize bs m sender_fits depth whole even in
      let le = piece_le lbuf file0 full bufsize bs m sender_fits depth whole even k lt in
      let d = depth.positive in
      let some_blocks =
        nonempty_of_lt lbuf file0 bufsize bs full sender_fits depth (k * full) (omega arith) in
      let (p, run, at') =
        fill-blit lbuf file0 bufsize bs full sender_fits depth (k * full) y.sender.at
          (mapped base bufsize y.file) at some_blocks (omega arith) refl refl in
      let same =
        ap
          (λ (r : Region).
            fill r (whole_iovec r.base bufsize bs) full y.sender.at (mapped base bufsize y.file))
          own in
      (p, same ∙ run, omega arith)

  -- A receiver's pass over piece `k`.
  pub drain-piece :
      (y : System) (i k : ℕ)
      → i < n
      → IsAt bs (k * full) (y.receivers i).at
      → k < m
      → (y.receivers i).buf.base ≡ (lbufs i).base
      → (y.receivers i).buf.size ≡ (lbufs i).size
      → (p : Cursor) × (drain
            (mapped (bases i) bufsize y.file)
            (whole_iovec (y.receivers i).buf.base bufsize bs)
            full
            (y.receivers i).at
            (y.receivers i).buf
          ≡ ok (
            p,
            blit
                (y.receivers i).buf
                ((lbufs i).base + k * full)
                (mapped (bases i) bufsize y.file)
                (bases i + k * full)
                full,
          ))
        × IsAt bs (suc k * full) p
  drain-piece y i k i_lt at lt eb es =
      let file0 = mapped (bases i) bufsize (λ _. 0) in
      let f = receiver_fits i i_lt in
      let all = blocks (lbufs i) file0 full bufsize bs m f depth whole even in
      let le = piece_le (lbufs i) file0 full bufsize bs m f depth whole even k lt in
      let d = depth.positive in
      let some_blocks =
        nonempty_of_lt (lbufs i) file0 bufsize bs full f depth (k * full) (omega arith) in
      let (p, run, at') =
        drain-blit (lbufs i) file0 bufsize bs full f depth (k * full) (y.receivers i).at
          (mapped (bases i) bufsize y.file) (y.receivers i).buf at some_blocks (omega arith) refl
          refl eb es in
      let same =
        ap
          (λ (b : ℕ).
            drain (mapped (bases i) bufsize y.file) (whole_iovec b bufsize bs) full
              (y.receivers i).at (y.receivers i).buf)
          eb in
      (p, same ∙ run, omega arith)

  -- The shared file after the sender's pass over piece `k`.
  pub file-piece :
      (file : ℕ → ℕ) (k round : ℕ)
      → IsFilled content file full bufsize k round
      → let d =
          blit (mapped base bufsize file) (base + k * full) lbuf (lbuf.base + k * full) full in
        IsFilled content (λ o. d.cell (base + o)) full bufsize (suc k) round
  file-piece file k round filled =
      let src = mapped base bufsize file in
      let d = blit src (base + k * full) lbuf (lbuf.base + k * full) full in
      IsFilled-piece content full bufsize file (λ o. d.cell (base + o)) k round filled
        (λ o lo hi.
          let split : base + o ≡ base + k * full + (o - k * full) = omega arith in
          let join' : lbuf.base + k * full + (o - k * full) ≡ lbuf.base + o = omega arith in
          ap d.cell split
          ∙ blit-inside src (base + k * full) lbuf (lbuf.base + k * full) full (o - k * full)
              (omega arith)
          ∙ ap lbuf.cell join')
        (λ o out.
          let back : base + o - base ≡ o = omega arith in
          elim out [
            | inl lt ↦
                blit-below src (base + k * full) lbuf (lbuf.base + k * full) full (base + o)
                  (omega arith)
                ∙ ap file back
            | inr ge ↦
                blit-above src (base + k * full) lbuf (lbuf.base + k * full) full (base + o)
                  (omega arith)
                ∙ ap file back
          ])

  -- A receiver's buffer after its pass over piece `k` of a file that holds the piece.
  pub buffer-piece :
      (buf : Region) (l : Region) (b : ℕ) (file : ℕ → ℕ) (k round : ℕ)
      → ((o : ℕ) → o < suc k * full → file o ≡ content o)
      → IsFilled content (λ o. buf.cell (l.base + o)) full bufsize k round
      → let d = blit buf (l.base + k * full) (mapped b bufsize file) (b + k * full) full in
        IsFilled content (λ o. d.cell (l.base + o)) full bufsize (suc k) round
  buffer-piece buf l b file k round shown filled =
      let src = mapped b bufsize file in
      let d = blit buf (l.base + k * full) src (b + k * full) full in
      IsFilled-piece content full bufsize (λ o. buf.cell (l.base + o)) (λ o. d.cell (l.base + o)) k
        round filled
        (λ o lo hi.
          let split : l.base + o ≡ l.base + k * full + (o - k * full) = omega arith in
          let back : b + k * full + (o - k * full) - b ≡ o = omega arith in
          ap d.cell split
          ∙ blit-inside buf (l.base + k * full) src (b + k * full) full (o - k * full) (omega arith)
          ∙ ap file back
          ∙ shown o (omega arith))
        (λ o out. elim out [
          | inl lt ↦
              blit-below buf (l.base + k * full) src (b + k * full) full (l.base + o) (omega arith)
          | inr ge ↦
              blit-above buf (l.base + k * full) src (b + k * full) full (l.base + o) (omega arith)
        ])
