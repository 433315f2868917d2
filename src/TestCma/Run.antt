-- ===== src/TestCma/Run.antt =====
-- The run of src/misc-tests/test_cma.c, at the sender and at a receiver.
use mpidt_benchmark.Base.{
  ℕ, suc, ◌+◌, ◌*◌, ◌/◌, ◌^◌, ◌≤◌, ◌<◌, ◌≡◌, ◌==◌, refl, ap, ◌∙◌, arith, inl, inr, Bool-cases,
  dec_lt, false, ltb, leb, ◌&&◌, if◌then◌else◌, List, [], ◌∷◌, repeat_append, eq→==,
}
use native.Mathlib.Nat.{pow-suc, pow-le-pow_right}
use mpidt_benchmark.Memory.{Region, blit, memset}
use mpidt_benchmark.Memory.Blit.{blit-base, blit-inside, within-true}
use mpidt_benchmark.Iovec.{Iovec, iovec}
use mpidt_benchmark.World.{
  Env, World, Comm, bcast, barrier, init, finalize, print, alloc, getpid, is_sender, mpi_bcast,
  memalign_lbuf,
}
use mpidt_benchmark.World.Returns
use mpidt_benchmark.World.Returns.{Returns, returns, for-Returns}
use mpidt_benchmark.Cma.{Readv, pid_bytes, iovec_bytes}
use mpidt_benchmark.TestMemcpy.{clear}
use mpidt_benchmark.TestMemcpy.Run.{last_whole}
use mpidt_benchmark.Bench.{sweep}
use mpidt_benchmark.Bench.Sweep.{sweep-ends}
use mpidt_benchmark.TestCma.{iter, skip, bufsize, read_once, reads, round, main}

-- What process_vm_readv documents for one entry of each process that lies in their buffers: a full
-- transfer; and the entry that the sender's broadcast hands over.
pub record ReadsOne (env : Env) (read : Readv) (heard : ℕ → Iovec) : Type 0 where
  pub entry : (n : ℕ) → heard n ≡ iovec env.peer.base n
  pub transfer :
      (n : ℕ) (d : Region)
      → d.base ≡ env.heap_base
      → n ≤ bufsize
      → read (iovec env.heap_base n ∷ []) (iovec env.peer.base n ∷ []) d
        ≡ (n, blit d env.heap_base env.peer env.peer.base n)

-- The collective calls of the sizes behind a process, and of the whole program, newest first.
abbrev pub sizes_comm : Env → ℕ → List Comm → List Comm
sizes_comm env n c = repeat_append n (bcast env.sender iovec_bytes ∷ []) c

abbrev pub main_comm : Env → List Comm → List Comm
main_comm env c =
    finalize ∷ barrier ∷ sizes_comm env 26 (barrier ∷ bcast env.sender pid_bytes ∷ init ∷ c)

-- The sweep over the powers of two up to the buffer size has 26 rounds.
rounds_of_sweep : (last t : ℕ) → last ≡ 2 ^ t → bufsize < last → last ≤ bufsize * 2 → t ≡ 26
rounds_of_sweep last t e gt le = elim (dec_lt t 26) [
  | yes lt ↦
      let small : 2 ^ t ≤ 2 ^ 25 = pow-le-pow_right (omega arith) {i = t} {j = 25} (omega arith) in
      absurd (omega (arith, e))
  | no ge ↦ elim (dec_lt 26 t) [
    | yes above ↦
        let big : 2 ^ 27 ≤ 2 ^ t = pow-le-pow_right (omega arith) {i = 27} {j = t} (omega arith) in
        absurd (omega (arith, e))
    | no le' ↦ omega arith
  ]
]

module _ (env : Env) (read : Readv) (heard : ℕ → Iovec) (sys : ReadsOne env read heard)
    (c0 : List Comm) where
  -- The state in front of the round of size `bs`.
  record Before (bs : ℕ) (w : World) : Type 0 where
    log2 : ℕ
    power : bs ≡ 2 ^ log2
    small : bs ≤ bufsize * 2
    base : w.lbuf.base ≡ env.heap_base
    called : w.comm ≡ sizes_comm env log2 c0
    got :
        is_sender env ≡ false
        → (o : ℕ) → o < bs / 2
        → w.lbuf.cell (env.heap_base + o) ≡ env.peer.cell (env.peer.base + o)

  abbrev Read : ℕ → List Comm → ℕ → World → Type 0
  Read n c i w =
      (w.lbuf.base ≡ env.heap_base)
      × (w.comm ≡ c)
      × (0 < i
          → (o : ℕ) → o < n
          → w.lbuf.cell (env.heap_base + o) ≡ env.peer.cell (env.peer.base + o))

  read_once-Read :
      (n : ℕ) (c : List Comm) (i : ℕ) (w : World)
      → n ≤ bufsize
      → Read n c i w
      → Returns (λ _ w'. Read n c (suc i) w') (read_once env read heard n i w)
  unfolding read_once
  read_once-Read n c i w le (eb, called, _) =
      let moved = sys.transfer n w.lbuf eb le in
      let eb' = blit-base w.lbuf env.heap_base env.peer env.peer.base n ∙ eb in
      let same = λ (_ : 0 < suc i) (o : ℕ) (h : o < n).
        blit-inside w.lbuf env.heap_base env.peer env.peer.base n o h in
      let entries : read (iovec w.lbuf.base n ∷ []) (heard n ∷ []) w.lbuf
          ≡ (n, blit w.lbuf env.heap_base env.peer env.peer.base n) =
        ap (λ (b : ℕ). read (iovec b n ∷ []) (heard n ∷ []) w.lbuf) eb
        ∙ ap (λ (v : Iovec). read (iovec env.heap_base n ∷ []) (v ∷ []) w.lbuf) (sys.entry n)
        ∙ moved in
      elim (Bool-cases (i == skip)) [
        | inl now ↦ rw (now, entries, eq→== n n refl) (returns (eb', called, same))
        | inr later ↦ rw (later, entries, eq→== n n refl) (returns (eb', called, same))
      ]

  reads-Read :
      (bs : ℕ) (c : List Comm) (w : World)
      → bs ≤ bufsize
      → w.lbuf.base ≡ env.heap_base
      → w.comm ≡ c
      → Returns (λ _ w'. Read bs c (iter + skip) w') (reads env read heard bs w)
  unfolding reads
  reads-Read bs c w le eb ec =
      let loop =
        for-Returns (Read bs c) (iter + skip) (read_once env read heard bs)
          (λ i w' _ h. read_once-Read bs c i w' le h) (iter + skip) 0 refl w
          (eb, ec, λ h. absurd (omega arith)) in
      Returns.bind loop λ _ w' h. returns h

  round-Before :
      (bs : ℕ) (w : World)
      → 0 < bs
      → bs ≤ bufsize
      → Before bs w
      → Returns (λ _ w'. Before (bs * 2) w') (round env read heard bs w)
  unfolding round mpi_bcast repeat_append
  round-Before bs w pos le b = elim (Bool-cases (is_sender env)) [
    | inl s ↦ rw s (
        returns (record {
          log2 = suc b.log2;
          power = rw pow-suc (omega (arith, b.power));
          small = omega arith;
          base = b.base;
          called = ap (λ (c : List Comm). bcast env.sender iovec_bytes ∷ c) b.called;
          got = λ r. absurd (cc);
        }))
    | inr r ↦
        let w1 = record w {
          shmem = record w.shmem { cell = env.shared w.bcasts };
          bcasts = suc w.bcasts;
          comm = bcast env.sender iovec_bytes ∷ w.comm;
        } in
        rw r (
          Returns.mono (reads-Read bs w1.comm w1 le b.base refl) λ _ w' (eb, called, same). record {
            log2 = suc b.log2;
            power = rw pow-suc (omega (arith, b.power));
            small = omega arith;
            base = eb;
            called = called ∙ ap (λ (c : List Comm). bcast env.sender iovec_bytes ∷ c) b.called;
            got = λ _ o h. same (omega arith) o (omega arith);
          })
  ]

  sweep-reads :
      (w : World)
      → w.lbuf.base ≡ env.heap_base
      → w.comm ≡ c0
      → Returns
          (λ _ w'.
            (w'.comm ≡ sizes_comm env 26 c0)
            × (is_sender env ≡ false
                → (o : ℕ) → o < bufsize
                → w'.lbuf.cell (env.heap_base + o) ≡ env.peer.cell (env.peer.base + o)))
          (sweep (round env read heard) bufsize 65 1 w)
  unfolding repeat_append
  sweep-reads w eb ec =
      let start : Before 1 w = record {
        log2 = 0;
        power = refl;
        small = omega arith;
        base = eb;
        called = ec;
        got = λ _ o h. absurd (omega arith);
      } in
      let loop =
        sweep-ends Before (round env read heard) 1 bufsize w (omega arith) (omega arith)
          round-Before start in
      Returns.mono loop λ _ w' (last, b, gt).
        let whole = last_whole last b.log2 b.power gt in
        let rounds = rounds_of_sweep last b.log2 b.power gt b.small in
        (b.called ∙ ap (λ (n : ℕ). sizes_comm env n c0) rounds, λ r o h. b.got r o (omega arith))

-- Where process_vm_readv transfers one entry in full, test_cma ends without error or failed assertion
-- at every rank, with the same collective calls: one broadcast for each of the 26 powers of two up to
-- 32 MB; a receiver has the sender's bytes in its own buffer.
pub main-reads :
    (env : Env) (read : Readv) (heard : ℕ → Iovec) (w : World)
    → ReadsOne env read heard
    → Returns
        (λ _ w'.
          (w'.comm ≡ main_comm env w.comm)
          × (is_sender env ≡ false
              → (o : ℕ) → o < bufsize
              → w'.lbuf.cell (env.heap_base + o) ≡ env.peer.cell (env.peer.base + o)))
        (main env read heard w)
unfolding main clear memalign_lbuf mpi_bcast memset
main-reads env read heard w sys =
    let c0 = barrier ∷ bcast env.sender pid_bytes ∷ init ∷ w.comm in
    let raw : Region = record { base = env.heap_base; size = bufsize; cell = env.garbage } in
    let inside = within-true raw env.heap_base bufsize (omega arith) (omega arith) in
    let cleared_by : ℕ → Region = λ c. record {
      base = env.heap_base;
      size = bufsize;
      cell =
          λ a. if leb env.heap_base a && ltb a (env.heap_base + bufsize) then c else env.garbage a;
    } in
    let allocated = alloc (suc w.blocks) bufsize ∷ alloc w.blocks bufsize ∷ w.log in
    let from_sender : World = record w {
      lbuf = cleared_by 255;
      bcasts = suc w.bcasts;
      blocks = suc (suc w.blocks);
      comm = c0;
      log = getpid ∷ allocated;
    } in
    let from_receiver : World = record w {
      lbuf = cleared_by 0;
      shmem = record w.shmem { cell = env.shared w.bcasts };
      bcasts = suc w.bcasts;
      blocks = suc (suc w.blocks);
      comm = c0;
      log = print ∷ allocated;
    } in
    elim (Bool-cases (is_sender env)) [
      | inl s ↦
          rw (s, inside)
            (Returns.bind (sweep-reads env read heard sys c0 from_sender refl refl) λ _ w' (ec, _).
              returns (ap (λ (c : List Comm). finalize ∷ barrier ∷ c) ec, λ e. absurd (cc)))
      | inr r ↦
          rw (r, inside)
            (Returns.bind (sweep-reads env read heard sys c0 from_receiver refl refl)
              λ _ w' (ec, got).
                returns (ap (λ (c : List Comm). finalize ∷ barrier ∷ c) ec, λ _ o h. got r o h))
    ]
