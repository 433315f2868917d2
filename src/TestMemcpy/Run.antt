-- ===== src/TestMemcpy/Run.antt =====
-- The run of src/misc-tests/test_memcpy.c.
use mpidt_benchmark.Base.{
  ℕ, suc, ◌+◌, ◌*◌, ◌/◌, ◌^◌, ◌≤◌, ◌<◌, ◌≡◌, ◌==◌, refl, ◌∙◌, arith, inl, inr, Bool-cases, dec_lt,
  ◌∷◌, ltb, leb, ◌&&◌, if◌then◌else◌,
}
use native.Mathlib.Nat.{pow-suc, pow-le-pow_right}
use mpidt_benchmark.Memory.{Region, blit, memset}
use mpidt_benchmark.Memory.Blit.{memcpy-ok, blit-base, blit-size, blit-inside, within-true}
use mpidt_benchmark.World.{Env, World, print, alloc, memalign_lbuf}
use mpidt_benchmark.World.Returns
use mpidt_benchmark.World.Returns.{Returns, returns, for-Returns}
use mpidt_benchmark.Bench.Sweep.{sweep-ends}
use mpidt_benchmark.TestMemcpy.{iter, skip, bufsize, clear, copy, round, main}

-- A power of two above a power of two is above its double.
pub pow_gap : (t k : ℕ) → 2 ^ k < 2 ^ t → 2 ^ suc k ≤ 2 ^ t
pow_gap t k h = elim (dec_lt k t) [
  | yes lt ↦ pow-le-pow_right (omega arith) (omega arith)
  | no ge ↦
      let le : 2 ^ t ≤ 2 ^ k = pow-le-pow_right (omega arith) (omega arith) in absurd (omega arith)
]

module _ (sbuf : Region) (rbase : ℕ) (room : bufsize ≤ sbuf.size) where
  -- The local buffer, with the first `n` bytes copied.
  record Copied (n : ℕ) (w : World) : Type 0 where
    base : w.lbuf.base ≡ rbase
    size : w.lbuf.size ≡ bufsize
    same : (o : ℕ) → o < n → w.lbuf.cell (rbase + o) ≡ sbuf.cell (sbuf.base + o)

  abbrev Some : ℕ → ℕ → World → Type 0
  Some size i w = (w.lbuf.base ≡ rbase) × (w.lbuf.size ≡ bufsize) × (0 < i → Copied size w)

  copy-Some :
      (size i : ℕ) (w : World)
      → size ≤ bufsize
      → Some size i w
      → Returns (λ _ w'. Some size (suc i) w') (copy sbuf size i w)
  unfolding copy
  copy-Some size i w le (eb, es, _) =
      let moved =
        memcpy-ok w.lbuf w.lbuf.base sbuf sbuf.base size (omega arith) (omega arith) (omega arith)
          (omega arith) in
      let same : (o : ℕ)
          → o < size
          → (blit w.lbuf w.lbuf.base sbuf sbuf.base size).cell (rbase + o)
            ≡ sbuf.cell (sbuf.base + o) =
        λ o h. rw (← eb) (blit-inside w.lbuf w.lbuf.base sbuf sbuf.base size o h) in
      let eb' = blit-base w.lbuf w.lbuf.base sbuf sbuf.base size ∙ eb in
      let es' = blit-size w.lbuf w.lbuf.base sbuf sbuf.base size ∙ es in
      elim (Bool-cases (i == skip)) [
        | inl now ↦
            rw (now, moved)
              (returns (eb', es', λ _. record { base = eb'; size = es'; same = same }))
        | inr later ↦
            rw (later, moved)
              (returns (eb', es', λ _. record { base = eb'; size = es'; same = same }))
      ]

  -- Before the round of a size, all the smaller ones are done.
  record Before (bs : ℕ) (w : World) : Type 0 where
    log2 : ℕ
    power : bs ≡ 2 ^ log2
    copied : Copied (bs / 2) w

  round-Before :
      (bs : ℕ) (w : World)
      → 0 < bs
      → bs ≤ bufsize
      → Before bs w
      → Returns (λ _ w'. Before (bs * 2) w') (round sbuf bs w)
  unfolding round
  round-Before bs w pos le before =
      let c = before.copied in
      let loop =
        for-Returns (Some bs) (iter + skip) (copy sbuf bs)
          (λ i w' _ some_done. copy-Some bs i w' le some_done) (iter + skip) 0 refl w
          (c.base, c.size, λ h. absurd (omega arith)) in
      Returns.bind loop λ _ w' (eb, es, all).
        let d = all (omega arith) in
        returns (record {
          log2 = suc before.log2;
          power = rw pow-suc (omega (arith, before.power));
          copied = record { base = eb; size = es; same = λ o h. d.same o (omega arith) };
        })

-- A buffer behind its memset.
abbrev pub cleared : Env → ℕ → ℕ → Region
cleared env base c = record {
  base = base;
  size = bufsize;
  cell = λ a. if leb base a && ltb a (base + bufsize) then c else env.garbage a;
}

-- The sizes are the powers of two, so the last round copies the whole buffer.
pub last_whole : (last t : ℕ) → last ≡ 2 ^ t → bufsize < last → bufsize ≤ last / 2
last_whole last t e gt =
    let gap : 2 ^ suc 25 ≤ 2 ^ t = pow_gap t 25 (omega (arith, e)) in omega (arith, e)

-- test_memcpy ends without error or access outside of its buffers, with all the bytes of the first
-- buffer, 0xFF each, in the second.
pub main-copies :
    (env : Env) (sbase : ℕ) (w : World)
    → Returns
        (λ _ w'. (o : ℕ) → o < bufsize → w'.lbuf.cell (env.heap_base + o) ≡ 0xFF)
        (main env sbase w)
unfolding main clear memalign_lbuf memset
main-copies env sbase w =
    let sbuf = cleared env sbase 255 in
    let raw : ℕ → Region = λ b. record { base = b; size = bufsize; cell = env.garbage } in
    let w0 = record w {
      lbuf = cleared env env.heap_base 0;
      blocks = suc (suc (suc (suc w.blocks)));
      log =
          print
          ∷ alloc (suc (suc (suc w.blocks))) bufsize
          ∷ alloc (suc (suc w.blocks)) bufsize
          ∷ alloc (suc w.blocks) bufsize
          ∷ alloc w.blocks bufsize
          ∷ w.log;
    } in
    let start : Before sbuf env.heap_base (omega arith) 1 w0 = record {
      log2 = 0;
      power = refl;
      copied = record { base = refl; size = refl; same = λ o h. absurd (omega arith) };
    } in
    let loop =
      sweep-ends (Before sbuf env.heap_base (omega arith)) (round sbuf) 1 bufsize w0 (omega arith)
        (omega arith) (round-Before sbuf env.heap_base (omega arith)) start in
    rw
      (
        within-true (raw sbase) sbase bufsize (omega arith) (omega arith),
        within-true (raw env.heap_base) env.heap_base bufsize (omega arith) (omega arith),
      )
      (Returns.mono loop λ _ w' (last, before, gt) o h.
        let whole = last_whole last before.log2 before.power gt in
        before.copied.same o (omega arith) ∙ ground arith)
