-- ===== src/Cma/Read.antt =====
-- The read loop of benchmark_cma in src/bench.c, which hands the kernel slices of the arrays.
use mpidt_benchmark.Base.{
  ℕ, zero, suc, ◌+◌, ◌-◌, ◌*◌, ◌/◌, ◌%◌, ◌^◌, ◌≤◌, ◌<◌, ◌≡◌, ◌≢◌, refl, ap, sym, ◌∙◌, arith, List,
  [], ◌∷◌, take, drop, le→leb, lt→ltb, lt→not-leb, dec_lt, ◌⊎◌, le→not-ltb, mul_mono,
}
use mathlib.Core.Path.{ap₂}
use mpidt_benchmark.Word.{ptr_add, ptr_add-id, sub64, add64, sub64-id, add64-id}
use mpidt_benchmark.Memory.{Region, ok, err, segfault, blit}
use mpidt_benchmark.Memory.Blit.{blit-none, blit-join}
use mpidt_benchmark.Iovec.{Iovec, iovec, init_iovec, slice}
use mpidt_benchmark.Iovec.Tiling.{length-init_iovec}
use mpidt_benchmark.Cma.{Readv, curr_blks, read_loop}

-- The bytes of the entries, and their copy entry by entry from `src`.
unfoldable pub bytes_of : List Iovec → ℕ
bytes_of [] = 0
bytes_of (v ∷ l) = v.iov_len + bytes_of l

unfoldable pub scatter : List Iovec → List Iovec → Region → Region → Region
scatter (v ∷ l) (u ∷ r) src d = scatter l r src (blit d v.iov_base src u.iov_base v.iov_len)
scatter l r src d = d

-- What process_vm_readv documents for two arrays of equal blocks at `lbase` and `rbase` that lie in
-- the local buffer and in the readable memory `src` of the other process: a full transfer, if they
-- have at most `limit` entries.
abbrev pub ReadsBlocks : Readv → ℕ → ℕ → ℕ → ℕ → ℕ → Region → Type 0
ReadsBlocks read limit lbase rbase bs total src =
    (k i : ℕ) (d : Region)
    → k ≤ limit
    → (i + k) * bs ≤ total
    → read (init_iovec lbase bs k i) (init_iovec rbase bs k i) d ≡ (
      bytes_of (init_iovec lbase bs k i),
      scatter (init_iovec lbase bs k i) (init_iovec rbase bs k i) src d,
    )

module _ (lbase bs : ℕ) where
  bytes_of-init_iovec : (k i : ℕ) → bytes_of (init_iovec lbase bs k i) ≡ k * bs
  unfolding bytes_of init_iovec
  bytes_of-init_iovec zero i = omega arith
  bytes_of-init_iovec (suc k) i = omega (arith, bytes_of-init_iovec k (suc i))

  take-init_iovec : (k n i : ℕ) → k ≤ n → take k (init_iovec lbase bs n i) ≡ init_iovec lbase bs k i
  unfolding init_iovec
  take-init_iovec zero n i h = refl
  take-init_iovec (suc k) zero i h = elim h [ ]
  take-init_iovec (suc k) (suc n) i h =
      ap (λ (l : List Iovec). iovec (ptr_add lbase (i * bs)) bs ∷ l)
        (take-init_iovec k n (suc i) (omega arith))

  drop-init_iovec :
      (m n i : ℕ) → m ≤ n → drop m (init_iovec lbase bs n i) ≡ init_iovec lbase bs (n - m) (i + m)
  unfolding init_iovec
  drop-init_iovec zero n i h = ap₂ (init_iovec lbase bs) (omega arith) (omega arith)
  drop-init_iovec (suc m) zero i h = elim h [ ]
  drop-init_iovec (suc m) (suc n) i h =
      drop-init_iovec m n (suc i) (omega arith)
      ∙ ap₂ (init_iovec lbase bs) (omega arith) (omega arith)

  pub slice-init_iovec :
      (n m k : ℕ) → m + k ≤ n → slice (init_iovec lbase bs n 0) m k ≡ ok (init_iovec lbase bs k m)
  unfolding slice
  slice-init_iovec n m k h =
      rw
        (
          length-init_iovec lbase bs n 0,
          le→leb (m + k) n h,
          drop-init_iovec m n 0 (omega arith),
          take-init_iovec k (n - m) (0 + m) (omega arith),
        )
        (ap (λ (t : ℕ). ok (init_iovec lbase bs k t)) (omega arith))

  slice-init_iovec_beyond :
      (n m k : ℕ) → n < m + k → slice (init_iovec lbase bs n 0) m k ≡ err segfault
  unfolding slice
  slice-init_iovec_beyond n m k h = rw (length-init_iovec lbase bs n 0, lt→not-leb (m + k) n h)

scatter-blit :
    (lbase rbase bs : ℕ) (src : Region) (total k i : ℕ) (d : Region)
    → (i + k) * bs ≤ total
    → lbase + total < 2 ^ 64
    → rbase + total < 2 ^ 64
    → scatter (init_iovec lbase bs k i) (init_iovec rbase bs k i) src d
      ≡ blit d (lbase + i * bs) src (rbase + i * bs) (k * bs)
unfolding scatter init_iovec
scatter-blit lbase rbase bs src total zero i d h lf rf =
    sym (blit-none d (lbase + i * bs) src (rbase + i * bs) (omega arith))
scatter-blit lbase rbase bs src total (suc k) i d h lf rf =
    let room : i * bs + bs + k * bs ≤ total = omega arith in
    rw (ptr_add-id lbase (i * bs) (omega arith), ptr_add-id rbase (i * bs) (omega arith))
      (scatter-blit lbase rbase bs src total k (suc i)
          (blit d (lbase + i * bs) src (rbase + i * bs) bs) (omega arith) lf rf
        ∙ blit-join d (lbase + i * bs) src (rbase + i * bs) bs (k * bs) (omega arith) (omega arith)
            (omega arith))

module _ (read : Readv) (limit nblocks lbase rbase bs : ℕ) (src : Region)
    (reads : ReadsBlocks read limit lbase rbase bs (nblocks * bs) src) (positive : 0 < bs)
    (some_limit : 0 < limit) (word : nblocks * bs < 2 ^ 31) (lfits : lbase + nblocks * bs < 2 ^ 64)
    (rfits : rbase + nblocks * bs < 2 ^ 64) where
  abbrev curr : ℕ
  curr = curr_blks nblocks limit

  abbrev liov : List Iovec
  liov = init_iovec lbase bs nblocks 0

  abbrev riov : List Iovec
  riov = init_iovec rbase bs nblocks 0

  curr-le : curr ≤ limit
  unfolding curr_blks
  curr-le = ground arith

  read_loop-blit :
      (m fuel i remaining total : ℕ) (d : Region)
      → m < fuel
      → 0 < curr
      → i + m * curr ≡ nblocks
      → remaining ≡ (m * curr) * bs
      → total ≡ i * bs
      → read_loop read limit nblocks liov riov fuel i remaining total d
        ≡ ok (nblocks * bs, blit d (lbase + i * bs) src (rbase + i * bs) ((m * curr) * bs))
  unfolding read_loop
  read_loop-blit m zero i remaining total d f c e er et = absurd (omega arith)
  read_loop-blit zero (suc fuel) i remaining total d f c e er et =
      let all : i ≡ nblocks = omega arith in
      let sum : total ≡ nblocks * bs = et ∙ ap (λ (t : ℕ). t * bs) all in
      rw (le→not-ltb 0 remaining (omega arith)) (
        ap₂ (λ (t : ℕ) (r : Region). ok (t, r)) sum
          (sym (blit-none d (lbase + i * bs) src (rbase + i * bs) (omega arith))))
  read_loop-blit (suc m) (suc fuel) i remaining total d f c e er et =
      let n = curr * bs in
      let d' = blit d (lbase + i * bs) src (rbase + i * bs) n in
      let some_bytes : 0 < n = grind arith in
      let whole : nblocks * bs ≡ i * bs + n + (m * curr) * bs =
        ap (λ (t : ℕ). t * bs) (sym e) ∙ omega arith in
      let rest : remaining ≡ n + (m * curr) * bs = er ∙ omega arith in
      let next : (i + curr) * bs ≡ i * bs + n = omega arith in
      let below : (i + curr) * bs ≤ nblocks * bs = omega arith in
      let answer : read (init_iovec lbase bs curr i) (init_iovec rbase bs curr i) d ≡ (n, d') =
        reads curr i d curr-le below
        ∙ ap₂ (λ (t : ℕ) (r : Region). (t, r)) (bytes_of-init_iovec lbase bs curr i)
            (scatter-blit lbase rbase bs src (nblocks * bs) curr i d below lfits rfits) in
      rw
        (
          lt→ltb 0 remaining (omega arith),
          lt→ltb i nblocks (omega arith),
          slice-init_iovec lbase bs nblocks i curr (omega arith),
          slice-init_iovec rbase bs nblocks i curr (omega arith),
          answer,
        )
        (read_loop-blit m fuel (i + curr) (sub64 remaining n) (add64 total n) d' (omega arith) c
            (omega arith) (sub64-id remaining n (omega arith) (omega arith) ∙ omega arith)
            (add64-id total n (omega arith) ∙ omega arith)
          ∙ ap (λ (r : Region). ok (nblocks * bs, r))
              (blit-join d (lbase + i * bs) src (rbase + i * bs) n ((m * curr) * bs) (omega arith)
                (omega arith) (omega arith)))

  -- With a short slice left, the next call is handed entries behind the arrays.
  read_loop-overrun :
      (m fuel i remaining total : ℕ) (d : Region)
      → m < fuel
      → 0 < curr
      → i + m * curr < nblocks
      → nblocks < i + m * curr + curr
      → remaining + i * bs ≡ nblocks * bs
      → read_loop read limit nblocks liov riov fuel i remaining total d ≡ err segfault
  unfolding read_loop
  read_loop-overrun m zero i remaining total d f c lo hi er = absurd (omega arith)
  read_loop-overrun zero (suc fuel) i remaining total d f c lo hi er =
      let more = mul_mono (suc i) nblocks bs (omega arith) in
      rw (
        lt→ltb 0 remaining (omega arith),
        lt→ltb i nblocks (omega arith),
        slice-init_iovec_beyond lbase bs nblocks i curr (omega arith),
      )
  read_loop-overrun (suc m) (suc fuel) i remaining total d f c lo hi er =
      let n = curr * bs in
      let more = mul_mono (suc i) nblocks bs (omega arith) in
      let below = mul_mono (i + curr) nblocks bs (omega arith) in
      let next : (i + curr) * bs ≡ i * bs + n = omega arith in
      let answer = reads curr i d curr-le below in
      let bytes = bytes_of-init_iovec lbase bs curr i in
      rw
        (
          lt→ltb 0 remaining (omega arith),
          lt→ltb i nblocks (omega arith),
          slice-init_iovec lbase bs nblocks i curr (omega arith),
          slice-init_iovec rbase bs nblocks i curr (omega arith),
          answer,
          bytes,
        )
        (read_loop-overrun m fuel (i + curr) (sub64 remaining n) (add64 total n) _ (omega arith) c
          (omega arith) (omega arith)
          (ap (λ (t : ℕ). t + (i + curr) * bs) (sub64-id remaining n (omega arith) (omega arith))
            ∙ omega arith))

  curr-few : nblocks < limit → curr ≡ nblocks
  unfolding curr_blks
  curr-few h = ground arith

  curr-many : limit ≤ nblocks → curr ≡ limit
  unfolding curr_blks
  curr-many h = ground arith

  calls :
      0 < nblocks
      → (nblocks < limit) ⊎ (nblocks % limit ≡ 0)
      → (m : ℕ) × (m * curr ≡ nblocks) × (m ≤ nblocks) × (0 < curr)
  calls nonempty how = elim (dec_lt nblocks limit) [
    | yes few ↦ let c = curr-few few in (1, omega arith, omega arith, omega arith)
    | no many ↦
        let c = curr-many (omega arith) in
        let m = nblocks / limit in
        let even : nblocks % limit ≡ 0 = ground arith in
        let exact : m * limit ≡ nblocks = grind arith in
        let mc : m * curr ≡ m * limit = ap (λ (t : ℕ). m * t) c in
        let few : m ≤ nblocks = grind arith in (m, omega arith, few, omega arith)
  ]

  -- For blocks that one call may take, or a number of blocks that the limit divides, the loop ends
  -- after at most one round a block, and has copied the whole buffer.
  pub read_loop-whole :
      (d : Region)
      → 0 < nblocks
      → (nblocks < limit) ⊎ (nblocks % limit ≡ 0)
      → read_loop read limit nblocks liov riov (suc nblocks) 0 (nblocks * bs) 0 d
        ≡ ok (nblocks * bs, blit d lbase src rbase (nblocks * bs))
  read_loop-whole d nonempty how =
      let (m, all, few, pos) = calls nonempty how in
      let bytes : m * curr * bs ≡ nblocks * bs = ap (λ (t : ℕ). t * bs) all in
      let start : 0 * bs ≡ 0 = omega arith in
      let at_l : lbase + 0 ≡ lbase = omega arith in
      let at_r : rbase + 0 ≡ rbase = omega arith in
      simp (bytes, start, at_l, at_r) at
        (read_loop-blit m (suc nblocks) 0 (nblocks * bs) 0 d (omega arith) pos (omega arith)
          (sym bytes) (omega arith))

  pub read_loop-beyond :
      (d : Region)
      → limit ≤ nblocks
      → nblocks % limit ≢ 0
      → read_loop read limit nblocks liov riov (suc nblocks) 0 (nblocks * bs) 0 d ≡ err segfault
  read_loop-beyond d many part =
      let c = curr-many many in
      let m = nblocks / limit in
      let few : m ≤ nblocks = grind arith in
      let below : m * limit < nblocks = grind arith in
      let above : nblocks < m * limit + limit = grind arith in
      let mc : m * curr ≡ m * limit = ap (λ (t : ℕ). m * t) c in
      read_loop-overrun m (suc nblocks) 0 (nblocks * bs) 0 d (omega arith) (omega arith)
        (omega arith) (omega arith) (omega arith)
