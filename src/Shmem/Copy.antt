-- ===== src/Shmem/Copy.antt =====
-- copy_to_shmem and copy_from_shmem of src/bench.c, and their loops.
use mpidt_benchmark.Base.{
  ℕ, zero, suc, ◌+◌, ◌*◌, ◌/◌, ◌^◌, ◌≤◌, ◌<◌, ◌≡◌, refl, ap, sym, ◌∙◌, arith, List,
}
use mpidt_benchmark.Word.{narrow, ptr_add, add64, narrow-id, rounds-id, ptr_add-id, add64-id}
use mpidt_benchmark.Memory.{Region, ok, blit}
use mpidt_benchmark.Memory.Blit.{memcpy-ok, blit-none, blit-base, blit-size, blit-join, blit-inside}
use mpidt_benchmark.Iovec.{Iovec, init_iovec}
use mpidt_benchmark.Iovec.Tiling.{at-init_iovec}
use mpidt_benchmark.Shmem.{
  Copy, divide, store_shared, load_shared, copy_loop, copy_blocks, copy_to_shmem, copy_from_shmem,
}

-- `copy` moves the piece at offset `o` of a source at `from` to offset `o` of a destination at `to`,
-- where `lbuf` is the local buffer's address and `total` the bytes in both.
abbrev pub Copies : Copy → Region → ℕ → ℕ → ℕ → ℕ → Type 0
Copies copy src from lbuf to total =
    (d : Region) (o n : ℕ)
    → d.base ≡ to
    → total ≤ d.size
    → o + n ≤ total
    → copy o (lbuf + o) n d ≡ ok (blit d (to + o) src (from + o) n)

pub store_shared-Copies :
    (lbuf : Region) (to total : ℕ)
    → total ≤ lbuf.size
    → to + total < 2 ^ 64
    → Copies (store_shared lbuf) lbuf lbuf.base lbuf.base to total
unfolding store_shared
store_shared-Copies lbuf to total room fits d o n e size h =
    let e' : ptr_add d.base o ≡ to + o =
      ap (λ (t : ℕ). ptr_add t o) e ∙ ptr_add-id to o (omega arith) in
    rw e' (
      memcpy-ok d (to + o) lbuf (lbuf.base + o) n (omega arith) (omega arith) (omega arith)
        (omega arith))

pub load_shared-Copies :
    (shmem : Region) (to total : ℕ)
    → total ≤ shmem.size
    → shmem.base + total < 2 ^ 64
    → Copies (load_shared shmem) shmem shmem.base to to total
unfolding load_shared
load_shared-Copies shmem to total room fits d o n e size h =
    rw (ptr_add-id shmem.base o (omega arith)) (
      memcpy-ok d (to + o) shmem (shmem.base + o) n (omega arith) (omega arith) (omega arith)
        (omega arith))

module _ (copy : Copy) (src : Region) (from lbuf to bs nblocks : ℕ)
    (copies : Copies copy src from lbuf to (nblocks * bs)) (int_range : nblocks * bs < 2 ^ 31)
    (fits : lbuf + nblocks * bs < 2 ^ 64) where
  copy_loop-blit :
      (k i : ℕ)
      → i + k ≡ nblocks
      → (d : Region) → d.base ≡ to
      → nblocks * bs ≤ d.size
      → copy_loop copy (init_iovec lbuf bs nblocks 0) k i (i * bs) (i * bs) d
        ≡ ok (blit d (to + i * bs) src (from + i * bs) (k * bs), nblocks * bs)
  unfolding copy_loop
  copy_loop-blit zero i e d eb room =
      ap (λ (t : Region). ok (t, i * bs)) (sym (blit-none d _ src _ (omega arith)))
      ∙ ap (λ (t : ℕ). ok (blit d (to + i * bs) src (from + i * bs) (0 * bs), t * bs)) (omega arith)
  copy_loop-blit (suc k) i e d eb room =
      let all : nblocks * bs ≡ i * bs + bs + k * bs =
        ap (λ (t : ℕ). t * bs) (sym e) ∙ omega arith in
      let off : narrow (i * bs + bs) ≡ suc i * bs =
        narrow-id (i * bs + bs) (omega arith) ∙ omega arith in
      let sum : add64 (i * bs) bs ≡ suc i * bs = add64-id (i * bs) bs (omega arith) ∙ omega arith in
      let d' = blit d (to + i * bs) src (from + i * bs) bs in
      rw
        (
          at-init_iovec lbuf bs nblocks i (omega arith) fits,
          copies d (i * bs) bs eb room (omega arith),
          off,
          sum,
        )
        (copy_loop-blit k (suc i) (omega arith) d' (blit-base d _ src _ _ ∙ eb)
            (rw (blit-size d (to + i * bs) src (from + i * bs) bs) room)
          ∙ ap (λ (t : Region). ok (t, nblocks * bs))
              (blit-join d _ src _ bs (k * bs) (omega arith) (omega arith) (omega arith)))

  copy_loop-all :
      (d : Region)
      → d.base ≡ to
      → nblocks * bs ≤ d.size
      → copy_loop copy (init_iovec lbuf bs nblocks 0) nblocks 0 0 0 d
        ≡ ok (blit d to src from (nblocks * bs), nblocks * bs)
  copy_loop-all d eb room =
      let start : 0 * bs ≡ 0 = omega arith in
      let at_to : to + 0 ≡ to = omega arith in
      let at_from : from + 0 ≡ from = omega arith in
      simp (start, at_to, at_from) at (copy_loop-blit nblocks 0 (omega arith) d eb room)

-- The two buffers and the sizes of a run: a positive block size, a buffer size that an `int` holds,
-- and room for it at both ends.
pub record Fits (lbuf shmem : Region) (bufsize bs : ℕ) : Type 0 where
  pub positive : 0 < bs
  pub int_range : bufsize < 2 ^ 31
  pub lbuf_room : bufsize ≤ lbuf.size
  pub shmem_room : bufsize ≤ shmem.size
  pub lbuf_end : lbuf.base + bufsize < 2 ^ 64
  pub shmem_end : shmem.base + bufsize < 2 ^ 64

-- The bytes that whole blocks cover.
abbrev pub covered : ℕ → ℕ → ℕ
covered bufsize bs = bufsize / bs * bs

pub covered-le : (bufsize bs : ℕ) → covered bufsize bs ≤ bufsize
covered-le bufsize bs = grind arith

abbrev pub whole_iovec : ℕ → ℕ → ℕ → List Iovec
whole_iovec lbuf bufsize bs = init_iovec lbuf bs (bufsize / bs) 0

pub divide-ok : (a b : ℕ) → 0 < b → divide a b ≡ ok (a / b)
unfolding divide
divide-ok a b h = ground arith

copy_blocks-blit :
    (copy : Copy) (src : Region) (from lbuf bufsize bs : ℕ) (d : Region)
    → Copies copy src from lbuf d.base (covered bufsize bs)
    → 0 < bs
    → bufsize < 2 ^ 31
    → lbuf + bufsize < 2 ^ 64
    → bufsize ≤ d.size
    → copy_blocks copy (whole_iovec lbuf bufsize bs) bs bufsize d
      ≡ ok (blit d d.base src from (covered bufsize bs), covered bufsize bs)
unfolding copy_blocks
copy_blocks-blit copy src from lbuf bufsize bs d copies pos int fits room =
    let le = covered-le bufsize bs in
    let few : bufsize / bs ≤ bufsize = grind arith in
    let loop =
      copy_loop-all copy src from lbuf d.base bs (bufsize / bs) copies (omega arith) (omega arith) d
        refl (omega arith) in
    rw (
      divide-ok bufsize bs pos,
      narrow-id (bufsize / bs) (omega arith),
      rounds-id (bufsize / bs) (omega arith),
      loop,
      narrow-id (covered bufsize bs) (omega arith),
    )

module _ {lbuf shmem : Region} {bufsize bs : ℕ} (f : Fits lbuf shmem bufsize bs) where
  open f use {positive, int_range, lbuf_room, shmem_room, lbuf_end, shmem_end}

  -- Under the bounds of Fits, copy_to_shmem ends without error, copies the whole blocks of the
  -- local buffer to the start of the shared region as one copy would, and returns the number of
  -- these bytes.
  pub copy_to_shmem-blit :
      copy_to_shmem lbuf (whole_iovec lbuf.base bufsize bs) bs bufsize shmem
      ≡ ok (blit shmem shmem.base lbuf lbuf.base (covered bufsize bs), covered bufsize bs)
  unfolding copy_to_shmem
  copy_to_shmem-blit =
      let le = covered-le bufsize bs in
      copy_blocks-blit (store_shared lbuf) lbuf lbuf.base lbuf.base bufsize bs shmem
        (store_shared-Copies lbuf shmem.base (covered bufsize bs) (omega arith) (omega arith))
        positive int_range lbuf_end shmem_room

  -- Under the bounds of Fits, copy_from_shmem copies the whole blocks at the start of the shared
  -- region to the local buffer, as one copy, and returns the number of their bytes.
  pub copy_from_shmem-blit :
      copy_from_shmem shmem (whole_iovec lbuf.base bufsize bs) bs bufsize lbuf
      ≡ ok (blit lbuf lbuf.base shmem shmem.base (covered bufsize bs), covered bufsize bs)
  unfolding copy_from_shmem
  copy_from_shmem-blit =
      let le = covered-le bufsize bs in
      copy_blocks-blit (load_shared shmem) shmem shmem.base lbuf.base bufsize bs lbuf
        (load_shared-Copies shmem lbuf.base (covered bufsize bs) (omega arith) (omega arith))
        positive int_range lbuf_end lbuf_room

Fits-blit :
    {lbuf shmem other : Region} {bufsize bs : ℕ} (n : ℕ)
    → Fits lbuf shmem bufsize bs
    → Fits other shmem bufsize bs
    → Fits other (blit shmem shmem.base lbuf lbuf.base n) bufsize bs
unfolding blit
Fits-blit n f g = record {
  positive = g.positive;
  int_range = g.int_range;
  lbuf_room = g.lbuf_room;
  shmem_room = g.shmem_room;
  lbuf_end = g.lbuf_end;
  shmem_end = g.shmem_end;
}

-- Under the bounds of Fits for both processes: what copy_to_shmem stores in the region,
-- copy_from_shmem delivers into another process's buffer: both succeed, and every byte of the whole
-- blocks arrives.
pub copy_from_shmem-copy_to_shmem :
    {lbuf shmem other : Region} {bufsize bs : ℕ}
    → Fits lbuf shmem bufsize bs
    → Fits other shmem bufsize bs
    → (shmem' other' : Region) × (copy_to_shmem lbuf
          (whole_iovec lbuf.base bufsize bs)
          bs
          bufsize
          shmem
        ≡ ok (shmem', covered bufsize bs))
      × (copy_from_shmem shmem' (whole_iovec other.base bufsize bs) bs bufsize other
          ≡ ok (other', covered bufsize bs))
      × ((o : ℕ)
          → o < covered bufsize bs
          → other'.cell (other.base + o) ≡ lbuf.cell (lbuf.base + o))
copy_from_shmem-copy_to_shmem {lbuf} {shmem} {other} {bufsize} {bs} f g =
    let n = covered bufsize bs in
    let shmem' = blit shmem shmem.base lbuf lbuf.base n in
    (
      shmem',
      blit other other.base shmem' shmem'.base n,
      copy_to_shmem-blit f,
      copy_from_shmem-blit (Fits-blit n f g),
      λ o h.
          blit-inside other other.base shmem' shmem'.base n o h
          ∙ ap (λ (t : ℕ). shmem'.cell (t + o)) (blit-base shmem shmem.base lbuf lbuf.base n)
          ∙ blit-inside shmem shmem.base lbuf lbuf.base n o h,
    )
