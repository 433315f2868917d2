-- ===== src/Iovec/Tiling.antt =====
-- The entries of an initialised array: adjacent blocks of one size that cover the buffer.
use mpidt_benchmark.Base.{
  ℕ, zero, suc, ◌+◌, ◌*◌, ◌<◌, ◌≤◌, ◌^◌, ◌≡◌, refl, ap, none, some, get_elem?, length, arith, ◌∙◌,
}
use mpidt_benchmark.Word.{ptr_add, ptr_add-id}
use mpidt_benchmark.Memory.{ok, err, segfault}
use mpidt_benchmark.Iovec.{iovec, init_iovec, at}

module _ (lbuf blocksize : ℕ) where
  pub length-init_iovec : (k i : ℕ) → length (init_iovec lbuf blocksize k i) ≡ k
  unfolding init_iovec
  length-init_iovec zero i = refl
  length-init_iovec (suc k) i = ap suc (length-init_iovec k (suc i))

  pub get_elem?-init_iovec :
      (k i m : ℕ)
      → m < k
      → get_elem? (init_iovec lbuf blocksize k i) m
        ≡ some (iovec (ptr_add lbuf ((i + m) * blocksize)) blocksize)
  unfolding init_iovec
  get_elem?-init_iovec zero i m h = elim h [ ]
  get_elem?-init_iovec (suc k) i zero h =
      ap (λ (t : ℕ). some (iovec (ptr_add lbuf (t * blocksize)) blocksize)) (omega arith)
  get_elem?-init_iovec (suc k) i (suc m) h =
      get_elem?-init_iovec k (suc i) m (omega arith)
      ∙ ap (λ (t : ℕ). some (iovec (ptr_add lbuf (t * blocksize)) blocksize)) (omega arith)

  get_elem?-init_iovec_above :
      (k i m : ℕ) → k ≤ m → get_elem? (init_iovec lbuf blocksize k i) m ≡ none
  unfolding init_iovec
  get_elem?-init_iovec_above zero i m h = refl
  get_elem?-init_iovec_above (suc k) i zero h = elim h [ ]
  get_elem?-init_iovec_above (suc k) i (suc m) h =
      get_elem?-init_iovec_above k (suc i) m (omega arith)

  -- Entry `m` is the block at offset `m * blocksize` of the buffer.
  pub at-init_iovec :
      (k m : ℕ)
      → m < k
      → lbuf + k * blocksize < 2 ^ 64
      → at (init_iovec lbuf blocksize k 0) m ≡ ok (iovec (lbuf + m * blocksize) blocksize)
  unfolding at
  at-init_iovec k m h fits =
      let bound : m * blocksize ≤ k * blocksize = grind arith in
      let e = ptr_add-id lbuf ((0 + m) * blocksize) (omega arith) in
      let e' : lbuf + (0 + m) * blocksize ≡ lbuf + m * blocksize = omega arith in
      rw (get_elem?-init_iovec k 0 m h, at, e ∙ e')

  -- Behind the last entry there is nothing to read.
  pub at-init_iovec_above : (k m : ℕ) → k ≤ m → at (init_iovec lbuf blocksize k 0) m ≡ err segfault
  unfolding at
  at-init_iovec_above k m h = rw (get_elem?-init_iovec_above k 0 m h, at)
