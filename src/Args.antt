-- ===== src/Args.antt =====
-- The checks of the arguments at the start of the programs in src/: the five programs of their own,
-- and src/bench.c.
use mpidt_benchmark.Base.{
  List, ℕ, ◌≤◌, ◌<◌, ◌≡◌, ◌≢◌, refl, ne→==, le→leb, lt→ltb, lt→not-leb, le→not-ltb, ltb, dec_lt,
  arith, inl, inr, Bool-cases,
}
use mpidt_benchmark.Memory.{ok, err, assert_failed}
use mpidt_benchmark.Iovec.{Iovec}
use mpidt_benchmark.World.{Env, World}
use mpidt_benchmark.Cma.{Readv}
use mpidt_benchmark.Bench.{check_sizes}
use mpidt_benchmark.Bench
use mpidt_benchmark.ShmemDt
use mpidt_benchmark.PipelineDt
use mpidt_benchmark.CmaDt
use mpidt_benchmark.XpmemDt

module _ (env : Env) (read : Readv) (bufsize : ℕ) (w : World) where
  -- Given another number of arguments than two, every program of its own fails its first assertion.
  pub wrong_argc :
      (argc blocksize : ℕ)
      → argc ≢ 3
      → (ShmemDt.main env argc blocksize bufsize w ≡ err assert_failed)
        × (PipelineDt.main env argc blocksize bufsize w ≡ err assert_failed)
        × (CmaDt.main env read argc blocksize bufsize w ≡ err assert_failed)
        × (XpmemDt.nocache_main env argc blocksize bufsize w ≡ err assert_failed)
        × (XpmemDt.cached_main env argc blocksize bufsize w ≡ err assert_failed)
  unfolding ShmemDt.main PipelineDt.main CmaDt.main XpmemDt.nocache_main XpmemDt.cached_main
      XpmemDt.start
  wrong_argc argc blocksize h = rw (ne→== argc 3 h) (refl, refl, refl, refl, refl)

abbrev pub ValidSizes : ℕ → ℕ → ℕ → Type 0
ValidSizes bufsize min_bs max_bs = (0 < min_bs) × (min_bs ≤ max_bs) × (max_bs ≤ bufsize)

-- The assertions of main in src/bench.c let sizes with 0 < min_bs ≤ max_bs ≤ bufsize pass, without
-- any other effect.
pub check_sizes-ok :
    (bufsize min_bs max_bs : ℕ) (w : World)
    → ValidSizes bufsize min_bs max_bs
    → check_sizes bufsize min_bs max_bs w ≡ ok (tt, w)
unfolding check_sizes
check_sizes-ok bufsize min_bs max_bs w (pos, le, top) =
    rw
      (
        lt→ltb 0 bufsize (omega arith),
        le→leb min_bs max_bs le,
        le→leb max_bs bufsize top,
        lt→ltb 0 max_bs (omega arith),
        lt→ltb 0 min_bs pos,
      )
      refl

-- Given three arguments that are not 0 < min_bs ≤ max_bs ≤ bufsize, main of src/bench.c ends with a
-- failed assertion.
pub main-rejects :
    (env : Env) (read : Readv) (sent : ℕ → List Iovec) (bufsize min_bs max_bs : ℕ) (w : World)
    → ¬ ValidSizes bufsize min_bs max_bs
    → Bench.main env read sent 4 bufsize min_bs max_bs w ≡ err assert_failed
unfolding Bench.main check_sizes
main-rejects env read sent bufsize min_bs max_bs w bad = elim (dec_lt 0 bufsize) [
  | no empty ↦ rw (le→not-ltb 0 bufsize (omega arith)) refl
  | yes some_bytes ↦ elim (dec_lt max_bs min_bs) [
    | yes over ↦ rw (lt→ltb 0 bufsize some_bytes, lt→not-leb min_bs max_bs over) refl
    | no le ↦ elim (dec_lt bufsize max_bs) [
      | yes over ↦
          rw
            (
              lt→ltb 0 bufsize some_bytes,
              le→leb min_bs max_bs (omega arith),
              lt→not-leb max_bs bufsize over,
            )
            refl
      | no top ↦ elim (dec_lt 0 min_bs) [
        | yes pos ↦ absurd (bad (pos, omega arith, omega arith))
        | no zero_min ↦
            rw
              (
                lt→ltb 0 bufsize some_bytes,
                le→leb min_bs max_bs (omega arith),
                le→leb max_bs bufsize (omega arith),
                le→not-ltb 0 min_bs (omega arith),
              )
              (elim (Bool-cases (ltb 0 max_bs)) [ inl h ↦ rw h refl | inr h ↦ rw h refl ])
      ]
    ]
  ]
]
