-- ===== src/Tests/Vector.antt =====
-- A concrete run of src/type_tests/vector_dt.c.
use mpidt_benchmark.Base.{
  ℕ, ◌+◌, ◌-◌, ◌*◌, ◌/◌, ◌%◌, ◌<◌, ◌≡◌, refl, ◌∙◌, arith, [], ◌∷◌, true, some, leb, ltb, ◌&&◌, ◌==◌,
  if◌then◌else◌, le→leb, lt→ltb, lt→not-leb, le→not-ltb, dec_lt,
}
use native.Mathlib.Nat.{
  mul-add-div_right, div-eq_of_lt, div-add-mod', mul-add-mod_self_right, mod-eq_of_lt,
}
use mpidt_benchmark.VectorDt
use mpidt_benchmark.VectorDt.{
  rows, cols, Transfer, init, commit, barrier, finalize, send, recv, successful,
}
use mpidt_benchmark.VectorDt.Run.{Delivers, main-validates}

-- A library that copies the blocks: the message holds the ints by block and place in the block.
abbrev copying : Transfer (ℕ → ℕ → ℕ)
copying = record {
  pack = λ v x p i j. x (p + i * v.stride + j);
  unpack = λ v m y q a.
      if leb q a && (ltb ((a - q) / v.stride) v.count && ltb ((a - q) % v.stride) v.blocklength)
      then m ((a - q) / v.stride) ((a - q) % v.stride)
      else y a;
}

copying-Delivers : Delivers copying
copying-Delivers = record {
  held = λ v x y p q i j i_lt j_lt small.
      let pos : 0 < v.stride = omega arith in
      let off : q + i * v.stride + j - q ≡ i * v.stride + j = omega arith in
      let block : (i * v.stride + j) / v.stride ≡ i =
        mul-add-div_right pos i j ∙ rw (div-eq_of_lt small) (omega arith) in
      let place : (i * v.stride + j) % v.stride ≡ j =
        mul-add-mod_self_right i v.stride j ∙ mod-eq_of_lt small in
      let from : leb q (q + i * v.stride + j) ≡ true =
        le→leb q (q + i * v.stride + j) (omega arith) in
      rw (from, off, block, place, lt→ltb i v.count i_lt, lt→ltb j v.blocklength j_lt) refl;
  kept = λ v x y p q a outside.
      let block = (a - q) / v.stride in
      let place = (a - q) % v.stride in
      elim (dec_lt a q) [
        | yes before ↦ rw (lt→not-leb q a before) refl
        | no from ↦ elim (dec_lt block v.count) [
          | no behind ↦ rw (le→leb q a (omega arith), le→not-ltb block v.count (omega arith)) refl
          | yes b ↦ elim (dec_lt place v.blocklength) [
            | no gap ↦
                rw
                  (
                    le→leb q a (omega arith),
                    lt→ltb block v.count b,
                    le→not-ltb place v.blocklength (omega arith),
                  )
                  refl
            | yes o ↦
                absurd (outside block place b o (omega (arith, div-add-mod' (a - q) v.stride)))
          ]
        ]
      ];
}

main-validates_example :
    (m : ℕ → ℕ → ℕ) × ((VectorDt.main copying 0 (λ i j. 0) (λ a. a)).calls
      ≡ finalize ∷ send m 1 52 ∷ barrier ∷ commit ∷ init ∷ [])
    × ((VectorDt.main copying 1 m (λ a. a)).calls
        ≡ finalize ∷ recv m 0 52 ∷ barrier ∷ commit ∷ init ∷ [])
    × ((VectorDt.main copying 1 m (λ a. a)).verdict ≡ some successful)
    × ((i j : ℕ)
        → i < rows
        → j < cols
        → (VectorDt.main copying 1 m (λ a. a)).x (i * cols + j) ≡ (if j == 3 then 5 else 0))
main-validates_example = main-validates copying (λ i j. 0) (λ a. a) (λ a. a) copying-Delivers
