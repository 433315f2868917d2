-- ===== src/VectorDt/Run.antt =====
-- The column that arrives in src/type_tests/vector_dt.c.
use mpidt_benchmark.Base.{
  ℕ, zero, suc, ◌+◌, ◌*◌, ◌<◌, ◌≤◌, ◌≡◌, ◌≢◌, inl, inr, refl, ap, ◌∙◌, arith, some, [], ◌∷◌, ◌==◌,
  if◌then◌else◌, Bool-cases, eq→==, ne→==, dec_lt,
}
use mpidt_benchmark.VectorDt.{
  rows, cols, Matrix, put, clear_row, clear_rows, set_column, count_errors, successful, validate,
  Vector, coltype, Transfer, init, commit, barrier, finalize, send, recv, main,
}

-- What MPI documents of a vector type: the blocks of the message arrive at their places, and nothing
-- else is stored.
pub record Delivers {Message : Type 0} (mpi : Transfer Message) : Type 0 where
  pub held :
      (v : Vector) (x y : Matrix) (p q i j : ℕ)
      → i < v.count
      → j < v.blocklength
      → j < v.stride
      → mpi.unpack v (mpi.pack v x p) y q (q + i * v.stride + j) ≡ x (p + i * v.stride + j)
  pub kept :
      (v : Vector) (x y : Matrix) (p q a : ℕ)
      → ((i j : ℕ) → i < v.count → j < v.blocklength → a ≢ q + i * v.stride + j)
      → mpi.unpack v (mpi.pack v x p) y q a ≡ y a

clear_row-before : (i k j : ℕ) (x : Matrix) (a : ℕ) → a < i * cols + j → clear_row i k j x a ≡ x a
unfolding clear_row put
clear_row-before i zero j x a lt = refl
clear_row-before i (suc k) j x a lt =
    clear_row-before i k (suc j) (put x i j 0) a (omega arith)
    ∙ rw (ne→== a (i * cols + j) (λ e. absurd (omega (arith, e)))) refl

clear_row-done :
    (i k j : ℕ) (x : Matrix) (a : ℕ)
    → i * cols + j ≤ a
    → a < i * cols + (j + k)
    → clear_row i k j x a ≡ 0
unfolding clear_row put
clear_row-done i zero j x a from to = absurd (omega arith)
clear_row-done i (suc k) j x a from to = elim (dec_lt (i * cols + j) a) [
  | yes later ↦ clear_row-done i k (suc j) (put x i j 0) a (omega arith) (omega arith)
  | no now ↦
      clear_row-before i k (suc j) (put x i j 0) a (omega arith)
      ∙ rw (eq→== a (i * cols + j) (omega arith)) refl
]

clear_rows-before : (k i : ℕ) (x : Matrix) (a : ℕ) → a < i * cols → clear_rows k i x a ≡ x a
unfolding clear_rows
clear_rows-before zero i x a lt = refl
clear_rows-before (suc k) i x a lt =
    clear_rows-before k (suc i) (clear_row i cols 0 x) a (omega arith)
    ∙ clear_row-before i cols 0 x a (omega arith)

clear_rows-done :
    (k i : ℕ) (x : Matrix) (a : ℕ) → i * cols ≤ a → a < (i + k) * cols → clear_rows k i x a ≡ 0
unfolding clear_rows
clear_rows-done zero i x a from to = absurd (omega arith)
clear_rows-done (suc k) i x a from to = elim (dec_lt a (suc i * cols)) [
  | yes now ↦
      clear_rows-before k (suc i) (clear_row i cols 0 x) a now
      ∙ clear_row-done i cols 0 x a (omega arith) (omega arith)
  | no later ↦ clear_rows-done k (suc i) (clear_row i cols 0 x) a (omega arith) (omega arith)
]

set_column-before : (k i : ℕ) (x : Matrix) (a : ℕ) → a < i * cols + 2 → set_column k i x a ≡ x a
unfolding set_column put
set_column-before zero i x a lt = refl
set_column-before (suc k) i x a lt =
    set_column-before k (suc i) (put x i 2 5) a (omega arith)
    ∙ rw (ne→== a (i * cols + 2) (λ e. absurd (omega (arith, e)))) refl

set_column-done : (k i m : ℕ) (x : Matrix) → i ≤ m → m < i + k → set_column k i x (m * cols + 2) ≡ 5
unfolding set_column put
set_column-done zero i m x from to = absurd (omega arith)
set_column-done (suc k) i m x from to = elim (dec_lt i m) [
  | yes later ↦ set_column-done k (suc i) m (put x i 2 5) (omega arith) (omega arith)
  | no now ↦
      set_column-before k (suc i) (put x i 2 5) (m * cols + 2) (omega arith)
      ∙ rw (eq→== (m * cols + 2) (i * cols + 2) (omega arith)) refl
]

-- A column of right values has no errors.
count_errors-none :
    (buf : Matrix) (refcol val k i err : ℕ)
    → ((m : ℕ) → m < i + k → buf (m * cols + refcol) ≡ val)
    → count_errors buf refcol val k i err ≡ err
unfolding count_errors
count_errors-none buf refcol val zero i err right = refl
count_errors-none buf refcol val (suc k) i err right =
    rw (eq→== (buf (i * cols + refcol)) val (right i (omega arith)))
      (count_errors-none buf refcol val k (suc i) err (λ m lt. right m (omega arith)))

-- An MPI library that delivers vectors, a matrix before it is set, and the column as rank 1 gets it.
module _ {Message : Type 0} (mpi : Transfer Message) (delivers : Delivers mpi)
    (junk junk' : Matrix) where
  column : Matrix
  column = set_column rows 0 (clear_rows rows 0 junk)

  arrived : Matrix
  arrived = mpi.unpack coltype (mpi.pack coltype column 2) (clear_rows rows 0 junk') 3

  arrived-column : (i : ℕ) → i < rows → arrived (i * cols + 3) ≡ 5
  unfolding arrived column
  arrived-column i lt =
      let held =
        delivers.held coltype column (clear_rows rows 0 junk') 2 3 i 0 lt (omega arith)
          (omega arith) in
      let at : i * cols + 3 ≡ 3 + i * cols + 0 = omega arith in
      let from : 2 + i * cols + 0 ≡ i * cols + 2 = omega arith in
      ap arrived at
      ∙ held
      ∙ ap column from
      ∙ set_column-done rows 0 i (clear_rows rows 0 junk) (omega arith) (omega arith)

  arrived-rest : (i j : ℕ) → i < rows → j < cols → j ≢ 3 → arrived (i * cols + j) ≡ 0
  unfolding arrived column
  arrived-rest i j i_lt j_lt other =
      delivers.kept coltype column (clear_rows rows 0 junk') 2 3 (i * cols + j)
        (λ m o _ o_lt e. other (omega (arith, e)))
      ∙ clear_rows-done rows 0 junk' (i * cols + j) (omega arith) (omega arith)

-- Where the MPI library delivers vectors as documented: what rank 0 sends to rank 1 is received there
-- from rank 0 under the same tag, and stored as the fourth column, 5 in each row; every other element
-- of rank 1's matrix is 0; `validate` finds no errors; and both ranks end in MPI_Finalize.
pub main-validates :
    {Message : Type 0} (mpi : Transfer Message) (heard : Message) (junk junk' : Matrix)
    → Delivers mpi
    → (m : Message) × ((main mpi 0 heard junk).calls
        ≡ finalize ∷ send m 1 52 ∷ barrier ∷ commit ∷ init ∷ [])
      × ((main mpi 1 m junk').calls ≡ finalize ∷ recv m 0 52 ∷ barrier ∷ commit ∷ init ∷ [])
      × ((main mpi 1 m junk').verdict ≡ some successful)
      × ((i j : ℕ)
          → i < rows
          → j < cols
          → (main mpi 1 m junk').x (i * cols + j) ≡ (if j == 3 then 5 else 0))
unfolding main column arrived validate
main-validates mpi heard junk junk' delivers =
    let none_wrong =
      count_errors-none (arrived mpi delivers junk junk') 3 5 rows 0 0
        (λ m lt. arrived-column mpi delivers junk junk' m (omega arith)) in
    (
      mpi.pack coltype (column mpi delivers junk junk') 2,
      refl,
      refl,
      rw none_wrong refl,
      λ i j i_lt j_lt. elim (Bool-cases (j == 3)) [
        | inl third ↦
            let at : j ≡ 3 = ground arith in rw at (arrived-column mpi delivers junk junk' i i_lt)
        | inr rest ↦
            let other : j ≢ 3 = λ e. ground arith in
            rw rest (arrived-rest mpi delivers junk junk' i j i_lt j_lt other)
      ],
    )
