-- ===== src/VectorDt.antt =====
-- src/type_tests/vector_dt.c: rank 0 sends a column of a matrix as an MPI vector, and rank 1 receives
-- it in another column and validates it.
pub mod Run
use mpidt_benchmark.Base.{
  ℕ, zero, suc, ◌+◌, ◌*◌, ◌<◌, ◌≡◌, ◌≢◌, not, Option, none, some, List, [], ◌∷◌, ◌==◌,
  if◌then◌else◌,
}

abbrev pub rows : ℕ
rows = 4096

abbrev pub cols : ℕ
cols = 4096

-- The ints of `int x[rows][cols]`, row by row.
abbrev pub Matrix : Type 0
Matrix = ℕ → ℕ

unfoldable pub put : Matrix → ℕ → ℕ → ℕ → Matrix
put x i j v a = if a == i * cols + j then v else x a

-- The loop over `j` of the row `i`, from `j` with `k` rounds left, and the loop over the rows.
unfoldable pub clear_row : ℕ → ℕ → ℕ → Matrix → Matrix
clear_row i zero j x = x
clear_row i (suc k) j x = clear_row i k (suc j) (put x i j 0)

unfoldable pub clear_rows : ℕ → ℕ → Matrix → Matrix
clear_rows zero i x = x
clear_rows (suc k) i x = clear_rows k (suc i) (clear_row i cols 0 x)

unfoldable pub set_column : ℕ → ℕ → Matrix → Matrix
set_column zero i x = x
set_column (suc k) i x = set_column k (suc i) (put x i 2 5)

-- The count `err` of `validate`.
unfoldable pub count_errors : Matrix → ℕ → ℕ → ℕ → ℕ → ℕ → ℕ
count_errors buf refcol val zero i err = err
count_errors buf refcol val (suc k) i err =
    count_errors buf refcol val k (suc i)
      (if not (buf (i * cols + refcol) == val) then suc err else err)

-- The line that `validate` prints.
pub data Verdict : Type 0 where
  successful : Verdict
  errors : ℕ → Verdict

unfoldable pub validate : Matrix → ℕ → ℕ → Verdict
validate buf refcol val =
    let err = count_errors buf refcol val rows 0 0 in if err == 0 then successful else errors err

-- MPI_Type_vector: the number of blocks, the ints of each, and the ints between two starts.
pub record Vector : Type 0 where
  pub count : ℕ
  pub blocklength : ℕ
  pub stride : ℕ

abbrev pub coltype : Vector
coltype = record { count = rows; blocklength = 1; stride = cols }

-- What an MPI library does with one element of a vector type at a place: the message that a send
-- makes, and the store of a receive. `Message` is the library's own.
pub record Transfer (Message : Type 0) : Type 0 where
  pub pack : Vector → Matrix → ℕ → Message
  pub unpack : Vector → Message → Matrix → ℕ → Matrix

-- The calls, newest first; send and recv with the message, the peer and the tag.
pub data Call (Message : Type 0) : Type 0 where
  init commit barrier finalize : Call Message
  send recv : Message → ℕ → ℕ → Call Message

pub record Outcome (Message : Type 0) : Type 0 where
  pub calls : List (Call Message)
  pub x : Matrix
  pub verdict : Option Verdict

module _ {Message : Type 0} (mpi : Transfer Message) where
  -- `heard` is the message that the receive gets, `junk` the matrix before it is set.
  unfoldable pub main : ℕ → Message → Matrix → Outcome Message
  main rank heard junk =
      let x = clear_rows rows 0 junk in
      let calls = barrier ∷ commit ∷ init ∷ [] in
      if rank == 0
      then (let x' = set_column rows 0 x in
          record {
            calls = finalize ∷ send (mpi.pack coltype x' 2) 1 52 ∷ calls;
            x = x';
            verdict = none;
          })
      else (if rank == 1
          then (let x' = mpi.unpack coltype heard x 3 in
              record {
                calls = finalize ∷ recv heard 0 52 ∷ calls;
                x = x';
                verdict = some (validate x' 3 5);
              })
          else record { calls = finalize ∷ calls; x = x; verdict = none })
