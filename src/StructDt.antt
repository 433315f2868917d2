-- ===== src/StructDt.antt =====
-- src/type_tests/struct_dt.c: rank 0 sends a struct as an MPI struct type with a table of
-- displacements, and rank 1 receives and prints it.
pub mod Run
use mpidt_benchmark.Base.{ℕ, zero, suc, ◌+◌, ◌-◌, ◌*◌, ◌/◌, List, [], ◌∷◌, ◌==◌, if◌then◌else◌}

pub data Basic : Type 0 where
  mpi_int mpi_float mpi_double : Basic

-- The compiler's sizes and alignments of int, float and double.
pub record Abi : Type 0 where
  pub size : Basic → ℕ
  pub align : Basic → ℕ

abbrev pub round_up : ℕ → ℕ → ℕ
round_up n a = (n + a - 1) / a * a

-- Where the compiler places the members: each at the next multiple of its alignment.
abbrev pub num_at : ℕ
num_at = 0

abbrev pub x_at : Abi → ℕ
x_at c = round_up (num_at + c.size mpi_int) (c.align mpi_float)

abbrev pub data_at : Abi → ℕ → ℕ
data_at c i = round_up (x_at c + c.size mpi_float) (c.align mpi_double) + i * c.size mpi_double

-- One entry of each of the three tables.
pub record Block : Type 0 where
  pub type : Basic
  pub blocklength : ℕ
  pub displacement : ℕ

-- `restype`, from the extents that MPI_Type_extent answers.
abbrev pub restype : (Basic → ℕ) → List Block
restype extent =
    record { type = mpi_int; blocklength = 1; displacement = 0 }
    ∷ record { type = mpi_float; blocklength = 1; displacement = extent mpi_int }
    ∷ record {
      type = mpi_double;
      blocklength = 4;
      displacement = extent mpi_int + extent mpi_float;
    }
    ∷ []

-- The values that the program stores: 6 as an int, 3.14 as a float, and `(double) i`.
pub record Values (V : Type 0) : Type 0 where
  pub six : V
  pub pi : V
  pub double : ℕ → V

-- The object `a`: the value at each offset at which a member starts.
abbrev pub Object : Type 0 → Type 0
Object V = ℕ → V

abbrev pub put {ℓ} : {V : Type ℓ} → ℕ → V → (ℕ → V) → ℕ → V
put o v a b = if b == o then v else a b

-- `for (i=0;i < 4;++i) a.data[i]=(double) i;` from `i` with `k` rounds left.
unfoldable pub fill_data : {V : Type 0} → Values V → Abi → ℕ → ℕ → Object V → Object V
fill_data val c zero i a = a
fill_data val c (suc k) i a = fill_data val c k (suc i) (put (data_at c i) (val.double i) a)

-- What an MPI library does with one element of a struct type, as in a send and a receive.
pub record Transfer (V Message : Type 0) : Type 0 where
  pub extent : Basic → ℕ
  pub pack : List Block → Object V → Message
  pub unpack : List Block → Message → Object V → Object V

pub data Call (Message : Type 0) : Type 0 where
  init commit finalize : Call Message
  send recv : Message → ℕ → ℕ → Call Message

-- The calls, newest first, and the numbers that are printed.
pub record Outcome (V Message : Type 0) : Type 0 where
  pub calls : List (Call Message)
  pub printed : List V

module _ {V Message : Type 0} (val : Values V) (c : Abi) (mpi : Transfer V Message) where
  -- `heard` is the message that the receive gets, `a` the object at the start.
  unfoldable pub main : ℕ → Message → Object V → Outcome V Message
  main rank heard a =
      let type = restype mpi.extent in
      if rank == 0
      then (let a' = fill_data val c 4 0 (put (x_at c) val.pi (put num_at val.six a)) in
          record {
            calls = finalize ∷ send (mpi.pack type a') 1 52 ∷ commit ∷ init ∷ [];
            printed = [];
          })
      else (if rank == 1
          then (let a' = mpi.unpack type heard a in
              record {
                calls = finalize ∷ recv heard 0 52 ∷ commit ∷ init ∷ [];
                printed =
                    a' num_at
                    ∷ a' (x_at c)
                    ∷ a' (data_at c 0)
                    ∷ a' (data_at c 1)
                    ∷ a' (data_at c 2)
                    ∷ a' (data_at c 3)
                    ∷ [];
              })
          else record { calls = finalize ∷ commit ∷ init ∷ []; printed = [] })
