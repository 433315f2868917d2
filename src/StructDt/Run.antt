-- ===== src/StructDt/Run.antt =====
-- The struct that arrives in src/type_tests/struct_dt.c.
use mpidt_benchmark.Base.{
  ℕ, zero, suc, ◌+◌, ◌-◌, ◌*◌, ◌/◌, ◌%◌, ◌<◌, ◌≤◌, ◌≡◌, refl, sym, ap, ◌∙◌, arith, List, [], ◌∷◌,
  ne→==, eq→==, dec_lt,
}
use native.Mathlib.Nat.{div-add-mod', div-eq_of_lt-le}
use mpidt_benchmark.StructDt.{
  Basic, mpi_int, mpi_float, mpi_double, Abi, round_up, num_at, x_at, data_at, Block, restype,
  Values, Object, put, fill_data, Transfer, init, commit, finalize, send, recv, main,
}

-- `o` is a place of the type map of `l`.
pub data IsPlace (extent : Basic → ℕ) (o : ℕ) : List Block → Type 0 where
  first :
      {b : Block} {l : List Block} (j : ℕ)
      → j < b.blocklength
      → o ≡ b.displacement + j * extent b.type
      → IsPlace extent o (b ∷ l)
  later : {b : Block} {l : List Block} → IsPlace extent o l → IsPlace extent o (b ∷ l)

-- What MPI documents of a struct type: what is at the places of its map arrives there.
pub record Delivers {V Message : Type 0} (mpi : Transfer V Message) : Type 0 where
  pub held :
      (l : List Block) (a b : Object V) (o : ℕ)
      → IsPlace mpi.extent o l
      → mpi.unpack l (mpi.pack l a) b o ≡ a o

-- Members without padding between them, of MPI's extents.
pub record IsPacked (c : Abi) (extent : Basic → ℕ) : Type 0 where
  pub same : (t : Basic) → extent t ≡ c.size t
  pub some : (t : Basic) → 0 < c.size t
  pub aligned : (t : Basic) → 0 < c.align t
  pub float_follows : c.size mpi_int % c.align mpi_float ≡ 0
  pub double_follows : (c.size mpi_int + c.size mpi_float) % c.align mpi_double ≡ 0

round_up-id : (n a : ℕ) → 0 < a → n % a ≡ 0 → round_up n a ≡ n
round_up-id n a pos h =
    let parts : n / a * a + n % a ≡ n = div-add-mod' n a in
    let quotient : (n + a - 1) / a ≡ n / a =
      div-eq_of_lt-le {k = n / a} a {m = n + a - 1} (omega arith) (omega arith) in
    ap (λ (q : ℕ). q * a) quotient ∙ omega arith

module _ {V : Type 0} (val : Values V) (c : Abi) (some : 0 < c.size mpi_double) where
  fill_data-before :
      (k i : ℕ) (a : Object V) (o : ℕ) → o < data_at c i → fill_data val c k i a o ≡ a o
  unfolding fill_data
  fill_data-before zero i a o lt = refl
  fill_data-before (suc k) i a o lt =
      fill_data-before k (suc i) (put (data_at c i) (val.double i) a) o (omega arith)
      ∙ rw (ne→== o (data_at c i) (λ e. absurd (omega (arith, e)))) refl

  fill_data-done :
      (k i m : ℕ) (a : Object V)
      → i ≤ m
      → m < i + k
      → fill_data val c k i a (data_at c m) ≡ val.double m
  unfolding fill_data
  fill_data-done zero i m a from to = absurd (omega arith)
  fill_data-done (suc k) i m a from to = elim (dec_lt i m) [
    | yes after ↦
        fill_data-done k (suc i) m (put (data_at c i) (val.double i) a) (omega arith) (omega arith)
    | no now ↦
        let e : m ≡ i = omega arith in
        rw e (
          fill_data-before k (suc i) (put (data_at c i) (val.double i) a) (data_at c i)
            (omega arith)
          ∙ rw (eq→== (data_at c i) (data_at c i) refl) refl)
  ]

module _ {V Message : Type 0} (val : Values V) (c : Abi) (mpi : Transfer V Message)
    (packed : IsPacked c mpi.extent) (a : Object V) where
  open packed use {same, some, aligned, float_follows, double_follows}

  x_place : x_at c ≡ mpi.extent mpi_int
  x_place =
      let start : num_at + c.size mpi_int ≡ c.size mpi_int = omega arith in
      round_up-id (num_at + c.size mpi_int) (c.align mpi_float) (aligned mpi_float)
        (ap (λ (t : ℕ). t % c.align mpi_float) start ∙ float_follows)
      ∙ start
      ∙ sym (same mpi_int)

  data_place :
      (i : ℕ) → data_at c i ≡ mpi.extent mpi_int + mpi.extent mpi_float + i * mpi.extent mpi_double
  data_place i =
      let x : x_at c ≡ c.size mpi_int = x_place ∙ same mpi_int in
      ap (λ (t : ℕ). round_up (t + c.size mpi_float) (c.align mpi_double) + i * c.size mpi_double) x
      ∙ ap (λ (t : ℕ). t + i * c.size mpi_double)
          (round_up-id (c.size mpi_int + c.size mpi_float) (c.align mpi_double) (aligned mpi_double)
            double_follows)
      ∙ rw (same mpi_int, same mpi_float, same mpi_double) refl

  stored : Object V
  stored = fill_data val c 4 0 (put (x_at c) val.pi (put num_at val.six a))

  stored-num : stored num_at ≡ val.six
  unfolding stored
  stored-num =
      let x : x_at c ≡ c.size mpi_int = x_place ∙ same mpi_int in
      fill_data-before val c (some mpi_double) 4 0 _ num_at
        (omega (arith, data_place 0, same mpi_int, some mpi_int))
      ∙ rw (ne→== num_at (x_at c) (λ e. absurd (omega (arith, e, x, some mpi_int)))) refl

  stored-x : stored (x_at c) ≡ val.pi
  unfolding stored
  stored-x =
      fill_data-before val c (some mpi_double) 4 0 _ (x_at c)
        (omega (arith, data_place 0, x_place, same mpi_float, some mpi_float))
      ∙ rw (eq→== (x_at c) (x_at c) refl) refl

  stored-data : (i : ℕ) → i < 4 → stored (data_at c i) ≡ val.double i
  unfolding stored
  stored-data i lt = fill_data-done val c (some mpi_double) 4 0 i _ (omega arith) (omega arith)

-- Where the members have MPI's extents and no padding between them, and MPI delivers the places of a
-- struct type as documented: what rank 0 sends to rank 1 is received there from rank 0 under the same
-- tag, rank 1 prints 6, 3.14 and the doubles 0 to 3, and both ranks end in MPI_Finalize.
pub main-prints :
    {V Message : Type 0} (val : Values V) (c : Abi) (mpi : Transfer V Message) (heard : Message)
    (a b : Object V)
    → IsPacked c mpi.extent
    → Delivers mpi
    → (m : Message) × ((main val c mpi 0 heard a).calls
        ≡ finalize ∷ send m 1 52 ∷ commit ∷ init ∷ [])
      × ((main val c mpi 1 m b).calls ≡ finalize ∷ recv m 0 52 ∷ commit ∷ init ∷ [])
      × ((main val c mpi 1 m b).printed
          ≡ val.six ∷ val.pi ∷ val.double 0 ∷ val.double 1 ∷ val.double 2 ∷ val.double 3 ∷ [])
unfolding main stored
main-prints val c mpi heard a b packed delivers =
    let l = restype mpi.extent in
    let sent = stored val c mpi packed a in
    let number = λ (i : ℕ) (lt : i < 4).
      delivers.held l sent b (data_at c i)
        (later (later (first i lt (data_place val c mpi packed a i))))
      ∙ stored-data val c mpi packed a i lt in
    (
      mpi.pack l sent,
      refl,
      refl,
      rw
          (
            delivers.held l sent b num_at (first 0 (omega arith) (omega arith)),
            stored-num val c mpi packed a,
            delivers.held l sent b (x_at c)
                (later (first 0 (omega arith) (omega (arith, x_place val c mpi packed a)))),
            stored-x val c mpi packed a,
            number 0 (omega arith),
            number 1 (omega arith),
            number 2 (omega arith),
            number 3 (omega arith),
          )
          refl,
    )
