-- ===== src/Tests/Struct.antt =====
-- A concrete run of src/type_tests/struct_dt.c, on a machine with 4-byte ints and floats and 8-byte
-- doubles.
use mpidt_benchmark.Base.{ℕ, ◌<◌, ◌≡◌, refl, arith, [], ◌∷◌}
use mpidt_benchmark.StructDt
use mpidt_benchmark.StructDt.{
  Basic, mpi_int, mpi_float, mpi_double, Abi, Values, Object, Transfer, init, commit, finalize,
  send, recv,
}
use mpidt_benchmark.StructDt.Run.{IsPacked, Delivers, main-prints}

abbrev bytes : Basic → ℕ
bytes mpi_double = 8
bytes _ = 4

abbrev machine : Abi
machine = record { size = bytes; align = bytes }

-- The float in hundredths.
abbrev hundredths : Values ℕ
hundredths = record { six = 600; pi = 314; double = λ i. i }

-- A library whose message is the whole object.
abbrev whole_object : Transfer ℕ (Object ℕ)
whole_object = record { extent = bytes; pack = λ l a. a; unpack = λ l m b. m }

bytes-positive : (t : Basic) → 0 < bytes t
bytes-positive mpi_int = omega arith
bytes-positive mpi_float = omega arith
bytes-positive mpi_double = omega arith

packed : IsPacked machine bytes
packed = record {
  same = λ t. refl;
  some = bytes-positive;
  aligned = bytes-positive;
  float_follows = refl;
  double_follows = refl;
}

whole_object-Delivers : Delivers whole_object
whole_object-Delivers = record { held = λ l a b o place. refl }

main-prints_example :
    (m : Object ℕ) × ((StructDt.main hundredths machine whole_object 0 (λ o. 0) (λ o. 0)).calls
      ≡ finalize ∷ send m 1 52 ∷ commit ∷ init ∷ [])
    × ((StructDt.main hundredths machine whole_object 1 m (λ o. 0)).calls
        ≡ finalize ∷ recv m 0 52 ∷ commit ∷ init ∷ [])
    × ((StructDt.main hundredths machine whole_object 1 m (λ o. 0)).printed
        ≡ 600 ∷ 314 ∷ 0 ∷ 1 ∷ 2 ∷ 3 ∷ [])
main-prints_example =
    main-prints hundredths machine whole_object (λ o. 0) (λ o. 0) (λ o. 0) packed
      whole_object-Delivers
