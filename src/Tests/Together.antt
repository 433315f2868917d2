-- ===== src/Tests/Together.antt =====
-- A short run of the sender and one receiver of benchmark_shmem_pip in src/bench.c, with 8 bytes in
-- blocks of two as one piece.
use mpidt_benchmark.Base.{ℕ, ◌+◌, ◌<◌, ◌*◌, ◌≤◌, ◌≡◌, ◌⊎◌, refl, arith, true, false}
use mpidt_benchmark.Memory.{Region, ok, memcpy, blit}
use mpidt_benchmark.Iovec.{at, init_iovec}
use mpidt_benchmark.Word.{narrow, rounds, ptr_add, add64, sub64}
use mpidt_benchmark.Shmem.{store_shared, load_shared}
use mpidt_benchmark.Pipeline.{Cursor, fill, drain, pass, next_block, inside_block}
use mpidt_benchmark.Joint.{
  System, Step, array, mapped, store, announce, hear, load, join, Reach, here, next, start, going,
  complete, at_loop, in_body,
}
use mpidt_benchmark.Joint.Pieces.{IsSetup}
use mpidt_benchmark.Joint.Invariant.{Inv}
use mpidt_benchmark.Joint.Moves.{Reach-Inv}
use mpidt_benchmark.Joint.Safety.{no_race, delivered, loops_safe}
use mpidt_benchmark.Broadcast.{Channel, Turns, idle}
use mpidt_benchmark.Joint.Refine.{Shows, pip-Shows}
use mpidt_benchmark.Joint.Progress.{no_deadlock, IsFinished}
use mpidt_benchmark.Joint.Progress.Length.{bounded, steps, side_bound}

abbrev local : Region
local = record { base = 8192; size = 8; cell = λ a. a }

abbrev far : ℕ → ℕ
far i = 131072

abbrev empty_file : ℕ → ℕ
empty_file o = 0

small : IsSetup 8 8 2 1 1 65536 far local (λ _. local)
small = record {
  sender_fits = omega arith;
  receiver_fits = λ i h. omega arith;
  depth = omega arith;
  whole = refl;
  even = refl;
  some_pieces = omega arith;
}

-- The runs from the start.
abbrev Runs : Type 0
Runs = (y : System) × Reach 8 8 2 1 65536 far (start empty_file local (λ _. local)) y

-- The receiver has left its first broadcast.
abbrev heard : Runs
unfolding fill pass next_block inside_block going narrow rounds ptr_add add64 sub64 at store_shared
    memcpy blit init_iovec
heard = (
  _,
  next
      (next
        (next here (store (start empty_file local (λ _. local)) _ _ (omega arith) refl refl refl))
        (announce _ refl))
      (hear _ 0 (omega arith) (omega arith) refl refl (omega arith)),
)

-- It has also copied the piece and ended its iteration.
abbrev joined : Runs
unfolding drain pass next_block inside_block going complete narrow rounds ptr_add add64 sub64 at
    load_shared memcpy blit init_iovec heard
joined = (
  _,
  next (next heard.1 (load heard.0 0 _ _ (omega arith) refl refl))
      (join _ 0 (omega arith) (omega arith) refl refl refl),
)

Reach-Inv_example : Inv (λ o. 8192 + o) 8 8 2 1 1 local (λ _. local) heard.0
Reach-Inv_example = Reach-Inv 8 8 2 1 1 65536 far local (λ _. local) small empty_file heard.1

no_race_example : (heard.0.receivers 0).at.shm_off + 8 ≤ heard.0.sender.at.shm_off
unfolding heard
no_race_example =
    no_race 8 8 2 1 1 65536 far local (λ _. local) small empty_file heard.0 heard.1 0 (omega arith)
      refl

delivered_example : (joined.0.receivers 0).buf.cell 8197 ≡ 8197
unfolding heard joined
delivered_example =
    delivered 8 8 2 1 1 65536 far local (λ _. local) small empty_file joined.0 joined.1 0 5
      (omega arith) (omega arith) (omega arith)

loops_safe_example :
    ((heard.0.sender.phase ≡ in_body)
      ⊎ ((heard.0.sender.phase ≡ at_loop)
          × ((going 8 8 2 heard.0.sender.at ≡ true
                × ((p : Cursor) × (d : Region) × (fill heard.0.sender.buf
                        (array 8 8 2 heard.0.sender)
                        8
                        heard.0.sender.at
                        (mapped 65536 8 heard.0.file)
                      ≡ ok (p, d))))
              ⊎ ((going 8 8 2 heard.0.sender.at ≡ false)
                  × (complete 8 8 2 heard.0.sender.at ≡ true)))))
    × ((i : ℕ)
        → i < 1
        → ((heard.0.receivers i).phase ≡ in_body
            × ((p : Cursor) × (d : Region) × (drain
                    (mapped 131072 8 heard.0.file)
                    (array 8 8 2 (heard.0.receivers i))
                    8
                    (heard.0.receivers i).at
                    (heard.0.receivers i).buf
                  ≡ ok (p, d))))
          ⊎ (((heard.0.receivers i).phase ≡ at_loop)
              × ((going 8 8 2 (heard.0.receivers i).at ≡ true)
                  ⊎ (complete 8 8 2 (heard.0.receivers i).at ≡ true))))
loops_safe_example =
    loops_safe 8 8 2 1 1 65536 far local (λ _. local) small empty_file heard.0 heard.1

no_deadlock_example :
    IsFinished 8 8 2 1 1 65536 far local (λ _. local) small heard.0
    ⊎ ((z : System) × Step 8 8 2 1 65536 far heard.0 z)
no_deadlock_example =
    no_deadlock 8 8 2 1 1 65536 far local (λ _. local) small empty_file heard.0 heard.1

bounded_example : steps 8 8 2 1 65536 far joined.1 ≤ 2 * side_bound 1
bounded_example = bounded 8 8 2 1 1 65536 far local (λ _. local) small empty_file joined.0 joined.1

pip-Shows_example :
    (c : Channel) × Turns 1 idle c × Shows (λ o. 8192 + o) 8 1 (λ i. 8192) joined.0 c
pip-Shows_example = pip-Shows 8 8 2 1 1 65536 far local (λ _. local) small empty_file joined.1
