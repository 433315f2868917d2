-- ===== src/Tests/Packets.antt =====
-- A short run of the sender and one receiver of benchmark_shmem in src/bench.c, with 8 bytes in blocks
-- of two.
use mpidt_benchmark.Base.{ℕ, ◌+◌, ◌<◌, ◌≡◌, ◌⊎◌, refl, arith}
use mpidt_benchmark.Word.{narrow, rounds, ptr_add, add64}
use mpidt_benchmark.Memory.{Region, memcpy, blit}
use mpidt_benchmark.Iovec.{at, init_iovec}
use mpidt_benchmark.Shmem.{
  store_shared, load_shared, copy_to_shmem, copy_from_shmem, copy_blocks, copy_loop, divide,
}
use mpidt_benchmark.Joint.{iterations}
use mpidt_benchmark.Handshake.{
  Group, at_gather, store, announce, hear, load, join, Move, Moves, none_yet, one_more, begin,
}
use mpidt_benchmark.Handshake.Invariant.{IsReady}
use mpidt_benchmark.Broadcast.{Channel, Turns, idle}
use mpidt_benchmark.Handshake.Refine.{Shows, shmem-Shows}
use mpidt_benchmark.Handshake.Safety.{exclusive, shmem_no_deadlock}

abbrev local : Region
local = record { base = 8192; size = 8; cell = λ a. a }

abbrev far : ℕ → ℕ
far i = 131072

abbrev empty_file : ℕ → ℕ
empty_file o = 0

small : IsReady 8 2 1 65536 far local (λ _. local)
small = record { sender_fits = omega arith; receiver_fits = λ i h. omega arith; whole = refl }

-- The runs from the start.
abbrev Runs : Type 0
Runs = (y : Group) × Moves 8 2 1 65536 far (begin empty_file local (λ _. local)) y

-- The receiver has left its first broadcast.
abbrev heard : Runs
unfolding store_shared copy_to_shmem copy_blocks copy_loop divide narrow rounds ptr_add add64 at
    init_iovec memcpy blit
heard = (
  _,
  one_more
      (one_more
        (one_more none_yet
          (store (begin empty_file local (λ _. local)) _ _ (omega arith) refl refl refl))
        (announce _ refl))
      (hear _ 0 (omega arith) (omega arith) refl (omega arith)),
)

-- It has also copied the file and ended its iteration.
abbrev joined : Runs
unfolding heard load_shared copy_from_shmem copy_blocks copy_loop divide narrow rounds ptr_add add64
    at init_iovec memcpy blit
joined = (
  _,
  one_more (one_more heard.1 (load heard.0 0 _ _ (omega arith) refl refl refl))
      (join _ 0 (omega arith) refl),
)

exclusive_example :
    (heard.0.sender.stage ≡ at_gather)
    × ((heard.0.receivers 0).round ≡ heard.0.sender.round)
    × ((o : ℕ) → o < 8 → heard.0.file o ≡ 8192 + o)
unfolding heard
exclusive_example =
    exclusive 8 2 1 65536 far local (λ _. local) small empty_file heard.0 heard.1 0 (omega arith)
      refl

shmem-Shows_example :
    (c : Channel) × Turns 1 idle c × Shows (λ o. 8192 + o) 8 1 (λ i. 8192) joined.0 c
shmem-Shows_example = shmem-Shows 8 2 1 65536 far local (λ _. local) small empty_file joined.1

shmem_no_deadlock_example :
    ((heard.0.sender.round ≡ iterations)
      × ((i : ℕ) → i < 1 → (heard.0.receivers i).round ≡ iterations))
    ⊎ ((z : Group) × Move 8 2 1 65536 far heard.0 z)
shmem_no_deadlock_example =
    shmem_no_deadlock 8 2 1 65536 far local (λ _. local) small empty_file heard.0 heard.1
