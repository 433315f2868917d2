-- ===== src/OsuLatency/PingPong.antt =====
-- The messages of the two processes of src/mpi/osu_latency_contig.c.
use mpidt_benchmark.Base.{
  ℕ, zero, suc, ◌+◌, ◌*◌, ◌/◌, ◌%◌, ◌^◌, ◌≤◌, ◌<◌, ◌≡◌, ◌==◌, inl, inr, refl, ap, arith, true,
  false, not, List, ◌∷◌, map, leb, ltb, ◌&&◌, if◌then◌else◌, le→leb, lt→not-leb, dec_lt, Bool-cases,
  ne→==, eq→==,
}
use mathlib.Core.Path.{ap₂}
use native.Mathlib.Nat.{pow-suc}
use mpidt_benchmark.Word.{narrow, narrow-id}
use mpidt_benchmark.Memory.{Result, ok}
use mpidt_benchmark.Shmem.Copy.{divide-ok}
use mpidt_benchmark.OsuLatency.{
  Call, init, finalize, barrier, send, recv, Note, wtime, latency, header, release, alloc, message,
  commit, Options, Answers, State, okay, max_num_elems, point_size, is_negative, adjust, swap, ping,
  pong, exchange, next_count, sizes, run, dispatch, main, call, note, initial, exit_success,
  exit_failure,
}

-- The call with which the other process meets a call, for the ranks 0 and 1.
pub other : ℕ → ℕ
other r = if r == 0 then 1 else 0

pub answer : Call → Call
answer init = init
answer finalize = finalize
answer barrier = barrier
answer (send p n) = recv (other p) n
answer (recv p n) = send (other p) n

-- The two processes at the same place: their calls meet pairwise.
pub record Meets (s t : State) : Type 0 where
  pub calls : s.calls ≡ map answer t.calls
  pub iterations : s.iterations ≡ t.iterations
  pub skip : s.skip ≡ t.skip

note-Meets : {s t : State} (n : Note) → Meets s t → Meets (note n s) t
note-Meets n m = record { calls = m.calls; iterations = m.iterations; skip = m.skip }

ping-pong : (cnt k i : ℕ) (s t : State) → Meets s t → Meets (ping cnt k i s) (pong cnt k t)
unfolding ping pong answer other
ping-pong cnt zero i s t m = m
ping-pong cnt (suc k) i s t m = elim (Bool-cases (i == s.skip)) [
  | inl now ↦ rw now (
      ping-pong cnt k (suc i) _ _ (record {
        calls = ap (λ (l : List Call). recv 1 cnt ∷ send 1 cnt ∷ l) m.calls;
        iterations = m.iterations;
        skip = m.skip;
      }))
  | inr later ↦ rw later (
      ping-pong cnt k (suc i) _ _ (record {
        calls = ap (λ (l : List Call). recv 1 cnt ∷ send 1 cnt ∷ l) m.calls;
        iterations = m.iterations;
        skip = m.skip;
      }))
]

adjust-Meets :
    (o : Options) (large cnt : ℕ) (s t : State)
    → Meets s t
    → Meets (adjust o large cnt s) (adjust o large cnt t)
unfolding adjust
adjust-Meets o large cnt s t m = elim (Bool-cases (not (is_negative cnt) && ltb large cnt)) [
  | inl over ↦ rw over (record { calls = m.calls; iterations = refl; skip = refl })
  | inr under ↦ rw under m
]

swap-Meets : (cnt : ℕ) (s t : State) → Meets s t → Meets (swap 0 cnt s) (swap 1 cnt t)
unfolding swap
swap-Meets cnt s t m =
    let e : s.iterations + s.skip ≡ t.iterations + t.skip = ap₂ ◌+◌ m.iterations m.skip in
    rw (← e) (note-Meets latency (note-Meets wtime (ping-pong cnt (s.iterations + s.skip) 0 s t m)))

barrier-Meets : {s t : State} → Meets s t → Meets (call barrier s) (call barrier t)
unfolding answer
barrier-Meets m = record {
  calls = ap (λ (l : List Call). barrier ∷ l) m.calls;
  iterations = m.iterations;
  skip = m.skip;
}

pub is_negative-small : (cnt : ℕ) → cnt < 2 ^ 31 → is_negative cnt ≡ false
unfolding is_negative
is_negative-small cnt h = lt→not-leb (2 ^ 63) cnt (omega arith)

pub exchange-ok :
    (o : Options) (a : Answers) (myid cnt : ℕ) (st : State)
    → point_size ≤ a.extent
    → cnt < 2 ^ 31
    → exchange o a myid cnt st
      ≡ ok (swap myid cnt (call barrier (adjust o (o.large_message_size / a.extent) cnt st)))
unfolding exchange
exchange-ok o a myid cnt st room small =
    let fits : leb (max_num_elems * point_size) (max_num_elems * a.extent) ≡ true =
      le→leb (max_num_elems * point_size) (max_num_elems * a.extent) (omega arith) in
    rw (fits, divide-ok o.large_message_size a.extent (omega arith), is_negative-small cnt small)
      refl

-- Two runs that succeed in states that meet.
pub record BothMeet (r r' : Result State) : Type 0 where
  pub first : State
  pub second : State
  pub ran : r ≡ ok first
  pub ran' : r' ≡ ok second
  pub meets : Meets first second

module _ (o : Options) (a : Answers) (room : point_size ≤ a.extent) where
  abbrev pub body : ℕ → ℕ → State → State
  body myid cnt st =
      swap myid cnt (call barrier (adjust o (o.large_message_size / a.extent) cnt st))

  body-Meets : (cnt : ℕ) (s t : State) → Meets s t → Meets (body 0 cnt s) (body 1 cnt t)
  body-Meets cnt s t m =
      swap-Meets cnt _ _
        (barrier-Meets (adjust-Meets o (o.large_message_size / a.extent) cnt s t m))

  pub sizes-step :
      (myid fuel cnt : ℕ) (st : State)
      → cnt ≤ max_num_elems
      → sizes o a myid (suc fuel) cnt st ≡ sizes o a myid fuel (next_count cnt) (body myid cnt st)
  unfolding sizes
  sizes-step myid fuel cnt st le =
      rw
        (
          is_negative-small cnt (omega arith),
          le→leb cnt max_num_elems le,
          exchange-ok o a myid cnt st room (omega arith),
        )
        refl

  pub sizes-end :
      (myid fuel cnt : ℕ) (st : State)
      → max_num_elems < cnt
      → cnt < 2 ^ 31
      → sizes o a myid (suc fuel) cnt st ≡ ok st
  unfolding sizes
  sizes-end myid fuel cnt st gt small =
      rw (is_negative-small cnt small, lt→not-leb cnt max_num_elems gt) refl

  sizes-Meets :
      (fuel cnt : ℕ) (s t : State)
      → 0 < cnt
      → max_num_elems < cnt * 2 ^ fuel
      → cnt < 2 ^ 31
      → Meets s t
      → BothMeet (sizes o a 0 (suc fuel) cnt s) (sizes o a 1 (suc fuel) cnt t)
  unfolding next_count
  sizes-Meets zero cnt s t pos far small m = record {
    first = s;
    second = t;
    ran = sizes-end 0 zero cnt s (omega arith) small;
    ran' = sizes-end 1 zero cnt t (omega arith) small;
    meets = m;
  }
  sizes-Meets (suc fuel) cnt s t pos far small m = elim (dec_lt max_num_elems cnt) [
    | yes over ↦ record {
      first = s;
      second = t;
      ran = sizes-end 0 (suc fuel) cnt s over small;
      ran' = sizes-end 1 (suc fuel) cnt t over small;
      meets = m;
    }
    | no under ↦
        let e : cnt * 2 ^ suc fuel ≡ cnt * 2 * 2 ^ fuel = rw pow-suc (grind arith) in
        rw
          (
            sizes-step 0 (suc fuel) cnt s (omega arith),
            sizes-step 1 (suc fuel) cnt t (omega arith),
            ne→== cnt 0 (omega arith),
            narrow-id (cnt * 2) (omega arith),
          )
          (sizes-Meets fuel (cnt * 2) (body 0 cnt s) (body 1 cnt t) (omega arith) (omega arith)
            (omega arith) (body-Meets cnt s t m))
  ]

  sizes-all :
      (cnt : ℕ) (s t : State)
      → cnt < 2 ^ 31
      → Meets s t
      → BothMeet (sizes o a 0 64 cnt s) (sizes o a 1 64 cnt t)
  unfolding next_count
  sizes-all cnt s t small m = elim (dec_lt 0 cnt) [
    | yes pos ↦ sizes-Meets 63 cnt s t pos (omega arith) small m
    | no none_yet ↦
        let e : cnt ≡ 0 = omega arith in
        rw (sizes-step 0 63 cnt s (omega arith), sizes-step 1 63 cnt t (omega arith), eq→== cnt 0 e)
          (sizes-Meets 62 1 (body 0 cnt s) (body 1 cnt t) (omega arith) (omega arith) (omega arith)
            (body-Meets cnt s t m))
  ]

-- With valid options, an accelerator that starts if one is used, two processes, successful
-- allocations, an extent of at least a point, and a first message size that is not negative as an
-- int, both ranks run the test to its end with the same status, and every call of rank 0 meets one of rank 1:
-- a send a receive of the same count, a receive a send, a barrier a barrier, in the same
-- order.
pub main-Meets :
    (o : Options) (a : Answers)
    → o.po_ret ≡ okay
    → (o.accel && not a.init_accel) ≡ false
    → a.numprocs ≡ 2
    → a.s_buf ≡ true
    → a.r_buf ≡ true
    → point_size ≤ a.extent
    → o.min_message_size % 2 ^ 32 < 2 ^ 31
    → (status : ℕ) × (s t : State) × (main o a 0 ≡ ok (status, s))
      × (main o a 1 ≡ ok (status, t))
      × (s.calls ≡ map answer t.calls)
unfolding main dispatch run answer
main-Meets o a po dev two s_ok r_ok room signed =
    let first : narrow o.min_message_size < 2 ^ 31 = unfold narrow in ground arith in
    let start : State = note (alloc (max_num_elems * a.extent)) (
      note (alloc (max_num_elems * a.extent))
        (note message (note commit (call init (initial o))))) in
    let begin = note header (call barrier start) in
    let m : Meets begin begin = record { calls = refl; iterations = refl; skip = refl } in
    let both = sizes-all o a room (narrow o.min_message_size) begin begin first m in
    let end = λ (st : State). call finalize (note release (note release st)) in
    elim (Bool-cases (o.accel && not a.cleanup_accel)) [
      | inl bad ↦ (
        exit_failure,
        note message (end both.first),
        note message (end both.second),
        simp (po, dev, eq→== a.numprocs 2 two, s_ok, r_ok) (rw (both.ran, bad) refl),
        simp (po, dev, eq→== a.numprocs 2 two, s_ok, r_ok) (rw (both.ran', bad) refl),
        ap (λ (l : List Call). finalize ∷ l) both.meets.calls,
      )
      | inr good ↦ (
        exit_success,
        end both.first,
        end both.second,
        simp (po, dev, eq→== a.numprocs 2 two, s_ok, r_ok) (rw (both.ran, good) refl),
        simp (po, dev, eq→== a.numprocs 2 two, s_ok, r_ok) (rw (both.ran', good) refl),
        ap (λ (l : List Call). finalize ∷ l) both.meets.calls,
      )
    ]
