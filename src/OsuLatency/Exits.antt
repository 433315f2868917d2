-- ===== src/OsuLatency/Exits.antt =====
-- How src/mpi/osu_latency_contig.c ends, and the sizes of its messages.
use mpidt_benchmark.Base.{
  ap, sym, ◌∙◌, true, ℕ, zero, suc, ◌+◌, ◌*◌, ◌/◌, ◌^◌, ◌≤◌, ◌<◌, ◌≡◌, ◌≢◌, ◌==◌, inl, inr, refl,
  arith, false, not, List, [], ◌∷◌, ltb, ◌&&◌, dec_lt, Bool-cases, ne→==, eq→==,
}
use native.Mathlib.Nat.{pow-suc}
use mpidt_benchmark.Word.{narrow-id}
use mpidt_benchmark.Memory.{ok}
use mpidt_benchmark.OsuLatency.{
  is_negative, PoRet, cuda_not_avail, openacc_not_avail, bad_usage, help_message, version_message,
  okay, is_okay, Call, init, finalize, send, recv, message, commit, Options, Answers, State,
  max_num_elems, point_size, call, note, initial, adjust, swap, ping, pong, next_count, sizes, stop,
  run, dispatch, main,
}
use mpidt_benchmark.OsuLatency.PingPong.{body, sizes-step, sizes-end}

-- What the usage text promises: success for help and version, failure for what cannot be run.
abbrev pub exit_code : PoRet → ℕ
exit_code help_message = 0
exit_code version_message = 0
exit_code _ = 1

stopped :
    (myid status : ℕ) (st : State)
    → (st' : State) × (ok (stop myid status st) ≡ ok (status, st'))
      × (st'.calls ≡ finalize ∷ st.calls)
unfolding stop
stopped myid status st = elim (Bool-cases (myid == 0)) [
  | inl zeroth ↦ (call finalize (note message st), rw zeroth refl, refl)
  | inr rest ↦ (call finalize st, rw rest refl, refl)
]

dispatch-stop :
    (o : Options) (a : Answers) (myid : ℕ) (r : PoRet) (st : State)
    → is_okay r ≡ false
    → (st' : State) × (dispatch o a myid r st ≡ ok (exit_code r, st'))
      × (st'.calls ≡ finalize ∷ st.calls)
unfolding dispatch
dispatch-stop o a myid cuda_not_avail st h = stopped myid 1 st
dispatch-stop o a myid openacc_not_avail st h = stopped myid 1 st
dispatch-stop o a myid bad_usage st h = stopped myid 1 st
dispatch-stop o a myid help_message st h = stopped myid 0 st
dispatch-stop o a myid version_message st h = stopped myid 0 st
dispatch-stop o a myid okay st h = absurd (cc)

main-stop :
    (o : Options) (a : Answers) (myid : ℕ)
    → is_okay o.po_ret ≡ false
    → (st : State) × (main o a myid ≡ ok (exit_code o.po_ret, st))
      × (st.calls ≡ finalize ∷ init ∷ [])
unfolding main
main-stop o a myid h =
    let (st, e, c) = dispatch-stop o a myid o.po_ret (note commit (call init (initial o))) h in
    (st, rw h e, c)

main-numprocs :
    (o : Options) (a : Answers) (myid : ℕ)
    → o.po_ret ≡ okay
    → (o.accel && not a.init_accel) ≡ false
    → a.numprocs ≢ 2
    → (st : State) × (main o a myid ≡ ok (1, st)) × (st.calls ≡ finalize ∷ init ∷ [])
unfolding main dispatch run
main-numprocs o a myid po dev other =
    let (st, e, c) = stopped myid 1 (note commit (call init (initial o))) in
    (st, simp (po, dev, ne→== a.numprocs 2 other) e, c)

okay_of_is_okay : (r : PoRet) → is_okay r ≡ true → r ≡ okay
okay_of_is_okay cuda_not_avail h = absurd (cc)
okay_of_is_okay openacc_not_avail h = absurd (cc)
okay_of_is_okay bad_usage h = absurd (cc)
okay_of_is_okay help_message h = absurd (cc)
okay_of_is_okay version_message h = absurd (cc)
okay_of_is_okay okay h = refl

-- Where the options do not let the test run, or there are not two processes, and with valid options
-- the accelerator starts if one is used: every rank ends with status 0 for a help or version message
-- and 1 otherwise, and of the calls that concern several processes it makes MPI_Init and
-- MPI_Finalize only.
pub main-refused :
    (o : Options) (a : Answers) (myid : ℕ)
    → (is_okay o.po_ret && a.numprocs == 2) ≡ false
    → (is_okay o.po_ret && (o.accel && not a.init_accel)) ≡ false
    → (st : State) × (main o a myid ≡ ok (exit_code o.po_ret, st))
      × (st.calls ≡ finalize ∷ init ∷ [])
main-refused o a myid refused dev = elim (Bool-cases (is_okay o.po_ret)) [
  | inr bad ↦ main-stop o a myid bad
  | inl good ↦
      let valid = okay_of_is_okay o.po_ret good in
      let other : (a.numprocs == 2) ≡ false = ap (λ b. b && a.numprocs == 2) (sym good) ∙ refused in
      let dev' : (o.accel && not a.init_accel) ≡ false =
        ap (λ b. b && (o.accel && not a.init_accel)) (sym good) ∙ dev in
      let code : exit_code o.po_ret ≡ 1 = ap exit_code valid in
      rw code (main-numprocs o a myid valid dev' (λ e. ground arith))
]

-- Every message has at most `n` elements.
abbrev pub AllSmall : ℕ → List Call → Type 0
AllSmall n [] = Unit
AllSmall n (send p c ∷ l) = (c ≤ n) × AllSmall n l
AllSmall n (recv p c ∷ l) = (c ≤ n) × AllSmall n l
AllSmall n (_ ∷ l) = AllSmall n l

ping-AllSmall :
    (n cnt k i : ℕ) (st : State)
    → cnt ≤ n
    → AllSmall n st.calls
    → AllSmall n (ping cnt k i st).calls
unfolding ping
ping-AllSmall n cnt zero i st le h = h
ping-AllSmall n cnt (suc k) i st le h = elim (Bool-cases (i == st.skip)) [
  | inl now ↦ rw (AllSmall, now) (ping-AllSmall n cnt k (suc i) _ le (le, (le, h)))
  | inr later ↦ rw (AllSmall, later) (ping-AllSmall n cnt k (suc i) _ le (le, (le, h)))
]

pong-AllSmall :
    (n cnt k : ℕ) (st : State) → cnt ≤ n → AllSmall n st.calls → AllSmall n (pong cnt k st).calls
unfolding pong
pong-AllSmall n cnt zero st le h = h
pong-AllSmall n cnt (suc k) st le h = pong-AllSmall n cnt k _ le (le, (le, h))

adjust-calls : (o : Options) (large cnt : ℕ) (st : State) → (adjust o large cnt st).calls ≡ st.calls
unfolding adjust
adjust-calls o large cnt st = elim (Bool-cases (not (is_negative cnt) && ltb large cnt)) [
  | inl over ↦ rw over refl
  | inr under ↦ rw under refl
]

swap-AllSmall :
    (n myid cnt : ℕ) (st : State)
    → cnt ≤ n
    → AllSmall n st.calls
    → AllSmall n (swap myid cnt st).calls
unfolding swap
swap-AllSmall n myid cnt st le h = elim (Bool-cases (myid == 0)) [
  | inl zeroth ↦ rw zeroth (ping-AllSmall n cnt (st.iterations + st.skip) 0 st le h)
  | inr rest ↦ elim (Bool-cases (myid == 1)) [
    | inl first ↦ rw (rest, first) (pong-AllSmall n cnt (st.iterations + st.skip) st le h)
    | inr others ↦ rw (rest, others) h
  ]
]

module _ (o : Options) (a : Answers) (room : point_size ≤ a.extent) (myid : ℕ) where
  abbrev IsSmall : State → Type 0
  IsSmall st = AllSmall max_num_elems st.calls

  body-IsSmall :
      (cnt : ℕ) (st : State)
      → cnt ≤ max_num_elems
      → IsSmall st
      → IsSmall (body o a room myid cnt st)
  body-IsSmall cnt st le h =
      swap-AllSmall max_num_elems myid cnt _ le
        (rw (adjust-calls o (o.large_message_size / a.extent) cnt st) h)

  abbrev Ends : ℕ → ℕ → State → Type 0
  Ends fuel cnt st = (st' : State) × (sizes o a myid fuel cnt st ≡ ok st') × IsSmall st'

  sizes-Ends :
      (fuel cnt : ℕ) (st : State)
      → 0 < cnt
      → max_num_elems < cnt * 2 ^ fuel
      → cnt < 2 ^ 31
      → IsSmall st
      → Ends (suc fuel) cnt st
  unfolding next_count
  sizes-Ends zero cnt st pos far small h =
      (st, sizes-end o a room myid zero cnt st (omega arith) small, h)
  sizes-Ends (suc fuel) cnt st pos far small h = elim (dec_lt max_num_elems cnt) [
    | yes over ↦ (st, sizes-end o a room myid (suc fuel) cnt st over small, h)
    | no under ↦
        let e : cnt * 2 ^ suc fuel ≡ cnt * 2 * 2 ^ fuel = rw pow-suc (grind arith) in
        rw
          (
            sizes-step o a room myid (suc fuel) cnt st (omega arith),
            ne→== cnt 0 (omega arith),
            narrow-id (cnt * 2) (omega arith),
          )
          (sizes-Ends fuel (cnt * 2) (body o a room myid cnt st) (omega arith) (omega arith)
            (omega arith) (body-IsSmall cnt st (omega arith) h))
  ]

  -- From any first size that an int holds, zero included, and where an element's extent is at least a
  -- point, the loop over the message sizes ends within its 64 rounds without error, and if the messages before it
  -- have at most max_num_elems elements, the capacity of the buffers, so have all behind it.
  pub sizes-bounded :
      (cnt : ℕ) (st : State)
      → cnt < 2 ^ 31
      → AllSmall max_num_elems st.calls
      → (st' : State) × (sizes o a myid 64 cnt st ≡ ok st') × AllSmall max_num_elems st'.calls
  unfolding next_count
  sizes-bounded cnt st small h = elim (dec_lt 0 cnt) [
    | yes pos ↦ sizes-Ends 63 cnt st pos (omega arith) small h
    | no none_yet ↦
        rw (sizes-step o a room myid 63 cnt st (omega arith), eq→== cnt 0 (omega arith))
          (sizes-Ends 62 1 (body o a room myid cnt st) (omega arith) (omega arith) (omega arith)
            (body-IsSmall cnt st (omega arith) h))
  ]
