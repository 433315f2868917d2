-- ===== src/OsuLatency.antt =====
-- src/mpi/osu_latency_contig.c: the ping-pong between two processes with messages of points, a
-- contiguous MPI datatype. The options are what process_options of the OSU utilities leaves.
pub mod PingPong
pub mod Exits
use mpidt_benchmark.Base.{
  ℕ, zero, suc, ◌+◌, ◌*◌, ◌/◌, ◌^◌, Bool, true, false, not, List, [], ◌∷◌, ◌==◌, if◌then◌else◌, ltb,
  leb, ◌&&◌, ◌||◌,
}
use mpidt_benchmark.Word.{narrow}
use mpidt_benchmark.Memory.{Result, ok, err, segfault, mpi_error, no_fuel}
use mpidt_benchmark.Memory
use mpidt_benchmark.Shmem.{divide}

-- The results of process_options.
pub data PoRet : Type 0 where
  cuda_not_avail openacc_not_avail bad_usage help_message version_message okay : PoRet

-- The MPI calls that concern more than one process; `send` and `recv` with peer and count.
pub data Call : Type 0 where
  init finalize barrier : Call
  send recv : ℕ → ℕ → Call

-- The other calls: a message on stderr or stdout, the committing of the datatype, time stamps, the
-- allocation of a buffer of some bytes and its release.
pub data Note : Type 0 where
  message commit wtime header latency : Note
  alloc : ℕ → Note
  release : Note

-- `accel` is whether an accelerator is used. `large_message_size` is a constant of the utilities.
pub record Options : Type 0 where
  pub po_ret : PoRet
  pub accel : Bool
  pub min_message_size : ℕ
  pub iterations : ℕ
  pub skip : ℕ
  pub iterations_large : ℕ
  pub skip_large : ℕ
  pub large_message_size : ℕ

-- What the system and MPI answer: whether the accelerator starts and stops, the number of processes,
-- whether the two allocations succeed, and the extent of the datatype.
pub record Answers : Type 0 where
  pub init_accel : Bool
  pub cleanup_accel : Bool
  pub numprocs : ℕ
  pub s_buf : Bool
  pub r_buf : Bool
  pub extent : ℕ

-- What changes during a run: the calls, newest first, and the options that the sweep overwrites.
pub record State : Type 0 where
  pub calls : List Call
  pub notes : List Note
  pub iterations : ℕ
  pub skip : ℕ

abbrev pub max_num_elems : ℕ
max_num_elems = 2 ^ 19

-- sizeof(struct point), four shorts
abbrev pub point_size : ℕ
point_size = 8

-- exit(EXIT_SUCCESS) and exit(EXIT_FAILURE)
abbrev pub exit_success : ℕ
exit_success = 0

abbrev pub exit_failure : ℕ
exit_failure = 1

abbrev pub call : Call → State → State
call c st = record st { calls = c ∷ st.calls }

abbrev pub note : Note → State → State
note c st = record st { notes = c ∷ st.notes }

-- The loop of rank 0 over `k` iterations from `i`: time stamp, send, receive.
unfoldable pub ping : ℕ → ℕ → ℕ → State → State
ping cnt zero i st = st
ping cnt (suc k) i st =
    let st1 = if i == st.skip then note wtime st else st in
    ping cnt k (suc i) (call (recv 1 cnt) (call (send 1 cnt) st1))

-- The loop of rank 1: receive, send.
unfoldable pub pong : ℕ → ℕ → State → State
pong cnt zero st = st
pong cnt (suc k) st = pong cnt k (call (send 0 cnt) (call (recv 0 cnt) st))

-- `cnt` is an int: `cnt < 0`.
unfoldable pub is_negative : ℕ → Bool
is_negative cnt = leb (2 ^ 63) cnt

-- Large messages overwrite the options, and the options stay overwritten.
unfoldable pub adjust : Options → ℕ → ℕ → State → State
adjust o large cnt st =
    if not (is_negative cnt) && ltb large cnt
    then record st { iterations = o.iterations_large; skip = o.skip_large }
    else st

-- From the barrier to the end of the body; only rank 0 measures.
unfoldable pub swap : ℕ → ℕ → State → State
swap myid cnt st =
    if myid == 0
    then note latency (note wtime (ping cnt (st.iterations + st.skip) 0 st))
    else (if myid == 1 then pong cnt (st.iterations + st.skip) st else st)

-- The body of `for (cnt = ...)`. Both buffers are filled with max_num_elems points first. MPI refuses
-- a negative count in the first MPI_Send or MPI_Recv.
unfoldable pub exchange : Options → Answers → ℕ → ℕ → State → Result State
exchange o a myid cnt st =
    if not (leb (max_num_elems * point_size) (max_num_elems * a.extent))
    then err segfault
    else (Memory.◌>>=◌ (divide o.large_message_size a.extent) λ large.
        let st' = call barrier (adjust o large cnt st) in
        if is_negative cnt && (ltb 0 (st'.iterations + st'.skip) && ltb myid 2)
        then err mpi_error
        else ok (swap myid cnt st'))

-- `cnt = (cnt ? cnt * 2 : 1)`, where the product wraps around.
unfoldable pub next_count : ℕ → ℕ
next_count cnt = if cnt == 0 then 1 else narrow (cnt * 2)

-- `for (cnt = min; cnt <= MAX_NUM_ELEMS; ...)`, on fuel. Without an iteration a negative count is
-- doubled like any other: to zero after at most 32 rounds, and to the end after 22 more.
unfoldable pub sizes : Options → Answers → ℕ → ℕ → ℕ → State → Result State
sizes o a myid zero cnt st = err no_fuel
sizes o a myid (suc fuel) cnt st =
    if is_negative cnt || leb cnt max_num_elems
    then (Memory.◌>>=◌ (exchange o a myid cnt st) λ st'. sizes o a myid fuel (next_count cnt) st')
    else ok st

-- Every process gets to its status here if it is not to run the test. At rank 0 a message comes
-- first; for the version message rank 0 ends inside the first switch.
unfoldable pub stop : ℕ → ℕ → State → ℕ × State
stop myid status st = (status, call finalize (if myid == 0 then note message st else st))

-- From the check of the number of processes to the end. A failed allocation returns from main.
unfoldable pub run : Options → Answers → ℕ → State → Result (ℕ × State)
run o a myid st =
    if not (a.numprocs == 2)
    then ok (stop myid exit_failure st)
    else (let st1 = note (alloc (max_num_elems * a.extent)) (note message st) in
        if not a.s_buf
        then ok (1, note message st1)
        else (let st2 = note (alloc (max_num_elems * a.extent)) st1 in
            if not a.r_buf
            then ok (1, note message st2)
            else (Memory.◌>>=◌
                (sizes o a myid 64 (narrow o.min_message_size) (note header (call barrier st2)))
                λ st3.
                  let st4 = call finalize (note release (note release st3)) in
                  ok (
                    if o.accel && not a.cleanup_accel
                    then (exit_failure, note message st4)
                    else (exit_success, st4)))))

-- The two switches on the result of process_options.
unfoldable pub dispatch : Options → Answers → ℕ → PoRet → State → Result (ℕ × State)
dispatch o a myid cuda_not_avail st = ok (stop myid exit_failure st)
dispatch o a myid openacc_not_avail st = ok (stop myid exit_failure st)
dispatch o a myid bad_usage st = ok (stop myid exit_failure st)
dispatch o a myid help_message st = ok (stop myid exit_success st)
dispatch o a myid version_message st = ok (stop myid exit_success st)
dispatch o a myid okay st = run o a myid st

abbrev pub is_okay : PoRet → Bool
is_okay okay = true
is_okay _ = false

abbrev pub initial : Options → State
initial o = record { calls = []; notes = []; iterations = o.iterations; skip = o.skip }

unfoldable pub main : Options → Answers → ℕ → Result (ℕ × State)
main o a myid =
    if is_okay o.po_ret && o.accel && not a.init_accel
    then ok (exit_failure, note message (initial o))
    else dispatch o a myid o.po_ret (note commit (call init (initial o)))
