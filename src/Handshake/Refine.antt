-- ===== src/Handshake/Refine.antt =====
-- benchmark_shmem of src/bench.c, the sender and the receivers together, is a broadcast in rounds.
use mpidt_benchmark.Base.{ℕ, suc, ◌+◌, ◌<◌, ◌≡◌, refl, arith, inl, inr, Bool-cases, ◌==◌}
use mpidt_benchmark.Memory.{Region}
use mpidt_benchmark.Joint.{update}
use mpidt_benchmark.Broadcast.{Channel, publish, take, Turns, no_turn, one_turn, idle}
use mpidt_benchmark.Handshake.{
  Process, Group, Move, store, announce, collect, hear, load, join, Moves, none_yet, one_more,
  begin,
}
use mpidt_benchmark.Handshake.Invariant.{
  busy, last, last-le-busy, at_head-weights, at_middle-weights, at_gather-weights, update_all,
  IsReady,
}
use mpidt_benchmark.Handshake.Keep.{Holds, Moves-Inv}

-- The channel that a state stands for: the sender's rounds count from its store on, and a receiver's
-- from its copy on, which leaves the `content` of the sender's buffer at `lbase`.
pub record Shows (content : ℕ → ℕ) (bufsize n : ℕ) (lbase : ℕ → ℕ) (y : Group) (c : Channel)
    : Type 0 where
  pub started : c.started ≡ y.sender.round + busy y.sender.stage
  pub held : (i : ℕ) → i < n → c.held i ≡ (y.receivers i).round + last (y.receivers i).stage
  pub data_of :
      (i o : ℕ)
      → i < n
      → 0 < c.held i
      → o < bufsize
      → (y.receivers i).buf.cell (lbase i + o) ≡ content o

module _ (bufsize bs n base : ℕ) (bases : ℕ → ℕ) (lbuf : Region) (lbufs : ℕ → Region)
    (setup : IsReady bufsize bs n base bases lbuf lbufs) where
  abbrev Counts : Group → Channel → Type 0
  Counts y c =
      (c.started ≡ y.sender.round + busy y.sender.stage)
      × ((i : ℕ) → i < n → c.held i ≡ (y.receivers i).round + last (y.receivers i).stage)

  -- A step of receiver `i` that leaves its count.
  silent :
      (y : Group) (c : Channel) (i : ℕ) (p : Process)
      → c.held i ≡ p.round + last p.stage
      → Counts y c
      → Counts (record y { receivers = update y.receivers i p }) c
  silent y c i p same (s, h) =
      (s, update_all (λ j q. c.held j ≡ q.round + last q.stage) n y.receivers i p same h)

  Move-Turns :
      {x : Channel} {y z : Group}
      → Move bufsize bs n base bases y z
      → Holds bufsize bs n base bases lbuf lbufs setup y
      → (c : Channel) × Turns n x c × Counts y c
      → (c : Channel) × Turns n x c × Counts z c
  unfolding busy last
  Move-Turns (store y d nread more head run whole_copy) inv (c, t, (s, h)) =
      let (b, l) = at_head-weights head in
      (
        record c { started = suc c.started },
        one_turn t (
            publish c (omega arith) λ i lt.
              let r = inv.receiver i lt in
              let le = last-le-busy (y.receivers i).stage in
              omega (arith, h i lt, r.left, r.behind, inv.entered, r.not_passed)),
        (omega arith, h),
      )
  Move-Turns (announce y middle) inv (c, t, (s, h)) =
      let (b, l) = at_middle-weights middle in (c, t, (omega arith, h))
  Move-Turns (collect y gather joined) inv (c, t, (s, h)) =
      let (b, l) = at_gather-weights gather in (c, t, (omega arith, h))
  Move-Turns (hear y i lt more head entered) inv (c, t, (s, h)) =
      let (b, l) = at_head-weights head in (c, t, silent y c i _ (omega (arith, h i lt)) (s, h))
  Move-Turns (load y i d nread lt middle run whole_copy) inv (c, t, (s, h)) =
      let (b, l) = at_middle-weights middle in
      let r = inv.receiver i lt in
      let le = last-le-busy y.sender.stage in
      (
        record c { held = update c.held i (suc (c.held i)) },
        one_turn t (take c i lt (omega (arith, h i lt, r.left, r.behind, inv.entered))),
        (
          s,
          λ j j_lt. elim (Bool-cases (j == i)) [
            | inl same ↦ rw same (omega (arith, h i lt))
            | inr other ↦ rw other (h j j_lt)
          ],
        ),
      )
  Move-Turns (join y i lt gather) inv (c, t, (s, h)) =
      let (b, l) = at_gather-weights gather in (c, t, silent y c i _ (omega (arith, h i lt)) (s, h))

  Moves-Turns :
      (file : ℕ → ℕ) {y : Group}
      → Moves bufsize bs n base bases (begin file lbuf lbufs) y
      → (c : Channel) × Turns n idle c × Counts y c
  unfolding busy last
  Moves-Turns file none_yet = (idle, no_turn, (refl, λ i lt. refl))
  Moves-Turns file (one_more r s) =
      Move-Turns s (Moves-Inv bufsize bs n base bases lbuf lbufs setup file r) (Moves-Turns file r)

  -- For a set-up as in IsReady: every run of the sender and the receivers of benchmark_shmem, in any
  -- order of their steps, is a run of the broadcast in rounds, where the sender starts a round when
  -- all the receivers hold the one before, and a receiver takes each round that was started once. A
  -- receiver that holds a round has all bytes of the sender's buffer in its own.
  pub shmem-Shows :
      (file : ℕ → ℕ) {y : Group}
      → Moves bufsize bs n base bases (begin file lbuf lbufs) y
      → (c : Channel) × Turns n idle c
        × Shows (λ o. lbuf.cell (lbuf.base + o)) bufsize n (λ i. (lbufs i).base) y c
  shmem-Shows file {y} moves =
      let (c, turns, (s, h)) = Moves-Turns file moves in
      let inv = Moves-Inv bufsize bs n base bases lbuf lbufs setup file moves in
      (
        c,
        turns,
        record {
          started = s;
          held = h;
          data_of = λ i o lt some o_lt. (inv.receiver i lt).got (omega (arith, h i lt)) o o_lt;
        },
      )
