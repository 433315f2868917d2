-- ===== src/Joint/Refine.antt =====
-- benchmark_shmem_pip of src/bench.c, the sender and the receivers together, is a broadcast in rounds.
use mpidt_benchmark.Base.{
  ℕ, zero, suc, ◌+◌, ◌*◌, ◌≤◌, ◌<◌, ◌≡◌, refl, sym, ap, ◌∙◌, arith, inl, inr, true, Bool-cases,
  ◌==◌, dec_lt,
}
use mpidt_benchmark.Memory.{Region, ok}
use mpidt_benchmark.Pipeline.{Cursor, fill}
use mpidt_benchmark.Broadcast.{Channel, publish, take, Turns, no_turn, one_turn, idle}
use mpidt_benchmark.Joint.{
  Side, System, at_loop, update, mapped, iterations, going, array, Step, store, announce, collect,
  hear, load, join, Reach, here, next, start,
}
use mpidt_benchmark.Joint.Loop
use mpidt_benchmark.Joint.Pieces.{IsSetup, ok-injective, fill-piece}
use mpidt_benchmark.Joint.Moves.{IsInv, Reach-Inv, sender_lt, sender_end, phase_cases}
use mpidt_benchmark.Handshake.Invariant.{update_all}

-- Whether a process is past the first piece of an iteration.
unfoldable pub begun : ℕ → ℕ
begun zero = 0
begun (suc nread) = 1

begun-pos : (k : ℕ) → 0 < k → begun k ≡ 1
unfolding begun
begun-pos zero h = absurd (omega arith)
begun-pos (suc k) h = refl

begun-zero : (k : ℕ) → k ≡ 0 → begun k ≡ 0
unfolding begun
begun-zero zero h = refl
begun-zero (suc k) h = absurd (omega arith)

-- The channel that a state stands for: the sender's rounds count from its first store on, and a
-- receiver's from its gather on, when the `content` of the sender's buffer is at `lbase` in its own.
pub record Shows (content : ℕ → ℕ) (bufsize n : ℕ) (lbase : ℕ → ℕ) (y : System) (c : Channel)
    : Type 0 where
  pub started : c.started ≡ y.sender.round + begun y.sender.at.nread
  pub held : (i : ℕ) → i < n → c.held i ≡ (y.receivers i).round
  pub data_of :
      (i o : ℕ)
      → i < n
      → 0 < c.held i
      → o < bufsize
      → (y.receivers i).buf.cell (lbase i + o) ≡ content o

module _ (full bufsize bs m n base : ℕ) (bases : ℕ → ℕ) (lbuf : Region) (lbufs : ℕ → Region)
    (setup : IsSetup full bufsize bs m n base bases lbuf lbufs) where
  open setup use {receiver_fits, depth, whole, even, some_pieces}

  abbrev IsKept : System → Type 0
  IsKept = IsInv full bufsize bs m n base bases lbuf lbufs setup

  abbrev Counts : System → Channel → Type 0
  Counts y c =
      (c.started ≡ y.sender.round + begun y.sender.at.nread)
      × ((i : ℕ) → i < n → c.held i ≡ (y.receivers i).round)

  -- What the sender has stored, by its cursor.
  begun-stored : (y : System) (inv : IsKept y) → 0 < inv.stored → begun y.sender.at.nread ≡ 1
  begun-stored y inv some =
      let d = depth.positive in
      begun-pos y.sender.at.nread
        (let e = inv.side.at.read in let p : 0 < inv.stored * full = grind arith in omega arith)

  begun-empty : (y : System) (inv : IsKept y) → inv.stored ≡ 0 → begun y.sender.at.nread ≡ 0
  begun-empty y inv none =
      begun-zero y.sender.at.nread
        (let low = ap (λ (t : ℕ). t * full) none in omega (arith, inv.side.at.read))

  sent-le : (y : System) (inv : IsKept y) → inv.sent ≤ inv.stored
  sent-le y inv = elim (phase_cases y.sender.phase) [
    | inl head ↦ let e = inv.side.at_head head in omega arith
    | inr body ↦ let e = inv.in_body_lead body in omega arith
  ]

  silent :
      (y : System) (c : Channel) (i : ℕ) (p : Side)
      → c.held i ≡ p.round
      → Counts y c
      → Counts (record y { receivers = update y.receivers i p }) c
  silent y c i p same (s, h) = (s, update_all (λ j q. c.held j ≡ q.round) n y.receivers i p same h)

  -- The sender's store: the first one of an iteration starts a round.
  store-Turns :
      {x : Channel} (y : System) (p : Cursor) (d : Region)
      → y.sender.round < iterations
      → y.sender.phase ≡ at_loop
      → going full bufsize bs y.sender.at ≡ true
      → fill y.sender.buf
          (array full bufsize bs y.sender)
          full
          y.sender.at
          (mapped base bufsize y.file)
        ≡ ok (p, d)
      → IsKept y
      → (c : Channel) × Turns n x c × Counts y c
      → (c : Channel) × Turns n x c
        × (c.started ≡ y.sender.round + begun p.nread)
        × ((i : ℕ) → i < n → c.held i ≡ (y.receivers i).round)
  store-Turns y p d more phase g run inv (c, t, (s, h)) =
      let lt = sender_lt full bufsize bs m n base bases lbuf lbufs setup y inv g in
      let level = inv.side.at_head phase in
      let (p', run', at') =
        fill-piece full bufsize bs m n base bases lbuf lbufs setup y inv.stored inv.side.at lt
          inv.own in
      let same : p ≡ p' = ap (λ t. t.0) (ok-injective (sym run ∙ run')) in
      let far : begun p.nread ≡ 1 =
        begun-pos p.nread (let d' = depth.positive in let e = at'.read in rw same (grind arith)) in
      elim (dec_lt 0 inv.stored) [
        | yes later ↦ (c, t, omega (arith, begun-stored y inv later), h)
        | no first ↦
            let low = begun-empty y inv (omega arith) in
            (
              record c { started = suc c.started },
              one_turn t (
                  publish c (omega arith) λ i i_lt.
                    let r = inv.receiver i i_lt in
                    elim r.follows [
                      | inl (e, le) ↦ omega (arith, h i i_lt)
                      | inr (e, z, all) ↦ absurd (omega (arith, some_pieces, sent-le y inv))
                    ]),
              omega arith,
              h,
            )
      ]

  Step-Turns :
      {x : Channel} {y z : System}
      → Step full bufsize bs n base bases y z
      → IsKept y
      → (c : Channel) × Turns n x c × Counts y c
      → (c : Channel) × Turns n x c × Counts z c
  Step-Turns (store y p d more phase g run) inv t =
      let (c, turns, s, h) = store-Turns y p d more phase g run inv t in (c, turns, (s, h))
  Step-Turns (announce y phase) inv t = t
  Step-Turns (collect y more phase g whole_run joined) inv (c, t, (s, h)) =
      let end = sender_end full bufsize bs m n base bases lbuf lbufs setup y inv g in
      let high = begun-stored y inv (omega (arith, some_pieces)) in
      (c, t, (unfold begun in omega arith, h))
  Step-Turns (hear y i i_lt more phase g waiting) inv (c, t, (s, h)) =
      (c, t, silent y c i _ (h i i_lt) (s, h))
  Step-Turns (load y i p d i_lt phase run) inv (c, t, (s, h)) =
      (c, t, silent y c i _ (h i i_lt) (s, h))
  Step-Turns (join y i i_lt more phase g whole_run) inv (c, t, (s, h)) =
      let r = inv.receiver i i_lt in
      let end =
        Loop.eq_of_ended (lbufs i) (mapped (bases i) bufsize (λ _. 0)) full bufsize bs m
          (receiver_fits i i_lt) depth whole even (inv.done i) (y.receivers i).at r.side.at
          r.side.done_le g in
      let level = r.side.at_head phase in
      (
        record c { held = update c.held i (suc (c.held i)) },
        one_turn t (
            take c i i_lt (elim r.follows [
              | inl (e, le) ↦
                  let high = begun-stored y inv (omega (arith, some_pieces, sent-le y inv)) in
                  omega (arith, h i i_lt)
              | inr (e, z, all) ↦ absurd (omega (arith, some_pieces))
            ])),
        (
          s,
          λ j j_lt. elim (Bool-cases (j == i)) [
            | inl same ↦ rw same (ap suc (h i i_lt))
            | inr other ↦ rw other (h j j_lt)
          ],
        ),
      )

  Reach-Turns :
      (file : ℕ → ℕ) {y : System}
      → Reach full bufsize bs n base bases (start file lbuf lbufs) y
      → (c : Channel) × Turns n idle c × Counts y c
  unfolding begun
  Reach-Turns file here = (idle, no_turn, (refl, λ i lt. refl))
  Reach-Turns file (next r s) =
      Step-Turns s (Reach-Inv full bufsize bs m n base bases lbuf lbufs setup file r)
        (Reach-Turns file r)

  -- For a set-up as in IsSetup: every run of the sender and the receivers of benchmark_shmem_pip, in
  -- any order of their steps, is a run of the broadcast in rounds that benchmark_shmem makes too: the
  -- sender stores the first piece of a round when all the receivers hold the round before, and a
  -- receiver takes each round that was started once. A receiver that holds a round has all bytes of
  -- the sender's buffer in its own.
  pub pip-Shows :
      (file : ℕ → ℕ) {y : System}
      → Reach full bufsize bs n base bases (start file lbuf lbufs) y
      → (c : Channel) × Turns n idle c
        × Shows (λ o. lbuf.cell (lbuf.base + o)) bufsize n (λ i. (lbufs i).base) y c
  pip-Shows file {y} reach =
      let (c, turns, (s, h)) = Reach-Turns file reach in
      let inv = Reach-Inv full bufsize bs m n base bases lbuf lbufs setup file reach in
      (
        c,
        turns,
        record {
          started = s;
          held = h;
          data_of =
              λ i o lt some o_lt. (inv.receiver i lt).filled.kept o (omega (arith, h i lt)) o_lt;
        },
      )
