-- ===== src/Handshake/Keep.antt =====
-- The steps of the sender and the receivers of benchmark_shmem keep the invariant.
use mpidt_benchmark.Base.{ℕ, suc, ◌+◌, ◌<◌, ◌≡◌, refl, ap, sym, ◌∙◌, arith}
use mpidt_benchmark.Memory.{Region, ok, blit}
use mpidt_benchmark.Memory.Blit.{blit-base, blit-size, blit-inside}
use mpidt_benchmark.Shmem.{copy_to_shmem}
use mpidt_benchmark.Joint.{update, iterations, mapped}
use mpidt_benchmark.Joint.Pieces.{ok-injective}
use mpidt_benchmark.Handshake.{
  at_head, at_middle, at_gather, Process, Group, liov, Move, store, announce, collect, hear, load,
  join, Moves, none_yet, one_more, begin,
}
use mpidt_benchmark.Handshake.Invariant.{
  busy, last, last-le-busy, at_head-weights, at_middle-weights, at_gather-weights, update_all,
  IsReady, IsFollower, IsInv, sender_copies, receiver_copies, waiting,
}

module _ (bufsize bs n base : ℕ) (bases : ℕ → ℕ) (lbuf : Region) (lbufs : ℕ → Region)
    (setup : IsReady bufsize bs n base bases lbuf lbufs) where
  abbrev pub Holds : Group → Type 0
  Holds = IsInv bufsize bs n base bases lbuf lbufs setup

  begin-Inv : (file : ℕ → ℕ) → Holds (begin file lbuf lbufs)
  unfolding busy last
  begin-Inv file = record {
    entered = refl;
    rounds = omega arith;
    own = refl;
    stored = λ some. absurd (omega arith);
    receiver = λ i lt. record {
      left = refl;
      rounds = omega arith;
      behind = omega arith;
      not_passed = omega arith;
      base = refl;
      size = refl;
      got = λ some. absurd (omega arith);
    };
  }

  store-Inv :
      (y : Group) (d : Region) (nread : ℕ)
      → y.sender.round < iterations
      → y.sender.stage ≡ at_head
      → copy_to_shmem y.sender.buf
          (liov bufsize bs y.sender)
          bs
          bufsize
          (mapped base bufsize y.file)
        ≡ ok (d, nread)
      → Holds y
      → Holds (record y {
        file = λ o. d.cell (base + o);
        sender = record y.sender { stage = at_middle };
      })
  unfolding busy last
  store-Inv y d nread more head run inv =
      let (b, l) = at_head-weights head in
      let file = mapped base bufsize y.file in
      let done : (blit file base lbuf lbuf.base bufsize, bufsize) ≡ (d, nread) =
        ok-injective
          (sym (sender_copies bufsize bs n base bases lbuf lbufs setup y inv.own) ∙ run) in
      record {
        entered = omega (arith, inv.entered);
        rounds = omega arith;
        own = inv.own;
        stored = λ _ o lt.
            ap (λ (r : Region × ℕ). r.0.cell (base + o)) (sym done)
            ∙ blit-inside file base lbuf lbuf.base bufsize o lt;
        receiver = inv.receiver;
      }

  announce-Inv :
      (y : Group)
      → y.sender.stage ≡ at_middle
      → Holds y
      → Holds (record y {
        sender = record y.sender { stage = at_gather; bcasts = suc y.sender.bcasts };
      })
  unfolding busy last
  announce-Inv y middle inv =
      let (b, l) = at_middle-weights middle in
      record {
        entered = omega (arith, inv.entered);
        rounds = omega (arith, inv.rounds);
        own = inv.own;
        stored = λ _. inv.stored (omega arith);
        receiver = λ i lt.
            let r = inv.receiver i lt in
            record {
              left = r.left;
              rounds = r.rounds;
              behind = omega (arith, r.behind);
              not_passed = r.not_passed;
              base = r.base;
              size = r.size;
              got = r.got;
            };
      }

  collect-Inv :
      (y : Group)
      → y.sender.stage ≡ at_gather
      → ((i : ℕ) → i < n → y.sender.round < (y.receivers i).round)
      → Holds y
      → Holds
          (record y { sender = record y.sender { stage = at_head; round = suc y.sender.round } })
  unfolding busy last
  collect-Inv y gather joined inv =
      let (b, l) = at_gather-weights gather in
      record {
        entered = omega (arith, inv.entered);
        rounds = omega (arith, inv.rounds);
        own = inv.own;
        stored = λ _. inv.stored (omega arith);
        receiver = λ i lt.
            let r = inv.receiver i lt in
            record {
              left = r.left;
              rounds = r.rounds;
              behind = r.behind;
              not_passed = joined i lt;
              base = r.base;
              size = r.size;
              got = r.got;
            };
      }

  -- A step of one receiver.
  receiver-Inv :
      (y : Group) (i : ℕ) (p : Process)
      → i < n
      → IsFollower
          (λ o. lbuf.cell (lbuf.base + o))
          bufsize
          y.sender.round
          y.sender.bcasts
          (lbufs i)
          p
      → Holds y
      → Holds (record y { receivers = update y.receivers i p })
  receiver-Inv y i p lt new inv = record {
    entered = inv.entered;
    rounds = inv.rounds;
    own = inv.own;
    stored = inv.stored;
    receiver =
        update_all
          (λ j q.
            IsFollower (λ o. lbuf.cell (lbuf.base + o)) bufsize y.sender.round y.sender.bcasts
              (lbufs j) q)
          n y.receivers i p new inv.receiver;
  }

  pub Move-Inv : {y z : Group} → Move bufsize bs n base bases y z → Holds y → Holds z
  unfolding busy last
  Move-Inv (store y d nread more head run whole_copy) inv = store-Inv y d nread more head run inv
  Move-Inv (announce y middle) inv = announce-Inv y middle inv
  Move-Inv (collect y gather joined) inv = collect-Inv y gather joined inv
  Move-Inv (hear y i lt more head entered) inv =
      let r = inv.receiver i lt in
      let (b, l) = at_head-weights head in
      receiver-Inv y i _ lt
        (record {
          left = omega (arith, r.left);
          rounds = omega arith;
          behind = entered;
          not_passed = r.not_passed;
          base = r.base;
          size = r.size;
          got = λ some. r.got (omega arith);
        })
        inv
  Move-Inv (load y i d nread lt middle run whole_copy) inv =
      let r = inv.receiver i lt in
      let (b, l) = at_middle-weights middle in
      let (_, gathering) = waiting bufsize bs n base bases lbuf lbufs setup y inv i lt middle in
      let le = last-le-busy y.sender.stage in
      let file = mapped (bases i) bufsize y.file in
      let buf = (y.receivers i).buf in
      let done : (blit buf buf.base file (bases i) bufsize, bufsize) ≡ (d, nread) = ok-injective (
        sym (receiver_copies bufsize bs n base bases lbuf lbufs setup y i lt r.base r.size)
        ∙ run) in
      receiver-Inv y i _ lt
        (record {
          left = omega (arith, r.left);
          rounds = omega (arith, r.rounds);
          behind = r.behind;
          not_passed = r.not_passed;
          base =
              ap (λ (t : Region × ℕ). t.0.base) (sym done)
              ∙ blit-base buf buf.base file (bases i) bufsize
              ∙ r.base;
          size =
              ap (λ (t : Region × ℕ). t.0.size) (sym done)
              ∙ blit-size buf buf.base file (bases i) bufsize
              ∙ r.size;
          got = λ _ o o_lt.
              ap (λ (t : Region × ℕ). t.0.cell ((lbufs i).base + o)) (sym done)
              ∙ ap (λ (a : ℕ). (blit buf buf.base file (bases i) bufsize).cell (a + o)) (sym r.base)
              ∙ blit-inside buf buf.base file (bases i) bufsize o o_lt
              ∙ ap y.file (omega arith)
              ∙ inv.stored (omega arith) o o_lt;
        })
        inv
  Move-Inv (join y i lt gather) inv =
      let r = inv.receiver i lt in
      let (b, l) = at_gather-weights gather in
      receiver-Inv y i _ lt
        (record {
          left = omega (arith, r.left);
          rounds = omega (arith, r.rounds);
          behind = r.behind;
          not_passed = omega (arith, r.not_passed);
          base = r.base;
          size = r.size;
          got = λ _. r.got (omega arith);
        })
        inv

  pub Moves-Inv :
      (file : ℕ → ℕ) {y : Group} → Moves bufsize bs n base bases (begin file lbuf lbufs) y → Holds y
  Moves-Inv file none_yet = begin-Inv file
  Moves-Inv file (one_more r s) = Move-Inv s (Moves-Inv file r)
