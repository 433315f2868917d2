-- ===== src/Joint/Moves.antt =====
-- The steps of the sender and the receivers of benchmark_shmem_pip, and the invariant.
use mpidt_benchmark.Base.{
  ℕ, suc, ◌+◌, ◌*◌, ◌≤◌, ◌<◌, ◌≡◌, ◌⊎◌, inl, inr, refl, ap, sym, ◌∙◌, arith, true, false, mul_mono,
}
use mpidt_benchmark.Memory.{Region, ok}
use mpidt_benchmark.Memory.Blit.{blit-base, blit-size}
use mpidt_benchmark.Shmem.Copy.{Fits}
use mpidt_benchmark.Pipeline.{Cursor, cursor, fill, drain}
use mpidt_benchmark.Joint.{
  Phase, Side, System, at_loop, in_body, update, mapped, iterations, going, array, Step, store,
  announce, collect, hear, load, join, Reach, here, next, start, fresh,
}
use mpidt_benchmark.Joint.Invariant.{IsSide, IsFilled, IsReceiver}
use mpidt_benchmark.Joint.Loop
use mpidt_benchmark.Joint.Loop.{IsAt-start}
use mpidt_benchmark.Joint.Pieces.{
  IsSetup, Holds, content, ok-injective, update-all, IsFilled-round, fill-piece, drain-piece,
  file-piece, buffer-piece,
}

pub phase_cases : (p : Phase) → (p ≡ at_loop) ⊎ (p ≡ in_body)
phase_cases at_loop = inl refl
phase_cases in_body = inr refl

module _ (full bufsize bs m n base : ℕ) (bases : ℕ → ℕ) (lbuf : Region) (lbufs : ℕ → Region)
    (setup : IsSetup full bufsize bs m n base bases lbuf lbufs) where
  open setup use {sender_fits, receiver_fits, depth, whole, even, some_pieces}

  abbrev pub IsInv : System → Type 0
  IsInv = Holds full bufsize bs m n base bases lbuf lbufs setup

  abbrev data' : ℕ → ℕ
  data' = content full bufsize bs m n base bases lbuf lbufs setup

  pub sender_lt :
      (y : System) (inv : IsInv y) → going full bufsize bs y.sender.at ≡ true → inv.stored < m
  sender_lt y inv g =
      Loop.lt_of_going lbuf (mapped base bufsize (λ _. 0)) full bufsize bs m sender_fits depth whole
        even inv.stored y.sender.at inv.side.at inv.side.done_le g

  pub sender_end :
      (y : System) (inv : IsInv y) → going full bufsize bs y.sender.at ≡ false → inv.stored ≡ m
  sender_end y inv g =
      Loop.eq_of_ended lbuf (mapped base bufsize (λ _. 0)) full bufsize bs m sender_fits depth whole
        even inv.stored y.sender.at inv.side.at inv.side.done_le g

  store-Inv :
      (y : System) (p : Cursor) (d : Region)
      → y.sender.phase ≡ at_loop
      → going full bufsize bs y.sender.at ≡ true
      → fill y.sender.buf
          (array full bufsize bs y.sender)
          full
          y.sender.at
          (mapped base bufsize y.file)
        ≡ ok (p, d)
      → IsInv y
      → IsInv (record y {
        file = λ o. d.cell (base + o);
        sender = record y.sender { at = p; phase = in_body };
      })
  store-Inv y p d phase g run inv =
      let lt = sender_lt y inv g in
      let level = inv.side.at_head phase in
      let (p', run', at') =
        fill-piece full bufsize bs m n base bases lbuf lbufs setup y inv.stored inv.side.at lt
          inv.own in
      let same = ok-injective (sym run ∙ run') in
      record {
        stored = suc inv.stored;
        sent = inv.sent;
        done = inv.done;
        heard = inv.heard;
        side = record {
          at = rw (ap (λ t. t.0) same) at';
          count = inv.side.count;
          rounds = inv.side.rounds;
          done_le = lt;
          heard_le = inv.side.heard_le;
          at_head = λ e. cc;
        };
        in_body_lead = λ _. omega arith;
        own = inv.own;
        filled = rw (ap (λ t. t.1) same) (
            file-piece full bufsize bs m n base bases lbuf lbufs setup y.file inv.stored
              y.sender.round inv.filled);
        receiver = inv.receiver;
      }

  announce-Inv :
      (y : System)
      → y.sender.phase ≡ in_body
      → IsInv y
      → IsInv
          (record y { sender = record y.sender { phase = at_loop; bcasts = suc y.sender.bcasts } })
  announce-Inv y phase inv =
      let lead = inv.in_body_lead phase in
      let bound = inv.side.done_le in
      record {
        stored = inv.stored;
        sent = suc inv.sent;
        done = inv.done;
        heard = inv.heard;
        side = record {
          at = inv.side.at;
          count = omega (arith, inv.side.count);
          rounds = inv.side.rounds;
          done_le = inv.side.done_le;
          heard_le = omega arith;
          at_head = λ _. lead;
        };
        in_body_lead = λ e. cc;
        own = inv.own;
        filled = inv.filled;
        receiver = λ i lt.
            let r = inv.receiver i lt in
            record {
              side = r.side;
              in_body_lag = r.in_body_lag;
              base = r.base;
              size = r.size;
              filled = r.filled;
              follows = elim r.follows [
                | inl (e, le) ↦ inl (e, omega arith)
                | inr (e, z, all) ↦ absurd (omega arith)
              ];
            };
      }

  collect-Inv :
      (y : System)
      → y.sender.round < iterations
      → y.sender.phase ≡ at_loop
      → going full bufsize bs y.sender.at ≡ false
      → ((i : ℕ) → i < n → y.sender.round < (y.receivers i).round)
      → IsInv y
      → IsInv (record y {
        sender = record y.sender { round = suc y.sender.round; at = cursor 0 0 0 0 };
      })
  collect-Inv y more phase g joined inv =
      let end = sender_end y inv g in
      let level = inv.side.at_head phase in
      record {
        stored = 0;
        sent = 0;
        done = inv.done;
        heard = inv.heard;
        side = record {
          at =
              IsAt-start lbuf (mapped base bufsize (λ _. 0)) full bufsize bs m sender_fits depth
                whole even;
          count = omega (arith, inv.side.count);
          rounds = more;
          done_le = omega arith;
          heard_le = omega arith;
          at_head = λ _. refl;
        };
        in_body_lead = λ e. cc;
        own = inv.own;
        filled =
            IsFilled-round data' full bufsize y.file m y.sender.round even
              (rw (sym end) inv.filled);
        receiver = λ i lt.
            let r = inv.receiver i lt in
            let ahead = joined i lt in
            record {
              side = r.side;
              in_body_lag = r.in_body_lag;
              base = r.base;
              size = r.size;
              filled = r.filled;
              follows = elim r.follows [
                | inl (e, le) ↦ absurd (omega arith)
                | inr (e, z, all) ↦ inl (e, omega arith)
              ];
            };
      }

  abbrev IsRecv : ℕ → ℕ → ℕ → ℕ → ℕ → Side → Type 0
  IsRecv s_round sent i d h s = IsReceiver data' full bufsize bs m s_round sent d h (lbufs i) s

  -- A step of receiver `i` alone.
  receiver-Inv :
      (y : System) (inv : IsInv y) (i d h : ℕ) (s : Side)
      → IsRecv y.sender.round inv.sent i d h s
      → IsInv (record y { receivers = update y.receivers i s })
  receiver-Inv y inv i d h s new = record {
    stored = inv.stored;
    sent = inv.sent;
    done = update inv.done i d;
    heard = update inv.heard i h;
    side = inv.side;
    in_body_lead = inv.in_body_lead;
    own = inv.own;
    filled = inv.filled;
    receiver =
        update-all (IsRecv y.sender.round inv.sent) n inv.done inv.heard y.receivers i d h s new
          inv.receiver;
  }

  hear-Inv :
      (y : System) (inv : IsInv y) (i : ℕ)
      → i < n
      → (y.receivers i).phase ≡ at_loop
      → going full bufsize bs (y.receivers i).at ≡ true
      → (y.receivers i).bcasts < y.sender.bcasts
      → IsInv (record y {
        receivers =
            update y.receivers i
              (record (y.receivers i) { phase = in_body; bcasts = suc (y.receivers i).bcasts });
      })
  hear-Inv y inv i i_lt phase g open_bcast =
      let r = inv.receiver i i_lt in
      let lt =
        Loop.lt_of_going (lbufs i) (mapped (bases i) bufsize (λ _. 0)) full bufsize bs m
          (receiver_fits i i_lt) depth whole even (inv.done i) (y.receivers i).at r.side.at
          r.side.done_le g in
      let level = r.side.at_head phase in
      receiver-Inv y inv i (inv.done i) (suc (inv.heard i)) _ (record {
        side = record {
          at = r.side.at;
          count = omega (arith, r.side.count);
          rounds = r.side.rounds;
          done_le = r.side.done_le;
          heard_le = omega arith;
          at_head = λ e. cc;
        };
        in_body_lag = λ _. omega arith;
        base = r.base;
        size = r.size;
        filled = r.filled;
        follows = elim r.follows [
          | inl (e, le) ↦
              let turns : (y.receivers i).round * m ≡ y.sender.round * m =
                ap (λ (t : ℕ). t * m) e in
              inl (e, omega (arith, r.side.count, inv.side.count))
          | inr (e, z, all) ↦
              let turns : (y.receivers i).round * m ≡ y.sender.round * m + m =
                ap (λ (t : ℕ). t * m) e ∙ omega arith in
              absurd (omega (arith, r.side.count, inv.side.count))
        ];
      })

  -- What a receiver between its broadcast and its copy finds in the file.
  pub shown :
      (y : System) (inv : IsInv y) (i : ℕ)
      → i < n
      → (y.receivers i).phase ≡ in_body
      → ((y.receivers i).round ≡ y.sender.round)
        × (suc (inv.done i) ≤ inv.sent)
        × (inv.sent ≤ inv.stored)
        × ((o : ℕ) → o < suc (inv.done i) * full → y.file o ≡ data' o)
  shown y inv i i_lt phase =
      let r = inv.receiver i i_lt in
      let lag = r.in_body_lag phase in
      let le : inv.sent ≤ inv.stored = elim (phase_cases y.sender.phase) [
        | inl head ↦ let e = inv.side.at_head head in omega arith
        | inr body ↦ let e = inv.in_body_lead body in omega arith
      ] in
      elim r.follows [
        | inl (e, heard) ↦ (
          e,
          omega arith,
          le,
          λ o lt.
              let more : suc (inv.done i) * full ≤ inv.stored * full =
                mul_mono (suc (inv.done i)) inv.stored full (omega arith) in
              inv.filled.held o (omega arith),
        )
        | inr (e, z, all) ↦ absurd (omega arith)
      ]

  load-Inv :
      (y : System) (inv : IsInv y) (i : ℕ) (p : Cursor) (d : Region)
      → i < n
      → (y.receivers i).phase ≡ in_body
      → drain
          (mapped (bases i) bufsize y.file)
          (array full bufsize bs (y.receivers i))
          full
          (y.receivers i).at
          (y.receivers i).buf
        ≡ ok (p, d)
      → IsInv (record y {
        receivers =
            update y.receivers i (record (y.receivers i) { at = p; phase = at_loop; buf = d });
      })
  load-Inv y inv i p d i_lt phase run =
      let r = inv.receiver i i_lt in
      let lag = r.in_body_lag phase in
      let bound = r.side.heard_le in
      let (e, heard, le, seen) = shown y inv i i_lt phase in
      let (p', run', at') =
        drain-piece full bufsize bs m n base bases lbuf lbufs setup y i (inv.done i) i_lt r.side.at
          (omega arith) r.base r.size in
      let same = ok-injective (sym run ∙ run') in
      let src = mapped (bases i) bufsize y.file in
      receiver-Inv y inv i (suc (inv.done i)) (inv.heard i) _ (record {
        side = record {
          at = rw (ap (λ t. t.0) same) at';
          count = r.side.count;
          rounds = r.side.rounds;
          done_le = omega arith;
          heard_le = r.side.heard_le;
          at_head = λ _. sym lag;
        };
        in_body_lag = λ e. cc;
        base = ap (λ t. t.1.base) same ∙ blit-base (y.receivers i).buf _ src _ full ∙ r.base;
        size = ap (λ t. t.1.size) same ∙ blit-size (y.receivers i).buf _ src _ full ∙ r.size;
        filled = rw (ap (λ t. t.1) same) (
            buffer-piece full bufsize bs m n base bases lbuf lbufs setup (y.receivers i).buf
              (lbufs i) (bases i) y.file (inv.done i) (y.receivers i).round seen r.filled);
        follows = r.follows;
      })

  join-Inv :
      (y : System) (inv : IsInv y) (i : ℕ)
      → i < n
      → (y.receivers i).round < iterations
      → (y.receivers i).phase ≡ at_loop
      → going full bufsize bs (y.receivers i).at ≡ false
      → IsInv (record y {
        receivers =
            update y.receivers i
              (record (y.receivers i) { round = suc (y.receivers i).round; at = cursor 0 0 0 0 });
      })
  join-Inv y inv i i_lt more phase g =
      let r = inv.receiver i i_lt in
      let f = receiver_fits i i_lt in
      let file0 = mapped (bases i) bufsize (λ _. 0) in
      let end =
        Loop.eq_of_ended (lbufs i) file0 full bufsize bs m f depth whole even (inv.done i)
          (y.receivers i).at r.side.at r.side.done_le g in
      let level = r.side.at_head phase in
      receiver-Inv y inv i 0 0 _ (record {
        side = record {
          at = IsAt-start (lbufs i) file0 full bufsize bs m f depth whole even;
          count = omega (arith, r.side.count);
          rounds = more;
          done_le = omega arith;
          heard_le = omega arith;
          at_head = λ _. refl;
        };
        in_body_lag = λ e. cc;
        base = r.base;
        size = r.size;
        filled =
            IsFilled-round data' full bufsize (λ o. (y.receivers i).buf.cell ((lbufs i).base + o)) m
              (y.receivers i).round even (rw (sym end) r.filled);
        follows = elim r.follows [
          | inl (e, le) ↦ inr (ap suc e, refl, omega (arith, inv.side.heard_le))
          | inr (e, z, all) ↦ absurd (omega (arith, some_pieces))
        ];
      })

  Step-Inv : {y z : System} → Step full bufsize bs n base bases y z → IsInv y → IsInv z
  Step-Inv (store y p d more phase g run) inv = store-Inv y p d phase g run inv
  Step-Inv (announce y phase) inv = announce-Inv y phase inv
  Step-Inv (collect y more phase g whole_run joined) inv = collect-Inv y more phase g joined inv
  Step-Inv (hear y i i_lt more phase g waiting) inv = hear-Inv y inv i i_lt phase g waiting
  Step-Inv (load y i p d i_lt phase run) inv = load-Inv y inv i p d i_lt phase run
  Step-Inv (join y i i_lt more phase g whole_run) inv = join-Inv y inv i i_lt more phase g

  start-Inv : (file : ℕ → ℕ) → IsInv (start file lbuf lbufs)
  start-Inv file = record {
    stored = 0;
    sent = 0;
    done = λ _. 0;
    heard = λ _. 0;
    side = fresh-IsSide lbuf base sender_fits;
    in_body_lead = λ e. cc;
    own = refl;
    filled = fresh-IsFilled file;
    receiver = λ i lt. record {
      side = fresh-IsSide (lbufs i) (bases i) (receiver_fits i lt);
      in_body_lag = λ e. cc;
      base = refl;
      size = refl;
      filled = fresh-IsFilled _;
      follows = inl (refl, omega arith);
    };
  }
    where
      fresh-IsSide :
          (l : Region) (b : ℕ)
          → Fits l (mapped b bufsize (λ _. 0)) bufsize bs
          → IsSide full bs m 0 0 (fresh l)
      fresh-IsSide l b f = record {
        at = IsAt-start l (mapped b bufsize (λ _. 0)) full bufsize bs m f depth whole even;
        count = omega arith;
        rounds = omega arith;
        done_le = omega arith;
        heard_le = omega arith;
        at_head = λ _. refl;
      }

      fresh-IsFilled : (cell : ℕ → ℕ) → IsFilled data' cell full bufsize 0 0
      fresh-IsFilled cell = record {
        held = λ o lt. absurd (omega arith);
        kept = λ o some_round lt. absurd (omega arith);
      }

  -- In every state that the sender and the receivers of benchmark_shmem_pip reach, in any order of
  -- their steps, the invariant holds: what each has stored, announced, heard and copied agrees with
  -- its cursor and its count of broadcasts, no receiver is ahead of the sender's broadcasts or more
  -- than one iteration ahead, and the copied pieces hold the sender's bytes. The set-up is as in
  -- IsSetup: the pieces and blocks are whole, and there is at least one piece.
  pub Reach-Inv :
      (file : ℕ → ℕ) {y : System}
      → Reach full bufsize bs n base bases (start file lbuf lbufs) y
      → IsInv y
  Reach-Inv file here = start-Inv file
  Reach-Inv file (next r s) = Step-Inv s (Reach-Inv file r)
