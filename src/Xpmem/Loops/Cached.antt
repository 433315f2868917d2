-- ===== src/Xpmem/Loops/Cached.antt =====
-- The loop of benchmark_xpmem_cached in src/bench.c, which attaches the sender's blocks in its first
-- iteration and detaches them in its last.
use mpidt_benchmark.Base.{
  ℕ, zero, suc, ◌+◌, ◌*◌, ◌^◌, ◌≤◌, ◌<◌, ◌≡◌, refl, ap, ◌∙◌, arith, true, false, List, [], ◌∷◌,
  ne→==, Bool-cases, inl, inr, repeat_append, ◌==◌, length, Option,
}
use mpidt_benchmark.Word.{rounds-id}
use mpidt_benchmark.Memory.{Region, ok, blit}
use mpidt_benchmark.World.{Env, World, Event, bcast, gather, wtime, seg_get, is_sender, mpi_bcast}
use mpidt_benchmark.World.Returns
use mpidt_benchmark.World.Returns.{Returns, returns}
use mpidt_benchmark.Shmem.{num_iter, skip_iter}
use mpidt_benchmark.Cma.{iovec_bytes}
use mpidt_benchmark.Cma.Iteration.{bcast_iov-ok}
use mpidt_benchmark.Xpmem.{Last, no_page, cached_attach, cached_receive, cached_loop, attached_all}
use mpidt_benchmark.Xpmem.Attach.{IsSource, IsAttached, Serves, detach_all-IsSame, copy_out-Serves}
use mpidt_benchmark.Xpmem.Loops.{earlier, Idle, Ends, HasBytes, HasBytes-blit, few}

module _ (env : Env) (n : ℕ) (s : is_sender env ≡ true) where
  pub cached_loop-sender :
      n * iovec_bytes < 2 ^ 31
      → (k j : ℕ) (segs : List (Option ℕ)) (last : Last) (w : World)
      → Returns (Idle env n s k w) (cached_loop env n k j segs last w)
  unfolding cached_loop mpi_bcast repeat_append
  cached_loop-sender count zero j segs last w = returns ((refl, refl), refl)
  cached_loop-sender count (suc k) j segs last w =
      let w1 = λ (l : List Event). record w {
        bcasts = suc w.bcasts;
        comm = gather env.sender 1 ∷ bcast env.sender (n * iovec_bytes) ∷ w.comm;
        log = l;
      } in
      let next : (l : List Event)
          → Returns (Idle env n s (suc k) w) (cached_loop env n k (suc j) segs last (w1 l)) =
        λ l.
          Returns.mono (cached_loop-sender count k (suc j) segs last (w1 l)) λ o w' (called, same).
            (
              earlier env n k w.comm (bcast env.sender (n * iovec_bytes) ∷ w.comm) o w' refl called,
              same,
            ) in
      elim (Bool-cases (j == skip_iter)) [
        | inl now ↦ rw (now, bcast_iov-ok env n _ count, s) (next (wtime ∷ w.log))
        | inr not_yet ↦ rw (not_yet, bcast_iov-ok env n _ count, s) (next w.log)
      ]

-- A receiver's side.
module _ (env : Env) (bs n : ℕ) (source : IsSource env bs n) (r : is_sender env ≡ false)
    (lb size : ℕ) (fits : lb + n * bs < 2 ^ 64) (room : n * bs ≤ size) where
  -- One receipt of benchmark_xpmem_cached through segments that are attached.
  cached_receive-live :
      (segs : List (Option ℕ)) (last : Last) (j : ℕ) (w : World)
      → 0 < j
      → Serves env bs n w.maps 0 segs
      → length segs ≡ n
      → w.lbuf.base ≡ lb
      → w.lbuf.size ≡ size
      → (w' : World) × (cached_receive env n j segs last w ≡ ok (attached_all segs last, w'))
        × (w'.lbuf ≡ blit w.lbuf w.lbuf.base env.peer env.peer.base (n * bs))
        × (w'.comm ≡ w.comm)
        × (j + 1 < num_iter + skip_iter → Serves env bs n w'.maps 0 segs)
  unfolding cached_receive cached_attach
  cached_receive-live segs last j w pos serves all eb es =
      let w1 = record w { lbuf = blit w.lbuf w.lbuf.base env.peer env.peer.base (n * bs) } in
      let copied = copy_out-Serves env bs n source segs w serves all (omega arith) (omega arith) in
      let (w2, gone, same) = detach_all-IsSame env segs w1 in
      let later = ne→== j 0 (omega arith) in
      elim (Bool-cases (j + 1 == num_iter + skip_iter)) [
        | inl final ↦
            (w2, rw (later, copied, final, gone) refl, same.lbuf, same.comm, λ h. ground arith)
        | inr more ↦ (w1, rw (later, copied, more) refl, refl, refl, λ h. serves)
      ]

  cached_loop-live :
      n * iovec_bytes < 2 ^ 31
      → (segs : List (Option ℕ)) (last : Last) (k j : ℕ) (w : World) → 0 < j
      → j + k ≡ num_iter + skip_iter
      → (0 < k → Serves env bs n w.maps 0 segs)
      → length segs ≡ n
      → HasBytes env bs n source r lb size fits room w
      → Returns (Ends env bs n source r lb size fits room k w) (cached_loop env n k j segs last w)
  unfolding cached_loop mpi_bcast repeat_append
  cached_loop-live count segs last zero j w pos total serves all b = returns ((refl, refl), b)
  cached_loop-live count segs last (suc k) j w pos total serves all b =
      let w1 = λ (l : List Event). record w {
        shmem = record w.shmem { cell = env.shared w.bcasts };
        bcasts = suc w.bcasts;
        comm = bcast env.sender (n * iovec_bytes) ∷ w.comm;
        log = l;
      } in
      let step = λ (l : List Event).
        cached_receive-live segs last j (w1 l) pos (serves (omega arith)) all b.base b.same_size in
      let w3 =
        λ (l : List Event). record (step l).0 { comm = gather env.sender 1 ∷ (step l).0.comm } in
      let next : (l : List Event)
          → Returns (Ends env bs n source r lb size fits room (suc k) w)
              (cached_loop env n k (suc j) segs last (w3 l)) =
        λ l.
          let (w2, run, copied, calls, live) = step l in
          Returns.mono
            (cached_loop-live count segs last k (suc j) (w3 l) (omega arith) (omega arith)
              (λ h. live (omega arith)) all
              (HasBytes-blit env bs n source r lb size fits room (w1 l) (w3 l) b.base b.same_size
                copied))
            λ o w' (called, has). (earlier env n k w.comm w2.comm o w' calls called, has) in
      elim (Bool-cases (j == skip_iter)) [
        | inl now ↦
            rw (now, bcast_iov-ok env n _ count, r, (step (wtime ∷ w.log)).1) (next (wtime ∷ w.log))
        | inr later ↦ rw (later, bcast_iov-ok env n _ count, r, (step w.log).1) (next w.log)
      ]

  -- What the first receipt leaves.
  record First (w : World) : Type 0 where
    segs : List (Option ℕ)
    last : Last
    after : World
    ran : cached_receive env n 0 [] no_page w ≡ ok (attached_all segs last, after)
    bytes : HasBytes env bs n source r lb size fits room after
    calls : after.comm ≡ w.comm
    serves : Serves env bs n after.maps 0 segs
    all : length segs ≡ n

  cached_receive-First :
      (last : Last) (w : World)
      → IsAttached env bs n (record w { log = seg_get ∷ w.log }) no_page last n 0
      → w.lbuf.base ≡ lb
      → w.lbuf.size ≡ size
      → First w
  unfolding cached_receive cached_attach
  cached_receive-First last w a eb es =
      let w1 = a.after in
      let eb' : w1.lbuf.base ≡ lb = ap (λ (t : Region). t.base) a.same.lbuf ∙ eb in
      let es' : w1.lbuf.size ≡ size = ap (λ (t : Region). t.size) a.same.lbuf ∙ es in
      let copied =
        copy_out-Serves env bs n source a.segs w1 a.serves a.all (omega arith) (omega arith) in
      let w2 = record w1 { lbuf = blit w1.lbuf w1.lbuf.base env.peer env.peer.base (n * bs) } in
      record {
        segs = a.segs;
        last = last;
        after = w2;
        ran = rw (rounds-id n (few env bs n source r lb size fits room), a.ran, copied) refl;
        bytes = HasBytes-blit env bs n source r lb size fits room w1 w2 eb' es' refl;
        calls = a.same.comm;
        serves = a.serves;
        all = a.all;
      }

  -- The whole loop: the first iteration attaches, the last one detaches.
  pub cached_loop-receiver :
      n * iovec_bytes < 2 ^ 31
      → (attach : (w : World) → (last : Last) × IsAttached env bs n w no_page last n 0) (rest : ℕ)
        (w : World)
      → suc rest ≡ num_iter + skip_iter
      → w.lbuf.base ≡ lb
      → w.lbuf.size ≡ size
      → Returns
          (Ends env bs n source r lb size fits room (suc rest) w)
          (cached_loop env n (suc rest) 0 [] no_page w)
  unfolding cached_loop mpi_bcast
  cached_loop-receiver count attach rest w total eb es =
      let w1 = record w {
        shmem = record w.shmem { cell = env.shared w.bcasts };
        bcasts = suc w.bcasts;
        comm = bcast env.sender (n * iovec_bytes) ∷ w.comm;
      } in
      let (last, a) = attach (record w1 { log = seg_get ∷ w.log }) in
      let f = cached_receive-First last w1 a eb es in
      let w3 = record f.after { comm = gather env.sender 1 ∷ f.after.comm } in
      let b : HasBytes env bs n source r lb size fits room w3 = record {
        base = f.bytes.base;
        same_size = f.bytes.same_size;
        got = f.bytes.got;
      } in
      rw (bcast_iov-ok env n _ count, r, f.ran)
        (Returns.mono
          (cached_loop-live count f.segs f.last rest 1 w3 (omega arith) (omega arith)
            (λ h. f.serves) f.all b)
          (λ o w' (called, has). (earlier env n rest w.comm f.after.comm o w' f.calls called, has)))
