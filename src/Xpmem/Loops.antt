-- ===== src/Xpmem/Loops.antt =====
-- The loops of benchmark_xpmem_nocache and benchmark_xpmem_cached in src/bench.c, for any way of
-- attaching the sender's blocks that yields segments which serve them.
pub mod Cached
use mpidt_benchmark.Base.{
  ℕ, zero, suc, ◌+◌, ◌*◌, ◌^◌, ◌≤◌, ◌<◌, ◌≡◌, refl, sym, ap, ◌∙◌, arith, true, false, List, [], ◌∷◌,
  some, ne→==, Bool-cases, inl, inr, repeat_append, ◌==◌, length, Option,
}
use mpidt_benchmark.Word.{rounds-id}
use mpidt_benchmark.Memory.{Region, ok, blit}
use mpidt_benchmark.Memory.Blit.{blit-base, blit-size, blit-inside}
use mpidt_benchmark.World.{
  Env, World, Comm, Event, bcast, gather, wtime, seg_get, is_sender, mpi_bcast,
}
use mpidt_benchmark.World.Returns
use mpidt_benchmark.World.Returns.{Returns, returns}
use mpidt_benchmark.Shmem.{num_iter, skip_iter}
use mpidt_benchmark.Cma.{iovec_bytes}
use mpidt_benchmark.Cma.Iteration.{bcast_iov-ok, cma_comm}
use mpidt_benchmark.Xpmem.{
  Last, Outcome, finished, no_page, cached_attach, cached_receive, cached_loop, nocache_receive,
  nocache_loop, attached_all,
}
use mpidt_benchmark.Xpmem.Attach.{
  IsSource, IsAttached, Serves, detach_all-IsSame, copy_out-Serves, blocks-le,
}

-- An iteration's calls that are repeated may as well stand behind the repetition.
cma_comm-shift :
    (env : Env) (n k : ℕ) (c : List Comm)
    → repeat_append k
        (cma_comm env n)
        (gather env.sender 1 ∷ bcast env.sender (n * iovec_bytes) ∷ c)
      ≡ gather env.sender 1
        ∷ bcast env.sender (n * iovec_bytes)
        ∷ repeat_append k (cma_comm env n) c
unfolding repeat_append
cma_comm-shift env n zero c = refl
cma_comm-shift env n (suc k) c =
    ap (λ (l : List Comm). gather env.sender 1 ∷ bcast env.sender (n * iovec_bytes) ∷ l)
      (cma_comm-shift env n k c)

-- A process behind `k` more iterations: it has not given up, and its calls are those of `k`.
abbrev pub Called : Env → ℕ → ℕ → List Comm → Outcome → World → Type 0
Called env n k c o w = (o ≡ finished) × (w.comm ≡ repeat_append k (cma_comm env n) c)

pub earlier :
    (env : Env) (n k : ℕ) (c c2 : List Comm) (o : Outcome) (w : World)
    → c2 ≡ bcast env.sender (n * iovec_bytes) ∷ c
    → Called env n k (gather env.sender 1 ∷ c2) o w
    → Called env n (suc k) c o w
unfolding repeat_append
earlier env n k c c2 o w e (done, called) = (
  done,
  called
      ∙ ap (λ (l : List Comm). repeat_append k (cma_comm env n) (gather env.sender 1 ∷ l)) e
      ∙ cma_comm-shift env n k c,
)

-- The sender's side: a broadcast and a gather in each iteration.
module _ (env : Env) (n : ℕ) (s : is_sender env ≡ true) where
  abbrev pub Idle : ℕ → World → Outcome → World → Type 0
  Idle k w o w' = Called env n k w.comm o w' × (w'.lbuf ≡ w.lbuf)

  pub nocache_loop-sender :
      n * iovec_bytes < 2 ^ 31
      → (k j : ℕ) (last : Last) (w : World) → Returns (Idle k w) (nocache_loop env n k j last w)
  unfolding nocache_loop mpi_bcast repeat_append
  nocache_loop-sender count zero j last w = returns ((refl, refl), refl)
  nocache_loop-sender count (suc k) j last w =
      let w1 = λ (l : List Event). record w {
        bcasts = suc w.bcasts;
        comm = gather env.sender 1 ∷ bcast env.sender (n * iovec_bytes) ∷ w.comm;
        log = l;
      } in
      let next : (l : List Event)
          → Returns (Idle (suc k) w) (nocache_loop env n k (suc j) last (w1 l)) =
        λ l. Returns.mono (nocache_loop-sender count k (suc j) last (w1 l)) λ o w' (called, same). (
          earlier env n k w.comm (bcast env.sender (n * iovec_bytes) ∷ w.comm) o w' refl called,
          same,
        ) in
      elim (Bool-cases (j == skip_iter)) [
        | inl now ↦ rw (now, bcast_iov-ok env n _ count, s) (next (wtime ∷ w.log))
        | inr not_yet ↦ rw (not_yet, bcast_iov-ok env n _ count, s) (next w.log)
      ]

-- A receiver's side.
module _ (env : Env) (bs n : ℕ) (source : IsSource env bs n) (r : is_sender env ≡ false)
    (lb size : ℕ) (fits : lb + n * bs < 2 ^ 64) (room : n * bs ≤ size) where
  abbrev Got : World → Type 0
  Got w = (o : ℕ) → o < n * bs → w.lbuf.cell (lb + o) ≡ env.peer.cell (env.peer.base + o)

  -- The local buffer where it was, with the sender's bytes.
  pub record HasBytes (w : World) : Type 0 where
    pub base : w.lbuf.base ≡ lb
    pub same_size : w.lbuf.size ≡ size
    pub got : Got w

  -- Between two iterations, of which `k` are left.
  pub record Before (k : ℕ) (w : World) : Type 0 where
    pub base : w.lbuf.base ≡ lb
    pub same_size : w.lbuf.size ≡ size
    pub got : k ≡ 0 → Got w

  pub HasBytes-blit :
      (w w' : World)
      → w.lbuf.base ≡ lb
      → w.lbuf.size ≡ size
      → w'.lbuf ≡ blit w.lbuf w.lbuf.base env.peer env.peer.base (n * bs)
      → HasBytes w'
  HasBytes-blit w w' eb es copied =
      let d = w.lbuf in
      record {
        base = ap (λ (t : Region). t.base) copied ∙ blit-base d d.base env.peer _ _ ∙ eb;
        same_size = ap (λ (t : Region). t.size) copied ∙ blit-size d d.base env.peer _ _ ∙ es;
        got = λ o h.
            ap (λ (t : Region). t.cell (lb + o)) copied
            ∙ ap (λ (a : ℕ). (blit d d.base env.peer env.peer.base (n * bs)).cell (a + o)) (sym eb)
            ∙ blit-inside d d.base env.peer env.peer.base (n * bs) o h;
      }

  pub few : n < 2 ^ 31
  few = omega (arith, blocks-le env bs n source, source.int_range)

  abbrev pub Ends : ℕ → World → Outcome → World → Type 0
  Ends k w o w' = Called env n k w.comm o w' × HasBytes w'

  -- One receipt of benchmark_xpmem_nocache.
  nocache_receive-ok :
      (last last' : Last) (w : World)
      → w.lbuf.base ≡ lb
      → w.lbuf.size ≡ size
      → IsAttached env bs n (record w { log = seg_get ∷ w.log }) last last' n 0
      → (w' : World) × (nocache_receive env n last w ≡ ok (some last', w'))
        × (w'.lbuf ≡ blit w.lbuf w.lbuf.base env.peer env.peer.base (n * bs))
        × (w'.comm ≡ w.comm)
  unfolding nocache_receive
  nocache_receive-ok last last' w eb es a =
      let w1 = a.after in
      let eb' : w1.lbuf.base ≡ lb = ap (λ (t : Region). t.base) a.same.lbuf ∙ eb in
      let es' : w1.lbuf.size ≡ size = ap (λ (t : Region). t.size) a.same.lbuf ∙ es in
      let copied =
        copy_out-Serves env bs n source a.segs w1 a.serves a.all (omega arith) (omega arith) in
      let w2 = record w1 { lbuf = blit w1.lbuf w1.lbuf.base env.peer env.peer.base (n * bs) } in
      let (w3, gone, same) = detach_all-IsSame env a.segs w2 in
      (
        w3,
        rw (rounds-id n few, a.ran, copied, gone) refl,
        same.lbuf ∙ ap (λ (t : Region). blit t t.base env.peer env.peer.base (n * bs)) a.same.lbuf,
        same.comm ∙ a.same.comm,
      )

  module _ (Ready : Last → Type 0)
      (attach : (last : Last) (w : World)
        → Ready last
        → (last' : Last) × IsAttached env bs n w last last' n 0 × Ready last') where
    pub nocache_loop-receiver :
        n * iovec_bytes < 2 ^ 31
        → (k j : ℕ) (last : Last) (w : World) → Ready last
        → Before k w
        → Returns (Ends k w) (nocache_loop env n k j last w)
    unfolding nocache_loop mpi_bcast repeat_append
    nocache_loop-receiver count zero j last w ready b =
        returns ((refl, refl), record { base = b.base; same_size = b.same_size; got = b.got refl })
    nocache_loop-receiver count (suc k) j last w ready b =
        let w1 = λ (l : List Event). record w {
          shmem = record w.shmem { cell = env.shared w.bcasts };
          bcasts = suc w.bcasts;
          comm = bcast env.sender (n * iovec_bytes) ∷ w.comm;
          log = l;
        } in
        let at = λ (l : List Event). attach last (record (w1 l) { log = seg_get ∷ l }) ready in
        let step =
          λ (l : List Event). nocache_receive-ok last (at l).0 (w1 l) b.base b.same_size (at l).1 in
        let w3 =
          λ (l : List Event). record (step l).0 { comm = gather env.sender 1 ∷ (step l).0.comm } in
        let next : (l : List Event)
            → Returns (Ends (suc k) w) (nocache_loop env n k (suc j) (at l).0 (w3 l)) =
          λ l.
            let (w2, run, copied, calls) = step l in
            let h = HasBytes-blit (w1 l) (w3 l) b.base b.same_size copied in
            Returns.mono
              (nocache_loop-receiver count k (suc j) (at l).0 (w3 l) (at l).2
                (record { base = h.base; same_size = h.same_size; got = λ _. h.got }))
              λ o w' (called, has). (earlier env n k w.comm w2.comm o w' calls called, has) in
        elim (Bool-cases (j == skip_iter)) [
          | inl now ↦
              rw (now, bcast_iov-ok env n _ count, r, (step (wtime ∷ w.log)).1)
                (next (wtime ∷ w.log))
          | inr later ↦ rw (later, bcast_iov-ok env n _ count, r, (step w.log).1) (next w.log)
        ]
