-- ===== src/Xpmem/Attach.antt =====
-- The attachments of the XPMEM benchmarks of src/bench.c: which segments let a receiver copy the
-- sender's blocks, and that attaching the blocks yields such segments.
pub mod Small
pub mod Large
use mpidt_benchmark.Base.{
  ℕ, zero, suc, ◌+◌, ◌-◌, ◌*◌, ◌/◌, ◌%◌, ◌^◌, ◌≤◌, ◌<◌, ◌≡◌, refl, ap, sym, ◌∙◌, arith, true,
  Option, none, some, List, [], ◌∷◌, eq→==, ne→==, le→leb, ◌==◌, Bool-cases, inl, inr, mul_mono,
  length,
}
use mpidt_benchmark.Word.{narrow, ptr_add, narrow-id, rounds-id, ptr_add-id}
use mpidt_benchmark.Memory.{Region, ok, blit}
use mpidt_benchmark.Memory.Blit.{memcpy-ok, blit-none, blit-base, blit-size, blit-join}
use mpidt_benchmark.Iovec.{Iovec, iovec, at, init_iovec}
use mpidt_benchmark.Iovec.Tiling.{at-init_iovec}
use mpidt_benchmark.World.{Env, World, Mapping, detach}
use mpidt_benchmark.Xpmem.{
  Last, attached_all, mapping, find, unmap, copy_segment, segment_at, page_off, copy_mapped,
  attach_blocks, detach_all, copy_out,
}

-- The sender's array describes `n` blocks of `bs` bytes of its buffer, and every attachment succeeds.
pub record IsSource (env : Env) (bs n : ℕ) : Type 0 where
  pub entries : env.peer_iov ≡ init_iovec env.peer.base bs n 0
  pub positive : 0 < bs
  pub readable : n * bs ≤ env.peer.size
  pub end : env.peer.base + n * bs < 2 ^ 64
  pub int_range : n * bs < 2 ^ 31
  pub works : (a : ℕ) → env.attached a ≡ true

-- What an operation on attachments does not change.
pub record IsSame (w w' : World) : Type 0 where
  pub lbuf : w'.lbuf ≡ w.lbuf
  pub shmem : w'.shmem ≡ w.shmem
  pub comm : w'.comm ≡ w.comm
  pub bcasts : w'.bcasts ≡ w.bcasts

pub IsSame-refl : (w : World) → IsSame w w
IsSame-refl w = record { lbuf = refl; shmem = refl; comm = refl; bcasts = refl }

pub IsSame-trans : {w w' w'' : World} → IsSame w w' → IsSame w' w'' → IsSame w w''
IsSame-trans a b = record {
  lbuf = b.lbuf ∙ a.lbuf;
  shmem = b.shmem ∙ a.shmem;
  comm = b.comm ∙ a.comm;
  bcasts = b.bcasts ∙ a.bcasts;
}

pub detach_all-IsSame :
    (env : Env) (segs : List (Option ℕ)) (w : World)
    → (w' : World) × (detach_all env segs w ≡ ok (tt, w')) × IsSame w w'
unfolding detach_all
detach_all-IsSame env [] w = (w, refl, IsSame-refl w)
detach_all-IsSame env (none ∷ l) w = detach_all-IsSame env l w
detach_all-IsSame env (some s ∷ l) w =
    let (w', run, same) =
      detach_all-IsSame env l (record w { maps = unmap w.maps s; log = detach s ∷ w.log }) in
    (
      w',
      run,
      record { lbuf = same.lbuf; shmem = same.shmem; comm = same.comm; bcasts = same.bcasts },
    )

module _ (env : Env) (bs n : ℕ) where
  abbrev pub entry : ℕ → Iovec
  entry i = iovec (env.peer.base + i * bs) bs

  -- The segments of the blocks from `i` on are attached, and each covers its block.
  pub data Serves (maps : List Mapping) : ℕ → List (Option ℕ) → Type 0 where
    no_block : {i : ℕ} → Serves maps i []
    block :
        {i : ℕ} {l : List (Option ℕ)} (s : ℕ) (m : Mapping)
        → find maps s ≡ some m
        → m.remote + page_off env.page_size (entry i) ≡ env.peer.base + i * bs
        → page_off env.page_size (entry i) + bs ≤ m.bytes
        → Serves maps (suc i) l
        → Serves maps i (some s ∷ l)

  -- The segments that attaching yields from `w`, in the world behind it.
  pub record IsAttached (w : World) (last last' : Last) (k i : ℕ) : Type 0 where
    pub segs : List (Option ℕ)
    pub after : World
    pub ran : attach_blocks env env.peer_iov k i last w ≡ ok (attached_all segs last', after)
    pub same : IsSame w after
    pub serves : Serves after.maps i segs
    pub all : length segs ≡ k
    pub kept : (s : ℕ) → s < w.attaches → find after.maps s ≡ find w.maps s

module _ (env : Env) (bs n : ℕ) (source : IsSource env bs n) where
  pub at_entry : (i : ℕ) → i < n → at env.peer_iov i ≡ ok (entry env bs n i)
  at_entry i h =
      rw source.entries (at-init_iovec env.peer.base bs n i h (omega (arith, source.end)))

  -- The segment of one block.
  record Found (maps : List Mapping) (segs : List (Option ℕ)) (j i : ℕ) : Type 0 where
    s : ℕ
    m : Mapping
    listed : segment_at segs j ≡ ok (some s)
    live : find maps s ≡ some m
    place : m.remote + page_off env.page_size (entry env bs n i) ≡ env.peer.base + i * bs
    room : page_off env.page_size (entry env bs n i) + bs ≤ m.bytes

  Serves-at :
      {maps : List Mapping} {i : ℕ} {segs : List (Option ℕ)} (j : ℕ)
      → Serves env bs n maps i segs
      → j < length segs
      → Found maps segs j (i + j)
  unfolding segment_at
  Serves-at j no_block h = elim h [ ]
  Serves-at zero (block {i} s m live place room rest) h =
      let e : i ≡ i + 0 = omega arith in
      rw (← e) (record { s = s; m = m; listed = refl; live = live; place = place; room = room })
  Serves-at (suc j) (block {i} s m live place room rest) h =
      let f = Serves-at j rest (omega arith) in
      let e : suc i + j ≡ i + suc j = omega arith in
      rw (← e) (record {
        s = f.s;
        m = f.m;
        listed = f.listed;
        live = f.live;
        place = f.place;
        room = f.room;
      })

  copy_segment-blit :
      (maps : List Mapping) (segs : List (Option ℕ)) (i lb : ℕ) (d : Region)
      (f : Found maps segs i i)
      → i < n
      → d.base ≡ lb
      → n * bs ≤ d.size
      → lb + n * bs < 2 ^ 64
      → copy_segment env.peer maps
          (some f.s)
          (page_off env.page_size (entry env bs n i))
          (i * bs)
          bs
          d
        ≡ ok (blit d (lb + i * bs) env.peer (env.peer.base + i * bs) bs)
  unfolding copy_segment
  copy_segment-blit maps segs i lb d f h eb room fits =
      let src = env.peer in
      let m : suc i * bs ≤ n * bs = mul_mono (suc i) n bs (omega arith) in
      let to : ptr_add d.base (i * bs) ≡ lb + i * bs =
        ap (λ (t : ℕ). ptr_add t (i * bs)) eb ∙ ptr_add-id lb (i * bs) (omega arith) in
      rw
        (
          copy_segment,
          f.live,
          le→leb (page_off env.page_size (entry env bs n i) + bs) f.m.bytes f.room,
          f.place,
          to,
        )
        (memcpy-ok d (lb + i * bs) src (src.base + i * bs) bs (omega arith) (omega arith)
          (omega arith) (omega (arith, source.readable)))

  copy_mapped-blit :
      (maps : List Mapping) (segs : List (Option ℕ)) (k i lb : ℕ) (d : Region)
      → Serves env bs n maps 0 segs
      → length segs ≡ n
      → i + k ≡ n
      → d.base ≡ lb
      → n * bs ≤ d.size
      → lb + n * bs < 2 ^ 64
      → copy_mapped env.page_size env.peer maps segs env.peer_iov k i (i * bs) d
        ≡ ok (blit d (lb + i * bs) env.peer (env.peer.base + i * bs) (k * bs))
  unfolding copy_mapped
  copy_mapped-blit maps segs zero i lb d serves all e eb room fits =
      ap ok (sym (blit-none d _ env.peer _ (omega arith)))
  copy_mapped-blit maps segs (suc k) i lb d serves all e eb room fits =
      let src = env.peer in
      let first : 0 + i ≡ i = omega arith in
      let f : Found maps segs i i = rw first at (Serves-at i serves (omega arith)) in
      let total : n * bs ≡ i * bs + bs + k * bs = ap (λ (t : ℕ). t * bs) (sym e) ∙ omega arith in
      let off : narrow (i * bs + bs) ≡ suc i * bs =
        narrow-id (i * bs + bs) (omega (arith, source.int_range)) ∙ omega arith in
      rw
        (
          at_entry i (omega arith),
          f.listed,
          copy_segment-blit maps segs i lb d f (omega arith) eb room fits,
          off,
        )
        (copy_mapped-blit maps segs k (suc i) lb (blit d (lb + i * bs) src (src.base + i * bs) bs)
            serves all (omega arith) (blit-base d _ src _ _ ∙ eb)
            (rw (blit-size d (lb + i * bs) src (src.base + i * bs) bs) room) fits
          ∙ ap ok (blit-join d _ src _ bs (k * bs) (omega arith) (omega arith) (omega arith)))

  pub blocks-le : n ≤ n * bs
  blocks-le = let b = source.positive in grind arith

  -- The copy through segments that serve all the blocks.
  pub copy_out-Serves :
      (segs : List (Option ℕ)) (w : World)
      → Serves env bs n w.maps 0 segs
      → length segs ≡ n
      → n * bs ≤ w.lbuf.size
      → w.lbuf.base + n * bs < 2 ^ 64
      → copy_out env n segs w
        ≡ ok (tt, record w { lbuf = blit w.lbuf w.lbuf.base env.peer env.peer.base (n * bs) })
  unfolding copy_out
  copy_out-Serves segs w serves all room fits =
      let start : 0 * bs ≡ 0 = omega arith in
      let at_to : w.lbuf.base + 0 ≡ w.lbuf.base = omega arith in
      let at_from : env.peer.base + 0 ≡ env.peer.base = omega arith in
      let whole =
        simp (start, at_to, at_from) at
          (copy_mapped-blit w.maps segs n 0 w.lbuf.base w.lbuf serves all (omega arith) refl room
            fits) in
      rw (rounds-id n (omega (arith, source.int_range, blocks-le)), whole)
