-- ===== src/Xpmem.antt =====
-- The copy through XPMEM attachments, as it stands in src/bench.c twice and in src/xpmem_dt.c and
-- src/xpmem_cache_dt.c: attach the sender's pages, copy the blocks, detach.
pub mod Page
pub mod Attach
pub mod Loops
pub mod Shapes
pub mod Run
pub mod Stale
pub mod Cached
use mpidt_benchmark.Base.{
  ℕ, zero, suc, ◌+◌, ◌-◌, ◌*◌, ◌/◌, ◌%◌, Bool, true, false, not, Option, none, some, List, [], ◌∷◌,
  ◌==◌, if◌then◌else◌, ltb, leb, get_elem?,
}
use mpidt_benchmark.Word.{narrow, rounds, ptr_add}
use mpidt_benchmark.Memory.{Region, Result, ok, err, segfault, memcpy}
use mpidt_benchmark.Memory
use mpidt_benchmark.Iovec.{Iovec, at}
use mpidt_benchmark.World.{
  Env, World, Mapping, M, ◌>>=◌, ◌>>◌, pure, when, lift, get, set_lbuf, note, malloc, collective,
  barrier, wtime, free, seg_make, seg_get, seg_release, attach, detach, is_sender, mpi_bcast,
  mpi_gather,
}
use mpidt_benchmark.Shmem.{num_iter, skip_iter, divide, fill_lbuf, new_dummybuf, free_dummybuf}
use mpidt_benchmark.Cma.{bcast_iov}

abbrev pub mapping : ℕ → ℕ → ℕ → Mapping
mapping s r n = record { segment = s; remote = r; bytes = n }

-- `addr & ~PAGE_MASK`, for a page size that is a power of two.
unfoldable pub page_base : ℕ → ℕ → ℕ
page_base page addr = addr / page * page

-- The live attachment of a number.
unfoldable pub find : List Mapping → ℕ → Option Mapping
find [] s = none
find (m ∷ l) s = if m.segment == s then some m else find l s

unfoldable pub unmap : List Mapping → ℕ → List Mapping
unmap [] s = []
unmap (m ∷ l) s = let rest = unmap l s in if m.segment == s then rest else m ∷ rest

-- `memcpy(lbuf + offset, segment + pg_off, len)`: the segment must be attached, and long enough.
unfoldable pub copy_segment : Region → List Mapping → Option ℕ → ℕ → ℕ → ℕ → Region → Result Region
copy_segment peer maps none pg_off offset len lbuf = err segfault
copy_segment peer maps (some s) pg_off offset len lbuf = elim (find maps s) [
  | none ↦ err segfault
  | some m ↦
      if leb (pg_off + len) m.bytes
      then memcpy lbuf (ptr_add lbuf.base offset) peer (m.remote + pg_off) len
      else err segfault
]

-- `attached_seglist[i]`; `none` stands for the address -1 of a failed call.
unfoldable pub segment_at : List (Option ℕ) → ℕ → Result (Option ℕ)
segment_at l i = elim (get_elem? l i) [ none ↦ err segfault | some s ↦ ok s ]

-- The offset of a block in its segment.
unfoldable pub page_off : ℕ → Iovec → ℕ
page_off page v = if ltb v.iov_len page then v.iov_base - page_base page v.iov_base else 0

-- Step 3: the copy of all the blocks, from block `i` with `k` left.
unfoldable pub copy_mapped :
    ℕ → Region → List Mapping → List (Option ℕ) → List Iovec → ℕ → ℕ → ℕ → Region → Result Region
copy_mapped page peer maps segs iov zero i offset lbuf = ok lbuf
copy_mapped page peer maps segs iov (suc k) i offset lbuf = Memory.◌>>=◌ (at iov i) λ v.
    Memory.◌>>=◌ (segment_at segs i) λ s.
      Memory.◌>>=◌ (copy_segment peer maps s (page_off page v) offset v.iov_len lbuf)
        λ lbuf'. copy_mapped page peer maps segs iov k (suc i) (narrow (offset + v.iov_len)) lbuf'

-- lastpagebase_addr and curr_attach_ptr; 0 is NULL.
pub record Last : Type 0 where
  pub page : ℕ
  pub segment : Option ℕ

abbrev pub no_page : Last
no_page = record { page = 0; segment = none }

-- Step 2 ends with the segments, or gives up (`goto cleanup`).
pub data Attached : Type 0 where
  failed : Attached
  attached_all : List (Option ℕ) → Last → Attached

abbrev pub with_segment : Option ℕ → Attached → Attached
with_segment s failed = failed
with_segment s (attached_all l last) = attached_all (s ∷ l) last

-- How a loop of iterations ends.
pub data Outcome : Type 0 where
  finished gave_up : Outcome

module _ (env : Env) where
  unfoldable pub xpmem_attach : ℕ → ℕ → M (Option ℕ)
  xpmem_attach offset len w =
      if env.attached w.attaches
      then ok (
        some w.attaches,
        record w {
          maps = mapping w.attaches offset len ∷ w.maps;
          attaches = suc w.attaches;
          log = attach offset len ∷ w.log;
        },
      )
      else ok (none, record w { attaches = suc w.attaches; log = attach offset len ∷ w.log })

  -- Step 2: one attachment for each page of small blocks, and one for each large block.
  unfoldable pub attach_blocks : List Iovec → ℕ → ℕ → Last → M Attached
  attach_blocks iov zero i last = pure (attached_all [] last)
  attach_blocks iov (suc k) i last = lift (at iov i) >>= λ v.
      let base = page_base env.page_size v.iov_base in
      if ltb v.iov_len env.page_size
      then (if last.page == base
          then (attach_blocks iov k (suc i) last >>= λ r. pure (with_segment last.segment r))
          else (xpmem_attach base env.page_size >>= λ s. elim s [
            | none ↦ pure failed
            | some n ↦
                attach_blocks iov k (suc i) (record { page = base; segment = some n }) >>= λ r.
                pure (with_segment (some n) r)
          ]))
      else (xpmem_attach v.iov_base v.iov_len >>= λ s.
          attach_blocks iov k (suc i) last >>= λ r. pure (with_segment s r))

  -- Step 4. xpmem_detach of the address -1, or of a segment that is gone, changes nothing.
  unfoldable pub detach_all : List (Option ℕ) → M (Unit {0})
  detach_all [] = pure tt
  detach_all (none ∷ l) = detach_all l
  detach_all (some s ∷ l) =
      (λ w. ok (tt, record w { maps = unmap w.maps s; log = detach s ∷ w.log })) >>= λ _.
      detach_all l

  unfoldable pub copy_out : ℕ → List (Option ℕ) → M (Unit {0})
  copy_out nblocks segs = do
    w ← get
    r ←
        lift
          (copy_mapped env.page_size env.peer w.maps segs env.peer_iov (rounds nblocks) 0 0 w.lbuf)
    set_lbuf r

  -- Steps 2 to 4 of benchmark_xpmem_nocache.
  unfoldable pub nocache_receive : ℕ → Last → M (Option Last)
  nocache_receive nblocks last =
      note seg_get >> attach_blocks env.peer_iov (rounds nblocks) 0 last >>= λ r. elim r [
        | failed ↦ pure none
        | attached_all segs last' ↦ copy_out nblocks segs >> detach_all segs >> pure (some last')
      ]

  -- The loop of benchmark_xpmem_nocache from iteration `j`. lastpagebase_addr and curr_attach_ptr
  -- keep their values from one iteration to the next.
  unfoldable pub nocache_loop : ℕ → ℕ → ℕ → Last → M Outcome
  nocache_loop nblocks zero j last = pure finished
  nocache_loop nblocks (suc k) j last =
      when (j == skip_iter) (note wtime)
      >> bcast_iov env nblocks
      >> (if is_sender env
          then (mpi_gather env >>= λ _. nocache_loop nblocks k (suc j) last)
          else (nocache_receive nblocks last >>= λ r. elim r [
            | none ↦ pure gave_up
            | some last' ↦ mpi_gather env >>= λ _. nocache_loop nblocks k (suc j) last'
          ]))

  -- The loop of benchmark_xpmem_cached (use_cache is 1): attach at `j == 0` alone, and detach in the
  -- last iteration alone.
  unfoldable pub cached_attach : ℕ → ℕ → List (Option ℕ) → Last → M Attached
  cached_attach nblocks j segs last =
      if j == 0
      then note seg_get >> attach_blocks env.peer_iov (rounds nblocks) 0 last
      else pure (attached_all segs last)

  -- Steps 2 to 4 of benchmark_xpmem_cached.
  unfoldable pub cached_receive : ℕ → ℕ → List (Option ℕ) → Last → M Attached
  cached_receive nblocks j segs last = cached_attach nblocks j segs last >>= λ r. elim r [
    | failed ↦ pure failed
    | attached_all segs' last' ↦
        copy_out nblocks segs'
        >> when (j + 1 == num_iter + skip_iter) (detach_all segs')
        >> pure (attached_all segs' last')
  ]

  unfoldable pub cached_loop : ℕ → ℕ → ℕ → List (Option ℕ) → Last → M Outcome
  cached_loop nblocks zero j segs last = pure finished
  cached_loop nblocks (suc k) j segs last =
      when (j == skip_iter) (note wtime)
      >> bcast_iov env nblocks
      >> (if is_sender env
          then (mpi_gather env >>= λ _. cached_loop nblocks k (suc j) segs last)
          else (cached_receive nblocks j segs last >>= λ r. elim r [
            | failed ↦ pure gave_up
            | attached_all segs' last' ↦
                mpi_gather env >>= λ _. cached_loop nblocks k (suc j) segs' last'
          ]))

  -- `if (0 != apid) xpmem_release(apid)`: only a receiver has set apid.
  unfoldable pub release_apid : M (Unit {0})
  release_apid = when (if is_sender env then env.junk_apid else true) (note seg_release)

  -- What the two benchmarks share: set-up, the loop, and the release of what was allocated.
  unfoldable pub run_xpmem : (ℕ → M Outcome) → ℕ → ℕ → M (Unit {0})
  run_xpmem loop bufsize blocksize = lift (divide bufsize blocksize) >>= λ quotient.
      if not env.xpmem_works then pure tt else (do
        when (is_sender env) (note seg_make)
        dummybuf ← new_dummybuf env
        fill_lbuf env bufsize
        mpi_bcast env env.segid_bytes
        seglist ← malloc (8 * narrow quotient)
        outcome ← loop (narrow quotient)
        elim outcome [ finished ↦ note wtime >> collective barrier | gave_up ↦ pure tt ]
        release_apid
        note (free seglist)
        free_dummybuf env dummybuf)

  unfoldable pub benchmark_xpmem_nocache : ℕ → ℕ → M (Unit {0})
  benchmark_xpmem_nocache =
      run_xpmem λ nblocks. nocache_loop nblocks (num_iter + skip_iter) 0 no_page

  unfoldable pub benchmark_xpmem_cached : ℕ → ℕ → M (Unit {0})
  benchmark_xpmem_cached =
      run_xpmem λ nblocks. cached_loop nblocks (num_iter + skip_iter) 0 [] no_page
