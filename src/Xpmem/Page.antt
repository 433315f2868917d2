-- ===== src/Xpmem/Page.antt =====
-- The steps of the XPMEM benchmarks of src/bench.c where the sender's whole buffer lies in one page and the blocks are smaller.
use mpidt_benchmark.Base.{
  ℕ, zero, suc, ◌+◌, ◌-◌, ◌*◌, ◌%◌, ◌^◌, ◌≤◌, ◌<◌, ◌≡◌, refl, ap, sym, ◌∙◌, arith, true, Option,
  none, some, List, [], ◌∷◌, eq→==, ne→==, lt→ltb, le→leb, ◌==◌, Bool-cases, inl, inr, mul_mono,
}
use mpidt_benchmark.Word.{narrow, ptr_add, narrow-id, rounds-id, ptr_add-id}
use mpidt_benchmark.Memory.{Region, ok, err, segfault, blit}
use mpidt_benchmark.Memory.Blit.{memcpy-ok, blit-none, blit-base, blit-size, blit-join}
use mpidt_benchmark.Iovec.{Iovec, iovec, at, init_iovec}
use mpidt_benchmark.Iovec.Tiling.{at-init_iovec}
use mpidt_benchmark.World.{Env, World, Mapping, attach, detach, seg_get}
use mpidt_benchmark.Xpmem.{
  Last, attached_all, mapping, page_base, find, unmap, copy_segment, segment_at, page_off,
  copy_mapped, no_page, xpmem_attach, attach_blocks, detach_all, copy_out, nocache_receive,
}

-- The sender's array describes `n` blocks of `bs` bytes in one page, which the receiver can attach.
pub record OnePage (env : Env) (bs n : ℕ) : Type 0 where
  pub entries : env.peer_iov ≡ init_iovec env.peer.base bs n 0
  pub aligned : env.peer.base % env.page_size ≡ 0
  pub not_null : 0 < env.peer.base
  pub positive : 0 < bs
  pub small : bs < env.page_size
  pub one : n * bs ≤ env.page_size
  pub readable : env.page_size ≤ env.peer.size
  pub end : env.peer.base + env.page_size < 2 ^ 64
  pub int_range : n * bs < 2 ^ 31
  pub works : (a : ℕ) → env.attached a ≡ true

-- The list of `k` times the segment `s`.
pub copies : ℕ → ℕ → List (Option ℕ)
copies zero s = []
copies (suc k) s = some s ∷ copies k s

segment_at-copies : (k i s : ℕ) → i < k → segment_at (copies k s) i ≡ ok (some s)
unfolding segment_at copies
segment_at-copies zero i s h = elim h [ ]
segment_at-copies (suc k) zero s h = refl
segment_at-copies (suc k) (suc i) s h = segment_at-copies k i s (omega arith)

page_base-lem : (page a o : ℕ) → a % page ≡ 0 → o < page → page_base page (a + o) ≡ a
unfolding page_base
page_base-lem page a o h lt = grind arith

-- A segment that is detached is not found any more.
find-unmap : (l : List Mapping) (s : ℕ) → find (unmap l s) s ≡ none
unfolding find unmap
find-unmap [] s = refl
find-unmap (m ∷ l) s = elim (Bool-cases (m.segment == s)) [
  | inl same ↦ rw same (find-unmap l s)
  | inr other ↦ rw (other, other) (find-unmap l s)
]

copy_segment-gone :
    (peer : Region) (maps : List Mapping) (s pg_off offset len : ℕ) (d : Region)
    → find maps s ≡ none
    → copy_segment peer maps (some s) pg_off offset len d ≡ err segfault
unfolding copy_segment
copy_segment-gone peer maps s pg_off offset len d gone = rw (copy_segment, gone) refl

abbrev pub on_page : Env → ℕ → Last
on_page env s = record { page = env.peer.base; segment = some s }

pub detach_all-copies :
    (env : Env) (s k : ℕ) (w : World)
    → (w' : World) × (detach_all env (copies (suc k) s) w ≡ ok (tt, w'))
      × (find w'.maps s ≡ none)
      × (w'.lbuf ≡ w.lbuf)
      × (w'.comm ≡ w.comm)
unfolding detach_all copies
detach_all-copies env s zero w = (_, refl, find-unmap w.maps s, refl, refl)
detach_all-copies env s (suc k) w =
    detach_all-copies env s k (record w { maps = unmap w.maps s; log = detach s ∷ w.log })

module _ (env : Env) (bs n : ℕ) (p : OnePage env bs n) where
  at_entry : (i : ℕ) → i < n → at env.peer_iov i ≡ ok (iovec (env.peer.base + i * bs) bs)
  at_entry i h = rw p.entries (at-init_iovec env.peer.base bs n i h (omega (arith, p.one, p.end)))

  within_page : (i : ℕ) → i < n → i * bs < env.page_size
  within_page i h =
      let m : suc i * bs ≤ n * bs = mul_mono (suc i) n bs (omega arith) in
      omega (arith, p.one, p.positive)

  abbrev entry : ℕ → Iovec
  entry i = iovec (env.peer.base + i * bs) bs

  page_of_entry : (i : ℕ) → i < n → page_base env.page_size (env.peer.base + i * bs) ≡ env.peer.base
  page_of_entry i h = page_base-lem env.page_size env.peer.base (i * bs) p.aligned (within_page i h)

  -- Once the page is the last one, every block gets its segment, and nothing is attached.
  attach_blocks-same :
      (k i s : ℕ) (w : World)
      → i + k ≤ n
      → attach_blocks env env.peer_iov k i (on_page env s) w
        ≡ ok (attached_all (copies k s) (on_page env s), w)
  unfolding attach_blocks copies
  attach_blocks-same zero i s w h = refl
  attach_blocks-same (suc k) i s w h =
      rw
        (
          at_entry i (omega arith),
          page_of_entry i (omega arith),
          lt→ltb bs env.page_size p.small,
          eq→== env.peer.base env.peer.base refl,
          attach_blocks-same k (suc i) s w (omega arith),
        )
        refl

  -- From an earlier page, or none, the page is attached once.
  pub attach_blocks-first :
      (k : ℕ) (w : World)
      → suc k ≡ n
      → attach_blocks env env.peer_iov (suc k) 0 no_page w
        ≡ ok (
          attached_all (copies (suc k) w.attaches) (on_page env w.attaches),
          record w {
            maps = mapping w.attaches env.peer.base env.page_size ∷ w.maps;
            attaches = suc w.attaches;
            log = attach env.peer.base env.page_size ∷ w.log;
          },
        )
  unfolding attach_blocks copies xpmem_attach
  attach_blocks-first k w e =
      rw
        (
          at_entry 0 (omega arith),
          page_of_entry 0 (omega arith),
          lt→ltb bs env.page_size p.small,
          ne→== 0 env.peer.base (omega (arith, p.not_null)),
          p.works w.attaches,
          page_of_entry 0 (omega arith),
          attach_blocks-same k 1 w.attaches _ (omega arith),
        )
        refl

  copy_segment-blit :
      (maps : List Mapping) (s i lb : ℕ) (d : Region)
      → find maps s ≡ some (mapping s env.peer.base env.page_size)
      → i < n
      → d.base ≡ lb
      → n * bs ≤ d.size
      → lb + n * bs < 2 ^ 64
      → copy_segment env.peer maps (some s) (page_off env.page_size (entry i)) (i * bs) bs d
        ≡ ok (blit d (lb + i * bs) env.peer (env.peer.base + i * bs) bs)
  unfolding copy_segment page_off
  copy_segment-blit maps s i lb d live h eb room fits =
      let src = env.peer in
      let m : suc i * bs ≤ n * bs = mul_mono (suc i) n bs (omega arith) in
      let all : i * bs + bs ≤ n * bs = omega arith in
      let inside : i * bs + bs ≤ env.page_size = omega (arith, p.one) in
      let back : src.base + i * bs - src.base ≡ i * bs = omega arith in
      let to : ptr_add d.base (i * bs) ≡ lb + i * bs =
        ap (λ (t : ℕ). ptr_add t (i * bs)) eb ∙ ptr_add-id lb (i * bs) (omega arith) in
      rw
        (
          copy_segment,
          live,
          lt→ltb bs env.page_size p.small,
          page_of_entry i h,
          back,
          le→leb (i * bs + bs) env.page_size inside,
          to,
        )
        (memcpy-ok d (lb + i * bs) src (src.base + i * bs) bs (omega arith) (omega arith)
          (omega arith) (omega (arith, p.readable)))

  copy_mapped-blit :
      (maps : List Mapping) (s k i lb : ℕ) (d : Region)
      → find maps s ≡ some (mapping s env.peer.base env.page_size)
      → i + k ≡ n
      → d.base ≡ lb
      → n * bs ≤ d.size
      → lb + n * bs < 2 ^ 64
      → copy_mapped env.page_size env.peer maps (copies n s) env.peer_iov k i (i * bs) d
        ≡ ok (blit d (lb + i * bs) env.peer (env.peer.base + i * bs) (k * bs))
  unfolding copy_mapped
  copy_mapped-blit maps s zero i lb d live e eb room fits =
      ap ok (sym (blit-none d _ env.peer _ (omega arith)))
  copy_mapped-blit maps s (suc k) i lb d live e eb room fits =
      let src = env.peer in
      let all : n * bs ≡ i * bs + bs + k * bs = ap (λ (t : ℕ). t * bs) (sym e) ∙ omega arith in
      let off : narrow (i * bs + bs) ≡ suc i * bs =
        narrow-id (i * bs + bs) (omega (arith, p.int_range)) ∙ omega arith in
      rw
        (
          at_entry i (omega arith),
          segment_at-copies n i s (omega arith),
          copy_segment-blit maps s i lb d live (omega arith) eb room fits,
          off,
        )
        (copy_mapped-blit maps s k (suc i) lb (blit d (lb + i * bs) src (src.base + i * bs) bs) live
            (omega arith) (blit-base d _ src _ _ ∙ eb)
            (rw (blit-size d (lb + i * bs) src (src.base + i * bs) bs) room) fits
          ∙ ap ok (blit-join d _ src _ bs (k * bs) (omega arith) (omega arith) (omega arith)))

  pub blocks-le : n ≤ n * bs
  blocks-le = let b = p.positive in grind arith

  -- The copy through a live segment, and through one that is gone.
  pub copy_out-ok :
      (s : ℕ) (w : World)
      → find w.maps s ≡ some (mapping s env.peer.base env.page_size)
      → n * bs ≤ w.lbuf.size
      → w.lbuf.base + n * bs < 2 ^ 64
      → copy_out env n (copies n s) w
        ≡ ok (tt, record w { lbuf = blit w.lbuf w.lbuf.base env.peer env.peer.base (n * bs) })
  unfolding copy_out
  copy_out-ok s w live room fits =
      let start : 0 * bs ≡ 0 = omega arith in
      let at_to : w.lbuf.base + 0 ≡ w.lbuf.base = omega arith in
      let at_from : env.peer.base + 0 ≡ env.peer.base = omega arith in
      let all =
        simp (start, at_to, at_from) at
          (copy_mapped-blit w.maps s n 0 w.lbuf.base w.lbuf live (omega arith) refl room fits) in
      rw (rounds-id n (omega (arith, p.int_range, blocks-le)), all)

  copy_out-gone :
      (s k : ℕ) (w : World)
      → find w.maps s ≡ none
      → suc k ≡ n
      → copy_out env (suc k) (copies (suc k) s) w ≡ err segfault
  unfolding copy_out copy_mapped
  copy_out-gone s k w gone e =
      rw
        (
          rounds-id (suc k) (omega (arith, p.int_range, blocks-le)),
          at_entry 0 (omega arith),
          segment_at-copies (suc k) 0 s (omega arith),
          copy_segment-gone env.peer w.maps s _ _ _ w.lbuf gone,
        )
        refl

  -- The first receipt ends well, and leaves the segment that it remembers detached.
  pub nocache_receive-first :
      (k : ℕ) (w : World)
      → suc k ≡ n
      → n * bs ≤ w.lbuf.size
      → w.lbuf.base + n * bs < 2 ^ 64
      → (s : ℕ) × (w' : World) × (nocache_receive env (suc k) no_page w
          ≡ ok (some (on_page env s), w'))
        × (find w'.maps s ≡ none)
  unfolding nocache_receive
  nocache_receive-first k w e room fits =
      let w1 = record w { log = seg_get ∷ w.log } in
      let w2 = record w1 {
        maps = mapping w.attaches env.peer.base env.page_size ∷ w.maps;
        attaches = suc w.attaches;
        log = attach env.peer.base env.page_size ∷ seg_get ∷ w.log;
      } in
      let live : find w2.maps w.attaches ≡ some (mapping w.attaches env.peer.base env.page_size) =
        unfold find in rw (eq→== w.attaches w.attaches refl) refl in
      let w3 = record w2 { lbuf = blit w.lbuf w.lbuf.base env.peer env.peer.base (suc k * bs) } in
      let (w4, run, gone, same, calls) = detach_all-copies env w.attaches k w3 in
      (
        w.attaches,
        w4,
        rw
            (
              rounds-id (suc k) (omega (arith, p.int_range, blocks-le)),
              attach_blocks-first k w1 e,
              e,
              copy_out-ok w.attaches w2 live room fits,
              ← e,
              run,
            )
            refl,
        gone,
      )

  -- A receipt that finds its page to be the last one attaches nothing: the segment that it remembers
  -- is gone.
  pub nocache_receive-stale :
      (s k : ℕ) (w : World)
      → suc k ≡ n
      → find w.maps s ≡ none
      → nocache_receive env (suc k) (on_page env s) w ≡ err segfault
  unfolding nocache_receive
  nocache_receive-stale s k w e gone =
      let w1 = record w { log = seg_get ∷ w.log } in
      rw
        (
          rounds-id (suc k) (omega (arith, p.int_range, blocks-le)),
          attach_blocks-same (suc k) 0 s w1 (omega arith),
          copy_out-gone s k w1 gone e,
        )
        refl
