-- ===== src/Xpmem/Attach/Small.antt =====
-- Blocks that are smaller than a page and do not cross one: a page is attached when its first block
-- comes.
use mpidt_benchmark.Base.{
  ℕ, zero, suc, ◌+◌, ◌-◌, ◌*◌, ◌/◌, ◌%◌, ◌≤◌, ◌<◌, ◌≡◌, ◌≢◌, inl, inr, refl, ap, ◌∙◌, arith, ◌∷◌,
  [], some, eq→==, ne→==, lt→ltb, ◌==◌, Bool-cases,
}
use native.Mathlib.Nat.{mul-add-div_right, div-add-mod'}
use mpidt_benchmark.Memory.{ok}
use mpidt_benchmark.World.{Env, World, attach}
use mpidt_benchmark.Xpmem.{
  Last, attached_all, mapping, find, page_base, page_off, xpmem_attach, attach_blocks,
}
use mpidt_benchmark.Xpmem.Attach.{
  IsSource, IsSame, IsSame-refl, IsSame-trans, entry, no_block, block, IsAttached, at_entry,
}

-- The buffer starts at a page, and no block of `bs` bytes crosses one.
pub record IsInPages (env : Env) (bs n : ℕ) : Type 0 where
  pub aligned : env.peer.base % env.page_size ≡ 0
  pub not_null : 0 < env.peer.base
  pub small : bs < env.page_size
  pub inside : (i : ℕ) → i < n → i * bs % env.page_size + bs ≤ env.page_size

pub page_base-add :
    (page a o : ℕ) → 0 < page → a % page ≡ 0 → page_base page (a + o) ≡ a + o / page * page
unfolding page_base
page_base-add page a o pos h =
    let parts : a / page * page + a % page ≡ a = div-add-mod' a page in
    let quotient : (a + o) / page ≡ a / page + o / page =
      ap (λ (t : ℕ). (t + o) / page) (omega arith) ∙ mul-add-div_right pos (a / page) o in
    rw quotient (omega arith)

module _ (env : Env) (bs n : ℕ) (source : IsSource env bs n) (pages : IsInPages env bs n) where
  -- The page of block `i`, in the other process.
  abbrev pub page_at : ℕ → ℕ
  page_at i = env.peer.base + i * bs / env.page_size * env.page_size

  page_of_entry : (i : ℕ) → page_base env.page_size (env.peer.base + i * bs) ≡ page_at i
  page_of_entry i =
      page_base-add env.page_size env.peer.base (i * bs) (omega (arith, pages.small)) pages.aligned

  offset : (i : ℕ) → page_off env.page_size (entry env bs n i) ≡ i * bs % env.page_size
  unfolding page_off
  offset i =
      let parts = div-add-mod' (i * bs) env.page_size in
      rw (lt→ltb bs env.page_size pages.small, page_of_entry i) (omega arith)

  abbrev pub at_page : ℕ → ℕ → Last
  at_page i s = record { page = page_at i; segment = some s }

  -- What lastpagebase_addr and curr_attach_ptr say of the page of block `i`: another page, or the
  -- segment that covers it.
  pub data Knows (w : World) (i : ℕ) : Last → Type 0 where
    other_page : {last : Last} → last.page ≢ page_at i → Knows w i last
    this_page :
        {last : Last} (s : ℕ)
        → last ≡ at_page i s
        → s < w.attaches
        → find w.maps s ≡ some (mapping s (page_at i) env.page_size)
        → Knows w i last

  next_block :
      (w : World) (i s : ℕ)
      → s < w.attaches
      → find w.maps s ≡ some (mapping s (page_at i) env.page_size)
      → Knows w (suc i) (at_page i s)
  next_block w i s old live = elim (Bool-cases (page_at i == page_at (suc i))) [
    | inl same ↦
        let e : page_at i ≡ page_at (suc i) = ground arith in
        this_page s (ap (λ (t : ℕ). record { page = t; segment = some s }) e) old
          (live ∙ ap (λ (t : ℕ). some (mapping s t env.page_size)) e)
    | inr other ↦ other_page (λ e. ground arith)
  ]

  IsAttached-block :
      (k i s : ℕ) (last last' : Last) (w w1 : World)
      → i < n
      → s < w1.attaches
      → w.attaches ≤ w1.attaches
      → find w1.maps s ≡ some (mapping s (page_at i) env.page_size)
      → ((t : ℕ) → t < w.attaches → find w1.maps t ≡ find w.maps t)
      → IsSame w w1
      → (r : IsAttached env bs n w1 (at_page i s) last' k (suc i))
      → attach_blocks env env.peer_iov (suc k) i last w
        ≡ ok (attached_all (some s ∷ r.segs) last', r.after)
      → IsAttached env bs n w last last' (suc k) i
  IsAttached-block k i s last last' w w1 lt old more live kept same r ran = record {
    segs = some s ∷ r.segs;
    after = r.after;
    ran = ran;
    same = IsSame-trans same r.same;
    serves =
        block s (mapping s (page_at i) env.page_size) (r.kept s old ∙ live)
          (omega (arith, offset i, div-add-mod' (i * bs) env.page_size))
          (omega (arith, offset i, pages.inside i lt)) r.serves;
    all = ap suc r.all;
    kept = λ t h. r.kept t (omega arith) ∙ kept t h;
  }

  end_page :
      (k i : ℕ) (last' last : Last)
      → last.page ≡ page_at i
      → (0 < k → last'.page ≡ page_at (suc i + k - 1))
      → (k ≡ 0 → last' ≡ last)
      → 0 < suc k
      → last'.page ≡ page_at (i + suc k - 1)
  end_page zero i last' last here more none _ =
      let e : i ≡ i + 1 - 1 = omega arith in
      ap (λ (l : Last). l.page) (none refl) ∙ here ∙ ap page_at e
  end_page (suc k) i last' last here more none _ =
      let e : suc i + suc k - 1 ≡ i + suc (suc k) - 1 = omega arith in
      more (omega arith) ∙ ap page_at e

  pub attach_small :
      (k i : ℕ) (last : Last) (w : World)
      → i + k ≤ n
      → Knows w i last
      → (last' : Last) × IsAttached env bs n w last last' k i
        × (0 < k → last'.page ≡ page_at (i + k - 1))
        × (k ≡ 0 → last' ≡ last)
  unfolding attach_blocks xpmem_attach
  attach_small zero i last w h knows = (
    last,
    record {
      segs = [];
      after = w;
      ran = refl;
      same = IsSame-refl w;
      serves = no_block;
      all = refl;
      kept = λ s lt. refl;
    },
    λ pos. absurd (omega arith),
    λ _. refl,
  )
  attach_small (suc k) i last w h (other_page ne) =
      let m = mapping w.attaches (page_at i) env.page_size in
      let w1 = record w {
        maps = m ∷ w.maps;
        attaches = suc w.attaches;
        log = attach (page_at i) env.page_size ∷ w.log;
      } in
      let live : find w1.maps w.attaches ≡ some m =
        unfold find in rw (eq→== w.attaches w.attaches refl) refl in
      let (last', r, at_last, unchanged) =
        attach_small k (suc i) (at_page i w.attaches) w1 (omega arith)
          (next_block w1 i w.attaches (omega arith) live) in
      (
        last',
        IsAttached-block k i w.attaches last last' w w1 (omega arith) (omega arith) (omega arith)
            live
            (λ t lt. unfold find in rw (ne→== w.attaches t (λ e. absurd (omega (arith, e)))) refl)
            (record { lbuf = refl; shmem = refl; comm = refl; bcasts = refl }) r
            (rw
              (
                at_entry env bs n source i (omega arith),
                lt→ltb bs env.page_size pages.small,
                page_of_entry i,
                ne→== last.page (page_at i) ne,
                source.works w.attaches,
                page_of_entry i,
                r.ran,
              )
              refl),
        end_page k i last' (at_page i w.attaches) refl at_last unchanged,
        λ z. absurd (omega (arith, z)),
      )
  attach_small (suc k) i last w h (this_page s e old live) =
      let (last', r, at_last, unchanged) =
        attach_small k (suc i) (at_page i s) w (omega arith) (next_block w i s old live) in
      (
        last',
        IsAttached-block k i s last last' w w (omega arith) old (omega arith) live (λ t lt. refl)
            (IsSame-refl w) r
            (rw
              (
                e,
                at_entry env bs n source i (omega arith),
                lt→ltb bs env.page_size pages.small,
                page_of_entry i,
                eq→== (page_at i) (page_at i) refl,
                r.ran,
              )
              refl),
        end_page k i last' (at_page i s) refl at_last unchanged,
        λ z. absurd (omega (arith, z)),
      )

  -- Blocks of more than a page together do not end in the page where they start.
  pub last_page : env.page_size < n * bs → page_at (0 + n - 1) ≢ page_at 0
  last_page more e =
      let x = (0 + n - 1) * bs in
      let b = source.positive in
      let some_block : 0 < n = grind arith in
      let total : n * bs ≡ x + bs =
        let up : n ≡ suc (0 + n - 1) = omega arith in ap (λ (t : ℕ). t * bs) up ∙ omega arith in
      let start = div-add-mod' (0 * bs) env.page_size in
      let parts = div-add-mod' x env.page_size in
      let fits = pages.inside (0 + n - 1) (omega arith) in absurd (omega arith)
