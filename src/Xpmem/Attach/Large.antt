-- ===== src/Xpmem/Attach/Large.antt =====
-- Blocks of at least a page: each is attached by itself.
use mpidt_benchmark.Base.{
  ℕ, zero, suc, ◌+◌, ◌≤◌, ◌≡◌, refl, ap, ◌∙◌, arith, ◌∷◌, [], some, eq→==, ne→==, le→not-ltb,
}
use mpidt_benchmark.World.{Env, World, attach}
use mpidt_benchmark.Xpmem.{Last, mapping, find, page_off, xpmem_attach, attach_blocks}
use mpidt_benchmark.Xpmem.Attach.{
  IsSource, IsSame-refl, entry, no_block, block, IsAttached, at_entry,
}

module _ (env : Env) (bs n : ℕ) (source : IsSource env bs n) (large : env.page_size ≤ bs) where
  no_offset : (i : ℕ) → page_off env.page_size (entry env bs n i) ≡ 0
  unfolding page_off
  no_offset i = rw (le→not-ltb bs env.page_size large) refl

  pub attach_large :
      (k i : ℕ) (last : Last) (w : World) → i + k ≤ n → IsAttached env bs n w last last k i
  unfolding attach_blocks xpmem_attach
  attach_large zero i last w h = record {
    segs = [];
    after = w;
    ran = refl;
    same = IsSame-refl w;
    serves = no_block;
    all = refl;
    kept = λ s lt. refl;
  }
  attach_large (suc k) i last w h =
      let v = entry env bs n i in
      let m = mapping w.attaches v.iov_base bs in
      let w1 = record w {
        maps = m ∷ w.maps;
        attaches = suc w.attaches;
        log = attach v.iov_base bs ∷ w.log;
      } in
      let r = attach_large k (suc i) last w1 (omega arith) in
      let live : find w1.maps w.attaches ≡ some m =
        unfold find in rw (eq→== w.attaches w.attaches refl) refl in
      record {
        segs = some w.attaches ∷ r.segs;
        after = r.after;
        ran =
            rw
              (
                at_entry env bs n source i (omega arith),
                le→not-ltb bs env.page_size large,
                source.works w.attaches,
                r.ran,
              )
              refl;
        same = record {
          lbuf = r.same.lbuf;
          shmem = r.same.shmem;
          comm = r.same.comm;
          bcasts = r.same.bcasts;
        };
        serves =
            block w.attaches m (r.kept w.attaches (omega arith) ∙ live) (omega (arith, no_offset i))
              (omega (arith, no_offset i)) r.serves;
        all = ap suc r.all;
        kept = λ s lt.
            r.kept s (omega arith)
            ∙ unfold find in rw (ne→== w.attaches s (λ e. absurd (omega (arith, e)))) refl;
      }
