-- ===== src/Tests.antt =====
-- Concrete runs: small processes of src/ at which the theorems apply.
mod Fault
mod Sweep
mod Attach
mod Together
mod Others
mod Vector
mod Packets
mod Struct
mod Programs
use mpidt_benchmark.Base.{
  ◌-◌, ◌^◌, ◌&&◌, leb, length, le→leb, if◌then◌else◌, ℕ, ◌+◌, ◌*◌, ◌/◌, ◌<◌, ◌≡◌, refl, arith, [],
  ◌∷◌, true, false, some, inr,
}
use mpidt_benchmark.Memory.{Region, ok, err, assert_failed, segfault, div_by_zero}
use mpidt_benchmark.World.{Env, World, pure, barrier}
use mpidt_benchmark.World.Returns.{Returns, returns}
use mpidt_benchmark.Shmem.{
  copy_to_shmem, copy_from_shmem, num_iter, skip_iter, benchmark_shmem, shmem_iteration,
}
use mpidt_benchmark.Shmem.Copy.{
  Fits, covered, whole_iovec, copy_to_shmem-blit, copy_from_shmem-copy_to_shmem,
}
use mpidt_benchmark.Shmem.Run.{
  run_comm, benchmark_shmem-sender, benchmark_shmem-receiver, benchmark_shmem-partial_block,
}
use mpidt_benchmark.Memory.{blit}
use mpidt_benchmark.Pipeline.{pipeline_depth, benchmark_shmem_pip}
use mpidt_benchmark.Pipeline.Round.{pip_comm}
use mpidt_benchmark.Pipeline.Bench.{
  benchmark_shmem_pip-sender, benchmark_shmem_pip-receiver, benchmark_shmem_pip-overrun,
}
use mpidt_benchmark.Cma.{Readv, benchmark_cma}
use mpidt_benchmark.Cma.Read.{bytes_of, scatter, ReadsBlocks}
use mpidt_benchmark.Iovec.Tiling.{length-init_iovec}
use mpidt_benchmark.Cma.Iteration.{Reads, cma_run_comm}
use mpidt_benchmark.Cma.Run.{benchmark_cma-receiver, benchmark_cma-beyond}
use mpidt_benchmark.ShmemDt.Run.{main_comm, main-runs, new_lbuf, new_shmem}
use mpidt_benchmark.ShmemDt
use mpidt_benchmark.PipelineDt
use mpidt_benchmark.CmaDt
use mpidt_benchmark.XpmemDt
use mpidt_benchmark.Xpmem.{benchmark_xpmem_nocache, benchmark_xpmem_cached}
use mpidt_benchmark.Xpmem.Page.{OnePage}
use mpidt_benchmark.Xpmem.Stale.{benchmark_xpmem_nocache-stale}
use mpidt_benchmark.Xpmem.Cached.{benchmark_xpmem_cached-receiver}
use mpidt_benchmark.Cma.Iteration.{cma_comm}
use mpidt_benchmark.World.{bcast}
use mpidt_benchmark.Base.{repeat_append}
use mpidt_benchmark.Pipeline.{pip_iteration}
use mpidt_benchmark.Cma.{cma_iteration}
use mpidt_benchmark.Bench.{sweep, check_sizes}
use mpidt_benchmark.Bench.Sweep.{sweep-ends}
use mpidt_benchmark.Args.{main-rejects}

abbrev region : ℕ → ℕ → Region
region base size = record { base = base; size = size; cell = λ a. a }

-- A process of the two that run, in front of a buffer of `n` bytes in blocks of `bs`, with a kernel
-- that takes `limit` entries a call. Rank 0 sends.
abbrev process : ℕ → ℕ → ℕ → ℕ → Env
process rank limit n bs = record {
  rank = rank;
  size = 2;
  sender = 0;
  page_size = 4096;
  iov_limit = limit;
  heap_base = 8192;
  garbage = λ a. 7;
  opened = true;
  truncated = true;
  backed = 0;
  mapped = some 65536;
  shared = λ b a. b'x';
  peer_iov = whole_iovec 4096 n bs;
  peer = region 4096 (4096 + n);
  xpmem_works = true;
  segid_bytes = 8;
  attached = λ i. true;
  junk_apid = false;
}

abbrev world : ℕ → World
world n = record {
  lbuf = region 8192 n;
  shmem = region 65536 n;
  maps = [];
  attaches = 0;
  bcasts = 0;
  blocks = 0;
  comm = [];
  log = [];
}

abbrev sender : Env
sender = process 0 2 8 2

abbrev receiver : Env
receiver = process 1 2 8 2

-- process_vm_readv with its limit: more entries are an error, -1.
abbrev kernel : Env → Readv
kernel env l r d =
    if leb (length l) env.iov_limit && leb (length r) env.iov_limit
    then (bytes_of l, scatter l r env.peer d)
    else (2 ^ 64 - 1, d)

kernel-ReadsBlocks :
    (env : Env) (lbase bs total : ℕ)
    → ReadsBlocks (kernel env) env.iov_limit lbase env.peer.base bs total env.peer
kernel-ReadsBlocks env lbase bs total k i d few h =
    rw
      (
        length-init_iovec lbase bs k i,
        length-init_iovec env.peer.base bs k i,
        le→leb k env.iov_limit few,
      )
      refl

Fits-8 : Fits (world 8).lbuf (world 8).shmem 8 2
Fits-8 = omega arith

Fits-9 : Fits (world 9).lbuf (world 9).shmem 9 2
Fits-9 = omega arith

copy_from_shmem-copy_to_shmem_example :
    (shmem' other' : Region) × (copy_to_shmem
        (world 8).lbuf
        (whole_iovec 8192 8 2)
        2
        8
        (world 8).shmem
      ≡ ok (shmem', covered 8 2))
    × (copy_from_shmem shmem' (whole_iovec 8192 8 2) 2 8 (world 8).lbuf ≡ ok (other', covered 8 2))
    × ((o : ℕ) → o < covered 8 2 → other'.cell (8192 + o) ≡ 8192 + o)
copy_from_shmem-copy_to_shmem_example =
    copy_from_shmem-copy_to_shmem {lbuf = (world 8).lbuf} Fits-8 Fits-8

benchmark_shmem-sender_example :
    Returns
      (λ _ w'.
        (w'.comm ≡ run_comm sender []) × ((o : ℕ) → o < 8 → w'.shmem.cell (65536 + o) ≡ b'x'))
      (benchmark_shmem sender (whole_iovec 8192 8 2) 8 2 (world 8))
benchmark_shmem-sender_example = benchmark_shmem-sender sender 8 2 (world 8) Fits-8 refl refl

benchmark_shmem-receiver_example :
    Returns
      (λ _ w'.
        (w'.comm ≡ run_comm receiver [])
        × ((o : ℕ) → o < 8 → w'.lbuf.cell (8192 + o) ≡ receiver.shared (0 + 109) (65536 + o)))
      (benchmark_shmem receiver (whole_iovec 8192 8 2) 8 2 (world 8))
benchmark_shmem-receiver_example = benchmark_shmem-receiver receiver 8 2 (world 8) Fits-8 refl refl

benchmark_shmem-partial_block_example :
    benchmark_shmem sender (whole_iovec 8192 9 2) 9 2 (world 9) ≡ err assert_failed
benchmark_shmem-partial_block_example =
    benchmark_shmem-partial_block sender 9 2 (world 9) Fits-9 refl (omega arith)

Fits-131072 : Fits (world 131072).lbuf (world 131072).shmem 131072 2
Fits-131072 = omega arith

benchmark_shmem_pip-sender_example :
    Returns
      (λ _ w'.
        (w'.comm ≡ barrier ∷ pip_comm sender (131072 / pipeline_depth) (num_iter + skip_iter) [])
        × ((o : ℕ) → o < 131072 → w'.shmem.cell (65536 + o) ≡ b'x'))
      (benchmark_shmem_pip sender (whole_iovec 8192 131072 2) 131072 2 (world 131072))
benchmark_shmem_pip-sender_example =
    benchmark_shmem_pip-sender sender 131072 2 (world 131072) Fits-131072 refl refl refl

benchmark_shmem_pip-receiver_example :
    Returns
      (λ _ w'.
        (w'.comm ≡ barrier ∷ pip_comm receiver (131072 / pipeline_depth) (num_iter + skip_iter) [])
        × ((o : ℕ) → o < 131072 → w'.lbuf.cell (8192 + o) ≡ b'x'))
      (benchmark_shmem_pip receiver (whole_iovec 8192 131072 2) 131072 2 (world 131072))
benchmark_shmem_pip-receiver_example =
    benchmark_shmem_pip-receiver receiver 131072 2 (world 131072) Fits-131072 (λ o. b'x') refl refl
      refl (λ i k o m h. refl)

benchmark_shmem_pip-overrun_example :
    benchmark_shmem_pip sender (whole_iovec 8192 8 2) 8 2 (world 8) ≡ err segfault
benchmark_shmem_pip-overrun_example =
    benchmark_shmem_pip-overrun sender 8 2 (world 8) Fits-8 refl refl (omega arith)

Reads-8 : (rank : ℕ) → Reads (process rank 2 8 2) (kernel (process rank 2 8 2)) 8192 8 2
Reads-8 rank = record {
  count = omega arith;
  some_limit = omega arith;
  arrived = refl;
  transfers = kernel-ReadsBlocks (process rank 2 8 2) 8192 2 8;
}

Reads-6 : (rank : ℕ) → Reads (process rank 2 6 2) (kernel (process rank 2 6 2)) 8192 6 2
Reads-6 rank = record {
  count = omega arith;
  some_limit = omega arith;
  arrived = refl;
  transfers = kernel-ReadsBlocks (process rank 2 6 2) 8192 2 6;
}

fits_peer : (rank : ℕ) → Fits (world 8).lbuf (process rank 2 8 2).peer 8 2
fits_peer rank = omega arith

fits_peer_6 : (rank : ℕ) → Fits (world 6).lbuf (process rank 2 6 2).peer 6 2
fits_peer_6 rank = omega arith

benchmark_cma-receiver_example :
    Returns
      (λ _ w'.
        (w'.comm ≡ cma_run_comm receiver (8 / 2) [])
        × ((o : ℕ) → o < 8 → w'.lbuf.cell (8192 + o) ≡ 4096 + o))
      (benchmark_cma receiver (kernel receiver) (whole_iovec 8192 8 2) 8 2 (world 8))
benchmark_cma-receiver_example =
    benchmark_cma-receiver receiver (kernel receiver) 8 2 (world 8) (fits_peer 1) (Reads-8 1) refl
      refl (omega arith) (inr refl)

benchmark_cma-beyond_example :
    benchmark_cma (process 1 2 6 2) (kernel (process 1 2 6 2)) (whole_iovec 8192 6 2) 6 2 (world 6)
    ≡ err segfault
benchmark_cma-beyond_example =
    benchmark_cma-beyond (process 1 2 6 2) (kernel (process 1 2 6 2)) 6 2 (world 6) (fits_peer_6 1)
      (Reads-6 1) refl refl (omega arith) (omega arith)

Fits-new : Fits (new_lbuf sender 8) (new_shmem sender 65536 8) 8 2
Fits-new = omega arith

main-runs_example :
    Returns (λ _ w'. w'.comm ≡ main_comm sender []) (ShmemDt.main sender 3 2 8 (world 0))
main-runs_example = main-runs sender 65536 8 2 (world 0) Fits-new refl refl refl (omega arith) refl

sweep-ends_example :
    Returns
      (λ _ w'. (last : ℕ) × (w'.comm ≡ []) × (8 < last))
      (sweep (λ bs. pure tt) 8 65 2 (world 8))
sweep-ends_example =
    sweep-ends (λ bs w. w.comm ≡ []) (λ bs. pure tt) 2 8 (world 8) (omega arith) (omega arith)
      (λ bs w pos le p. returns p) refl

OnePage-8 : (rank : ℕ) → OnePage (process rank 2 8 2) 2 (8 / 2)
OnePage-8 rank = record {
  entries = refl;
  aligned = refl;
  not_null = omega arith;
  positive = omega arith;
  small = omega arith;
  one = omega arith;
  readable = omega arith;
  end = omega arith;
  int_range = omega arith;
  works = λ a. refl;
}

benchmark_xpmem_nocache-stale_example :
    benchmark_xpmem_nocache receiver 8 2 (world 8) ≡ err segfault
benchmark_xpmem_nocache-stale_example =
    benchmark_xpmem_nocache-stale receiver 8 2 (world 8) (OnePage-8 1) (omega arith) refl refl
      (omega arith) (omega arith) (omega arith) (omega arith)

benchmark_xpmem_cached-receiver_example :
    Returns
      (λ _ w'.
        (w'.comm
          ≡ barrier
            ∷ repeat_append (num_iter + skip_iter) (cma_comm receiver (8 / 2)) (bcast 0 8 ∷ []))
        × ((o : ℕ) → o < 8 / 2 * 2 → w'.lbuf.cell (8192 + o) ≡ 4096 + o))
      (benchmark_xpmem_cached receiver 8 2 (world 8))
benchmark_xpmem_cached-receiver_example =
    benchmark_xpmem_cached-receiver receiver 8 2 (world 8) (OnePage-8 1) (omega arith) refl refl
      (omega arith) (omega arith) (omega arith) (omega arith)
