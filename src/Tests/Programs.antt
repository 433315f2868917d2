-- ===== src/Tests/Programs.antt =====
-- Concrete runs of src/shmem_pipeline_dt.c, with 128 KB in blocks of two bytes, and of src/cma_dt.c,
-- with 8 bytes in blocks of two.
use mpidt_benchmark.Base.{inr, false, ℕ, ◌+◌, ◌<◌, ◌≡◌, refl, arith, []}
use mpidt_benchmark.World.{is_sender}
use mpidt_benchmark.World.Returns.{Returns}
use mpidt_benchmark.Shmem.Copy.{Fits}
use mpidt_benchmark.ShmemDt.Run.{new_lbuf, new_shmem}
use mpidt_benchmark.PipelineDt
use mpidt_benchmark.PipelineDt.Run.{pipeline_main_comm, pipeline_main-runs}
use mpidt_benchmark.CmaDt
use mpidt_benchmark.CmaDt.Run.{cma_main_comm, cma_main-runs}
use mpidt_benchmark.Tests.{world, receiver, kernel, Reads-8}

Fits-receiver : Fits (new_lbuf receiver 131072) (new_shmem receiver 65536 131072) 131072 2
Fits-receiver = omega arith

pipeline_main-runs_example :
    Returns
      (λ _ w'.
        (w'.comm ≡ pipeline_main_comm receiver 131072 [])
        × (is_sender receiver ≡ false → (o : ℕ) → o < 131072 → w'.lbuf.cell (8192 + o) ≡ b'x'))
      (PipelineDt.main receiver 3 2 131072 (world 0))
pipeline_main-runs_example =
    pipeline_main-runs receiver 65536 131072 2 (world 0) Fits-receiver refl refl refl (omega arith)
      refl refl (λ o. b'x') (λ r i k o m h. refl)

cma_main-runs_example :
    Returns
      (λ _ w'.
        (w'.comm ≡ cma_main_comm receiver 4 [])
        × (is_sender receiver ≡ false
            → (o : ℕ) → o < 8
            → w'.lbuf.cell (8192 + o) ≡ receiver.peer.cell (4096 + o)))
      (CmaDt.main receiver (kernel receiver) 3 2 8 (world 0))
cma_main-runs_example =
    cma_main-runs receiver (kernel receiver) 8 2 (world 0) (omega arith) (Reads-8 1) (omega arith)
      refl (λ _. inr refl)
