-- ===== src/Lib.antt =====
-- mpidt-benchmark: benchmarks that move the blocks of a buffer, described by an array of iovec,
-- from one MPI process to the others, by a shared file, by cross-memory attach (process_vm_readv)
-- or by XPMEM.
--
-- The parts, and the modules that model them:
--   src/bench.c, the benchmark of all the methods:
--     copy_to_shmem, copy_from_shmem, init_shmem, cleanup_shmem, benchmark_shmem: Shmem, of one
--       process;
--       Handshake, of the sender and the receivers of benchmark_shmem together
--     benchmark_shmem_pip: Pipeline, of one process; Joint, of the sender and the receivers together
--     benchmark_cma: Cma
--     benchmark_xpmem_nocache, benchmark_xpmem_cached: Xpmem
--     main, the sweep over the block sizes with all the benchmarks: Bench
--   src/shmem_dt.c: ShmemDt; src/shmem_pipeline_dt.c: PipelineDt; src/cma_dt.c: CmaDt;
--   src/xpmem_dt.c and src/xpmem_cache_dt.c: XpmemDt. These programs share the helpers of the
--   benchmarks, whose text they repeat.
--   src/misc-tests/test_cma.c: TestCma; src/misc-tests/test_memcpy.c: TestMemcpy.
--   src/mpi/osu_latency_contig.c: OsuLatency; src/type_tests/vector_dt.c: VectorDt;
--   src/type_tests/struct_dt.c: StructDt. Each has a state of its own.
--   include/util.h: the constants num_iter, skip_iter (Shmem) and pipeline_depth (Pipeline).
-- Base, Word (conversions to int and size_t, pointer arithmetic), Memory (buffers at addresses,
-- memcpy, memset), Iovec and World are shared. World holds one process: its buffers, its
-- collective MPI calls, its other calls, and a monad for the C functions; Env holds what the
-- process is given. Args is about the arguments of all programs, and Tests has concrete runs.
--
-- Except in Joint and Handshake, the model is of one process, a sender or a receiver. What the others
-- do reaches it through Env: the contents of the shared file after each broadcast, the array that
-- the sender broadcasts, and the sender's memory. An access outside of a buffer or an array is the error
-- `segfault`, a failed assertion, a division by zero and an error of MPI are errors too. A file descriptor is a
-- Boolean, an XPMEM attachment a number. Arguments are given as the size_t values that the programs
-- convert them to.
-- Joint has the bytes of the shared file and one Side for each process, with the same cursors and
-- inner loops (fill, drain) as Pipeline. Its Step has one constructor for each thing that a process
-- does: store a piece, enter the broadcast, leave the gather, leave a broadcast, copy a piece, enter
-- the gather. A receiver leaves a broadcast only behind the sender, and the sender leaves a gather
-- only when all receivers have entered it, as MPI documents; any order that this allows is a run.
-- The passes over one piece are single steps. IsSetup (Joint.Pieces) asks for whole blocks and at least one whole
-- piece, with room for them at every process.
-- Handshake is the same for benchmark_shmem, with one copy of the whole buffer (copy_to_shmem,
-- copy_from_shmem) for each iteration, and IsReady (Handshake.Invariant) for its set-up.
-- Broadcast is the abstract channel that both protocols implement: rounds of one sender, each of them
-- taken once by every receiver before the next one starts. Joint.Refine and Handshake.Refine relate
-- their states to it by Shows, for any number of receivers.
-- Xpmem.Attach says which attachments let a receiver copy the sender's blocks: IsSource is about the
-- sender's array and memory, IsShape (Xpmem.Shapes) asks for blocks of at least a page, or for blocks
-- that do not cross a page of a buffer that starts at one; a buffer of small blocks in a single page
-- is the case of Xpmem.Page and Xpmem.Stale. The loops of XpmemDt are shown equal to those of Xpmem.
-- Bench.Phases has what a process is given during a whole run: IsSystem, whatever the block size,
-- and IsSize for each block size. The array that the sender broadcasts at a block size is an
-- argument of main.
-- OsuLatency keeps the calls between the two processes in order, apart from the other ones; the
-- options that process_options of the OSU utilities leaves, and the answers of MPI and the system,
-- are arguments. VectorDt takes MPI's transfer of a vector type as a parameter, with its documented
-- behaviour as the hypothesis Delivers. StructDt does the same for a struct type, with the sizes and
-- alignments of the compiler in Abi and its placement of the members in num_at, x_at and data_at.
-- process_vm_readv is a parameter of Cma, and its documented behaviour the hypothesis ReadsBlocks,
-- which asks for a full transfer up to the kernel's limit of entries and for nothing above it, in
-- TestCma ReadsOne.
-- MPI's counts are ints. Cma.bcast_iov broadcasts an array: a count that is negative as an int is the
-- error `mpi_error`, as MPI's default error handler ends the process. OsuLatency keeps `int cnt` as
-- the pattern that Word describes, and has the same error for messages of a negative count.
-- After a failed ftruncate, shmem_dt and shmem_pipeline_dt go on with what the file backs of the
-- mapping (`backed` of Env): an access behind it is a `segfault` in ShmemDt and PipelineDt.
-- Fits (Shmem.Copy) says that the block size is positive, the buffer size is below 2^31, and the
-- two buffers have room for it at addresses that do not wrap around.
--
-- Fuel: the inner loop of the pipeline runs at most capacity + 1 rounds, its outer loop at most
-- one round for each byte and one more, the CMA loop one for each block and one more; the block
-- size of the sweep doubles at most 64 times, the message size of OsuLatency takes at most 32 negative
-- values, zero, and 20 values up to its bound. Each round of these loops moves at least one byte or
-- one block, where the block size is positive, so that the fuel does not run out.
--
-- Not modelled: the latencies, which are floats; failures of malloc and posix_memalign, except in
-- OsuLatency; the code under VALIDATE, PRINT_DEBUG and PRINT_INFO, which are 0; the text that is
-- printed; src/mpi/osu_util.c and include/osu_util.h, a copy of the OSU Micro-Benchmarks' library;
-- src/mpi/osu_latency_vector.c, which does not compile; src/type_tests/contig_dt.c, whose one
-- transfer goes over the end of its object.
pub mod Base
pub mod Word
pub mod Memory
pub mod Iovec
pub mod World
pub mod Shmem
pub mod Pipeline
pub mod Cma
pub mod Xpmem
pub mod Bench
pub mod ShmemDt
pub mod PipelineDt
pub mod CmaDt
pub mod XpmemDt
pub mod Broadcast
pub mod Joint
pub mod Handshake
pub mod OsuLatency
pub mod TestMemcpy
pub mod TestCma
pub mod VectorDt
pub mod StructDt
pub mod Args
mod Tests
