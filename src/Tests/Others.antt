-- ===== src/Tests/Others.antt =====
-- Concrete runs of src/mpi/osu_latency_contig.c and of the programs in src/misc-tests.
use mpidt_benchmark.Base.{ℕ, ◌+◌, ◌<◌, ◌≡◌, refl, ap, arith, [], true, false, map}
use mpidt_benchmark.Memory.{ok, blit}
use mpidt_benchmark.Iovec.{iovec}
use mpidt_benchmark.World.{is_sender}
use mpidt_benchmark.World.Returns.{Returns}
use mpidt_benchmark.Cma.Read.{bytes_of, scatter}
use mpidt_benchmark.Tests.{world, sender, receiver, kernel}
use mpidt_benchmark.OsuLatency
use mpidt_benchmark.OsuLatency.{
  PoRet, okay, help_message, bad_usage, Options, Answers, State, Call, init, finalize,
  max_num_elems, initial, sizes,
}
use mpidt_benchmark.OsuLatency.PingPong.{answer, main-Meets}
use mpidt_benchmark.OsuLatency.Exits.{AllSmall, sizes-bounded}
use mpidt_benchmark.TestMemcpy
use mpidt_benchmark.TestMemcpy.Run.{main-copies}
use mpidt_benchmark.TestCma
use mpidt_benchmark.TestCma.Run.{ReadsOne, main_comm, main-reads}

-- The utilities' defaults.
abbrev options : PoRet → Options
options r = record {
  po_ret = r;
  accel = false;
  min_message_size = 0;
  iterations = 10000;
  skip = 100;
  iterations_large = 1000;
  skip_large = 10;
  large_message_size = 8192;
}

abbrev two_processes : Answers
two_processes = record {
  init_accel = true;
  cleanup_accel = true;
  numprocs = 2;
  s_buf = true;
  r_buf = true;
  extent = 8;
}

main-Meets_example :
    (status : ℕ) × (s t : State) × (OsuLatency.main (options okay) two_processes 0 ≡ ok (status, s))
    × (OsuLatency.main (options okay) two_processes 1 ≡ ok (status, t))
    × (s.calls ≡ map answer t.calls)
main-Meets_example =
    main-Meets (options okay) two_processes refl refl refl refl refl (omega arith) (omega arith)

sizes-bounded_example :
    (st' : State) × (sizes (options okay) two_processes 0 64 0 (initial (options okay)) ≡ ok st')
    × AllSmall max_num_elems st'.calls
sizes-bounded_example =
    sizes-bounded (options okay) two_processes (omega arith) 0 0 (initial (options okay))
      (omega arith) tt

-- What `-m 3000000000:` sets.
abbrev from_3e9 : Options
from_3e9 = record (options okay) { min_message_size = 3000000000 }

main-copies_example :
    Returns
      (λ _ w'. (o : ℕ) → o < TestMemcpy.bufsize → w'.lbuf.cell (8192 + o) ≡ 0xFF)
      (TestMemcpy.main sender 65536 (world 8))
main-copies_example = main-copies sender 65536 (world 8)

reads_one : ReadsOne receiver (kernel receiver) (iovec 4096)
unfolding bytes_of scatter
reads_one = record {
  entry = λ n. refl;
  transfer = λ n d e h. ap (λ (b : ℕ). (b, blit d 8192 receiver.peer 4096 n)) (omega arith);
}

main-reads_example :
    Returns
      (λ _ w'.
        (w'.comm ≡ main_comm receiver [])
        × (is_sender receiver ≡ false
            → (o : ℕ) → o < TestCma.bufsize
            → w'.lbuf.cell (8192 + o) ≡ receiver.peer.cell (4096 + o)))
      (TestCma.main receiver (kernel receiver) (iovec 4096) (world 8))
main-reads_example = main-reads receiver (kernel receiver) (iovec 4096) (world 8) reads_one
