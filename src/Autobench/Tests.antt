-- ===== src/Autobench/Tests.antt =====
-- A run of a local cell and one over the network, over whole numbers for the floats.
use Prim.Native.Nat.{compare}
use hi_perf_cmp.Prelude.{
  ℕ, ◌*◌, ◌≡◌, refl, arith, [], ◌∷◌, Option, none, some, true, false, inr, ltb, length,
}
use hi_perf_cmp.Prelude.Text.{Text, codes, same_text}
use hi_perf_cmp.Prelude.TextMap.{get}
use hi_perf_cmp.Autobench.Verdict.{Floats, at_most, less}
use hi_perf_cmp.Autobench.Registry.Arms.{arms, task_spec}
use hi_perf_cmp.Autobench.Registry.Spinning.{rust_thread_handoff_ring}
use hi_perf_cmp.Autobench.Registry.Rows.{IsRow, task_spec-IsRow}
use hi_perf_cmp.Autobench.Sampling.{Object, tcp, lines_from, parse_contract_metrics}
use hi_perf_cmp.Autobench.Sampling.Metrics.{Answers, parse_contract_metrics-Answers}
use hi_perf_cmp.Autobench.Sampling.Median.{IsOrder, Middle, median-Middle}
use hi_perf_cmp.Autobench.Process.{Output, Child, Os}
use hi_perf_cmp.Autobench.Driver.{run_network_once}
use hi_perf_cmp.Autobench.Driver.Waits.{IsClock, running}
use hi_perf_cmp.Autobench.Driver.Reaps.{Reaped, run_network_once-Reaped}
use hi_perf_cmp.Autobench.Stage.{Args}
use hi_perf_cmp.Autobench.Iterate.Judged.{Judged}

abbrev whole : Floats ℕ
whole = record { zero = 0; partial_cmp = λ a b. some (compare a b) }

whole-IsOrder : IsOrder whole
unfolding less at_most
whole-IsOrder = record {
  compares = λ a b. (compare a b, refl);
  flips = λ a b. ground arith;
  at_most_trans = λ a b c p q. ground arith;
}

abbrev fine_output : Output
fine_output = record { success = true; stdout = codes "line"; stderr = [] }

abbrev fine_child : Child ℕ
fine_child = record { status = some true; stdout = []; stderr = []; elapsed = 1 }

-- Whatever is asked for goes well, and each event takes 20 milliseconds.
abbrev machine : Os ℕ
machine = record {
  current_dir = some (codes "rust" ∷ codes "repo" ∷ []);
  has_git = λ p. ltb (length p) 2;
  now = λ h. 20 * length h;
  elapsed = λ h k. length k;
  spawn = λ h c. none;
  connects = λ h. ltb 2 (length h);
  probe_socket = λ h. true;
  echoes = λ h. true;
  binds = λ h. false;
  server_stderr = λ h. some [];
  output = λ h c. some (inr fine_output);
  stage = λ h limit c. some (inr fine_child);
  format = λ m. codes "message";
}

machine-IsClock : IsClock machine
machine-IsClock = record { pauses = λ t h. omega arith }

-- The line of a ring's throughput.
abbrev throughput : Text → Option (Object ℕ)
throughput line = some (record {
  focus_area = some (codes "thread-handoff");
  experiment = some (codes "ring");
  metric = some (codes "handoff_throughput");
  unit = some (codes "ops_per_sec");
  value = some 7;
})

abbrev ring_args : Args
ring_args = record { task = codes "rust-thread-handoff-ring"; json = true; samples = 2 }

ring_registered : task_spec ring_args.task ≡ some rust_thread_handoff_ring
unfolding task_spec arms get same_text
ring_registered = refl

run_network_once-Reaped_example :
    Reaped machine
      (running [])
      (run_network_once machine (codes "./bin/network-rtt-tcp" ∷ []) (codes "go") 19100 [] tcp [])
run_network_once-Reaped_example =
    run_network_once-Reaped machine machine-IsClock (codes "./bin/network-rtt-tcp" ∷ [])
      (codes "go") 19100 [] tcp [] (omega arith)

task_spec-IsRow_example : IsRow (codes "rust-thread-handoff-ring") rust_thread_handoff_ring
task_spec-IsRow_example = task_spec-IsRow (codes "rust-thread-handoff-ring") ring_registered

median-Middle_example : (m : ℕ) × Middle whole whole-IsOrder 3 (1 ∷ 4 ∷ 2 ∷ []) m
median-Middle_example = median-Middle whole whole-IsOrder 3 (1 ∷ 4 ∷ 2 ∷ [])

-- A line that reports the throughput.
parse_contract_metrics-Answers_example :
    Answers throughput
      (codes "thread-handoff")
      (codes "ring")
      (codes "handoff_throughput_ops_per_sec")
      (lines_from [] (codes "a b"))
      (get
        (codes "handoff_throughput_ops_per_sec")
        (parse_contract_metrics throughput (codes "thread-handoff") (codes "ring") (codes "a b")))
parse_contract_metrics-Answers_example =
    parse_contract_metrics-Answers throughput (codes "thread-handoff") (codes "ring")
      (codes "handoff_throughput_ops_per_sec") (codes "a b")
