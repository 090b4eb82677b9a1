-- ===== src/Autobench/Registry/Arms.antt =====
-- autobench/src/task_spec.rs: the lookup of a task by its name.
use hi_perf_cmp.Prelude.{List, [], ◌∷◌, Option}
use hi_perf_cmp.Prelude.Text.{Text, codes}
use hi_perf_cmp.Prelude.TextMap.{get}
use hi_perf_cmp.Autobench.TaskSpec.{TaskSpec}
use hi_perf_cmp.Autobench.Registry.Network.{
  rust_network_rtt_tcp, go_network_rtt_tcp, java_network_rtt_tcp, rust_network_rtt_udp,
  go_network_rtt_udp, java_network_rtt_udp, rust_network_rtt_quic, go_network_rtt_quic,
  java_network_rtt_quic,
}
use hi_perf_cmp.Autobench.Registry.Spinning.{
  rust_thread_handoff_spin, rust_thread_handoff_ring, rust_thread_handoff_disruptor,
  go_thread_handoff_spin, go_thread_handoff_ring, java_thread_handoff_spin,
  java_thread_handoff_ring,
}
use hi_perf_cmp.Autobench.Registry.Blocking.{
  rust_thread_handoff_condvar, go_thread_handoff_condvar, java_thread_handoff_condvar,
  rust_thread_handoff_channel, go_thread_handoff_channel, java_thread_handoff_channel,
}

-- The arms of the match, in their order.
unfoldable pub arms : List (Text × TaskSpec)
arms =
    (codes "rust-network-rtt-tcp", rust_network_rtt_tcp)
    ∷ (codes "go-network-rtt-tcp", go_network_rtt_tcp)
    ∷ (codes "java-network-rtt-tcp", java_network_rtt_tcp)
    ∷ (codes "rust-network-rtt-udp", rust_network_rtt_udp)
    ∷ (codes "go-network-rtt-udp", go_network_rtt_udp)
    ∷ (codes "java-network-rtt-udp", java_network_rtt_udp)
    ∷ (codes "rust-network-rtt-quic", rust_network_rtt_quic)
    ∷ (codes "go-network-rtt-quic", go_network_rtt_quic)
    ∷ (codes "java-network-rtt-quic", java_network_rtt_quic)
    ∷ (codes "rust-thread-handoff-spin", rust_thread_handoff_spin)
    ∷ (codes "rust-thread-handoff-ring", rust_thread_handoff_ring)
    ∷ (codes "rust-thread-handoff-disruptor", rust_thread_handoff_disruptor)
    ∷ (codes "go-thread-handoff-spin", go_thread_handoff_spin)
    ∷ (codes "go-thread-handoff-ring", go_thread_handoff_ring)
    ∷ (codes "java-thread-handoff-spin", java_thread_handoff_spin)
    ∷ (codes "java-thread-handoff-ring", java_thread_handoff_ring)
    ∷ (codes "rust-thread-handoff-condvar", rust_thread_handoff_condvar)
    ∷ (codes "go-thread-handoff-condvar", go_thread_handoff_condvar)
    ∷ (codes "java-thread-handoff-condvar", java_thread_handoff_condvar)
    ∷ (codes "rust-thread-handoff-channel", rust_thread_handoff_channel)
    ∷ (codes "go-thread-handoff-channel", go_thread_handoff_channel)
    ∷ (codes "java-thread-handoff-channel", java_thread_handoff_channel)
    ∷ []

unfoldable pub task_spec : Text → Option TaskSpec
task_spec task = get task arms
