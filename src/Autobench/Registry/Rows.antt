-- ===== src/Autobench/Registry/Rows.antt =====
-- What every registered task has.
use hi_perf_cmp.Prelude.{
  ◌<◌, ◌≡◌, refl, arith, List, [], ◌∷◌, ◌++◌, some, Bool, true, false, ◌&&◌, ◌⊎◌, inl, inr,
  Bool-cases, length, ltb, if◌then◌else◌,
}
use mathlib.Core.Path.{subst}
use hi_perf_cmp.Prelude.Text.{Text, codes, same_text, same_text_sound}
use hi_perf_cmp.Prelude.TextMap.{TextMap, get}
use hi_perf_cmp.Autobench.Verdict.{Direction, minimize, maximize}
use hi_perf_cmp.Autobench.TaskSpec.{TaskSpec, Kind, network, local}
use hi_perf_cmp.Autobench.Registry.Arms.{arms, task_spec}
use hi_perf_cmp.Autobench.Registry.Network
use hi_perf_cmp.Autobench.Registry.Spinning
use hi_perf_cmp.Autobench.Registry.Blocking

abbrev pub OneOf : Text → List Text → Type 0
OneOf k [] = ⊥
OneOf k (x ∷ xs) = (x ≡ k) ⊎ OneOf k xs

abbrev pub suffix : Direction → Text
suffix minimize = codes "_ns"
suffix maximize = codes "_ops_per_sec"

abbrev pub kind_of : Text → Kind
kind_of focus_area = if same_text focus_area (codes "network-rtt") then network else local

abbrev pub cell_name : TaskSpec → Text
cell_name s = s.language ++ (codes "-" ++ (s.focus_area ++ (codes "-" ++ s.experiment)))

pub record IsRow (task : Text) (s : TaskSpec) : Type 0 where
  pub named : s.task ≡ task
  pub parts : cell_name s ≡ task
  pub kind : s.kind ≡ kind_of s.focus_area
  pub key : s.primary_metric ++ suffix s.direction ≡ s.primary_key
  pub measured : OneOf s.primary_key s.expected_metrics
  pub builds : 0 < length s.build
  pub runs : 0 < length s.run
  pub gates : 0 < length s.gate_a

one_of : Text → List Text → Bool
one_of k [] = false
one_of k (x ∷ xs) = if same_text x k then true else one_of k xs

one_of_sound : (k : Text) (xs : List Text) → one_of k xs ≡ true → OneOf k xs
unfolding one_of
one_of_sound k [] e = absurd (ground arith)
one_of_sound k (x ∷ xs) e = elim (Bool-cases (same_text x k)) [
  | inl same ↦ inl (same_text_sound x k same)
  | inr other ↦ inr (one_of_sound k xs (rw other at e))
]

same_kind : Kind → Kind → Bool
same_kind network network = true
same_kind local local = true
same_kind _ _ = false

same_kind_sound : (a b : Kind) → same_kind a b ≡ true → a ≡ b
unfolding same_kind
same_kind_sound network network e = refl
same_kind_sound network local e = absurd (ground arith)
same_kind_sound local network e = absurd (ground arith)
same_kind_sound local local e = refl

is_row : Text → TaskSpec → Bool
is_row task s =
    same_text s.task task
    && (same_text (cell_name s) task
        && (same_kind s.kind (kind_of s.focus_area)
            && (same_text (s.primary_metric ++ suffix s.direction) s.primary_key
                && (one_of s.primary_key s.expected_metrics
                    && (ltb 0 (length s.build)
                        && (ltb 0 (length s.run) && ltb 0 (length s.gate_a)))))))

is_row_sound : (task : Text) (s : TaskSpec) → is_row task s ≡ true → IsRow task s
unfolding is_row
is_row_sound task s e = record {
  named = same_text_sound s.task task (ground arith);
  parts = same_text_sound (cell_name s) task (ground arith);
  kind = same_kind_sound s.kind (kind_of s.focus_area) (ground arith);
  key = same_text_sound (s.primary_metric ++ suffix s.direction) s.primary_key (ground arith);
  measured = one_of_sound s.primary_key s.expected_metrics (ground arith);
  builds = ground arith;
  runs = ground arith;
  gates = ground arith;
}

rows_pass : TextMap TaskSpec → Bool
rows_pass [] = true
rows_pass ((task, s) ∷ rest) = is_row task s && rows_pass rest

get-IsRow :
    (rows : TextMap TaskSpec) (task : Text) {s : TaskSpec}
    → rows_pass rows ≡ true
    → get task rows ≡ some s
    → IsRow task s
unfolding get rows_pass
get-IsRow [] task ok e = absurd (ground arith)
get-IsRow ((t, r) ∷ rest) task {s} ok e = elim (Bool-cases (same_text t task)) [
  | inl same ↦
      let here : r ≡ s = ground (arith, same) in
      let key : t ≡ task = same_text_sound t task same in
      let row : IsRow t r = is_row_sound t r (ground arith) in
      subst (λ k. IsRow k s) key (subst (λ q. IsRow t q) here row)
  | inr other ↦ get-IsRow rest task (ground arith) (ground (arith, other))
]

arms_pass : rows_pass arms ≡ true
unfolding rows_pass arms is_row one_of same_kind same_text Network.rust_network_rtt_tcp
    Network.go_network_rtt_tcp Network.java_network_rtt_tcp Network.rust_network_rtt_udp
    Network.go_network_rtt_udp Network.java_network_rtt_udp Network.rust_network_rtt_quic
    Network.go_network_rtt_quic Network.java_network_rtt_quic Spinning.rust_thread_handoff_spin
    Spinning.rust_thread_handoff_ring Spinning.rust_thread_handoff_disruptor
    Spinning.go_thread_handoff_spin Spinning.go_thread_handoff_ring
    Spinning.java_thread_handoff_spin Spinning.java_thread_handoff_ring
    Blocking.rust_thread_handoff_condvar Blocking.go_thread_handoff_condvar
    Blocking.java_thread_handoff_condvar Blocking.rust_thread_handoff_channel
    Blocking.go_thread_handoff_channel Blocking.java_thread_handoff_channel
arms_pass = refl

-- A task that is found is named by its language, focus area and experiment, is run over the network
-- exactly when its focus area is network-rtt, and has three commands that are not empty. Its
-- primary metric is one of those that each run must report, in nanoseconds when lower is better and
-- in operations per second when higher is.
pub task_spec-IsRow : (task : Text) {s : TaskSpec} → task_spec task ≡ some s → IsRow task s
unfolding task_spec
task_spec-IsRow task e = get-IsRow arms task arms_pass e
