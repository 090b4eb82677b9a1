-- ===== src/Bench/Tests.antt =====
-- An append of five entries by batches of two, and a configuration from an environment.
use hi_perf_cmp.Prelude.{◌*◌, arith, [], none, some, true, length, if◌then◌else◌}
use hi_perf_cmp.Prelude.Text.{codes, same_text}
use hi_perf_cmp.Bench.Env.{Env}
use hi_perf_cmp.Bench.Config.{client, Config, FsConfig}
use hi_perf_cmp.Bench.Files.{Disk, data_only, run_durable_append}
use hi_perf_cmp.Bench.Files.Durable.{Appended, run_durable_append-Appended}

abbrev reliable : Disk
reliable = record { fails = λ h r. none; now = λ h. 3 * length h }

abbrev five : FsConfig
five = record { dir = codes "/mnt"; entry_bytes = 64; warmup = 1; iterations = 5; batch = 2 }

run_durable_append-Appended_example :
    Appended reliable five 2 true (run_durable_append reliable five data_only 2 true [])
run_durable_append-Appended_example =
    run_durable_append-Appended reliable five data_only 2 true (omega arith)

-- A client of a host, with a port of its own.
abbrev client_env : Env
client_env name =
    if same_text name (codes "RTT_MODE")
    then some (codes "client")
    else if same_text name (codes "RTT_HOST")
    then some (codes " 10.0.0.7 ")
    else if same_text name (codes "RTT_TCP_PORT")
    then some (codes "+9200")
    else none

abbrev client_config : Config
client_config = record {
  mode = client;
  host = some (codes "10.0.0.7");
  tcp_port = 9200;
  udp_port = 9101;
  quic_port = 9102;
  payload_bytes = 64;
  warmup = 10000;
  iterations = 100000;
}
