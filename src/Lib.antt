-- ===== src/Lib.antt =====
-- Verification of the benchmark repository's own data structures: the order book that the
-- smr-collections cells snapshot while they change it, the rings and the backoff ladder that the
-- thread-handoff cells hand tokens over with; of the journal's comparison of two benchmark runs; and
-- of the loop that builds, runs and judges a candidate of a cell.
--
-- The program. rust/smr-collections/common/src/book.rs is a price-time limit order book over
-- parallel arrays: a pool of orders with a free list, a doubly linked list of orders for every
-- price level of the two sides, an id-map, and the cached best prices. cowbook.rs is the same book
-- over chunks that are copied when a snapshot may still read them: `capture` copies the tables of
-- chunk addresses and bumps the generation, and a write to a chunk of an older generation goes to a
-- copy. churn.rs drives either book, through the trait `ChurnStore`, with a deterministic stream of
-- inserts, cancels and fills drawn from the generator of rng.rs; the `workload` module of book.rs
-- derives each order.
--
-- The files.
--   Prelude, Prelude/*  lists and tests on native numbers, machine words, commands that may panic,
--                       and the rules that compare two programs step by step.
--   Smr/Level           Order, PriceLevel and NIL of book.rs, SmrConfig of
--                       rust/bench-common/src/smrcoll.rs, the id-map.
--   Smr/Book            `impl Book`, one command per method. Book/View reads a book as functions and
--                       states when it is linked; Book/Insert and Book/Remove are about the links,
--                       Book/Access, Book/InsertRuns and Book/RemoveRuns about the commands, Book/Scan,
--                       Book/Best and Book/Repair about the best prices, Book/Levels about empty
--                       levels, Book/Vacant about the free list, Book/Totals about the quantities and
--                       counts of the levels, Book/Fresh, Book/Arrivals, Book/Full,
--                       Book/Departures and Book/Updates about whole operations.
--   Smr/Chunks          a table of Arc chunks: read, and copy on write by generation.
--   Smr/CowBook         `impl CowBook` and Root.
--   Smr/Rng, Smr/Workload, Smr/Churn
--                       the generator, the derived orders and the driver. Churn/Stream is about the
--                       op stream, Churn/Tracks and Churn/Room about the driver beside a book, and
--                       Churn/Total and Churn/CowTotal about whole runs of the cells.
--   Smr/Config          SmrConfig::from_env of rust/bench-common/src/smrcoll.rs.
--   Smr/Digest          digest.rs: the canonical bytes of a book and of a captured root. The walk
--                       along a level is on fuel; the digest takes one more than the orders that
--                       ever arrived, since arrivals go up along a level.
--   Smr/Booksnap        the SBE codec of a snapshot, booksnap-sbe/generated/booksnap/src: a buffer is a
--                       list of bytes, and a field is a little-endian word at its offset.
--   Smr/Snapshot        snapshot.rs and cowsnap.rs: the fields of an image, its bytes, the restore.
--                       Snapshot/Bytes, Snapshot/Groups and Snapshot/Messages are about the bytes,
--                       Snapshot/Fields, Snapshot/Apply and Snapshot/Orders about the fields,
--                       Snapshot/Returns about the book that comes back, and Snapshot/Refusals about
--                       the checks of a restore. The checksum of the crc32c
--                       crate is a parameter, a function from bytes to a number.
--   Smr/Command         a stream of commands and captures over either book.
--   Smr/Lockstep        what it is that a copy-on-write book shows a flat one, and that every
--                       operation keeps it so.
--
--   Handoff/Spsc        rust/thread-handoff/ring/src/spsc.rs: the ring with one producer and one
--                       consumer. A schedule is a list of turns, one access of shared state each.
--                       Spsc/Order is about order, Spsc/Progress about progress.
--   Handoff/Batch       rust/handoff-compare/src/spsc.rs: the same with bursts. Batch/Accesses and
--                       Batch/Indices are about one access each, Batch/Pushes and Batch/Pops about
--                       the turns, Batch/Order about schedules.
--   Handoff/Mpsc        rust/handoff-compare/src/mpsc.rs: the ring with many producers, which claim
--                       sequences, and one consumer, again as a schedule of turns. Beside the source's
--                       state the model keeps the token claimed for each sequence and which sequences
--                       are published; no access reads these.
--   Handoff/Backoff     rust/thread-handoff/backoff/src/idle.rs: the spin, yield, park ladder.
--   Bench               rust/bench-common/src: Env is the reading of numbers, Config is config.rs and
--                       the configurations of handoff.rs and fswrite.rs, Files is run_durable_append of
--                       fswrite.rs. The file system and the clock answer each request by the log of
--                       what was done before. A loop is on fuel, the entries or bytes that are left,
--                       since each round takes at least one. Config/Bounds is about configurations,
--                       Files/Writes about the loops, Files/Durable about a whole append.
--   Autobench           autobench/src: Verdict is verdict.rs, TaskSpec and Registry are task_spec.rs,
--                       Sampling and Driver are sampling.rs, Process is resolve_dir of lib.rs and
--                       run_command, and Stage and Iterate are bin/run-iter.rs. The operating
--                       system answers each request by the log of what was done before, and a request
--                       to which the code sets no limit may have no answer: a server's stderr, the end
--                       of a run of the artifact, the pipes of a stage. A script ends with a verdict,
--                       an exit, a panic or a hang. A wait for a server is on fuel: 501 looks at the
--                       clock, since each pause takes 20 of its 10000 milliseconds. A single
--                       probe is taken to return, and a killed process to end. Registry/Rows is about
--                       the registry, Sampling/Median, Sampling/Reports and Sampling/Metrics about the
--                       samples, Driver/Waits and Driver/Reaps about servers, Driver/Outputs and
--                       Iterate/Origins about where a value comes from, and Iterate/Whole with
--                       the modules beside it about a run. The JSON parser and the wording of messages
--                       are parameters. A text is the list of the codes of its characters.
--   Journal/Compare     tools/journal/src/model.rs and compare.rs: the result lines of a run by cell,
--                       the verdicts and the join of two runs. An f64 is a type given with its
--                       operations, and a BTreeMap is a list of keys and values in their order.
--                       Compare/Index is about the index, Compare/Joins about the join.
--
-- Conventions. A machine word is its bit pattern, a natural number below 2^w, and the arithmetic
-- wraps as in the release build, which has no overflow checks; signed comparisons and divisions read
-- the bit pattern. A panic (an index out of range, a failed expect, an exhausted pool, a division
-- that traps) ends a run. A HashMap is a function from ids to optional slots. An Arc chunk is an
-- address of an arena, and no address is used twice. The loops of `repair_best` are structural
-- recursion on the number of levels left, and the loops of the driver on the number of ops, so
-- these need no fuel.
--
-- Not modelled: debug assertions, which the release build drops; clocks, resident-memory sampling and
-- output; the cells' own processes, sockets and files; the JSON of a verdict; the ports in go and java.
mod Prelude
pub mod Smr
pub mod Journal
pub mod Handoff
pub mod Autobench
pub mod Bench
