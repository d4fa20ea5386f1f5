-- ===== src/Lib.antt =====
-- A model of the Softnix log agent: the tailing of files, the channel between inputs and pipeline, the
-- conditions, transforms and enrichment of the pipeline, its fan-out to the routers, the disk queue
-- between a router and its output, the output worker, the state file of the inputs, the checks of an
-- update manifest, and the ring of log lines.
--
-- An input sends events through a channel with a byte budget to the pipeline task, which transforms
-- and enriches them and offers each to the router of every output whose condition holds. A router
-- pushes into the disk queue of its output. An output worker peeks a batch from the queue, sends it,
-- and acknowledges it, or resets the peek position after a failure. The file input keeps its
-- positions in the state file, behind the lines that it has sent.
--
-- `Buffer` models src/buffer.rs. A queue is a value of `DiskQueue` (`Buffer/Queue`) around `Inner`
-- (`Buffer/Disk`), whose fields are the source's beside the directory: `disk` maps segment numbers
-- to bytes, and `saved` is the persisted cursor. Each method holds the mutex and is a function from
-- queue to queue. `faults` says of each call to the operating system that may fail whether it does;
-- an empty list stands for no failure. `writer` holds the bytes that the `BufWriter` has not
-- written.
--   Buffer/Record    `read_record`, `scan_segment`, and the bytes that `push` writes
--   Buffer/Disk      the files of a queue, the buffered writer, `Inner`
--   Buffer/Segments  `roll_segment`, `reconcile_write_segment`, `drop_oldest_segment`
--   Buffer/Queue     `push` and the queries
--   Buffer/Reader    `peek_batch`, `ack`, `reset_peek`, `oldest_age_secs`
--   Buffer/Open      `DiskQueue::open`
--   Buffer/Fifo      a queue as a list of payloads behind a position, and what the methods do to it
--   Buffer/Bounds    the size cap
--   Buffer/Evict     the eviction of the oldest segment, and the loop of `push` around it
-- The CRC and the JSON coding of events are third-party code: the parameter `Codec`.
--
-- `Outputs/Worker` models src/outputs/worker.rs: a pass of its loop with the test of `wait_data`, a
-- round, which reads a batch and acts on the answer of the sink, and the batch behind the loop. The
-- sink is a function from batches to answers. `Outputs/Worker/Flow` puts a queue, its pushes and its
-- worker together as a step relation, in which pushes come between the read and the answer too.
-- `Outputs/Worker/Gate` has what the test of `wait_data` reads. `Outputs/Frame` models `frame_batch` of
-- src/outputs/stdout.rs and the datagrams of `send_batch` in src/outputs/syslog.rs; the bytes of a
-- text are an argument.
--
-- `Engine` models src/engine.rs and `push_blocking` of src/buffer.rs.
--   Engine/Budget    `EventSender` and `ChannelBudget`; a send is split where it waits, and
--                    Engine/Budget/Traffic has the interleavings of its users as a step relation
--   Engine/Route     `run_pipeline`, with `route_event` and the drain of a cancelled pipeline
--   Engine/Router    `run_router`; the ends of the waits of `push_blocking` are a list
-- `Metrics` models src/metrics.rs. The gauge of bytes in the channel stands in `Channel`.
--
-- `Inputs/File` models src/inputs/file.rs on Unix: the lines of a read, and, in Inputs/File/Tail, the
-- poll of the tracked files, discovery and the emission of lines. What the operating system answers
-- is an argument, and so is the parser of a line.
--
-- `Event` models src/event.rs: `Event`, `get_field`, `get_str`, `set_field`, `remove_field`, and the
-- readings of values. A field name is first told apart into a `Name`, as the `match`es of the source
-- do. `Pipeline/Condition` models src/pipeline/condition.rs, `Pipeline/Transform`
-- src/pipeline/transform.rs and `Pipeline/Enrich` src/pipeline/enrich.rs, with the host as the
-- parameter `Host`. `Pipeline/Syslog` models src/pipeline/syslog.rs over lists of characters, and
-- `Pipeline/Parser` the known keys and the JSON lines of src/pipeline/parser.rs; `Outputs/Format`
-- models src/outputs/format.rs. chrono and serde_json are the parameters `Formats`, `Calendar` and
-- `Stamps`. Times, JSON numbers and trees, regular expressions and floating-point
-- numbers are the parameters `Json`, `Texts` and `Numbers`.
--
-- `State` models src/state.rs, where the inputs keep their positions: `StateManager` with what is on
-- the disk, the calls that change it, and `flush` with the outcome of its write. Times are seconds
-- since 1970 and never negative; the clock of a call is an argument.
--
-- `Update` models src/update/manifest.rs behind the signature check: `parse_version`,
-- `check_freshness` and `evaluate_check`. The reading and the order of times are the parameter
-- `Clock`. `LogBuffer` models `push` and `recent` of src/logbuf.rs.
--
-- `Config` models the structures of src/config/schema.rs and, in its children, the validation of
-- src/config/validate.rs: Config/Entries has the tests of each entry and Config/Validate the whole. A
-- configuration that does not pass is `none`. Patterns, addresses and the file system are the
-- parameter `Checks`.
--
-- Counters are `u64` and wrap as in a release build (`add64`); a record's length is cut to 32 bits.
-- The loops of `scan_segment` and `peek_batch` run on the length of the file, since each round takes
-- a header at least. The loop of `push` runs on fuel that the caller gives; a run that needs more
-- returns `looping`.
-- The drain of the pipeline runs on fuel, of which a unit for each queued event is enough.
--
-- Not modelled: timers, notifications, log messages and the texts of errors; the spawning and joining
-- of tasks in the engine; the syslog and event log inputs, the key-value and regular-expression
-- parsers, the connections of the sinks, the web interface; the loading of the configuration, its
-- defaults and the variables of the environment in it; the signature, the download and the
-- installation of an update.
pub mod Prelude
pub mod Buffer
pub mod Event
pub mod Pipeline
pub mod State
pub mod Update
pub mod LogBuffer
pub mod Metrics
pub mod Engine
pub mod Inputs
pub mod Outputs
pub mod Config
