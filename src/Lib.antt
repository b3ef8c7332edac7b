-- ===== src/Lib.antt =====
-- ltm records what happens on a Linux host: eBPF programs report events, a collector hands them to
-- the flush stage of a daemon, which stores them in SQLite; the commands of ltm then ask the store
-- for events, for reports on a range of time, or for the rows of a SQL statement, which may be one
-- that an external agent has written.
--
-- How the parts meet: the collector's ignore rules decide which events go on; the flush stage turns
-- a stream of events into calls of InsertEvents; Query and RawSQL read what InsertEvents has stored,
-- and Prune removes it; the diff engine is a fold over what Query returns; ExtractSQL is the gate
-- between an agent's output and RawSQL; the query engine answers plain questions from what the store
-- returns; the service joins the source, the collector and the flush stage, and shuts them down; the
-- root command hands the arguments to the subcommands, of which start starts the daemon and stop ends
-- it; and the generator compiles the schema and the tables that the other parts share.
--
-- Files and the code they model:
--   SqlText      the walk over a SQL text that internal/storage/query.go and internal/agent/agent.go
--                share (skipQuoted, skipUntil and the cases of both loops), and a reference machine
--                (SqlText.Machine) that reads one character at a time, and SQLite's own modes
--                (SqlText.Sql), which have quoted identifiers that the walk does not know
--   Storage      internal/storage: types.go (Event: Event, Filter, validate), query.go (Statements:
--                has_multiple_statements; Select: the statement and arguments of Query; Store:
--                query_events, scan_event, query; Search: search, which is QueryText; Raw: raw_sql,
--                sockets; Totals: status, latest_event_id), open.go (Open: open_store,
--                open_read_only, dsn), write.go (Write: insert_events), maintenance.go (Write: prune), demo.go
--                (Demo: generate_demo_events)
--   Agent        internal/agent/agent.go: Resolve (resolve), Extract (extract_sql), Keywords
--                (the main statement's first word in SQLite's reading), Validate
--                (validate_read_only_sql), Scan (scan_top_level), Generate (generate_sql)
--   Collector    internal/collector: filter.go (Filter) and collector.go (Run)
--   Daemon       internal/daemon: flush.go (Flush: the eventBatcher) and service.go (Service:
--                with_defaults and the steps of runWithSource; Shutdown: their proofs); Drops: the
--                drops that are counted; Records joins the collector, the flush stage and InsertEvents
--   Diff         internal/diff/engine.go: Diff, as a report (Report) and the proofs on its lists
--   Cli          internal/cli: cli.go (Root: default_config, execute, passthrough), flags.go (Flags:
--                parse_global_flags, daemon_args), commands_runtime.go (Process: run_start, run_stop,
--                run_status, read_pid_file; Maintain: run_benchmark, run_prune, run_daemon, run_watch,
--                with its ticks against a growing log in Tails;
--                Signals: happen, which is signalContext; Watch: watch_step, start_watch, with
--                EventsAfterID; Timeline: run_timeline),
--                commands_query.go (Ask: run_query, run_sql, exec_read_only_sql; Maintain: run_diff;
--                Timeline: parse_duration_or_time), the flag sets of both (Arguments) and output.go
--                (Output: format_event, diff_text, table_text; Root: version_text)
--   Ebpf         internal/ebpf: decode_linux.go (Decode: convert_kernel_event, cstring, ipv4_string),
--                proc_linux.go (Proc: read_ppid; Boot: wall_clock_boot_time), attach_linux.go (Attach:
--                attach_tracepoints, over the table of internal/abi/tracepoints_gen.go) and
--                collector_linux.go (Source: run_source, read_ringbuf_drops)
--   Query        internal/query/engine.go: Engine (execute and the queries), Words (the regular
--                expressions, restart_comm, connection_host)
--   Abi          internal/abi/gen/main.go: Doc (the document, validate_doc), Render (the four files),
--                Stamp (the headers with a digest), Build (run_generator, verify_generated)
--   Go           what these use of Go's strings, strconv, path/filepath, time, net/url and flag
--   Prelude      names and lemmas that all share
--   Tests        the theorems at concrete inputs
--
-- How the code's data are modelled: a string is the list of its bytes; where the
-- code reads runes (white space, case), a byte is taken for one, which is exact on ASCII texts only. An int is an integer ℤ. An
-- int64 whose wrap-around can matter (UnixNano, DroppedBefore) is the natural number of its 64 bits.
-- A time.Time is its distance in nanoseconds from the year 1, so that the zero time is 0. A Go map
-- is an association list in the order of first writes, or a list of keys. An error is a constructor
-- and not its text.
--
-- What is not under the repository is a parameter: the SQL driver is an argument (`db`) or the
-- interface Database, whose laws are those of SQLite's transactions; json.Marshal and Unmarshal,
-- exec.LookPath, LIKE, the clock and droppedFn are arguments too, as are yaml's decoder, go/format, %q,
-- SHA-256 and the format of times; os.ReadFile and os.WriteFile are the interface Disk, and the setup's
-- calls of the eBPF library the record Setup. What opening a store calls is the record Files, and what
-- start and stop ask of the operating system the record System; the calls that were made, and the
-- processes that were started, killed and signalled, are lists in order. cobra is the argument `route`,
-- and ParseInt with base 0 and ParseDuration are the record Readers. Channels are lists of signals:
-- what the consumer finds at each receive, in order, up to the close. Only the service's shutdown is a step relation, since there
-- the order of the two tasks' ends matters.
--
-- Loops with no structural measure run on fuel: the scans of a SQL text on its length, since each
-- round consumes a character, and the loop of the flush stage on one more than the number of
-- signals. That this is enough is part of the theorems on them.
--
-- Not modelled: the eBPF programs themselves and their generated bindings; what cobra does with flags
-- of its own and its help; the times that benchmark measures; the JSON and the aligned tables that are
-- printed.
pub mod Prelude
pub mod Go
pub mod SqlText
pub mod Storage
pub mod Agent
pub mod Collector
pub mod Daemon
pub mod Diff
pub mod Query
pub mod Cli
pub mod Ebpf
pub mod Abi
pub mod Tests
