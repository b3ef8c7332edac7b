-- ===== src/Cli/Process.antt =====
-- internal/cli/commands_runtime.go: runStart, runStop, runStatus, readPIDFile and processAlive. Files are
-- the interface Disk; what the operating system answers is the record System; the processes that were
-- started, killed and sent SIGTERM are kept in order.
pub mod Stops
use ltm.Prelude.{
  ℕ, ℤ, pos, Bool, true, false, ◌&&◌, List, [], ◌∷◌, ◌++◌, Text, codes, Option, none, some, ltb_ℤ,
  ltb, negsuc, ◌-◌, if◌then◌else◌, Result, ok, err, ◌>>=◌,
}
use ltm.Abi.Build.{Disk}
use ltm.Go.FlagSet.{ParseError}
use ltm.Go.Numbers.{atoi, atoi_value, decimal, itoa}
use ltm.Go.Strings.{trim_space}
use ltm.Go.Time.{Time, two_63, two_64}
use ltm.Cli.Arguments.{parse_json, parse_start}
use ltm.Cli.Flags.{Config, daemon_args}
use ltm.Storage.Event.{Error}
use ltm.Storage.Totals.{Status}

-- What Signal(0) says of a process.
pub data Probe : Type 0 where
  answers not_permitted gone : Probe

-- Calls that fail with an error of the disk's kind: MkdirAll of a path's directory, os.Executable, the
-- start of a process, which gives its pid, os.FindProcess, and SIGTERM.
pub record System (d : Disk) : Type 0 where
  pub make_directory : Text → Option d.Error
  pub executable : Result d.Error Text
  pub spawn : List Text → Result d.Error ℕ
  pub find_process : ℤ → Option d.Error
  pub terminate : ℤ → Option d.Error
  pub probe : ℤ → Probe

pub record Host (d : Disk) : Type 0 where
  pub files : d.State
  pub started : List (ℕ × List Text)
  pub killed : List ℕ
  pub terminated : List ℤ

pub data ProcessError (d : Disk) : Type 0 where
  bad_flags : ParseError → ProcessError d
  system : d.Error → ProcessError d
  takes_no_arguments : ProcessError d
  bad_pid : Text → ProcessError d
  no_status : Error → ProcessError d

-- What readPIDFile returns, with an error or without.
abbrev pub pid_value : {E : Type 0} → Result E Text → ℤ
pid_value (err e) = pos 0
pid_value (ok text) = atoi_value (trim_space text)

module _ {d : Disk} where
  abbrev pub parsed : {A : Type 0} → Result ParseError A → Result (ProcessError d) A
  parsed (ok a) = ok a
  parsed (err e) = err (bad_flags e)

  abbrev pub called : {A : Type 0} → Result d.Error A → Result (ProcessError d) A
  called (ok a) = ok a
  called (err e) = err (system e)

  abbrev pub unless_refused : Option d.Error → Result (ProcessError d) (Unit {0})
  unless_refused none = ok tt
  unless_refused (some e) = err (system e)

  abbrev pub pid_of : Text → Option ℤ → Result (ProcessError d) ℤ
  pid_of text none = err (bad_pid text)
  pid_of text (some pid) = ok pid

  -- readPIDFile, where it returns no error.
  unfoldable pub read_pid_file : d.State → Text → Result (ProcessError d) ℤ
  unfolding atoi trim_space
  read_pid_file files path = do
    text ← called (d.read files path)
    pid_of text (atoi (trim_space text))

  module _ (sys : System d) where
    -- What runStart does before it starts a process: the path of the program.
    unfoldable pub prepare : Config → List Text → Result (ProcessError d) Text
    unfolding parse_start
    prepare cfg args = do
      flags ← parsed (parse_start args)
      pid_directory ← unless_refused (sys.make_directory cfg.pid_file)
      db_directory ← unless_refused (sys.make_directory cfg.db_path)
      called sys.executable

    -- The pid file is written, or the process is killed.
    abbrev pub pid_written :
        ℕ → Host d → d.State × Option d.Error → Host d × Result (ProcessError d) ℕ
    pid_written pid h (files, none) = (record h { files = files }, ok pid)
    pid_written pid h (files, some e) =
        (record h { files = files; killed = h.killed ++ pid ∷ [] }, err (system e))

    abbrev pub record_pid :
        Text → Host d → List Text → Result d.Error ℕ → Host d × Result (ProcessError d) ℕ
    record_pid path h argv (err e) = (h, err (system e))
    record_pid path h argv (ok pid) =
        pid_written pid (record h { started = h.started ++ (pid, argv) ∷ [] })
          (d.write h.files path (decimal pid))

    abbrev pub launch :
        List Text
        → Config
        → Host d
        → Result (ProcessError d) Text
        → Host d × Result (ProcessError d) ℕ
    launch defaults cfg h (err e) = (h, err e)
    launch defaults cfg h (ok exe) =
        let argv = exe ∷ daemon_args defaults cfg in record_pid cfg.pid_file h argv (sys.spawn argv)

    unfoldable pub run_start :
        List Text → Config → List Text → Host d → Host d × Result (ProcessError d) ℕ
    unfolding prepare daemon_args decimal
    run_start defaults cfg args h = launch defaults cfg h (prepare cfg args)

    abbrev pub signalled : ℤ → Host d → Option d.Error → Host d × Result (ProcessError d) ℤ
    signalled pid h (some e) = (h, err (system e))
    signalled pid h none = (record h { terminated = h.terminated ++ pid ∷ [] }, ok pid)

    abbrev pub stop_found : ℤ → Host d → Option d.Error → Host d × Result (ProcessError d) ℤ
    stop_found pid h (some e) = (h, err (system e))
    stop_found pid h none = signalled pid h (sys.terminate pid)

    abbrev pub stop_pid : Host d → Result (ProcessError d) ℤ → Host d × Result (ProcessError d) ℤ
    stop_pid h (err e) = (h, err e)
    stop_pid h (ok pid) = stop_found pid h (sys.find_process pid)

    unfoldable pub run_stop : Config → List Text → Host d → Host d × Result (ProcessError d) ℤ
    unfolding read_pid_file
    run_stop cfg [] h = stop_pid h (read_pid_file h.files cfg.pid_file)
    run_stop cfg (arg ∷ args) h = (h, err takes_no_arguments)

    abbrev answers_to : Option d.Error → Probe → Bool
    answers_to (some e) p = false
    answers_to none answers = true
    answers_to none not_permitted = true
    answers_to none gone = false

    unfoldable pub process_alive : ℤ → Bool
    process_alive pid = answers_to (sys.find_process pid) (sys.probe pid)

    abbrev pub is_alive : ℤ → Bool
    is_alive pid = ltb_ℤ (pos 0) pid && process_alive pid

    abbrev pub counted : Result Error Status → Result (ProcessError d) Status
    counted (ok s) = ok s
    counted (err e) = err (no_status e)

-- What `status` prints, as text or as JSON.
pub record StatusReport : Type 0 where
  pub json : Bool
  pub pid : ℤ
  pub alive : Bool
  pub status : Status

module _ {d : Disk} (sys : System d) where
  -- `status` is what OpenReadOnly and Status give.
  unfoldable pub run_status :
      Config → List Text → Result Error Status → Host d → Result (ProcessError d) StatusReport
  unfolding parse_json process_alive atoi_value trim_space
  run_status cfg args status h = do
    flags ← parsed (parse_json cfg args)
    s ← counted sys status
    let pid = pid_value (d.read h.files cfg.pid_file)
    ok (record { json = flags.0; pid = pid; alive = is_alive sys pid; status = s })

abbrev truth : Bool → Text
truth true = codes "true"
truth false = codes "false"

-- An int64 of these bits.
abbrev signed_64 : ℕ → ℤ
signed_64 n = if ltb n two_63 then pos n else negsuc (two_64 - 1 - n)

-- The two lines that are no JSON.
unfoldable pub status_lines : (Time → Text) → StatusReport → Text
unfolding decimal itoa
status_lines rfc3339 r =
    codes "daemon: alive="
    ++ (truth r.alive
        ++ (codes " pid="
            ++ (itoa r.pid
                ++ (codes "\nevents="
                    ++ (decimal r.status.event_count
                        ++ (codes " dropped="
                            ++ (itoa (signed_64 r.status.dropped_events)
                                ++ (codes " last_event="
                                    ++ (rfc3339 r.status.last_event_time ++ codes "\n")))))))))
