-- ===== src/Cli/Process/Stops.antt =====
-- What start leaves: no process without its pid file; and stop finds the process that start has started.
use mathlib.Core.Path.{subst}
use ltm.Prelude.{
  ℕ, ◌≤◌, ◌≡◌, refl, ap, ◌∙◌, ◌⊎◌, pos, false, List, [], ◌∷◌, ◌++◌, Text, Option, none, some, any,
  arith, inl, inr, Result, ok, err,
}
use ltm.Abi.Build.{Disk}
use ltm.Go.Numbers.{atoi, decimal, max_int}
use ltm.Go.Strings.{is_space, trim_func, trim_left, trim_right, trim_space}
use ltm.Query.Numbers.{atoi-decimal, decimal-Digits, no_digit}
use ltm.Cli.Flags.{Config, daemon_args}
use ltm.Cli.Process.{
  Host, ProcessError, System, launch, pid_of, pid_written, prepare, read_pid_file, record_pid,
  run_start, run_stop,
}

-- A text with no white space is trimmed to itself.
trim_left-unspaced : (s : Text) → any is_space s ≡ false → trim_left is_space s ≡ s
unfolding trim_left
trim_left-unspaced [] h = refl
trim_left-unspaced (c ∷ s) h = ground arith

trim_right-unspaced : (s : Text) → any is_space s ≡ false → trim_right is_space s ≡ s
unfolding trim_right
trim_right-unspaced [] h = refl
trim_right-unspaced (c ∷ s) h = ground (arith, trim_right-unspaced s)

trim_space-unspaced : (s : Text) → any is_space s ≡ false → trim_space s ≡ s
unfolding trim_space trim_func
trim_space-unspaced s h =
    ap (trim_right is_space) (trim_left-unspaced s h) ∙ trim_right-unspaced s h

digits_unspaced : (s : Text) → any no_digit s ≡ false → any is_space s ≡ false
digits_unspaced [] h = refl
digits_unspaced (c ∷ s) h =
    let full : is_space c ≡ false = unfold is_space in ground arith in
    rw full (digits_unspaced s (ground arith))

module _ {d : Disk} (sys : System d) (defaults : List Text) (cfg : Config) (h : Host d) where
  -- Behind start: with an error, no process was started or the one that was started was killed; else one
  -- process runs the daemon's arguments, and the pid file holds its pid.
  abbrev pub Started : Host d × Result (ProcessError d) ℕ → Type 0
  Started (left, err e) =
      ((left.started ≡ h.started) × (left.killed ≡ h.killed))
      ⊎ ((pid : ℕ) × (argv : List Text) × (left.started ≡ h.started ++ (pid, argv) ∷ [])
          × (left.killed ≡ h.killed ++ pid ∷ []))
  Started (left, ok pid) =
      (exe : Text) × (left.started ≡ h.started ++ (pid, exe ∷ daemon_args defaults cfg) ∷ [])
      × (left.killed ≡ h.killed)
      × (left.terminated ≡ h.terminated)
      × (d.read left.files cfg.pid_file ≡ ok (decimal pid))

  pid_written-Started :
      (exe : Text) (pid : ℕ) (e : Option d.Error)
      → (d.write h.files cfg.pid_file (decimal pid)).1 ≡ e
      → Started (
          pid_written sys pid
            (record h { started = h.started ++ (pid, exe ∷ daemon_args defaults cfg) ∷ [] })
            ((d.write h.files cfg.pid_file (decimal pid)).0, e))
  pid_written-Started exe pid (some e) w = inr (pid, _, refl, refl)
  pid_written-Started exe pid none w =
      (exe, refl, refl, refl, d.write_law h.files cfg.pid_file (decimal pid) w)

  record_pid-Started :
      (exe : Text) (spawned : Result d.Error ℕ)
      → Started (record_pid sys cfg.pid_file h (exe ∷ daemon_args defaults cfg) spawned)
  record_pid-Started exe (err e) = inl (refl, refl)
  record_pid-Started exe (ok pid) =
      pid_written-Started exe pid (d.write h.files cfg.pid_file (decimal pid)).1 refl

  launch-Started : (r : Result (ProcessError d) Text) → Started (launch sys defaults cfg h r)
  launch-Started (err e) = inl (refl, refl)
  launch-Started (ok exe) = record_pid-Started exe (sys.spawn (exe ∷ daemon_args defaults cfg))

  -- start, wherever it fails, leaves no process behind that it has not killed. Where it returns no
  -- error it has started one process, with the daemon's arguments behind the program's path, and
  -- killed none; and the pid file holds the digits of its pid.
  pub run_start-Started : (args : List Text) → Started (run_start sys defaults cfg args h)
  unfolding run_start
  run_start-Started args = launch-Started (prepare sys cfg args)

module _ {d : Disk} where
  read_pid_file-decimal :
      (files : d.State) (path : Text) (pid : ℕ)
      → d.read files path ≡ ok (decimal pid)
      → pid ≤ max_int
      → read_pid_file {d = d} files path ≡ ok (pos pid)
  unfolding read_pid_file
  read_pid_file-decimal files path pid r h = rw r (
      ap (λ (s : Text). pid_of (decimal pid) (atoi s))
        (trim_space-unspaced (decimal pid) (digits_unspaced (decimal pid) (decimal-Digits pid).1))
      ∙ ap (pid_of (decimal pid)) (atoi-decimal pid h))

-- If start returns no error and a pid that is an int64, then stop on the same pid file reads that pid and
-- sends it SIGTERM, where the process is found and takes the signal; it changes nothing else, and the
-- process it stops runs the arguments of the daemon.
pub run_stop-run_start :
    {d : Disk} (sys : System d) (defaults : List Text) (cfg : Config) (args : List Text)
    (h : Host d) {left : Host d} {pid : ℕ}
    → run_start sys defaults cfg args h ≡ (left, ok pid)
    → pid ≤ max_int
    → sys.find_process (pos pid) ≡ none
    → sys.terminate (pos pid) ≡ none
    → (run_stop sys cfg [] left
        ≡ (record left { terminated = h.terminated ++ pos pid ∷ [] }, ok (pos pid)))
      × ((exe : Text) × (left.started ≡ h.started ++ (pid, exe ∷ daemon_args defaults cfg) ∷ []))
unfolding run_stop
run_stop-run_start {d} sys defaults cfg args h {left} {pid} e fits found takes =
    let s : Started sys defaults cfg h (left, ok pid) =
      subst (Started sys defaults cfg h) e (run_start-Started sys defaults cfg h args) in
    (
      rw (read_pid_file-decimal {d = d} left.files cfg.pid_file pid s.4 fits, found, takes)
          (ap (λ xs. (record left { terminated = xs ++ pos pid ∷ [] }, ok (pos pid))) s.3),
      (s.0, s.1),
    )
