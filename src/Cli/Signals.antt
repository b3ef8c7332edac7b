-- ===== src/Cli/Signals.antt =====
-- internal/cli/commands_runtime.go: signalContext. Its goroutine waits for a signal or for the close of
-- `done`; the function that it returns releases both, at most once, however often it is called.
use ltm.Prelude.{ℕ, ◌+◌, ◌≤◌, ◌≡◌, Bool, true, false, List, [], ◌∷◌, arith, if◌then◌else◌}

-- The context, whether the goroutine still waits and whether signals are still sent to the channel,
-- whether the function has run, and how often `done` was closed; a second close would panic.
pub record SignalContext : Type 0 where
  pub cancelled : Bool
  pub waiting : Bool
  pub notified : Bool
  pub released : Bool
  pub closes : ℕ

abbrev pub signal_context : SignalContext
signal_context = record {
  cancelled = false;
  waiting = true;
  notified = true;
  released = false;
  closes = 0;
}

-- A signal at the channel, or a call of the returned function.
pub data Happening : Type 0 where
  signal release : Happening

unfoldable pub happen : SignalContext → Happening → SignalContext
happen s signal = if s.waiting then record s { cancelled = true; waiting = false } else s
happen s release = if s.released then s else record s {
  cancelled = true;
  waiting = false;
  notified = false;
  released = true;
  closes = s.closes + 1;
}

unfoldable pub all_happen : SignalContext → List Happening → SignalContext
unfolding happen
all_happen s [] = s
all_happen s (h ∷ hs) = all_happen (happen s h) hs

record IsSound (s : SignalContext) : Type 0 where
  once : s.closes ≤ 1
  before : s.released ≡ false → s.closes ≡ 0
  waits : s.cancelled ≡ false → s.waiting ≡ true
  after : s.released ≡ true → s.cancelled ≡ true
  quiet : s.released ≡ true → s.notified ≡ false

happen-IsSound : (s : SignalContext) (h : Happening) → IsSound s → IsSound (happen s h)
unfolding happen
happen-IsSound s signal i = ground (arith, i.before, i.waits, i.after, i.quiet)
happen-IsSound s release i = ground (arith, i.before, i.waits, i.after, i.quiet)

all_happen-IsSound :
    (hs : List Happening) (s : SignalContext) → IsSound s → IsSound (all_happen s hs)
unfolding all_happen
all_happen-IsSound [] s i = i
all_happen-IsSound (h ∷ hs) s i = all_happen-IsSound hs (happen s h) (happen-IsSound s h i)

-- However signals and calls of the returned function come, `done` is closed at most once; until the
-- context is cancelled the goroutine waits for a signal; and behind a call the context is cancelled and
-- signals are no longer sent to the channel.
signal_context-IsSound : (hs : List Happening) → IsSound (all_happen signal_context hs)
signal_context-IsSound hs = all_happen-IsSound hs signal_context (record {
  once = omega arith;
  before = λ e. omega arith;
  waits = λ e. cc;
  after = λ e. cc;
  quiet = λ e. cc;
})
