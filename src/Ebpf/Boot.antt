-- ===== src/Ebpf/Boot.antt =====
-- internal/ebpf/proc_linux.go: wallClockBootTime. The content of /proc/stat is the argument.
use ltm.Prelude.{
  ◌+◌, ◌-◌, ◌*◌, ℤ, pos, negsuc, List, [], ◌∷◌, Text, codes, Option, none, some, ◌≡◌, refl,
}
use ltm.Go.Numbers.{atoi}
use ltm.Go.Strings.{split, strip_prefix, trim_space}
use ltm.Go.Time.{Time, epoch}

-- time.Unix(sec, 0).
abbrev pub unix_seconds : ℤ → Time
unix_seconds (pos n) = epoch + n * 1000000000
unix_seconds (negsuc n) = epoch - (n + 1) * 1000000000

abbrev pub boot_seconds : Option ℤ → Option Time
boot_seconds none = none
boot_seconds (some sec) = some (unix_seconds sec)

-- The loop over the lines; the first `btime` line decides.
unfoldable pub boot_time_in : List Text → Option Time
unfolding strip_prefix trim_space atoi
boot_time_in [] = none
boot_time_in (line ∷ lines) =
    let later = boot_time_in lines in
    elim (strip_prefix (codes "btime ") line) [
      | none ↦ later
      | some rest ↦ boot_seconds (atoi (trim_space rest))
    ]

abbrev pub boot_time_of : Option Text → Option Time
boot_time_of none = none
boot_time_of (some data_) = boot_time_in (split data_ 10)

unfoldable pub wall_clock_boot_time : Option Text → Option Time
unfolding boot_time_in split
wall_clock_boot_time stat = boot_time_of stat

boots : wall_clock_boot_time (some (codes "cpu 1\nbtime 12\n")) ≡ some (epoch + 12000000000)
unfolding wall_clock_boot_time
boots = refl
