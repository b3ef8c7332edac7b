-- ===== src/Tests/Kernel.antt =====
-- Kernel records, at concrete inputs.
use ltm.Prelude.{ℤ, pos, [], ◌∷◌, ◌++◌, Text, codes, Option, some}
use ltm.Ebpf.Converts.{IsConverted, convert-IsConverted}
use ltm.Ebpf.Decode.{KernelEvent, convert_kernel_event}

abbrev stat_file : ℤ → Option Text
stat_file pid = some (codes "7 (a) b) S 3 0")

abbrev pub exec_record : KernelEvent
exec_record = record {
  ts_ns = 12;
  bytes = 0;
  pid = 7;
  uid = 0;
  local_port = 0;
  remote_port = 0;
  local_ip4 = 0;
  remote_ip4 = 16777343;
  comm = codes "sh" ++ 0 ∷ [];
  category = codes "process" ++ 0 ∷ [];
  action = codes "exec" ++ 0 ∷ [];
  path = codes "/bin/sh" ++ 0 ∷ [];
  old_path = 0 ∷ [];
  syscall_nr = 59;
  fd = pos 0;
  aux = 0;
}

convert-IsConverted_example :
    IsConverted stat_file 5 exec_record 2 (convert_kernel_event stat_file 5 exec_record 2)
convert-IsConverted_example = convert-IsConverted stat_file 5 exec_record 2
