-- ===== src/Agent/SchemaDoc.antt =====
-- internal/abi/schema_gen.go: SchemaDoc.
use ltm.Prelude.{◌++◌, Text, codes}

unfoldable pub schema_doc_text : Text
schema_doc_text =
    codes "Table: events (one row per collected event)\n"
    ++ codes "  id              INTEGER  row id, insertion order\n"
    ++ codes
        "  ts              INTEGER  unix nanoseconds; format with datetime(ts/1e9,'unixepoch')\n"
    ++ codes "  category        TEXT     process | file | network | memory | block\n"
    ++ codes
        "  action          TEXT     exec, exit, fork, clone, open, read, write, rename, unlink, bind, connect, listen, ...\n"
    ++ codes "  pid             INTEGER  process id\n"
    ++ codes "  ppid            INTEGER  parent process id\n"
    ++ codes "  uid             INTEGER  user id\n"
    ++ codes "  comm            TEXT     process name\n"
    ++ codes "  exe             TEXT     resolved executable path\n"
    ++ codes "  container_id    TEXT     container id\n"
    ++ codes "  cgroup_path     TEXT     cgroup path\n"
    ++ codes "  path            TEXT     file path\n"
    ++ codes "  old_path        TEXT     rename source path\n"
    ++ codes "  local_addr      TEXT     local address\n"
    ++ codes "  local_port      INTEGER  local port\n"
    ++ codes "  remote_addr     TEXT     remote address\n"
    ++ codes "  remote_port     INTEGER  remote port\n"
    ++ codes "  remote_host     TEXT     resolved remote hostname\n"
    ++ codes "  target_pid      INTEGER  signal/ptrace target pid\n"
    ++ codes "  exit_code       INTEGER  process exit code\n"
    ++ codes "  dropped_before  INTEGER  events lost immediately before this row\n"
    ++ codes "  metadata        TEXT     JSON object; query with json_extract(metadata, '$.key')\n"
    ++ codes "  raw             TEXT     JSON object; raw source event\n"
    ++ codes "\n"
    ++ codes "Indexes: ts, (pid, ts), path, (category, action, ts)"
