-- ===== src/Tests/Questions.antt =====
-- Questions to the engine over a store of a few events.
use ltm.Prelude.{
  true, pos, false, [], ◌∷◌, ◌++◌, Text, codes, map, keep, text_eq, ok, ◌≡◌, refl, ◌>>=◌, some,
}
use ltm.Go.Strings.{fields, lower, one_of, to_lower, trim_space}
use ltm.Go.Time.{Time}
use ltm.Storage.Event.{no_filter, Event, no_event}
use ltm.Query.Words.{restart_comm, find_ip, connection_host}
use ltm.Query.Engine.{Reader, change_row, execute, query_port}
use ltm.Query.Answers.{IsFirstName, restart_comm-IsFirstName}
use ltm.Query.Modified.{execute-who_modified, modifies_file}

abbrev noon : Time → Text
noon t = codes "12:00"

abbrev file_write : Event
file_write = record no_event {
  category = codes "file";
  action = codes "write";
  pid = pos 7;
  comm = codes "vim";
  path = codes "/etc/hosts";
}

abbrev file_open : Event
file_open = record file_write { action = codes "open" }

abbrev small_store : Reader
small_store = record {
  query = λ f. ok (file_write ∷ file_open ∷ []);
  search = λ terms limit. ok [];
  sockets = λ limit. ok (
      record {
        pid = pos 9;
        comm = codes "nginx";
        local_port = pos 8080;
        state = codes "listen";
        seen_at = 0;
      }
      ∷ []);
}

execute-who_modified_example :
    execute noon small_store (codes "Who modified " ++ (codes "/etc/hosts" ++ codes "?")) ≡ (do
      events ←
          small_store.query (record no_filter {
            exact_path = codes "/etc/hosts";
            order_asc = true;
            limit = pos 200;
          })
      ok (record {
        title = codes "who modified " ++ codes "/etc/hosts";
        rows = map (change_row noon) (keep modifies_file events);
      }))
unfolding trim_space one_of
execute-who_modified_example =
    execute-who_modified noon small_store (codes "Who modified ") (codes "/etc/hosts") refl refl
      refl refl

changes :
    execute noon small_store (codes "Who modified /etc/hosts?")
    ≡ ok (record {
      title = codes "who modified /etc/hosts";
      rows = codes "12:00 pid=7 comm=vim action=write" ∷ [];
    })
unfolding execute text_eq
changes = refl

opened :
    query_port noon small_store (codes "which process opened port 8080?")
    ≡ ok (record {
      title = codes "processes that opened port 8080";
      rows = codes "12:00 pid=9 comm=nginx port=8080" ∷ [];
    })
unfolding query_port text_eq
opened = refl

restart_comm-IsFirstName_example :
    IsFirstName
      (fields (to_lower (codes "What changed before Nginx restarted?")))
      (restart_comm (codes "What changed before Nginx restarted?"))
restart_comm-IsFirstName_example =
    restart_comm-IsFirstName (codes "What changed before Nginx restarted?")

names : restart_comm (codes "What changed before 'Nginx' restarted?") ≡ codes "nginx"
unfolding restart_comm lower text_eq
names = refl

finds_ip :
    find_ip false (codes "who connected to v1 at 10.0.0.12, twice") ≡ some (codes "10.0.0.12")
unfolding find_ip
finds_ip = refl

finds_host :
    connection_host (codes "who Connected to api.Example.com today") ≡ codes "api.example.com"
unfolding connection_host lower
finds_host = refl
