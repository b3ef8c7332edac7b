-- ===== src/Query/Engine/Rows.antt =====
-- internal/query/engine.go: what Execute asks of the store, and the rows that it prints. The store is the
-- record Reader; `rfc3339` is the format of a time.
use ltm.Prelude.{
  ℤ, pos, Bool, true, ◌&&◌, ◌||◌, List, [], ◌∷◌, ◌++◌, Text, codes, Option, none, some, is_empty,
  text_eq, eq_ℤ, if◌then◌else◌, Result,
}
use ltm.Go.Numbers.{atoi, itoa}
use ltm.Go.Strings.{contains, to_lower}
use ltm.Go.Time.{Time}
use ltm.Storage.Event.{Event, Filter, Error, no_filter}
use ltm.Storage.Raw.{SocketRecord}

-- What the engine calls of the store.
pub record Reader : Type 0 where
  pub query : Filter → Result Error (List Event)
  pub search : List Text → ℤ → Result Error (List Event)
  pub sockets : ℤ → Result Error (List SocketRecord)

pub record QueryResult : Type 0 where
  pub title : Text
  pub rows : List Text

abbrev pub no_result : QueryResult
no_result = record { title = []; rows = [] }

-- strconv.Atoi on digits; out of range it gives the largest int, and its error is dropped.
abbrev pub or_max : Option ℤ → ℤ
or_max none = pos 9223372036854775807
or_max (some n) = n

unfoldable pub digits_int : Text → ℤ
unfolding atoi
digits_int s = or_max (atoi s)

-- The loops that print all events, and those that print the events that pass a test.
unfoldable pub rows_of {ℓ} : {A : Type ℓ} → (A → Text) → List A → List Text
rows_of f [] = []
rows_of f (x ∷ xs) = f x ∷ rows_of f xs

unfoldable pub rows_where {ℓ} : {A : Type ℓ} → (A → Bool) → (A → Text) → List A → List Text
rows_where p f [] = []
rows_where p f (x ∷ xs) = let rest = rows_where p f xs in if p x then f x ∷ rest else rest

abbrev pub is_change : Event → Bool
is_change ev =
    text_eq ev.category (codes "file")
    && (text_eq ev.action (codes "write")
        || text_eq ev.action (codes "rename")
        || text_eq ev.action (codes "unlink"))

abbrev pub path_filter : Text → Filter
path_filter path = record no_filter { exact_path = path; order_asc = true; limit = pos 200 }

abbrev pub pid_filter : ℤ → Filter
pid_filter pid = record no_filter { pids = pid ∷ []; order_asc = true; limit = pos 200 }

abbrev pub connect_filter : Filter
connect_filter = record no_filter {
  categories = codes "network" ∷ [];
  actions = codes "connect" ∷ [];
  limit = pos 200;
}

abbrev pub restart_filter : Text → Filter
restart_filter comm = record no_filter {
  categories = codes "process" ∷ [];
  actions = codes "exec" ∷ codes "exit" ∷ codes "fork" ∷ codes "clone" ∷ [];
  comms = if is_empty comm then [] else comm ∷ [];
  limit = pos 200;
}

abbrev pub at_ip : Text → Event → Bool
at_ip ip ev = text_eq ev.remote_addr ip || contains (to_lower ev.remote_host) (to_lower ip)

abbrev pub at_host : Text → Event → Bool
at_host host ev =
    is_empty host || contains (to_lower ev.remote_host) host || contains ev.remote_addr host

abbrev pub opens : ℤ → SocketRecord → Bool
opens port s =
    eq_ℤ s.local_port port && (text_eq s.state (codes "listen") || text_eq s.state (codes "bind"))

module _ (rfc3339 : Time → Text) where
  abbrev pub pid_comm : ℤ → Text → Text
  pid_comm pid comm = codes " pid=" ++ itoa pid ++ codes " comm=" ++ comm

  abbrev pub change_row : Event → Text
  change_row ev = rfc3339 ev.timestamp ++ pid_comm ev.pid ev.comm ++ codes " action=" ++ ev.action

  abbrev pub file_row : Event → Text
  file_row ev = change_row ev ++ codes " path=" ++ ev.path

  abbrev pub restart_row : Event → Text
  restart_row ev =
      if text_eq ev.action (codes "exit")
      then rfc3339 ev.timestamp ++ codes " process exited" ++ pid_comm ev.pid ev.comm
      else rfc3339 ev.timestamp
        ++ codes " process started"
        ++ pid_comm ev.pid ev.comm
        ++ codes " exe="
        ++ ev.exe

  abbrev pub connect_row : Event → Text
  connect_row ev =
      rfc3339 ev.timestamp
      ++ pid_comm ev.pid ev.comm
      ++ codes " -> "
      ++ ev.remote_addr
      ++ codes ":"
      ++ itoa ev.remote_port

  abbrev pub port_row : ℤ → SocketRecord → Text
  port_row port s = rfc3339 s.seen_at ++ pid_comm s.pid s.comm ++ codes " port=" ++ itoa port

  abbrev pub pid_row : Event → Text
  pid_row ev = rfc3339 ev.timestamp ++ codes " " ++ ev.category ++ codes " " ++ ev.action

  abbrev pub timeline_row : Event → Text
  timeline_row ev =
      rfc3339 ev.timestamp
      ++ codes " "
      ++ ev.category
      ++ codes " pid="
      ++ itoa ev.pid
      ++ codes " "
      ++ ev.action
      ++ codes " "
      ++ ev.path
