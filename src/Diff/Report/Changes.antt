-- ===== src/Diff/Report/Changes.antt =====
-- internal/diff/engine.go: the types of the report, the cases of the switch, the keys of the maps, and
-- the maps themselves. A Go map is an association list with its keys in the order of their first write;
-- the order in which Go ranges over a map is not modelled.
use ltm.Prelude.{
  ℕ, ℤ, pos, not, List, [], ◌∷◌, ◌++◌, Text, codes, Option, none, some, text_eq, is_empty, eq_ℤ,
  member, if◌then◌else◌,
}
use ltm.Go.Numbers.{itoa}
use ltm.Go.Strings.{trim_space}
use ltm.Go.Time.{Time}
use ltm.Storage.Event.{Event}

pub record ProcessChange : Type 0 where
  pub timestamp : Time
  pub pid : ℤ
  pub comm : Text
  pub path : Text
  pub action : Text

pub record FileChange : Type 0 where
  pub timestamp : Time
  pub path : Text
  pub count : ℕ
  pub action : Text

pub record SocketChange : Type 0 where
  pub timestamp : Time
  pub pid : ℤ
  pub comm : Text
  pub socket : Text
  pub action : Text

pub record HotWriter : Type 0 where
  pub path : Text
  pub pid : ℤ
  pub comm : Text
  pub count : ℕ
  pub timestamp : Time

pub record ProcessRestart : Type 0 where
  pub comm : Text
  pub pid : ℤ
  pub timestamp : Time

pub record DiffReport : Type 0 where
  pub from : Time
  pub to : Time
  pub new_processes : List ProcessChange
  pub exited_processes : List ProcessChange
  pub modified_files : List FileChange
  pub deleted_files : List FileChange
  pub new_listeners : List SocketChange
  pub outbound_connections : List SocketChange
  pub hot_writers : List HotWriter
  pub restarts : List ProcessRestart

-- The cases of the switch.
pub data Kind : Type 0 where
  started exited modified deleted listening outbound other : Kind

unfoldable pub event_kind : Text → Kind
event_kind key =
    if member key (codes "process:exec" ∷ codes "process:fork" ∷ codes "process:clone" ∷ [])
    then started
    else if member key (codes "process:exit" ∷ [])
    then exited
    else if member key (
        codes "file:write"
        ∷ codes "file:rename"
        ∷ codes "file:truncate"
        ∷ codes "file:chmod"
        ∷ codes "file:chown"
        ∷ codes "file:mkdir"
        ∷ [])
    then modified
    else if member key (codes "file:unlink" ∷ codes "file:rmdir" ∷ [])
    then deleted
    else if member key (codes "network:listen" ∷ codes "network:bind" ∷ [])
    then listening
    else if member key (codes "network:connect" ∷ codes "network:send" ∷ [])
    then outbound
    else other

unfoldable pub kind_of : Event → Kind
kind_of ev = event_kind (ev.category ++ (codes ":" ++ ev.action))

unfoldable pub restart_key : Event → Text
restart_key ev =
    if not (is_empty (trim_space ev.comm))
    then ev.comm
    else if not (eq_ℤ ev.pid (pos 0))
    then itoa ev.pid
    else []

unfoldable pub first_non_empty : List Text → Text
first_non_empty [] = []
first_non_empty (item ∷ items) =
    if not (is_empty (trim_space item)) then item else first_non_empty items

module _ {ℓ} {V : Type ℓ} where
  unfoldable pub lookup : Text → List (Text × V) → Option V
  lookup k [] = none
  lookup k ((j, v) ∷ m) = if text_eq j k then some v else lookup k m

  unfoldable pub store : Text → V → List (Text × V) → List (Text × V)
  store k v [] = (k, v) ∷ []
  store k v ((j, w) ∷ m) = if text_eq j k then (j, v) ∷ m else (j, w) ∷ store k v m

abbrev pub or_nil {ℓ} : {A : Type ℓ} → Option (List A) → List A
or_nil none = []
or_nil (some xs) = xs
