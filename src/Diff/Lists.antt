-- ===== src/Diff/Lists.antt =====
-- The lists of a report that are selections of the events, in the events' order.
use ltm.Prelude.{
  ◌≡◌, refl, sym, ap, ◌∙◌, Bool, true, false, not, ◌&&◌, List, [], ◌∷◌, ◌++◌, map, keep, is_empty,
  Text, codes, append_assoc, append-nil, arith, if◌then◌else◌,
}
use ltm.Go.Time.{Time}
use ltm.Storage.Event.{Event}
use ltm.Diff.Actions.{
  changes, is_action, is_kind, keep-same, of_deleted, of_exited, of_kind, of_listening, of_modified,
  of_outbound,
}
use ltm.Diff.Report.{
  Kind, started, exited, modified, deleted, listening, outbound, kind_of, Scan, DiffReport,
  process_change, file_change, socket_change, modified_path, add_new_process, add_restart, add_exit,
  add_modified, scan_kind, scan_events, scan_all, report_of,
}

module _ {B : Type 0} (view : Scan → List B) (p : Event → Bool) (item : Event → B)
    (round : (s : Scan) (ev : Event)
      → view (scan_kind (kind_of ev) ev s) ≡ view s ++ (if p ev then item ev ∷ [] else [])) where
  -- A list that each event extends by at most one item.
  pub scan_events-collects :
      (s : Scan) (events : List Event)
      → view (scan_events s events) ≡ view s ++ map item (keep p events)
  unfolding scan_events
  scan_events-collects s [] = sym (append-nil _)
  scan_events-collects s (ev ∷ events) =
      scan_events-collects (scan_kind (kind_of ev) ev s) events
      ∙ ap (λ xs. xs ++ map item (keep p events)) (round s ev)
      ∙ join (p ev) refl
    where
      join :
          (b : Bool)
          → p ev ≡ b
          → (view s ++ (if p ev then item ev ∷ [] else [])) ++ map item (keep p events)
            ≡ view s ++ map item (keep p (ev ∷ events))
      join true e = rw e (append_assoc (view s) (item ev ∷ []) _)
      join false e = rw e (ap (λ xs. xs ++ map item (keep p events)) (append-nil (view s)))

abbrev if_kind {ℓ} : {B : Type ℓ} → Kind → Kind → B → List B
if_kind k j x = if is_kind k j then x ∷ [] else []

-- A start changes none of these lists.
module _ (ev : Event) (s : Scan) where
  pub start_keeps :
      ((add_restart ev (add_new_process ev s)).report.exited_processes ≡ s.report.exited_processes)
      × ((add_restart ev (add_new_process ev s)).report.modified_files ≡ s.report.modified_files)
      × ((add_restart ev (add_new_process ev s)).report.deleted_files ≡ s.report.deleted_files)
      × ((add_restart ev (add_new_process ev s)).report.new_listeners ≡ s.report.new_listeners)
      × ((add_restart ev (add_new_process ev s)).report.outbound_connections
          ≡ s.report.outbound_connections)
      × ((add_restart ev (add_new_process ev s)).writes ≡ s.writes)
  unfolding add_restart add_new_process
  start_keeps = (ground arith, ground arith, ground arith, ground arith, ground arith, ground arith)

exited_round :
    (k : Kind) (s : Scan) (ev : Event)
    → (scan_kind k ev s).report.exited_processes
      ≡ s.report.exited_processes ++ if_kind k exited (process_change ev)
unfolding scan_kind is_kind add_exit add_modified
exited_round started s ev = (start_keeps ev s).0 ∙ sym (append-nil _)
exited_round exited s ev = refl
exited_round modified s ev = ground (arith, append-nil s.report.exited_processes)
exited_round _ s ev = sym (append-nil _)

deleted_round :
    (k : Kind) (s : Scan) (ev : Event)
    → (scan_kind k ev s).report.deleted_files
      ≡ s.report.deleted_files ++ if_kind k deleted (file_change ev.path ev)
unfolding scan_kind is_kind add_exit add_modified
deleted_round started s ev = (start_keeps ev s).2 ∙ sym (append-nil _)
deleted_round deleted s ev = refl
deleted_round modified s ev = ground (arith, append-nil s.report.deleted_files)
deleted_round _ s ev = sym (append-nil _)

listening_round :
    (k : Kind) (s : Scan) (ev : Event)
    → (scan_kind k ev s).report.new_listeners
      ≡ s.report.new_listeners ++ if_kind k listening (socket_change ev.local_addr ev.local_port ev)
unfolding scan_kind is_kind add_exit add_modified
listening_round started s ev = (start_keeps ev s).3 ∙ sym (append-nil _)
listening_round listening s ev = refl
listening_round modified s ev = ground (arith, append-nil s.report.new_listeners)
listening_round _ s ev = sym (append-nil _)

outbound_round :
    (k : Kind) (s : Scan) (ev : Event)
    → (scan_kind k ev s).report.outbound_connections
      ≡ s.report.outbound_connections
        ++ if_kind k outbound (socket_change ev.remote_addr ev.remote_port ev)
unfolding scan_kind is_kind add_exit add_modified
outbound_round started s ev = (start_keeps ev s).4 ∙ sym (append-nil _)
outbound_round outbound s ev = refl
outbound_round modified s ev = ground (arith, append-nil s.report.outbound_connections)
outbound_round _ s ev = sym (append-nil _)

-- The events that change a file whose name is known.
unfoldable pub modifies : Event → Bool
modifies ev = of_kind modified ev && not (is_empty (modified_path ev))

modified_round :
    (s : Scan) (ev : Event)
    → (scan_kind (kind_of ev) ev s).report.modified_files
      ≡ s.report.modified_files
        ++ (if modifies ev then file_change (modified_path ev) ev ∷ [] else [])
unfolding modifies of_kind
modified_round s ev = by_kind (kind_of ev)
  where
    by_kind :
        (k : Kind)
        → (scan_kind k ev s).report.modified_files
          ≡ s.report.modified_files
            ++ (if is_kind k modified && not (is_empty (modified_path ev))
                then file_change (modified_path ev) ev ∷ []
                else [])
    by_kind started = unfold scan_kind is_kind in (start_keeps ev s).1 ∙ sym (append-nil _)
    by_kind modified =
        unfold scan_kind is_kind add_modified in ground (arith, append-nil s.report.modified_files)
    by_kind exited = unfold scan_kind is_kind add_exit in sym (append-nil _)
    by_kind _ = unfold scan_kind is_kind in sym (append-nil _)

-- The lists that a report has for the events of the log.
pub record IsSelected (events : List Event) (r : DiffReport) : Type 0 where
  pub exited_processes :
      r.exited_processes
      ≡ map process_change (keep (is_action (codes "process") (codes "exit" ∷ [])) events)
  pub modified_files :
      r.modified_files
      ≡ map
          (λ ev. file_change (modified_path ev) ev)
          (keep
            (λ ev. is_action (codes "file") changes ev && not (is_empty (modified_path ev)))
            events)
  pub deleted_files :
      r.deleted_files
      ≡ map
          (λ ev. file_change ev.path ev)
          (keep (is_action (codes "file") (codes "unlink" ∷ codes "rmdir" ∷ [])) events)
  pub new_listeners :
      r.new_listeners
      ≡ map
          (λ ev. socket_change ev.local_addr ev.local_port ev)
          (keep (is_action (codes "network") (codes "listen" ∷ codes "bind" ∷ [])) events)
  pub outbound_connections :
      r.outbound_connections
      ≡ map
          (λ ev. socket_change ev.remote_addr ev.remote_port ev)
          (keep (is_action (codes "network") (codes "connect" ∷ codes "send" ∷ [])) events)

modifies-is_action :
    (ev : Event)
    → modifies ev ≡ (is_action (codes "file") changes ev && not (is_empty (modified_path ev)))
unfolding modifies
modifies-is_action ev = ap (λ b. b && not (is_empty (modified_path ev))) (of_modified ev)

selected :
    {B : Type 0} (k : Kind) (category : Text) (actions : List Text) (item : Event → B)
    → ((ev : Event) → of_kind k ev ≡ is_action category actions ev)
    → {xs : List B} (events : List Event) → xs ≡ map item (keep (of_kind k) events)
    → xs ≡ map item (keep (is_action category actions) events)
selected k category actions item same events h = h ∙ ap (map item) (keep-same same events)

-- A report lists exactly the exits (process:exit), the changes (file:write, rename, truncate, chmod,
-- chown and mkdir) of files with a known name, the removals (file:unlink and rmdir), the listeners
-- (network:listen and bind) and the outbound connections (network:connect and send) among the events,
-- one item for each and in their order; an event of any other category or action, as file:read and
-- file:open, is in none of these five lists.
pub report_of-IsSelected :
    (from to : Time) (events : List Event) → IsSelected events (report_of from to events)
unfolding report_of scan_all
report_of-IsSelected from to events = record {
  exited_processes =
      selected exited (codes "process") (codes "exit" ∷ []) process_change of_exited events (
        scan_events-collects (λ s. s.report.exited_processes) (of_kind exited) process_change
          (λ s ev. unfold of_kind in exited_round (kind_of ev) s ev) _ events);
  modified_files =
      scan_events-collects (λ s. s.report.modified_files) modifies
        (λ ev. file_change (modified_path ev) ev) modified_round _ events
      ∙ ap (map (λ ev. file_change (modified_path ev) ev)) (keep-same modifies-is_action events);
  deleted_files =
      selected deleted (codes "file") (codes "unlink" ∷ codes "rmdir" ∷ [])
        (λ ev. file_change ev.path ev) of_deleted events
        (scan_events-collects (λ s. s.report.deleted_files) (of_kind deleted)
          (λ ev. file_change ev.path ev) (λ s ev. unfold of_kind in deleted_round (kind_of ev) s ev)
          _ events);
  new_listeners =
      selected listening (codes "network") (codes "listen" ∷ codes "bind" ∷ [])
        (λ ev. socket_change ev.local_addr ev.local_port ev) of_listening events
        (scan_events-collects (λ s. s.report.new_listeners) (of_kind listening)
          (λ ev. socket_change ev.local_addr ev.local_port ev)
          (λ s ev. unfold of_kind in listening_round (kind_of ev) s ev) _ events);
  outbound_connections =
      selected outbound (codes "network") (codes "connect" ∷ codes "send" ∷ [])
        (λ ev. socket_change ev.remote_addr ev.remote_port ev) of_outbound events
        (scan_events-collects (λ s. s.report.outbound_connections) (of_kind outbound)
          (λ ev. socket_change ev.remote_addr ev.remote_port ev)
          (λ s ev. unfold of_kind in outbound_round (kind_of ev) s ev) _ events);
}
