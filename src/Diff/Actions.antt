-- ===== src/Diff/Actions.antt =====
-- The switch of Diff in internal/diff/engine.go, on the category and the action joined by a colon, as
-- categories with their actions.
use ltm.Prelude.{
  ◌≡◌, refl, sym, ap, ◌∙◌, Bool, true, false, ◌&&◌, List, [], ◌∷◌, ◌++◌, Text, codes, map, keep,
  member, any, ◌==◌, text_eq, text_eq_iff, All, arith, if◌then◌else◌, Bool-cases, inl, inr,
}
use ltm.Diff.Report.{
  Kind, deleted, event_kind, exited, kind_of, listening, modified, other, outbound, started,
}
use ltm.Storage.Event.{Event}

unfoldable pub is_kind : Kind → Kind → Bool
is_kind started started = true
is_kind exited exited = true
is_kind modified modified = true
is_kind deleted deleted = true
is_kind listening listening = true
is_kind outbound outbound = true
is_kind other other = true
is_kind _ _ = false

unfoldable pub of_kind : Kind → Event → Bool
of_kind k ev = is_kind (kind_of ev) k

-- An event of the category, with one of the actions.
abbrev pub is_action : Text → List Text → Event → Bool
is_action category actions ev = text_eq category ev.category && member ev.action actions

abbrev pub changes : List Text
changes =
    codes "write"
    ∷ codes "rename"
    ∷ codes "truncate"
    ∷ codes "chmod"
    ∷ codes "chown"
    ∷ codes "mkdir"
    ∷ []

abbrev NoColon : Text → Type 0
NoColon s = any (λ c. c == b':') s ≡ false

NoColon-append : (k s t : Text) → NoColon k → text_eq k (s ++ b':' ∷ t) ≡ false
unfolding text_eq
NoColon-append [] [] t h = refl
NoColon-append [] (c ∷ s) t h = refl
NoColon-append (x ∷ k) [] t h = ground arith
NoColon-append (x ∷ k) (c ∷ s) t h = ground (arith, NoColon-append k s t)

-- A key without further colons is one category and one action.
text_eq-key :
    (k l s t : Text)
    → NoColon k
    → NoColon l
    → text_eq (k ++ b':' ∷ l) (s ++ b':' ∷ t) ≡ (text_eq k s && text_eq l t)
unfolding text_eq
text_eq-key [] l [] t h i = refl
text_eq-key [] l (c ∷ s) t h i = ground (arith, NoColon-append l s t i)
text_eq-key (x ∷ k) l [] t h i = ground arith
text_eq-key (x ∷ k) l (c ∷ s) t h i = ground (arith, text_eq-key k l s t)

member-keys :
    (k : Text) (actions : List Text) (ev : Event)
    → NoColon k
    → All NoColon actions
    → member (ev.category ++ (codes ":" ++ ev.action)) (map (λ a. k ++ b':' ∷ a) actions)
      ≡ is_action k actions ev
member-keys k [] ev h all = ground arith
member-keys k (a ∷ actions) ev h (i, all) =
    ground (arith, text_eq-key k a ev.category ev.action h i, member-keys k actions ev h all)

event_kind-member :
    (k : Kind) (key : Text) (keys : List Text)
    → All (λ j. is_kind (event_kind j) k ≡ true) keys
    → member key keys ≡ true
    → is_kind (event_kind key) k ≡ true
event_kind-member k key [] all h = absurd (cc h)
event_kind-member k key (j ∷ keys) (i, all) h = elim (Bool-cases (text_eq j key)) [
  | inl e ↦ ap (λ x. is_kind (event_kind x) k) (sym ((text_eq_iff j key).0 e)) ∙ i
  | inr e ↦ event_kind-member k key keys all (ground (arith, e, h))
]

both_ways : (a b : Bool) → (a ≡ true → b ≡ true) → (b ≡ true → a ≡ true) → a ≡ b
both_ways true b f g = sym (f refl)
both_ways false true f g = g refl
both_ways false false f g = refl

-- The kind is that of exactly these actions.
of_actions :
    (k : Kind) (category : Text) (actions : List Text) (ev : Event)
    → NoColon category
    → All NoColon actions
    → All (λ j. is_kind (event_kind j) k ≡ true) (map (λ a. category ++ b':' ∷ a) actions)
    → ((key : Text)
        → is_kind (event_kind key) k ≡ true
        → member key (map (λ a. category ++ b':' ∷ a) actions) ≡ true)
    → of_kind k ev ≡ is_action category actions ev
unfolding of_kind kind_of
of_actions k category actions ev h all to from =
    let key = ev.category ++ (codes ":" ++ ev.action) in
    both_ways (is_kind (event_kind key) k) (member key (map (λ a. category ++ b':' ∷ a) actions))
      (from key) (event_kind-member k key (map (λ a. category ++ b':' ∷ a) actions) to)
    ∙ member-keys category actions ev h all

-- The switch on what its cases' tests give.
abbrev chosen : Bool → Bool → Bool → Bool → Bool → Bool → Kind
chosen a b c d e f =
    if a
    then started
    else if b
    then exited
    else if c
    then modified
    else if d
    then deleted
    else if e
    then listening
    else if f
    then outbound
    else other

module _ (a b c d e f : Bool) where
  only_exited : is_kind (chosen a b c d e f) exited ≡ true → b ≡ true
  unfolding is_kind
  only_exited h = ground (arith, h)

  only_modified : is_kind (chosen a b c d e f) modified ≡ true → c ≡ true
  unfolding is_kind
  only_modified h = ground (arith, h)

  only_deleted : is_kind (chosen a b c d e f) deleted ≡ true → d ≡ true
  unfolding is_kind
  only_deleted h = ground (arith, h)

  only_listening : is_kind (chosen a b c d e f) listening ≡ true → e ≡ true
  unfolding is_kind
  only_listening h = ground (arith, h)

  only_outbound : is_kind (chosen a b c d e f) outbound ≡ true → f ≡ true
  unfolding is_kind
  only_outbound h = ground (arith, h)

pub of_exited :
    (ev : Event) → of_kind exited ev ≡ is_action (codes "process") (codes "exit" ∷ []) ev
unfolding event_kind is_kind text_eq
of_exited ev =
    of_actions exited (codes "process") (codes "exit" ∷ []) ev refl (refl, tt) (refl, tt)
      (λ key h. only_exited _ _ _ _ _ _ h)

pub of_modified : (ev : Event) → of_kind modified ev ≡ is_action (codes "file") changes ev
unfolding event_kind is_kind text_eq
of_modified ev =
    of_actions modified (codes "file") changes ev refl
      (refl, (refl, (refl, (refl, (refl, (refl, tt))))))
      (refl, (refl, (refl, (refl, (refl, (refl, tt)))))) (λ key h. only_modified _ _ _ _ _ _ h)

pub of_deleted :
    (ev : Event)
    → of_kind deleted ev ≡ is_action (codes "file") (codes "unlink" ∷ codes "rmdir" ∷ []) ev
unfolding event_kind is_kind text_eq
of_deleted ev =
    of_actions deleted (codes "file") (codes "unlink" ∷ codes "rmdir" ∷ []) ev refl
      (refl, (refl, tt)) (refl, (refl, tt)) (λ key h. only_deleted _ _ _ _ _ _ h)

pub of_listening :
    (ev : Event)
    → of_kind listening ev ≡ is_action (codes "network") (codes "listen" ∷ codes "bind" ∷ []) ev
unfolding event_kind is_kind text_eq
of_listening ev =
    of_actions listening (codes "network") (codes "listen" ∷ codes "bind" ∷ []) ev refl
      (refl, (refl, tt)) (refl, (refl, tt)) (λ key h. only_listening _ _ _ _ _ _ h)

pub of_outbound :
    (ev : Event)
    → of_kind outbound ev ≡ is_action (codes "network") (codes "connect" ∷ codes "send" ∷ []) ev
unfolding event_kind is_kind text_eq
of_outbound ev =
    of_actions outbound (codes "network") (codes "connect" ∷ codes "send" ∷ []) ev refl
      (refl, (refl, tt)) (refl, (refl, tt)) (λ key h. only_outbound _ _ _ _ _ _ h)

pub keep-same :
    {p q : Event → Bool}
    → ((ev : Event) → p ev ≡ q ev)
    → (events : List Event) → keep p events ≡ keep q events
keep-same same [] = refl
keep-same same (ev ∷ events) = rw (same ev, keep-same same events) refl
