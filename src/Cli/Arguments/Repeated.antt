-- ===== src/Cli/Arguments/Repeated.antt =====
-- Every filter of `timeline` can be asked for by flags: the flags that a filter is written as are read
-- back, repeated ones in their order.
use ltm.Prelude.{
  ℕ, suc, ◌+◌, ◌≤◌, ◌≡◌, refl, sym, ap, ◌∙◌, ℤ, pos, negsuc, true, false, List, [], ◌∷◌, ◌++◌, Text,
  codes, text_eq, Option, some, All, leb, arith, append_assoc, append-nil, ok,
}
use ltm.Go.FlagSet.{Spec, dashed, parse, parse_args, set_or, take_dashed, with_next}
use ltm.Go.Numbers.{atoi, decimal, itoa, max_int, natural}
use ltm.Go.Strings.{cut, strip_prefix}
use ltm.Query.Numbers.{atoi-decimal, natural-decimal}
use ltm.Cli.Arguments.{
  Readers, TimelineArgs, no_timeline, parse_timeline, stored_by, timeline_put, timeline_specs,
}
use ltm.Cli.Flags.{Config}
use ltm.Cli.Timeline.{TimelineFlags}

-- The range of Go's int.
abbrev pub InInt : ℤ → Type 0
InInt (pos n) = n ≤ max_int
InInt (negsuc n) = n ≤ max_int

natural-decimal-suc : (n : ℕ) → natural (decimal (n + 1)) ≡ some (suc n)
natural-decimal-suc n =
    let same : n + 1 ≡ suc n = omega arith in natural-decimal (n + 1) ∙ ap some same

-- strconv.Atoi reads what strconv.Itoa has written.
atoi-itoa : (n : ℤ) → InInt n → atoi (itoa n) ≡ some n
unfolding itoa
atoi-itoa (pos n) h = atoi-decimal n h
atoi-itoa (negsuc n) h =
    let fits : leb n max_int ≡ true = ground arith in
    unfold atoi in rw (natural-decimal-suc n) (rw fits refl)

-- A flag before each value.
abbrev pub each : {A : Type 0} → Text → (A → Text) → List A → List Text
each word show [] = []
each word show (a ∷ xs) = word ∷ show a ∷ each word show xs

abbrev put_all : {S A : Type 0} → (A → S → S) → List A → S → S
put_all put [] s = s
put_all put (a ∷ xs) s = put_all put xs (put a s)

module _ {S : Type 0} (specs : List (Spec S)) (word : Text) where
  parse_args-one :
      (value : Text) (rest : List Text) (s t : S)
      → take_dashed specs (value ∷ rest) s (dashed word) ≡ with_next t
      → parse_args specs false s (word ∷ value ∷ rest) ≡ parse_args specs false t rest
  unfolding parse_args
  parse_args-one value rest s t e = rw (parse_args, e) refl

module _ {S A : Type 0} (specs : List (Spec S)) (word : Text) (show : A → Text)
    (put : A → S → S) where
  parse_args-each :
      (P : A → Type 0)
      → ((a : A) (rest : List Text) (s : S)
          → P a
          → take_dashed specs (show a ∷ rest) s (dashed word) ≡ with_next (put a s))
      → (xs : List A) (rest : List Text) (s : S) → All P xs
      → parse_args specs false s (each word show xs ++ rest)
        ≡ parse_args specs false (put_all put xs s) rest
  unfolding parse_args
  parse_args-each P takes [] rest s h = refl
  parse_args-each P takes (a ∷ xs) rest s h =
      rw (parse_args, takes a (each word show xs ++ rest) s h.0)
        (parse_args-each P takes xs rest (put a s) h.1)

  -- The same, where the values go behind those that are there.
  parse_args-each_onto :
      (P : A → Type 0) (set : List A → S)
      → ((a : A) (rest : List Text) (s : S)
          → P a
          → take_dashed specs (show a ∷ rest) s (dashed word) ≡ with_next (put a s))
      → ((a : A) (ys : List A) → put a (set ys) ≡ set (ys ++ a ∷ []))
      → (xs : List A) (rest : List Text) → All P xs
      → parse_args specs false (set []) (each word show xs ++ rest)
        ≡ parse_args specs false (set xs) rest
  parse_args-each_onto P set takes puts xs rest h =
      parse_args-each P takes xs rest (set []) h
      ∙ ap (λ s. parse_args specs false s rest) (all xs [])
    where
      all : (zs ys : List A) → put_all put zs (set ys) ≡ set (ys ++ zs)
      all [] ys = ap set (sym (append-nil ys))
      all (z ∷ zs) ys =
          ap (put_all put zs) (puts z ys)
          ∙ all zs (ys ++ z ∷ [])
          ∙ ap set (append_assoc ys (z ∷ []) zs)

-- The arguments that ask for a filter.
abbrev pub timeline_words : TimelineFlags → List Text
timeline_words f =
    (codes "--since"
      ∷ f.since
      ∷ codes "--until"
      ∷ f.until
      ∷ codes "--limit"
      ∷ itoa f.limit
      ∷ codes "--path"
      ∷ f.path_like
      ∷ codes "--exe"
      ∷ f.exe_like
      ∷ [])
    ++ (each (codes "--pid") itoa f.pids
        ++ (each (codes "--uid") itoa f.uids
            ++ (each (codes "--category") (λ v. v) f.categories
                ++ (each (codes "--action") (λ v. v) f.actions
                    ++ (each (codes "--comm") (λ v. v) f.comms ++ [])))))

module _ (r : Readers) (cfg : Config) (f : TimelineFlags) where
  -- What has been read when the lists are so far.
  abbrev so_far : List ℤ → List ℤ → List Text → List Text → List Text → TimelineArgs
  so_far pids uids categories actions comms = record {
    flags = record f {
      pids = pids;
      uids = uids;
      categories = categories;
      actions = actions;
      comms = comms;
    };
    json = cfg.json;
  }

  abbrev Any : Text → Type 0
  Any v = Unit

  everything : (vs : List Text) → All Any vs
  everything [] = tt
  everything (v ∷ vs) = (tt, everything vs)

  abbrev put_pids : ℤ → TimelineArgs → TimelineArgs
  put_pids v = timeline_put (λ g. record g { pids = g.pids ++ v ∷ [] })

  abbrev put_uids : ℤ → TimelineArgs → TimelineArgs
  put_uids v = timeline_put (λ g. record g { uids = g.uids ++ v ∷ [] })

  taken :
      (name : Text) (put : ℤ → TimelineArgs → TimelineArgs) (n : ℤ) (s : TimelineArgs)
      → InInt n
      → set_or with_next name (itoa n) (stored_by put (atoi (itoa n)) s) ≡ with_next (put n s)
  taken name put n s h =
      ap (λ (o : Option ℤ). set_or with_next name (itoa n) (stored_by put o s)) (atoi-itoa n h)

  lists_read :
      All InInt f.pids
      → All InInt f.uids
      → parse_args (timeline_specs r) false (so_far [] [] [] [] []) (
          each (codes "--pid") itoa f.pids
          ++ (each (codes "--uid") itoa f.uids
              ++ (each (codes "--category") (λ v. v) f.categories
                  ++ (each (codes "--action") (λ v. v) f.actions
                      ++ (each (codes "--comm") (λ v. v) f.comms ++ [])))))
        ≡ ok (so_far f.pids f.uids f.categories f.actions f.comms, [])
  unfolding dashed cut strip_prefix text_eq
  lists_read pids uids =
      parse_args-each_onto (timeline_specs r) (codes "--pid") itoa put_pids InInt
        (λ ps. so_far ps [] [] [] []) (λ n rest s h. taken (codes "pid") put_pids n s h)
        (λ n ys. refl) f.pids _ pids
      ∙ parse_args-each_onto (timeline_specs r) (codes "--uid") itoa put_uids InInt
          (λ us. so_far f.pids us [] [] []) (λ n rest s h. taken (codes "uid") put_uids n s h)
          (λ n ys. refl) f.uids _ uids
      ∙ parse_args-each_onto (timeline_specs r) (codes "--category") (λ v. v)
          (λ v. timeline_put (λ g. record g { categories = g.categories ++ v ∷ [] })) Any
          (λ vs. so_far f.pids f.uids vs [] []) (λ v rest s h. refl) (λ v ys. refl) f.categories _
          (everything f.categories)
      ∙ parse_args-each_onto (timeline_specs r) (codes "--action") (λ v. v)
          (λ v. timeline_put (λ g. record g { actions = g.actions ++ v ∷ [] })) Any
          (λ vs. so_far f.pids f.uids f.categories vs []) (λ v rest s h. refl) (λ v ys. refl)
          f.actions _ (everything f.actions)
      ∙ parse_args-each_onto (timeline_specs r) (codes "--comm") (λ v. v)
          (λ v. timeline_put (λ g. record g { comms = g.comms ++ v ∷ [] })) Any
          (λ vs. so_far f.pids f.uids f.categories f.actions vs) (λ v rest s h. refl) (λ v ys. refl)
          f.comms _ (everything f.comms)
      ∙ unfold parse_args in refl

  -- For a limit that ParseInt reads back and lists of ints, `timeline` reads the flags that a filter is
  -- written as back into that filter, whatever texts it has, also such as begin with a dash; nothing is
  -- left of the arguments, and --json is as the global flags have set it.
  pub parse_timeline-timeline_words :
      r.parse_int (itoa f.limit) ≡ some f.limit
      → All InInt f.pids
      → All InInt f.uids
      → parse_timeline r cfg (timeline_words f) ≡ ok (record { flags = f; json = cfg.json }, [])
  unfolding parse_timeline parse parse_args dashed cut strip_prefix text_eq
  parse_timeline-timeline_words limit pids uids =
      parse_args-one (timeline_specs r) (codes "--limit") (itoa f.limit) _
        (record {
          flags = record no_timeline { since = f.since; until = f.until };
          json = cfg.json;
        })
        (record {
          flags = record no_timeline { since = f.since; until = f.until; limit = f.limit };
          json = cfg.json;
        })
        (ap
          (λ (o : Option ℤ). set_or with_next (codes "limit") (itoa f.limit) (
            stored_by (λ v. timeline_put (λ g. record g { limit = v })) o
              (record {
                flags = record no_timeline { since = f.since; until = f.until };
                json = cfg.json;
              })))
          limit)
      ∙ lists_read pids uids
