-- ===== src/Cli/Maintain/Tails.antt =====
-- The loop of runWatch in internal/cli/commands_runtime.go against a log that grows between the ticks.
use mathlib.Core.Path.{subst}
use ltm.Prelude.{
  ℕ, zero, suc, ◌+◌, ◌*◌, ◌≤◌, ◌<◌, ◌≡◌, refl, sym, ap, ◌∙◌, ℤ, Bool, List, [], ◌∷◌, ◌++◌, Option,
  none, take, drop, keep, keep-append, length, length-append, length-drop, take-append, drop-append,
  replicate, All, append_assoc, append-nil, arith, Result,
}
use ltm.Cli.Maintain.{watch_ticks}
use ltm.Cli.Watch.Delivers.{batch, fetched, print_events-Printed}
use ltm.Cli.Watch.Places.{
  At, At-begins, IsAscending, newer, newer_now, newer_of_new, take-drop, take_within,
}
use ltm.Cli.Watch.{Watch, print_events, watch_step}
use ltm.Storage.Event.{Error, Event}

-- What is logged, one list before each tick.
abbrev pub logged_by : List (List Event) → List Event
logged_by [] = []
logged_by (new ∷ later) = new ++ logged_by later

module _ (match_event : Event → Bool) (write : List Event → Event → Option Error)
    (works : (p : List Event) (ev : Event) → write p ev ≡ none) (limit : ℤ) where
  -- What EventsAfterID finds: at each tick behind what is logged before it, and at some more ticks.
  abbrev pub polled : List Event → List (List Event) → ℕ → List (ℕ → ℤ → Result Error (List Event))
  polled log [] more = replicate more (fetched match_event write works log)
  polled log (new ∷ later) more =
      fetched match_event write works (log ++ new) ∷ polled (log ++ new) later more

  pub record IsPrinted (w : Watch) (events : List Event) (r : Watch × Option Error) : Type 0 where
    pub no_error : r.1 ≡ none
    pub printed : r.0.printed ≡ w.printed ++ keep match_event events

  record IsTick (log rest future : List Event) (w : Watch) (r : Watch × Option Error) : Type 0 where
    no_error : r.1 ≡ none
    printed :
        r.0.printed
        ≡ w.printed ++ keep match_event (take (batch match_event write works limit) rest)
    at : At (log ++ future) r.0.last_id (drop (batch match_event write works limit) rest ++ future)

  watch_step-IsTick :
      (log rest future : List Event) (w : Watch)
      → At (log ++ future) w.last_id (rest ++ future)
      → IsTick log rest future w
          (watch_step match_event write (fetched match_event write works log) limit w)
  unfolding watch_step
  watch_step-IsTick log rest future w at =
      let (n, h, t, d) = take_within (batch match_event write works limit) rest in
      let first : take n (rest ++ future) ≡ take (batch match_event write works limit) rest =
        take-append n rest future h ∙ t in
      let p = print_events-Printed match_event write works n w (rest ++ future) at in
      rw (newer_now log rest future w.last_id at) (
        subst (λ xs. IsTick log rest future w (print_events match_event write xs w)) first
          (record {
            no_error = p.no_error;
            printed = p.printed ∙ ap (λ xs. w.printed ++ keep match_event xs) first;
            at =
                subst (At (log ++ future) _)
                  (drop-append n rest future h ∙ ap (λ xs. xs ++ future) d) p.at;
          }))

  -- What a tick leaves, and what is logged before the next one.
  At-logged :
      (log rest new later : List Event) (last : ℕ)
      → At (log ++ (new ++ later)) last (rest ++ (new ++ later))
      → At ((log ++ new) ++ later) last ((rest ++ new) ++ later)
  At-logged log rest new later last at =
      subst (λ xs. At xs last ((rest ++ new) ++ later)) (sym (append_assoc log new later))
        (subst (At (log ++ (new ++ later)) last) (sym (append_assoc rest new later)) at)

  kept-take-drop :
      (n : ℕ) (before rest future : List Event)
      → (before ++ keep match_event (take n rest)) ++ keep match_event (drop n rest ++ future)
        ≡ before ++ keep match_event (rest ++ future)
  kept-take-drop n before rest future =
      append_assoc before (keep match_event (take n rest))
        (keep match_event (drop n rest ++ future))
      ∙ ap (λ xs. before ++ xs)
          (sym (keep-append match_event (take n rest) (drop n rest ++ future))
            ∙ ap (keep match_event) (
                sym (append_assoc (take n rest) (drop n rest) future)
                ∙ ap (λ xs. xs ++ future) (take-drop n rest)))

  -- The ticks behind one that has printed a first part.
  go_on :
      (log rest future : List Event) (w : Watch) (fetch : ℕ → ℤ → Result Error (List Event))
      (ticks : List (ℕ → ℤ → Result Error (List Event)))
      → IsTick log rest future w (watch_step match_event write fetch limit w)
      → IsPrinted
          (watch_step match_event write fetch limit w).0
          (drop (batch match_event write works limit) rest ++ future)
          (watch_ticks match_event write ticks limit (watch_step match_event write fetch limit w).0)
      → IsPrinted w (rest ++ future) (watch_ticks match_event write (fetch ∷ ticks) limit w)
  unfolding watch_ticks
  go_on log rest future w fetch ticks t p =
      rw (watch_ticks, t.no_error)
        (record {
          no_error = p.no_error;
          printed =
              p.printed
              ∙ ap
                  (λ xs.
                    xs
                    ++ keep match_event (drop (batch match_event write works limit) rest ++ future))
                  t.printed
              ∙ kept-take-drop (batch match_event write works limit) w.printed rest future;
        })

  nothing_left : (xs : List Event) (n : ℕ) → length xs ≤ 0 * n → xs ≡ []
  nothing_left [] n h = refl
  nothing_left (x ∷ xs) n h = absurd (omega arith)

  ticks-IsPrinted :
      (news : List (List Event)) (more : ℕ) (log rest : List Event) (w : Watch)
      → At (log ++ logged_by news) w.last_id (rest ++ logged_by news)
      → length (rest ++ logged_by news) ≤ more * batch match_event write works limit
      → IsPrinted w
          (rest ++ logged_by news)
          (watch_ticks match_event write (polled log news more) limit w)
  unfolding watch_ticks
  ticks-IsPrinted [] zero log rest w at h =
      rw (nothing_left (rest ++ []) (batch match_event write works limit) h)
        (record { no_error = refl; printed = sym (append-nil w.printed) })
  ticks-IsPrinted [] (suc more) log rest w at h =
      let t = watch_step-IsTick log rest [] w at in
      go_on log rest [] w (fetched match_event write works log)
        (replicate more (fetched match_event write works log)) t
        (ticks-IsPrinted [] more log (drop (batch match_event write works limit) rest) _ t.at
          (fewer (batch match_event write works limit) more rest h))
    where
      fewer :
          (b more : ℕ) (rest : List Event)
          → length (rest ++ []) ≤ suc more * b
          → length (drop b rest ++ []) ≤ more * b
      fewer b more rest h =
          let e : suc more * b ≡ more * b + b = ground arith in
          omega
            (arith, h, e, length-append rest [], length-append (drop b rest) [], length-drop b rest)
  ticks-IsPrinted (new ∷ later) more log rest w at h =
      let moved = At-logged log rest new (logged_by later) w.last_id at in
      let t = watch_step-IsTick (log ++ new) (rest ++ new) (logged_by later) w moved in
      subst
        (λ xs.
          IsPrinted w xs (watch_ticks match_event write (polled log (new ∷ later) more) limit w))
        (append_assoc rest new (logged_by later))
        (go_on (log ++ new) (rest ++ new) (logged_by later) w
          (fetched match_event write works (log ++ new)) (polled (log ++ new) later more) t
          (ticks-IsPrinted later more (log ++ new)
            (drop (batch match_event write works limit) (rest ++ new)) _ t.at
            (fewer (batch match_event write works limit) (rest ++ new) (logged_by later)
              (omega (arith, h, ap length (append_assoc rest new (logged_by later)))))))
    where
      fewer :
          (b : ℕ) (xs ys : List Event) {n : ℕ}
          → length (xs ++ ys) ≤ n
          → length (drop b xs ++ ys) ≤ n
      fewer b xs ys h =
          omega (arith, h, length-append xs ys, length-append (drop b xs) ys, length-drop b xs)

  -- With a writer that does not fail, and a log whose ids ascend and which grows between the ticks
  -- behind the watch's id: if so many ticks follow the last new event that their batches have room for
  -- all events behind the id, the loop of runWatch ends with no error and has printed, behind what it had
  -- printed, every event behind its id that matches, once and in order, and no other.
  pub watch_ticks-IsPrinted :
      (w : Watch) (log : List Event) (news : List (List Event)) (more : ℕ)
      → IsAscending (log ++ logged_by news)
      → All (λ e. w.last_id < e.id) (logged_by news)
      → length (newer w.last_id (log ++ logged_by news))
        ≤ more * batch match_event write works limit
      → IsPrinted w
          (newer w.last_id (log ++ logged_by news))
          (watch_ticks match_event write (polled log news more) limit w)
  watch_ticks-IsPrinted w log news more ascending behind enough =
      let e : newer w.last_id (log ++ logged_by news) ≡ newer w.last_id log ++ logged_by news =
        keep-append _ log (logged_by news)
        ∙ ap (λ xs. newer w.last_id log ++ xs) (newer_of_new w.last_id (logged_by news) behind) in
      subst (λ xs. IsPrinted w xs (watch_ticks match_event write (polled log news more) limit w))
        (sym e)
        (ticks-IsPrinted news more log (newer w.last_id log) w
          (subst (At (log ++ logged_by news) w.last_id) e
            (At-begins w.last_id (log ++ logged_by news) ascending))
          (omega (arith, enough, ap length e)))
