-- ===== src/Storage/Open/Leaves.antt =====
-- What Open and OpenReadOnly leave behind: no connection when they fail, and what a store was made of.
use ltm.Prelude.{
  ℕ, suc, ◌-◌, ◌≡◌, refl, ap, Bool, true, false, List, [], ◌∷◌, Text, Option, none, some, is_empty,
  map, Bool-cases, inl, inr, Result, ok, err,
}
use ltm.Storage.Event.{Error}
use ltm.Storage.Open.{
  Call, Connection, Files, OpenError, Opening, Stat, pinged, closed, create_at, directory_made, dsn,
  executed, fails, find_at, first, found, in_directory, init_schema, missing, no_schema, not_opened,
  open_read_only, open_store, opened, present, schema_statements, succeeds, unreadable,
}

-- The connections that are open behind the calls, `n` being open before them.
abbrev pub connections : ℕ → List Call → ℕ
connections n [] = n
connections n (directory_made p ∷ calls) = connections n calls
connections n (opened d ∷ calls) = connections (suc n) calls
connections n (executed d s ∷ calls) = connections n calls
connections n (closed d ∷ calls) = connections (n - 1) calls

-- The calls that may change a database or a directory.
abbrev pub writes : List Call → List Call
writes [] = []
writes (directory_made p ∷ calls) = directory_made p ∷ writes calls
writes (opened d ∷ calls) = writes calls
writes (executed d s ∷ calls) = executed d s ∷ writes calls
writes (closed d ∷ calls) = writes calls

abbrev pub schema_calls : Text → List Call
schema_calls at_dsn = map (executed at_dsn) schema_statements

-- Behind a call at `path`: a store has one connection, at the DSN of the path that filepath.Abs gives,
-- and what was written is `made`; an error has no connection.
abbrev pub Leaves :
    Files → Text → Bool → (Text → List Call) → List Call → Result OpenError Connection → Type 0
Leaves f path read_only made calls (err e) = connections 0 calls ≡ 0
Leaves f path read_only made calls (ok c) =
    (connections 0 calls ≡ 1)
    × ((rooted : Text) × (f.absolute path ≡ ok rooted)
        × (c ≡ record { at_dsn = dsn rooted read_only; is_read_only = read_only })
        × (writes calls ≡ made rooted))

abbrev Prepared : Text → List Text → List Call → Result OpenError Connection → Type 0
Prepared at_dsn stmts calls (err e) = connections 1 calls ≡ 0
Prepared at_dsn stmts calls (ok c) =
    (connections 1 calls ≡ 1)
    × (c ≡ record { at_dsn = at_dsn; is_read_only = false })
    × (writes calls ≡ map (executed at_dsn) stmts)

Prepared-first :
    (at_dsn stmt : Text) (rest : List Text) (calls : List Call) (r : Result OpenError Connection)
    → Prepared at_dsn rest calls r
    → Prepared at_dsn (stmt ∷ rest) (executed at_dsn stmt ∷ calls) r
Prepared-first at_dsn stmt rest calls (err e) h = h
Prepared-first at_dsn stmt rest calls (ok c) h = (h.0, h.1, ap (◌∷◌ (executed at_dsn stmt)) h.2)

module _ (f : Files) where
  init_schema-Prepared :
      (at_dsn : Text) (stmts : List Text)
      → Prepared at_dsn stmts (init_schema f at_dsn stmts).calls (init_schema f at_dsn stmts).result
  unfolding init_schema
  init_schema-Prepared at_dsn [] = (refl, refl, refl)
  init_schema-Prepared at_dsn (stmt ∷ rest) =
      go (f.exec at_dsn stmt) (init_schema-Prepared at_dsn rest)
    where
      go :
          (e : Option Error)
          → Prepared at_dsn rest
              (init_schema f at_dsn rest).calls
              (init_schema f at_dsn rest).result
          → let o : Opening = elim e [
            | none ↦ first (executed at_dsn stmt) (init_schema f at_dsn rest)
            | some x ↦ fails (executed at_dsn stmt ∷ closed at_dsn ∷ []) (no_schema x)
          ] in
            Prepared at_dsn (stmt ∷ rest) o.calls o.result
      go none h =
          Prepared-first at_dsn stmt rest (init_schema f at_dsn rest).calls
            (init_schema f at_dsn rest).result h
      go (some x) h = refl

  module _ (path rooted : Text) (resolved : f.absolute path ≡ ok rooted) where
    created :
        (calls : List Call) (r : Result OpenError Connection)
        → Prepared (dsn rooted false) schema_statements calls r
        → Leaves f path false
            (λ p. directory_made p ∷ schema_calls (dsn p false))
            (directory_made rooted ∷ opened (dsn rooted false) ∷ calls)
            r
    created calls (err e) h = h
    created calls (ok c) h = (h.0, (rooted, resolved, h.1, ap (◌∷◌ (directory_made rooted)) h.2))

    in_directory-Leaves :
        (made : Option Error)
        → Leaves f path false
            (λ p. directory_made p ∷ schema_calls (dsn p false))
            (in_directory f rooted made).calls
            (in_directory f rooted made).result
    in_directory-Leaves (some e) = refl
    in_directory-Leaves none = at_open (f.connect (dsn rooted false)) (f.ping (dsn rooted false))
      where
        at_open :
            (o p : Option Error)
            → let next = init_schema f (dsn rooted false) schema_statements in
              let r : Opening = first (directory_made rooted) (elim o [
                | none ↦ pinged f (dsn rooted false) next p
                | some e ↦ fails [] (not_opened e)
              ]) in
              Leaves f path false
                (λ q. directory_made q ∷ schema_calls (dsn q false))
                r.calls
                r.result
        at_open (some e) p = refl
        at_open none (some e) = refl
        at_open none none =
            created (init_schema f (dsn rooted false) schema_statements).calls
              (init_schema f (dsn rooted false) schema_statements).result
              (init_schema-Prepared (dsn rooted false) schema_statements)

    found-Leaves :
        (s : Stat) → Leaves f path true (λ p. []) (found f rooted s).calls (found f rooted s).result
    found-Leaves missing = refl
    found-Leaves (unreadable e) = refl
    found-Leaves present = at_open (f.connect (dsn rooted true)) (f.ping (dsn rooted true))
      where
        at_open :
            (o p : Option Error)
            → let r : Opening = elim o [
              | none ↦ pinged f (dsn rooted true) (succeeds [] (dsn rooted true) true) p
              | some e ↦ fails [] (not_opened e)
            ] in
              Leaves f path true (λ q. []) r.calls r.result
        at_open (some e) p = refl
        at_open none (some e) = refl
        at_open none none = (refl, (rooted, resolved, refl, refl))

  create_at-Leaves :
      (path : Text) (r : Result Error Text)
      → f.absolute path ≡ r
      → Leaves f path false
          (λ p. directory_made p ∷ schema_calls (dsn p false))
          (create_at f r).calls
          (create_at f r).result
  create_at-Leaves path (err e) h = refl
  create_at-Leaves path (ok rooted) h = in_directory-Leaves path rooted h (f.make_directory rooted)

  find_at-Leaves :
      (path : Text) (r : Result Error Text)
      → f.absolute path ≡ r
      → Leaves f path true (λ p. []) (find_at f r).calls (find_at f r).result
  find_at-Leaves path (err e) h = refl
  find_at-Leaves path (ok rooted) h = found-Leaves path rooted h (f.stat rooted)

  open_store-Leaves :
      (path : Text)
      → Leaves f path false
          (λ p. directory_made p ∷ schema_calls (dsn p false))
          (open_store f path).calls
          (open_store f path).result
  unfolding open_store
  open_store-Leaves path = elim (Bool-cases (is_empty path)) [
    | inl e ↦ rw e refl
    | inr e ↦ rw e (create_at-Leaves path (f.absolute path) refl)
  ]

  open_read_only-Leaves :
      (path : Text)
      → Leaves f path true (λ p. []) (open_read_only f path).calls (open_read_only f path).result
  unfolding open_read_only
  open_read_only-Leaves path = elim (Bool-cases (is_empty path)) [
    | inl e ↦ rw e refl
    | inr e ↦ rw e (find_at-Leaves path (f.absolute path) refl)
  ]

-- Open and OpenReadOnly on every branch. An error leaves no connection open. A store has exactly one
-- connection, at the DSN of the path that filepath.Abs gives; for Open, its directory was made and then
-- every statement of the schema was run at that DSN, in order; for OpenReadOnly, nothing was written.
pub opening-Leaves :
    (f : Files) (path : Text)
    → Leaves f path false
        (λ p. directory_made p ∷ schema_calls (dsn p false))
        (open_store f path).calls
        (open_store f path).result
      × Leaves f path true (λ p. []) (open_read_only f path).calls (open_read_only f path).result
opening-Leaves f path = (open_store-Leaves f path, open_read_only-Leaves f path)
