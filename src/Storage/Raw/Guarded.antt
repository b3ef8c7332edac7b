-- ===== src/Storage/Raw/Guarded.antt =====
-- What RawSQL runs, and which rows it returns.
use ltm.Prelude.{
  ℕ, suc, ◌+◌, ◌≤◌, ◌<◌, ◌≡◌, refl, ap, ◌∙◌, true, false, List, [], ◌∷◌, Text, none, leb, map,
  length, arith, if◌then◌else◌, Bool-cases, inl, inr, Result, ok, err, ◌>>=◌,
}
use ltm.SqlText.Machine.{plain, separated}
use ltm.Storage.Event.{Error, too_many_rows}
use ltm.Storage.Raw.{max_raw_sql_rows, Answer, raw_rows, raw_sql}
use ltm.Storage.Statements.{has_multiple_statements, is_code, has_multiple_statements-coded}
use ltm.Storage.Write.{Database, Store}

module _ {Cell : Type 0} where
  raw_rows_full :
      (n : ℕ) (r : Result Error (List Cell)) (rows : List (Result Error (List Cell)))
      → leb max_raw_sql_rows n ≡ true
      → raw_rows n (r ∷ rows) ≡ err too_many_rows
  unfolding raw_rows
  raw_rows_full n r rows e = rw (e, raw_rows) refl

  raw_rows_room :
      (n : ℕ) (r : List Cell) (rows : List (Result Error (List Cell)))
      → leb max_raw_sql_rows n ≡ false
      → raw_rows n (ok r ∷ rows) ≡ (raw_rows (suc n) rows >>= (λ rest. ok (r ∷ rest)))
  unfolding raw_rows
  raw_rows_room n r rows e = rw (e, raw_rows) refl

  raw_rows-all :
      (n : ℕ) (rows : List (List Cell))
      → n + length rows ≤ max_raw_sql_rows
      → raw_rows n (map ok rows) ≡ ok rows
  raw_rows-all n [] h = unfold raw_rows in refl
  raw_rows-all n (r ∷ rows) h =
      raw_rows_room n r (map ok rows) (ground (arith, h))
      ∙ ap (λ x. x >>= (λ rest. ok (r ∷ rest))) (raw_rows-all (suc n) rows (omega arith))

  raw_rows-too_many :
      (n : ℕ) (rows : List (List Cell))
      → n ≤ max_raw_sql_rows
      → max_raw_sql_rows < n + length rows
      → raw_rows n (map ok rows) ≡ err too_many_rows
  raw_rows-too_many n [] h m = absurd (omega arith)
  raw_rows-too_many n (r ∷ rows) h m = elim (Bool-cases (leb max_raw_sql_rows n)) [
    | inl e ↦ raw_rows_full n (ok r) (map ok rows) e
    | inr e ↦
        raw_rows_room n r (map ok rows) e
        ∙ ap (λ x. x >>= (λ rest. ok (r ∷ rest)))
            (raw_rows-too_many (suc n) rows (ground (arith, e)) (omega arith))
  ]

  -- On a read-only store, for a query with no separator in plain SQL that has more than white space
  -- behind it, and if the driver answers with rows that scan: RawSQL returns the columns and all the
  -- rows, or the error that they are more than max_raw_sql_rows.
  pub raw_sql-answered :
      {d : Database} (db : Text → Result Error (Answer Cell)) (s : Store d) (query : Text)
      (columns : List Text) (rows : List (List Cell))
      → s.is_read_only ≡ true
      → separated is_code plain query ≡ false
      → db query ≡ ok (record { columns = columns; rows = map ok rows; rows_error = none })
      → raw_sql db s query
        ≡ (if leb (length rows) max_raw_sql_rows then ok (columns, rows) else err too_many_rows)
  unfolding raw_sql
  raw_sql-answered db s query columns rows e single answers =
      rw (e, has_multiple_statements-coded query ∙ single, answers)
        (elim (Bool-cases (leb (length rows) max_raw_sql_rows)) [
          | inl m ↦ rw (m, raw_rows-all 0 rows (ground (arith, m))) refl
          | inr m ↦ rw (m, raw_rows-too_many 0 rows (omega arith) (ground (arith, m))) refl
        ])

  -- RawSQL succeeds only on a read-only store, and only for a query that has_multiple_statements does
  -- not take for several statements.
  pub raw_sql-guarded :
      {d : Database} (db : Text → Result Error (Answer Cell)) (s : Store d) (query : Text)
      {out : List Text × List (List Cell)}
      → raw_sql db s query ≡ ok out
      → (s.is_read_only ≡ true) × (has_multiple_statements query ≡ false)
  unfolding raw_sql
  raw_sql-guarded db s query = elim (Bool-cases s.is_read_only) [
    | inr e ↦ rw e (λ h. absurd (cc))
    | inl e ↦ elim (Bool-cases (has_multiple_statements query)) [
      | inl m ↦ rw (e, m) (λ h. absurd (cc))
      | inr m ↦ λ h. (e, m)
    ]
  ]
