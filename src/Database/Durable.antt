-- ===== src/Database/Durable.antt =====
-- What a transaction makes of the table, and what the next one reads (`submissionTransaction` of
-- codex/submission_database.go, around an action that changes the maps and writes them).
use codex_web.Common.{
  String, ◌≡◌, ◌⊎◌, refl, sym, ap, ◌∙◌, subst, Bool, true, Option, none, some, arith, if◌then◌else◌,
  Bool-cases, Option-cases, inl, inr,
}
use codex_web.Errors
use codex_web.Errors.{Error, Outcome, ok, err, panic, Outcome-cases}
use codex_web.Library.{Library}
use codex_web.Ledger.Types.{Ledger}
use codex_web.Database.Session.{Beginning, begun, unavailable}
use codex_web.Database.Keys.{SubmissionKey, KeyMap, row_at}
use codex_web.Database.Rows.{Row, Sql, Codec, SubmissionScope, in_scope}
use codex_web.Database.Session.{
  Session, then_do, delete_rows, write_rows, is_written, row_of, claim_of, write_records,
  submission_records, read_records, submission_transaction,
}
use codex_web.Database.Records.{submission_records-IsMap}
use codex_web.Database.Written.{fetch-delete_rows, fetch-write_rows, write_rows-fetched, then_do-ok}
use codex_web.Database.Read.{read_records-before, read_records-table}

module _ {Bytes Table : Type 0} (lib : Library) (codec : Codec Bytes) (sql : Sql Bytes Table) where
  abbrev pub payload_at : SubmissionKey → Table → Option Bytes
  payload_at j t = elim (sql.fetch j t) [ none ↦ none | some row ↦ some row.payload ]

  -- A successful write is of the records, by the two loops.
  pub write_records-steps :
      (s : Session Bytes Table)
      → (write_records lib codec sql s).0 ≡ ok tt
      → (records : KeyMap Bytes) × (submission_records lib codec sql s.memory ≡ ok records)
        × ((delete_rows lib codec sql s.before records s.table).0 ≡ ok tt)
        × ((write_rows lib codec sql records s.before s.memory
              (delete_rows lib codec sql s.before records s.table).1).0
            ≡ ok tt)
        × ((write_records lib codec sql s).1.table
            ≡ (write_rows lib codec sql records s.before s.memory
                (delete_rows lib codec sql s.before records s.table).1).1)
  unfolding write_records
  write_records-steps s h = elim (Outcome-cases (submission_records lib codec sql s.memory)) [
    | inr (inl (x, e)) ↦ absurd (ground (arith, e, h))
    | inr (inr e) ↦ absurd (ground (arith, e, h))
    | inl (records, e) ↦
        let first = delete_rows lib codec sql s.before records s.table in
        let second = write_rows lib codec sql records s.before s.memory in
        let both = then_do first second in
        elim (Outcome-cases both.0) [
          | inr (inl (x, f)) ↦ absurd (ground (arith, e, f, h))
          | inr (inr f) ↦ absurd (ground (arith, e, f, h))
          | inl (u, f) ↦
              let (done, after, more) = then_do-ok first second f in
              (records, e, done, more, ground (arith, e, f, after))
        ]
  ]

  row_of-payload :
      (k : SubmissionKey) (bytes : Bytes) (claim : String) (row : Row Bytes)
      → row_of lib codec sql k bytes claim ≡ ok row
      → (row.payload ≡ bytes) × (row.claim ≡ claim)
  unfolding row_of
  row_of-payload k bytes claim row h = (ground (arith, h), ground (arith, h))

  is_written-same :
      (before : KeyMap Bytes) (j : SubmissionKey) (bytes : Bytes)
      → is_written lib codec sql before j bytes ≡ true
      → row_at j before ≡ some bytes
  unfolding is_written
  is_written-same before j bytes w = elim (Option-cases (row_at j before)) [
    | inl e ↦ absurd (ground (arith, e, w))
    | inr (old, e) ↦ e ∙ ap (λ x. some x) (codec.same_bytes_sound old bytes (ground (arith, e, w)))
  ]

  -- The table after a write: the records, and outside the scope what was there.
  abbrev pub Updated : SubmissionScope → KeyMap Bytes → Table → Table → Type 0
  Updated scope records before after =
      (j : SubmissionKey)
      → payload_at j after ≡ (elim (row_at j records) [
        | some bytes ↦ some bytes
        | none ↦ if in_scope scope j then none else payload_at j before
      ])

  write_records-Updated :
      (scope : SubmissionScope) (table : Table) (s : Session Bytes Table) (m : Ledger)
      → read_records lib codec sql scope table ≡ ok s
      → (write_records lib codec sql (record s { memory = m })).0 ≡ ok tt
      → (records : KeyMap Bytes) × (submission_records lib codec sql m ≡ ok records)
        × Updated scope records table
            (write_records lib codec sql (record s { memory = m })).1.table
  write_records-Updated scope table s m read h =
      let (records, made, deleted, written, ends) =
        write_records-steps (record s { memory = m }) h in
      (records, made, updated records made deleted written ends)
    where
      updated :
          (records : KeyMap Bytes)
          → submission_records lib codec sql m ≡ ok records
          → (delete_rows lib codec sql s.before records s.table).0 ≡ ok tt
          → (write_rows lib codec sql records s.before m
              (delete_rows lib codec sql s.before records s.table).1).0
            ≡ ok tt
          → (write_records lib codec sql (record s { memory = m })).1.table
            ≡ (write_rows lib codec sql records s.before m
                (delete_rows lib codec sql s.before records s.table).1).1
          → Updated scope records table
              (write_records lib codec sql (record s { memory = m })).1.table
      updated records made deleted written ends j =
          let distinct = submission_records-IsMap lib codec sql m records made in
          let t₁ = (delete_rows lib codec sql s.before records s.table).1 in
          let emptied = fetch-delete_rows lib codec sql s.before records s.table j deleted in
          let was = read_records-before lib codec sql scope table s j read in
          let same_table = ap (sql.fetch j) (read_records-table lib codec sql scope table s read) in
          let kept = fetch-write_rows lib codec sql s.before m j records t₁ distinct written in
          ap (payload_at j) ends ∙ (elim (Option-cases (row_at j records)) [
            | inl e ↦ ground (arith, e, emptied, was, same_table, kept (ground (arith, e)))
            | inr (bytes, e) ↦ elim (Bool-cases (is_written lib codec sql s.before j bytes)) [
              | inl w ↦
                  let held = is_written-same s.before j bytes w in
                  ground (arith, e, w, held, emptied, was, same_table, kept (ground (arith, e, w)))
              | inr w ↦
                  let (row, composed, there) =
                    write_rows-fetched lib codec sql s.before m j records t₁ bytes distinct written
                      e w in
                  ground (
                    arith,
                    e,
                    there,
                    (row_of-payload j bytes (claim_of lib codec sql m j) row composed).0,
                  )
            ]
          ])

  -- The actions of the ledger that succeed change the maps, and write them.
  abbrev pub change_and_write :
      (Ledger → Ledger) → Session Bytes Table → Outcome (Unit {0}) × Session Bytes Table
  change_and_write change s = write_records lib codec sql (record s { memory = change s.memory })

  abbrev pub Refines :
      SubmissionScope → (Ledger → Ledger) → Table → Outcome (Unit {0}) × Table → Type 0
  Refines scope change table r = elim r.0 [
    | ok _ ↦
        (s : Session Bytes Table) × (records : KeyMap Bytes) × (read_records lib codec sql scope
            table
          ≡ ok s)
        × (submission_records lib codec sql (change s.memory) ≡ ok records)
        × Updated scope records table r.1
    | err _ ↦ r.1 ≡ table
    | panic ↦ r.1 ≡ table
  ]

  -- A transaction whose action changes the maps and writes them either succeeds, and the table then has at
  -- every key the record of the changed maps, none for a key in its scope that they have no record of, and
  -- what it had for every other key; or it fails, and the table is as it was.
  pub submission_transaction-Refines :
      (opening : Beginning) (commits : Bool) (scope : SubmissionScope) (change : Ledger → Ledger)
      (table : Table)
      → Refines scope change table (
          submission_transaction lib codec sql opening commits scope
            (change_and_write change)
            table)
  unfolding submission_transaction
  submission_transaction-Refines (unavailable e) commits scope change table = refl
  submission_transaction-Refines begun commits scope change table =
      let whole =
        submission_transaction lib codec sql begun commits scope (change_and_write change) table in
      let as_is =
        λ (r : Outcome (Unit {0}) × Table) (e : whole ≡ r) (p : Refines scope change table r).
          subst (Refines scope change table) (sym e) p in
      elim (Outcome-cases (read_records lib codec sql scope table)) [
        | inr (inl (x, e)) ↦ as_is (err x, table) (ground (arith, e)) refl
        | inr (inr e) ↦ as_is (panic, table) (ground (arith, e)) refl
        | inl (s, e) ↦ elim (Outcome-cases (change_and_write change s).0) [
          | inr (inl (x, f)) ↦ as_is (err x, table) (ground (arith, e, f)) refl
          | inr (inr f) ↦ as_is (panic, table) (ground (arith, e, f)) refl
          | inl (u, f) ↦ elim (Bool-cases commits) [
            | inr failed ↦
                as_is (err Errors.statement_failed, table) (ground (arith, e, f, failed)) refl
            | inl done ↦
                let (records, made, spec) =
                  write_records-Updated scope table s (change s.memory) e f in
                as_is (ok u, (change_and_write change s).1.table) (ground (arith, e, f, done))
                  (s, records, e, made, spec)
          ]
        ]
      ]

  -- The row of a record that was written, or was there as it is.
  pub record-row :
      (s : Session Bytes Table) (j : SubmissionKey) (records : KeyMap Bytes) (bytes : Bytes)
      → submission_records lib codec sql s.memory ≡ ok records
      → (write_records lib codec sql s).0 ≡ ok tt
      → row_at j records ≡ some bytes
      → ((row_at j s.before ≡ some bytes)
          × (sql.fetch j (write_records lib codec sql s).1.table ≡ sql.fetch j s.table))
        ⊎ ((row : Row Bytes) × (row.payload ≡ bytes)
            × (row.claim ≡ claim_of lib codec sql s.memory j)
            × (sql.fetch j (write_records lib codec sql s).1.table ≡ some row))
  record-row s j records bytes made h there =
      let (records', made', deleted, written, ends) = write_records-steps s h in
      let t₁ = (delete_rows lib codec sql s.before records' s.table).1 in
      let same : records' ≡ records = ground (arith, made, made') in
      let found : row_at j records' ≡ some bytes = ap (row_at j) same ∙ there in
      let distinct = submission_records-IsMap lib codec sql s.memory records' made' in
      elim (Bool-cases (is_written lib codec sql s.before j bytes)) [
        | inl w ↦ inl (
          is_written-same s.before j bytes w,
          ap (sql.fetch j) ends
              ∙ (fetch-write_rows lib codec sql s.before s.memory j records' t₁ distinct written
                    (ground (arith, found, w))
                  ∙ ground (
                    arith,
                    found,
                    fetch-delete_rows lib codec sql s.before records' s.table j deleted,
                  )),
        )
        | inr w ↦
            let (row, composed, at) =
              write_rows-fetched lib codec sql s.before s.memory j records' t₁ bytes distinct
                written found w in
            let (payload, claim) =
              row_of-payload j bytes (claim_of lib codec sql s.memory j) row composed in
            inr (row, payload, claim, ap (sql.fetch j) ends ∙ at)
      ]
