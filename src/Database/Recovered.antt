-- ===== src/Database/Recovered.antt =====
-- A send that a transaction wrote, in the transaction that reads it next (`submissionTransaction` of
-- codex/submission_database.go).
use codex_web.Common.{
  String, ◌≡◌, ◌≢◌, ap, ◌∙◌, Bool, true, none, some, arith, ◌==◌, eq_iff, if◌then◌else◌, Bool-cases,
  Option-cases, inl, inr,
}
use codex_web.Errors.{ok, Outcome-cases}
use codex_web.Library.{Library}
use codex_web.ThreadMap.{find}
use codex_web.Ledger.Types.{SendAttempt, Ledger}
use codex_web.Database.Session.{Beginning, begun, unavailable}
use codex_web.Database.Keys.{key}
use codex_web.Database.Rows.{Row, Sql, Codec, SubmissionScope, in_scope}
use codex_web.Database.Session.{
  Session, claim_of, write_records, read_records, stored_attempt, submission_transaction,
}
use codex_web.Database.Records.{submission_records-send}
use codex_web.Database.Read.{read_records-before, read_records-send, read_records-table}
use codex_web.Database.Durable.{change_and_write, record-row, write_records-steps}

module _ {Bytes Table : Type 0} (lib : Library) (codec : Codec Bytes) (sql : Sql Bytes Table) where
  -- A transaction that succeeds leaves the table of its write.
  transaction-table :
      (opening : Beginning) (commits : Bool) (scope : SubmissionScope) (change : Ledger → Ledger)
      (table : Table) (s : Session Bytes Table)
      → read_records lib codec sql scope table ≡ ok s
      → (submission_transaction lib codec sql opening commits scope
          (change_and_write lib codec sql change)
          table).0
        ≡ ok tt
      → ((write_records lib codec sql (record s { memory = change s.memory })).0 ≡ ok tt)
        × ((submission_transaction lib codec sql opening commits scope
              (change_and_write lib codec sql change)
              table).1
            ≡ (write_records lib codec sql (record s { memory = change s.memory })).1.table)
  unfolding submission_transaction
  transaction-table (unavailable e) commits scope change table s read h = absurd (ground arith)
  transaction-table begun commits scope change table s read h =
      elim (Outcome-cases (change_and_write lib codec sql change s).0) [
        | inr (inl (x, f)) ↦ absurd (ground (arith, read, f, h))
        | inr (inr f) ↦ absurd (ground (arith, read, f, h))
        | inl (u, f) ↦ elim (Bool-cases commits) [
          | inr failed ↦ absurd (ground (arith, read, f, h, failed))
          | inl done ↦ (f, ground (arith, read, f, done))
        ]
      ]

  -- The payload and the claim of a send that was written.
  send-row :
      (scope : SubmissionScope) (table : Table) (s : Session Bytes Table) (m : Ledger)
      (t c : String) (a : SendAttempt)
      → read_records lib codec sql scope table ≡ ok s
      → (write_records lib codec sql (record s { memory = m })).0 ≡ ok tt
      → find t c m.send_attempts ≡ some a
      → ((old : SendAttempt)
          → find t c s.memory.send_attempts ≡ some old
          → old.admission_id ≢ a.admission_id
          → record old { admission_id = "" }
            ≢ record (stored_attempt lib codec sql a) { admission_id = "" })
      → (row : Row Bytes) × (sql.fetch
            (key "sends" t c)
            (write_records lib codec sql (record s { memory = m })).1.table
          ≡ some row)
        × (codec.decode_send row.payload ≡ some (record a { admission_id = "" }))
        × (row.claim ≡ a.admission_id)
  unfolding claim_of stored_attempt
  send-row scope table s m t c a read h found moved =
      let j = key "sends" t c in
      let (records, made, _, _, _) =
        write_records-steps lib codec sql (record s { memory = m }) h in
      let (bytes, e, encoded) = submission_records-send lib codec sql m records t c a made found in
      let decoded = codec.decode-encode_send a bytes e in
      elim (record-row lib codec sql (record s { memory = m }) j records bytes made h encoded) [
        | inr (row, payload, claim, there) ↦
            (row, there, ap codec.decode_send payload ∙ decoded, ground (arith, claim, found))
        | inl (held, there) ↦
            let was = read_records-before lib codec sql scope table s j read in
            let same_table =
              ap (sql.fetch j) (read_records-table lib codec sql scope table s read) in
            elim (Option-cases (if in_scope scope j then sql.fetch j table else none)) [
              | inl absent ↦ absurd (ground (arith, was, held, absent))
              | inr (row, present) ↦
                  let inside : in_scope scope j ≡ true = ground (arith, present) in
                  let at : sql.fetch j table ≡ some row = ground (arith, present) in
                  let payload : row.payload ≡ bytes = ground (arith, was, held, present) in
                  let (x, x_decoded, known) =
                    read_records-send lib codec sql scope table s t c row read inside at in
                  let as_a : x ≡ record a { admission_id = "" } =
                    ground (arith, x_decoded, ap codec.decode_send payload, decoded) in
                  let known_as = record (stored_attempt lib codec sql x) {
                    admission_id = row.claim;
                  } in
                  let same_rest : record known_as { admission_id = "" }
                      ≡ record (stored_attempt lib codec sql a) { admission_id = "" } =
                    ap (λ y. record (stored_attempt lib codec sql y) { admission_id = "" }) as_a in
                  let claim : row.claim ≡ a.admission_id =
                    elim (Bool-cases (row.claim == a.admission_id)) [
                      | inl hit ↦ ground (arith, hit, eq_iff row.claim a.admission_id)
                      | inr miss ↦ absurd (
                          moved known_as known
                            (λ same. ground (arith, same, miss, eq_iff row.claim a.admission_id))
                            same_rest)
                    ] in
                  (row, there ∙ (same_table ∙ at), ap codec.decode_send payload ∙ decoded, claim)
            ]
      ]

  -- A send that the maps hold when a transaction that succeeds writes them is found by the next transaction
  -- that has it in its scope and can be read, with every field and its claim, the digest of no options being
  -- an omitted one; provided that, where the transaction changed the claim, it changed another field too.
  pub read_records-written :
      (opening : Beginning) (commits : Bool) (scope next : SubmissionScope)
      (change : Ledger → Ledger) (table : Table) (s s' : Session Bytes Table) (t c : String)
      (a : SendAttempt)
      → read_records lib codec sql scope table ≡ ok s
      → (submission_transaction lib codec sql opening commits scope
          (change_and_write lib codec sql change)
          table).0
        ≡ ok tt
      → find t c (change s.memory).send_attempts ≡ some a
      → ((old : SendAttempt)
          → find t c s.memory.send_attempts ≡ some old
          → old.admission_id ≢ a.admission_id
          → record old { admission_id = "" }
            ≢ record (stored_attempt lib codec sql a) { admission_id = "" })
      → in_scope next (key "sends" t c) ≡ true
      → read_records lib codec sql next
          (submission_transaction lib codec sql opening commits scope
            (change_and_write lib codec sql change)
            table).1
        ≡ ok s'
      → find t c s'.memory.send_attempts ≡ some (stored_attempt lib codec sql a)
  unfolding stored_attempt
  read_records-written opening commits scope next change table s s' t c a read h found moved inside
        again =
      let (written, ends) = transaction-table opening commits scope change table s read h in
      let (row, there, decoded, claim) =
        send-row scope table s (change s.memory) t c a read written found moved in
      let (x, x_decoded, known) =
        read_records-send lib codec sql next
          (submission_transaction lib codec sql opening commits scope
            (change_and_write lib codec sql change) table).1
          s' t c row again inside (ap (sql.fetch (key "sends" t c)) ends ∙ there) in
      let as_a : x ≡ record a { admission_id = "" } = ground (arith, x_decoded, decoded) in
      known
      ∙ (ap (λ y. some (record (stored_attempt lib codec sql y) { admission_id = row.claim })) as_a
          ∙ ap (λ n. some (record (stored_attempt lib codec sql a) { admission_id = n })) claim)
