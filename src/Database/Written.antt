-- ===== src/Database/Written.antt =====
-- What the write that ends a transaction leaves in the table (`writeSubmissionRecordsLocked` of
-- codex/submission_database.go).
use codex_web.Common.{
  String, ◌≡◌, refl, sym, ap, ◌∙◌, Bool, true, false, not, ◌&&◌, Option, none, some, [], ◌∷◌, arith,
  if◌then◌else◌, Bool-cases, Option-cases, inl, inr,
}
use codex_web.Errors.{Outcome, ok, err, panic, Outcome-cases}
use codex_web.Library.{Library}
use codex_web.Ledger.Types.{Ledger}
use codex_web.Database.Keys.{SubmissionKey, same_key, KeyMap, row_at, IsMap, same_key_sound}
use codex_web.Database.Rows.{Row, Sql, Codec}
use codex_web.Database.Session.{
  then_do, executed, delete_rows, claim_of, row_of, write_record, is_written, write_rows,
}

abbrev pub is_some {ℓ} : {A : Type ℓ} → Option A → Bool
is_some none = false
is_some (some _) = true

-- Two statements that succeed together succeed each.
pub then_do-ok :
    {Table : Type 0} (r : Outcome (Unit {0}) × Table) (f : Table → Outcome (Unit {0}) × Table)
    → (then_do r f).0 ≡ ok tt
    → (r.0 ≡ ok tt) × ((then_do r f).1 ≡ (f r.1).1) × ((f r.1).0 ≡ ok tt)
then_do-ok (ok u, t) f h = (refl, refl, h)
then_do-ok (err e, t) f h = absurd (ground arith)
then_do-ok (panic, t) f h = absurd (ground arith)

executed-ok :
    {Table : Type 0} (r : Bool × Table)
    → (executed r).0 ≡ ok tt
    → (r.0 ≡ true) × ((executed r).1 ≡ r.1)
executed-ok (true, t) h = (refl, refl)
executed-ok (false, t) h = absurd (ground arith)

row_at-same :
    {V : Type 0} (k j : SubmissionKey) (m : KeyMap V)
    → same_key k j ≡ true
    → row_at k m ≡ row_at j m
row_at-same k j m h = ap (λ x. row_at x m) (same_key_sound k j h)

module _ {Bytes Table : Type 0} (lib : Library) (codec : Codec Bytes) (sql : Sql Bytes Table) where
  -- The rows that were read and are no record any more.
  abbrev pub is_gone : KeyMap Bytes → KeyMap Bytes → SubmissionKey → Bool
  is_gone before records j = is_some (row_at j before) && not (is_some (row_at j records))

  pub fetch-delete_rows :
      (before records : KeyMap Bytes) (t : Table) (j : SubmissionKey)
      → (delete_rows lib codec sql before records t).0 ≡ ok tt
      → sql.fetch j (delete_rows lib codec sql before records t).1
        ≡ (if is_gone before records j then none else sql.fetch j t)
  unfolding delete_rows row_at
  fetch-delete_rows [] records t j h = refl
  fetch-delete_rows ((k, x) ∷ before) records t j h = elim (Option-cases (row_at k records)) [
    | inr (d, e) ↦
        let skip : delete_rows lib codec sql ((k, x) ∷ before) records t
            ≡ delete_rows lib codec sql before records t =
          ground (arith, e) in
        let rest = fetch-delete_rows before records t j (ap (λ r. r.0) (sym skip) ∙ h) in
        ap (λ r. sql.fetch j r.1) skip ∙ (rest ∙ ground (arith, e, row_at-same k j records))
    | inl e ↦
        let first = executed (sql.remove_row k t) in
        let both : delete_rows lib codec sql ((k, x) ∷ before) records t
            ≡ then_do first (delete_rows lib codec sql before records) =
          ground (arith, e) in
        let (done, after, more) =
          then_do-ok first (delete_rows lib codec sql before records)
            (ap (λ r. r.0) (sym both) ∙ h) in
        let (removed, as_removed) = executed-ok (sql.remove_row k t) done in
        let rest = fetch-delete_rows before records first.1 j more in
        let at = sql.fetch-remove_row k j t removed in
        ap (λ r. sql.fetch j r.1) both
        ∙ (ap (sql.fetch j) after
            ∙ (rest ∙ ground (arith, e, row_at-same k j records, at, ap (sql.fetch j) as_removed)))
  ]

  -- What the loop over the records leaves as it is.
  abbrev pub is_untouched : KeyMap Bytes → KeyMap Bytes → SubmissionKey → Bool
  is_untouched before records j = elim (row_at j records) [
    | none ↦ true
    | some bytes ↦ is_written lib codec sql before j bytes
  ]

  pub fetch-write_record :
      (k : SubmissionKey) (bytes : Bytes) (claim : String) (t : Table)
      → (write_record lib codec sql k bytes claim t).0 ≡ ok tt
      → (row : Row Bytes) × (row_of lib codec sql k bytes claim ≡ ok row)
        × ((j : SubmissionKey)
            → sql.fetch j (write_record lib codec sql k bytes claim t).1
              ≡ (if same_key k j then some row else sql.fetch j t))
  unfolding write_record
  fetch-write_record k bytes claim t h = elim (Outcome-cases (row_of lib codec sql k bytes claim)) [
    | inr (inl (x, e)) ↦ absurd (ground (arith, e, h))
    | inr (inr e) ↦ absurd (ground (arith, e, h))
    | inl (row, e) ↦
        let opened_up : write_record lib codec sql k bytes claim t ≡ executed (sql.upsert k row t) =
          ground (arith, e) in
        let (done, as_done) =
          executed-ok (sql.upsert k row t) (ap (λ r. r.0) (sym opened_up) ∙ h) in
        (
          row,
          e,
          λ j.
              ap (λ r. sql.fetch j r.1) opened_up
              ∙ (ap (sql.fetch j) as_done ∙ sql.fetch-upsert k j row t done),
        )
  ]

  module _ (before : KeyMap Bytes) (l : Ledger) (j : SubmissionKey) where
    pub fetch-write_rows :
        (records : KeyMap Bytes) (t : Table)
        → IsMap records
        → (write_rows lib codec sql records before l t).0 ≡ ok tt
        → is_untouched before records j ≡ true
        → sql.fetch j (write_rows lib codec sql records before l t).1 ≡ sql.fetch j t
    unfolding write_rows row_at IsMap
    fetch-write_rows [] t distinct h same = refl
    fetch-write_rows ((k, bytes) ∷ records) t (new, distinct) h same =
        elim (Bool-cases (is_written lib codec sql before k bytes)) [
          | inl w ↦
              let skip : write_rows lib codec sql ((k, bytes) ∷ records) before l t
                  ≡ write_rows lib codec sql records before l t =
                ground (arith, w) in
              ap (λ r. sql.fetch j r.1) skip
              ∙ fetch-write_rows records t distinct (ap (λ r. r.0) (sym skip) ∙ h)
                  (ground (arith, same, new, w, row_at-same k j records))
          | inr w ↦
              let first = write_record lib codec sql k bytes (claim_of lib codec sql l k) t in
              let both : write_rows lib codec sql ((k, bytes) ∷ records) before l t
                  ≡ then_do first (write_rows lib codec sql records before l) =
                ground (arith, w) in
              let (done, after, more) =
                then_do-ok first (write_rows lib codec sql records before l)
                  (ap (λ r. r.0) (sym both) ∙ h) in
              let (row, _, at) = fetch-write_record k bytes (claim_of lib codec sql l k) t done in
              elim (Bool-cases (same_key k j)) [
                | inl hit ↦ absurd (
                    ground (
                      arith,
                      same,
                      hit,
                      w,
                      ap (λ x. is_written lib codec sql before x bytes) (same_key_sound k j hit),
                    ))
                | inr miss ↦
                    ap (λ r. sql.fetch j r.1) both
                    ∙ (ap (sql.fetch j) after
                        ∙ (fetch-write_rows records first.1 distinct more
                              (ground (arith, same, miss))
                            ∙ ground (arith, at j, miss)))
              ]
        ]

    -- A record that was not there as it is now is written whole.
    pub write_rows-fetched :
        (records : KeyMap Bytes) (t : Table) (bytes : Bytes)
        → IsMap records
        → (write_rows lib codec sql records before l t).0 ≡ ok tt
        → row_at j records ≡ some bytes
        → is_written lib codec sql before j bytes ≡ false
        → (row : Row Bytes) × (row_of lib codec sql j bytes (claim_of lib codec sql l j) ≡ ok row)
          × (sql.fetch j (write_rows lib codec sql records before l t).1 ≡ some row)
    unfolding write_rows row_at IsMap
    write_rows-fetched [] t bytes distinct h found new = absurd (ground (arith, found))
    write_rows-fetched ((k, b) ∷ records) t bytes (single, distinct) h found changed =
        elim (Bool-cases (is_written lib codec sql before k b)) [
          | inl w ↦
              let skip : write_rows lib codec sql ((k, b) ∷ records) before l t
                  ≡ write_rows lib codec sql records before l t =
                ground (arith, w) in
              elim (Bool-cases (same_key k j)) [
                | inl hit ↦
                    let same : b ≡ bytes = ground (arith, found, hit) in
                    absurd (
                      ground (
                        arith,
                        changed,
                        w,
                        ap (λ x. is_written lib codec sql before x b) (same_key_sound k j hit),
                        ap (λ x. is_written lib codec sql before j x) same,
                      ))
                | inr miss ↦
                    let (row, made, at) =
                      write_rows-fetched records t bytes distinct (ap (λ r. r.0) (sym skip) ∙ h)
                        (ground (arith, found, miss)) changed in
                    (row, made, ap (λ r. sql.fetch j r.1) skip ∙ at)
              ]
          | inr w ↦
              let first = write_record lib codec sql k b (claim_of lib codec sql l k) t in
              let both : write_rows lib codec sql ((k, b) ∷ records) before l t
                  ≡ then_do first (write_rows lib codec sql records before l) =
                ground (arith, w) in
              let (done, after, more) =
                then_do-ok first (write_rows lib codec sql records before l)
                  (ap (λ r. r.0) (sym both) ∙ h) in
              let (row, made, at) = fetch-write_record k b (claim_of lib codec sql l k) t done in
              elim (Bool-cases (same_key k j)) [
                | inl hit ↦
                    let same : b ≡ bytes = ground (arith, found, hit) in
                    let own = same_key_sound k j hit in
                    (
                      row,
                      ap (λ x. row_of lib codec sql x bytes (claim_of lib codec sql l x)) (sym own)
                          ∙ (ap (λ x. row_of lib codec sql k x (claim_of lib codec sql l k))
                                (sym same)
                              ∙ made),
                      ap (λ r. sql.fetch j r.1) both
                          ∙ (ap (sql.fetch j) after
                              ∙ (fetch-write_rows records first.1 distinct more
                                    (ground (arith, single, row_at-same k j records hit))
                                  ∙ ground (arith, at j, hit))),
                    )
                | inr miss ↦
                    let (row', made', at') =
                      write_rows-fetched records first.1 bytes distinct more
                        (ground (arith, found, miss)) changed in
                    (row', made', ap (λ r. sql.fetch j r.1) both ∙ (ap (sql.fetch j) after ∙ at'))
              ]
        ]
