-- ===== src/Database/Read.antt =====
-- What a transaction reads (`readSubmissionRecordsLocked` of codex/submission_database.go): the sends that
-- its memory finds, and the payloads that its write is compared with.
use codex_web.Common.{
  String, ◌≡◌, refl, sym, ap, ◌∙◌, true, false, ◌&&◌, Option, none, some, [], ◌∷◌, arith, ◌==◌,
  eq_iff, eq_refl, if◌then◌else◌, Bool-cases, Option-cases, inl, inr,
}
use codex_web.Errors.{ok, err, panic, ◌>>=◌, Outcome-cases}
use codex_web.Library.{Library}
use codex_web.ThreadMap.{ThreadMap, find, ensure, assign, find-ensure, find-assign}
use codex_web.Ledger.Types.{SendAttempt, Ledger, empty_ledger}
use codex_web.Database.Keys.{
  SubmissionKey, key, same_key, KeyMap, row_at, put_row, IsMap, same_key_sound, row_at-put_row,
}
use codex_web.Database.Rows.{Row, Sql, Codec, SubmissionScope, in_scope, has_scope}
use codex_web.Database.Session.{
  Session, put_entry, install_queue, install_send, install_deletion, install_retirement,
  install_record, stamp, stored_attempt, read_rows, read_records,
}
use codex_web.Database.Records.{bind-ok}

find-put_entry :
    {V : Type 0} (t c u d : String) (v : V) (m m' : ThreadMap V)
    → put_entry t c v m ≡ ok m'
    → find u d m' ≡ (if t == u && c == d then some v else find u d m)
unfolding put_entry
find-put_entry t c u d v m m' h = elim (Option-cases (assign t c v (ensure t m))) [
  | inl e ↦ absurd (ground (arith, e, h))
  | inr (x, e) ↦
      let same : x ≡ m' = ground (arith, e, h) in
      ground
        (arith, find-assign t c u d v (ensure t m) x e, find-ensure t u d m, ap (find u d) same)
]

module _ {Bytes Table : Type 0} (lib : Library) (codec : Codec Bytes) (sql : Sql Bytes Table) where
  -- A record of another kind leaves the sends alone.
  install_record-other :
      (k : SubmissionKey) (bytes : Bytes) (l l' : Ledger)
      → install_record lib codec sql k bytes l ≡ ok l'
      → (k.kind == "sends") ≡ false
      → l'.send_attempts ≡ l.send_attempts
  unfolding install_record install_queue install_deletion install_retirement
  install_record-other k bytes l l' h other = ground (arith, h, other)

  install_record-send :
      (k : SubmissionKey) (bytes : Bytes) (l l' : Ledger)
      → install_record lib codec sql k bytes l ≡ ok l'
      → (k.kind == "sends") ≡ true
      → (a : SendAttempt) × (codec.decode_send bytes ≡ some a)
        × (put_entry k.thread k.id (stored_attempt lib codec sql a) l.send_attempts
            ≡ ok l'.send_attempts)
  unfolding install_record install_send
  install_record-send k bytes l l' h sends =
      let kind : k.kind ≡ "sends" = ground (arith, sends, eq_iff k.kind "sends") in
      let attempts : (k.kind == "attempts") ≡ false = ap (λ x. x == "attempts") kind in
      elim (Option-cases (codec.decode_send bytes)) [
        | inl e ↦ absurd (ground (arith, e, h, sends, attempts))
        | inr (a, e) ↦
            elim (Outcome-cases
              (put_entry k.thread k.id (stored_attempt lib codec sql a) l.send_attempts)) [
                | inl (m, placed) ↦
                    let same : m ≡ l'.send_attempts =
                      ground (arith, e, h, sends, attempts, placed) in
                    (a, e, placed ∙ ap (λ x. ok x) same)
                | inr (inl (x, placed)) ↦ absurd (ground (arith, e, h, sends, attempts, placed))
                | inr (inr placed) ↦ absurd (ground (arith, e, h, sends, attempts, placed))
              ]
      ]

  stamp-find :
      (k : SubmissionKey) (claim : String) (l l' : Ledger) (a : SendAttempt) (t c : String)
      → stamp lib codec sql k claim l ≡ ok l'
      → (k.kind == "sends") ≡ true
      → find k.thread k.id l.send_attempts ≡ some a
      → find t c l'.send_attempts ≡ (
          if k.thread == t && k.id == c
          then some (record a { admission_id = claim })
          else find t c l.send_attempts)
  unfolding stamp
  stamp-find k claim l l' a t c h sends found =
      elim (Option-cases
        (assign k.thread k.id (record a { admission_id = claim }) l.send_attempts)) [
          | inl e ↦ absurd (ground (arith, e, h, found, sends))
          | inr (m, e) ↦
              let same : m ≡ l'.send_attempts = ground (arith, e, h, found, sends) in
              ap (find t c) (sym same)
              ∙ find-assign k.thread k.id t c (record a { admission_id = claim }) l.send_attempts m
                  e
        ]

  stamp-other :
      (k : SubmissionKey) (claim : String) (l l' : Ledger)
      → stamp lib codec sql k claim l ≡ ok l'
      → (k.kind == "sends") ≡ false
      → l'.send_attempts ≡ l.send_attempts
  unfolding stamp
  stamp-other k claim l l' h other = ground (arith, h, other)

  read_rows-step :
      (k : SubmissionKey) (row : Row Bytes) (rows : KeyMap (Row Bytes)) (l : Ledger)
      (before : KeyMap Bytes) (r : Ledger × KeyMap Bytes)
      → read_rows lib codec sql ((k, row) ∷ rows) l before ≡ ok r
      → (l₁ : Ledger) × (install_record lib codec sql k row.payload l ≡ ok l₁)
        × (l₂ : Ledger) × (stamp lib codec sql k row.claim l₁ ≡ ok l₂)
        × (read_rows lib codec sql rows l₂ (put_row k row.payload before) ≡ ok r)
  unfolding read_rows
  read_rows-step k row rows l before r h =
      let rest = λ (l₂ : Ledger). read_rows lib codec sql rows l₂ (put_row k row.payload before) in
      let (l₁, e₁, h₁) =
        bind-ok (install_record lib codec sql k row.payload l)
          (λ l₁. stamp lib codec sql k row.claim l₁ >>= rest) r h in
      let (l₂, e₂, h₂) = bind-ok (stamp lib codec sql k row.claim l₁) rest r h₁ in
      (l₁, e₁, l₂, e₂, h₂)

  -- What one row makes of the sends.
  row-sends :
      (k : SubmissionKey) (row : Row Bytes) (l l₁ l₂ : Ledger) (t c : String)
      → install_record lib codec sql k row.payload l ≡ ok l₁
      → stamp lib codec sql k row.claim l₁ ≡ ok l₂
      → same_key k (key "sends" t c) ≡ false
      → find t c l₂.send_attempts ≡ find t c l.send_attempts
  unfolding same_key
  row-sends k row l l₁ l₂ t c e₁ e₂ other = elim (Bool-cases (k.kind == "sends")) [
    | inr unlike ↦ ap (find t c) (
        stamp-other k row.claim l₁ l₂ e₂ unlike ∙ install_record-other k row.payload l l₁ e₁ unlike)
    | inl sends ↦
        let (a, _, placed) = install_record-send k row.payload l l₁ e₁ sends in
        let stored = stored_attempt lib codec sql a in
        let own =
          find-put_entry k.thread k.id k.thread k.id stored l.send_attempts l₁.send_attempts
            placed in
        let at = find-put_entry k.thread k.id t c stored l.send_attempts l₁.send_attempts placed in
        let found : find k.thread k.id l₁.send_attempts ≡ some stored =
          ground (arith, own, eq_refl k.thread, eq_refl k.id) in
        let stamped = stamp-find k row.claim l₁ l₂ stored t c e₂ sends found in
        ground (arith, stamped, at, other, sends)
  ]

  row-send :
      (row : Row Bytes) (l l₁ l₂ : Ledger) (t c : String)
      → install_record lib codec sql (key "sends" t c) row.payload l ≡ ok l₁
      → stamp lib codec sql (key "sends" t c) row.claim l₁ ≡ ok l₂
      → (a : SendAttempt) × (codec.decode_send row.payload ≡ some a)
        × (find t c l₂.send_attempts
            ≡ some (record (stored_attempt lib codec sql a) { admission_id = row.claim }))
  row-send row l l₁ l₂ t c e₁ e₂ =
      let (a, decoded, placed) = install_record-send (key "sends" t c) row.payload l l₁ e₁ refl in
      let stored = stored_attempt lib codec sql a in
      let own = find-put_entry t c t c stored l.send_attempts l₁.send_attempts placed in
      let found : find t c l₁.send_attempts ≡ some stored =
        ground (arith, own, eq_refl t, eq_refl c) in
      let stamped = stamp-find (key "sends" t c) row.claim l₁ l₂ stored t c e₂ refl found in
      (a, decoded, ground (arith, stamped, eq_refl t, eq_refl c))

  read_rows-before :
      (rows : KeyMap (Row Bytes)) (l : Ledger) (before : KeyMap Bytes) (r : Ledger × KeyMap Bytes)
      (j : SubmissionKey)
      → read_rows lib codec sql rows l before ≡ ok r
      → IsMap rows
      → row_at j r.1
        ≡ (elim (row_at j rows) [ none ↦ row_at j before | some row ↦ some row.payload ])
  unfolding read_rows row_at IsMap
  read_rows-before [] l before r j h distinct =
      let same : before ≡ r.1 =
        ap (λ x. elim x as (λ _. KeyMap Bytes) [ ok y ↦ y.1 | err _ ↦ [] | panic ↦ [] ]) h in
      ap (row_at j) (sym same)
  read_rows-before ((k, row) ∷ rows) l before r j h (new, distinct) =
      let (l₁, e₁, l₂, e₂, more) = read_rows-step k row rows l before r h in
      let rest = read_rows-before rows l₂ (put_row k row.payload before) r j more distinct in
      elim (Bool-cases (same_key k j)) [
        | inl hit ↦
            let none_later : row_at j rows ≡ none =
              ap (λ x. row_at x rows) (sym (same_key_sound k j hit)) ∙ new in
            ground (arith, rest, row_at-put_row k j row.payload before, hit, none_later)
        | inr miss ↦ ground (arith, rest, row_at-put_row k j row.payload before, miss)
      ]

  read_rows-absent :
      (rows : KeyMap (Row Bytes)) (l : Ledger) (before : KeyMap Bytes) (r : Ledger × KeyMap Bytes)
      (t c : String)
      → read_rows lib codec sql rows l before ≡ ok r
      → row_at (key "sends" t c) rows ≡ none
      → find t c r.0.send_attempts ≡ find t c l.send_attempts
  unfolding read_rows row_at
  read_rows-absent [] l before r t c h absent =
      let same : l ≡ r.0 =
        ap (λ x. elim x as (λ _. Ledger) [ ok y ↦ y.0 | err _ ↦ l | panic ↦ l ]) h in
      ap (λ x. find t c x.send_attempts) (sym same)
  read_rows-absent ((k, row) ∷ rows) l before r t c h absent =
      let (l₁, e₁, l₂, e₂, more) = read_rows-step k row rows l before r h in
      elim (Bool-cases (same_key k (key "sends" t c))) [
        | inl hit ↦ absurd (ground (arith, absent, hit))
        | inr miss ↦
            read_rows-absent rows l₂ (put_row k row.payload before) r t c more
              (ground (arith, absent, miss))
            ∙ row-sends k row l l₁ l₂ t c e₁ e₂ miss
      ]

  read_rows-present :
      (rows : KeyMap (Row Bytes)) (l : Ledger) (before : KeyMap Bytes) (r : Ledger × KeyMap Bytes)
      (t c : String) (row : Row Bytes)
      → read_rows lib codec sql rows l before ≡ ok r
      → IsMap rows
      → row_at (key "sends" t c) rows ≡ some row
      → (a : SendAttempt) × (codec.decode_send row.payload ≡ some a)
        × (find t c r.0.send_attempts
            ≡ some (record (stored_attempt lib codec sql a) { admission_id = row.claim }))
  unfolding row_at IsMap
  read_rows-present [] l before r t c row h distinct found = absurd (ground (arith, found))
  read_rows-present ((k, x) ∷ rows) l before r t c row h (new, distinct) found =
      let (l₁, e₁, l₂, e₂, more) = read_rows-step k x rows l before r h in
      elim (Bool-cases (same_key k (key "sends" t c))) [
        | inl hit ↦
            let own = same_key_sound k (key "sends" t c) hit in
            let same : x ≡ row = ground (arith, found, hit) in
            let (a, decoded, at) =
              row-send x l l₁ l₂ t c
                (ap (λ j. install_record lib codec sql j x.payload l) (sym own) ∙ e₁)
                (ap (λ j. stamp lib codec sql j x.claim l₁) (sym own) ∙ e₂) in
            (
              a,
              ap (λ y. codec.decode_send y.payload) (sym same) ∙ decoded,
              read_rows-absent rows l₂ (put_row k x.payload before) r t c more
                    (ap (λ j. row_at j rows) (sym own) ∙ new)
                  ∙ (at
                      ∙ ap
                          (λ y.
                            some
                              (record (stored_attempt lib codec sql a) { admission_id = y.claim }))
                          same),
            )
        | inr miss ↦
            read_rows-present rows l₂ (put_row k x.payload before) r t c row more distinct
              (ground (arith, found, miss))
      ]

  -- A read that succeeds is one of the rows in scope.
  read_records-rows :
      (scope : SubmissionScope) (table : Table) (s : Session Bytes Table)
      → read_records lib codec sql scope table ≡ ok s
      → (rows : KeyMap (Row Bytes)) × (sql.select (in_scope scope) table ≡ some rows)
        × (read_rows lib codec sql rows empty_ledger [] ≡ ok (s.memory, s.before))
        × (s.table ≡ table)
  unfolding read_records
  read_records-rows scope table s h = elim (Bool-cases (has_scope scope)) [
    | inr unscoped ↦ absurd (ground (arith, h, unscoped))
    | inl scoped ↦ elim (Option-cases (sql.select (in_scope scope) table)) [
      | inl e ↦ absurd (ground (arith, h, scoped, e))
      | inr (rows, e) ↦ elim (Outcome-cases (read_rows lib codec sql rows empty_ledger [])) [
        | inl ((l, before), read) ↦
            let same : record { memory = l; before = before; table = table } ≡ s =
              ground (arith, h, scoped, e, read) in
            (rows, e, read ∙ ap (λ x. ok (x.memory, x.before)) same, sym (ap (λ x. x.table) same))
        | inr (inl (x, read)) ↦ absurd (ground (arith, h, scoped, e, read))
        | inr (inr read) ↦ absurd (ground (arith, h, scoped, e, read))
      ]
    ]
  ]

  -- What the write is compared with is what the table held, in scope.
  pub read_records-before :
      (scope : SubmissionScope) (table : Table) (s : Session Bytes Table) (j : SubmissionKey)
      → read_records lib codec sql scope table ≡ ok s
      → row_at j s.before ≡ (elim (if in_scope scope j then sql.fetch j table else none) [
        | none ↦ none
        | some row ↦ some row.payload
      ])
  unfolding row_at
  read_records-before scope table s j h =
      let (rows, selected, read, _) = read_records-rows scope table s h in
      let at =
        read_rows-before rows empty_ledger [] (s.memory, s.before) j read
          (sql.select-IsMap (in_scope scope) table rows selected) in
      at
      ∙ ap (λ o. elim o as (λ _. Option Bytes) [ none ↦ none | some row ↦ some row.payload ])
          (sql.row_at-select (in_scope scope) table rows selected j)

  -- A send in scope is read from its row.
  pub read_records-send :
      (scope : SubmissionScope) (table : Table) (s : Session Bytes Table) (t c : String)
      (row : Row Bytes)
      → read_records lib codec sql scope table ≡ ok s
      → in_scope scope (key "sends" t c) ≡ true
      → sql.fetch (key "sends" t c) table ≡ some row
      → (a : SendAttempt) × (codec.decode_send row.payload ≡ some a)
        × (find t c s.memory.send_attempts
            ≡ some (record (stored_attempt lib codec sql a) { admission_id = row.claim }))
  read_records-send scope table s t c row h inside there =
      let (rows, selected, read, _) = read_records-rows scope table s h in
      let at = sql.row_at-select (in_scope scope) table rows selected (key "sends" t c) in
      read_rows-present rows empty_ledger [] (s.memory, s.before) t c row read
        (sql.select-IsMap (in_scope scope) table rows selected) (ground (arith, at, inside, there))

  pub read_records-table :
      (scope : SubmissionScope) (table : Table) (s : Session Bytes Table)
      → read_records lib codec sql scope table ≡ ok s
      → s.table ≡ table
  read_records-table scope table s h =
      let (_, _, _, same) = read_records-rows scope table s h in same
