-- ===== src/Database/Records.antt =====
-- The records of a ledger (`submissionRecords` of codex/submission_database.go).
use codex_web.Common.{
  String, ◌≡◌, refl, sym, ap, ◌∙◌, subst, false, Option, none, some, [], ◌∷◌, arith, ◌==◌, eq_iff,
  eq_refl, Bool-cases, inl, inr,
}
use codex_web.Errors.{Outcome, ok, err, panic, ◌>>=◌}
use codex_web.GoMap.{GoMap, lookup}
use codex_web.Library.{Library}
use codex_web.ThreadMap.{ThreadMap, find}
use codex_web.Ledger.Types.{SendAttempt, Ledger}
use codex_web.Database.Keys.{
  SubmissionKey, key, same_key, KeyMap, row_at, put_row, IsMap, row_at-put_row, IsMap-put_row,
}
use codex_web.Database.Rows.{Sql, Codec}
use codex_web.Database.Session.{or_json, records_of, records_of_table, submission_records}

-- A chain that succeeds had a first step that did.
pub bind-ok {ℓ κ} :
    {A : Type ℓ} {B : Type κ} (m : Outcome A) (f : A → Outcome B) (b : B)
    → (m >>= f) ≡ ok b
    → (a : A) × (m ≡ ok a) × (f a ≡ ok b)
bind-ok (ok a) f b h = (a, refl, h)
bind-ok (err e) f b h = absurd (ground arith)
bind-ok panic f b h = absurd (ground arith)

pub or_json-ok {ℓ} : {A : Type ℓ} (o : Option A) (a : A) → or_json o ≡ ok a → o ≡ some a
or_json-ok none a h = absurd (ground arith)
or_json-ok (some x) a h = ground arith

module _ {Bytes Table : Type 0} (lib : Library) (codec : Codec Bytes) (sql : Sql Bytes Table) where
  module _ {V : Type 0} (kind : String) (encode : V → Option Bytes) where
    -- The last step of the loop.
    records_of-step :
        (t id : String) (v : V) (entries : GoMap V) (records r : KeyMap Bytes)
        → records_of lib codec sql kind t encode ((id, v) ∷ entries) records ≡ ok r
        → (later : KeyMap Bytes) × (records_of lib codec sql kind t encode entries records
            ≡ ok later)
          × (b : Bytes) × (encode v ≡ some b)
          × (r ≡ put_row (key kind t id) b later)
    unfolding records_of
    records_of-step t id v entries records r h =
        let (later, e, more) =
          bind-ok (records_of lib codec sql kind t encode entries records)
            (λ later. or_json (encode v) >>= λ b. ok (put_row (key kind t id) b later)) r h in
        let (b, enc, last) =
          bind-ok (or_json (encode v)) (λ b. ok (put_row (key kind t id) b later)) r more in
        (later, e, b, or_json-ok (encode v) b enc, sym (ground arith))

    records_of-IsMap :
        (t : String) (entries : GoMap V) (records r : KeyMap Bytes)
        → records_of lib codec sql kind t encode entries records ≡ ok r
        → IsMap records
        → IsMap r
    unfolding records_of
    records_of-IsMap t [] records r h m =
        let same : records ≡ r = ground (arith, h) in subst IsMap same m
    records_of-IsMap t ((id, v) ∷ entries) records r h m =
        let (later, e, b, _, made) = records_of-step t id v entries records r h in
        subst IsMap (sym made)
          (IsMap-put_row (key kind t id) b later (records_of-IsMap t entries records later e m))

    records_of-other :
        (t : String) (j : SubmissionKey) (entries : GoMap V) (records r : KeyMap Bytes)
        → records_of lib codec sql kind t encode entries records ≡ ok r
        → ((id : String) → same_key (key kind t id) j ≡ false)
        → row_at j r ≡ row_at j records
    unfolding records_of
    records_of-other t j [] records r h other =
        let same : records ≡ r = ground (arith, h) in ap (row_at j) (sym same)
    records_of-other t j ((id, v) ∷ entries) records r h other =
        let (later, e, b, _, made) = records_of-step t id v entries records r h in
        let rest = records_of-other t j entries records later e other in
        ap (row_at j) made
        ∙ ground (arith, rest, row_at-put_row (key kind t id) j b later, other id)

    records_of-found :
        (t c : String) (v : V) (entries : GoMap V) (records r : KeyMap Bytes)
        → records_of lib codec sql kind t encode entries records ≡ ok r
        → lookup c entries ≡ some v
        → (b : Bytes) × (encode v ≡ some b) × (row_at (key kind t c) r ≡ some b)
    unfolding records_of lookup same_key
    records_of-found t c v [] records r h found = absurd (ground (arith, found))
    records_of-found t c v ((id, x) ∷ entries) records r h found =
        let (later, e, b, enc, made) = records_of-step t id x entries records r h in
        let at = row_at-put_row (key kind t id) (key kind t c) b later in
        elim (Bool-cases (id == c)) [
          | inl hit ↦
              let same : x ≡ v = ground (arith, hit, found) in
              (
                b,
                ap encode (sym same) ∙ enc,
                ap (row_at (key kind t c)) made ∙ ground (arith, at, hit, eq_refl kind, eq_refl t),
              )
          | inr miss ↦
              let (b', enc', there) =
                records_of-found t c v entries records later e (ground (arith, found, miss)) in
              (b', enc', ap (row_at (key kind t c)) made ∙ ground (arith, at, miss, there))
        ]

    records_of_table-step :
        (t : String) (entries : GoMap V) (m : ThreadMap V) (records r : KeyMap Bytes)
        → records_of_table lib codec sql kind encode ((t, entries) ∷ m) records ≡ ok r
        → (later : KeyMap Bytes) × (records_of_table lib codec sql kind encode m records ≡ ok later)
          × (records_of lib codec sql kind t encode entries later ≡ ok r)
    unfolding records_of_table
    records_of_table-step t entries m records r h =
        bind-ok (records_of_table lib codec sql kind encode m records)
          (records_of lib codec sql kind t encode entries) r h

    records_of_table-IsMap :
        (m : ThreadMap V) (records r : KeyMap Bytes)
        → records_of_table lib codec sql kind encode m records ≡ ok r
        → IsMap records
        → IsMap r
    unfolding records_of_table
    records_of_table-IsMap [] records r h d =
        let same : records ≡ r = ground (arith, h) in subst IsMap same d
    records_of_table-IsMap ((t, entries) ∷ m) records r h d =
        let (later, e, last) = records_of_table-step t entries m records r h in
        records_of-IsMap t entries later r last (records_of_table-IsMap m records later e d)

    records_of_table-other :
        (j : SubmissionKey) (m : ThreadMap V) (records r : KeyMap Bytes)
        → records_of_table lib codec sql kind encode m records ≡ ok r
        → (kind == j.kind) ≡ false
        → row_at j r ≡ row_at j records
    unfolding records_of_table same_key
    records_of_table-other j [] records r h other =
        let same : records ≡ r = ground (arith, h) in ap (row_at j) (sym same)
    records_of_table-other j ((t, entries) ∷ m) records r h other =
        let (later, e, last) = records_of_table-step t entries m records r h in
        records_of-other t j entries later r last (λ id. ground (arith, other))
        ∙ records_of_table-other j m records later e other

    records_of_table-found :
        (t c : String) (v : V) (m : ThreadMap V) (records r : KeyMap Bytes)
        → records_of_table lib codec sql kind encode m records ≡ ok r
        → find t c m ≡ some v
        → (b : Bytes) × (encode v ≡ some b) × (row_at (key kind t c) r ≡ some b)
    unfolding records_of_table find lookup same_key
    records_of_table-found t c v [] records r h found = absurd (ground (arith, found))
    records_of_table-found t c v ((u, entries) ∷ m) records r h found =
        let (later, e, last) = records_of_table-step u entries m records r h in
        elim (Bool-cases (u == t)) [
          | inl hit ↦
              let own : u ≡ t = ground (arith, hit, eq_iff u t) in
              let inner : lookup c entries ≡ some v = ground (arith, hit, found) in
              let (b, enc, there) = records_of-found u c v entries later r last inner in
              (b, enc, ap (λ x. row_at (key kind x c) r) (sym own) ∙ there)
          | inr miss ↦
              let (b, enc, there) =
                records_of_table-found t c v m records later e (ground (arith, miss, found)) in
              (
                b,
                enc,
                records_of-other u (key kind t c) entries later r last (λ id. ground (arith, miss))
                    ∙ there,
              )
        ]

  -- The four tables, in their order.
  submission_records-steps :
      (l : Ledger) (r : KeyMap Bytes)
      → submission_records lib codec sql l ≡ ok r
      → (a : KeyMap Bytes) × (records_of_table lib codec sql "attempts" codec.encode_text
            l.queue_attempts []
          ≡ ok a)
        × (b : KeyMap Bytes) × (records_of_table lib codec sql "sends" codec.encode_send
              l.send_attempts a
            ≡ ok b)
        × (c : KeyMap Bytes) × (records_of_table lib codec sql "deletions" codec.encode_deletion
              l.queue_deletions b
            ≡ ok c)
        × (records_of lib codec sql "retirements" "" codec.encode_text l.operations c ≡ ok r)
  unfolding submission_records
  submission_records-steps l r h =
      let last = records_of lib codec sql "retirements" "" codec.encode_text l.operations in
      let third =
        records_of_table lib codec sql "deletions" codec.encode_deletion l.queue_deletions in
      let second = records_of_table lib codec sql "sends" codec.encode_send l.send_attempts in
      let first = records_of_table lib codec sql "attempts" codec.encode_text l.queue_attempts [] in
      let (a, ea, ha) = bind-ok first (λ a. second a >>= λ b. third b >>= last) r h in
      let (b, eb, hb) = bind-ok (second a) (λ b. third b >>= last) r ha in
      let (c, ec, hc) = bind-ok (third b) last r hb in (a, ea, b, eb, c, ec, hc)

  pub submission_records-IsMap :
      (l : Ledger) (r : KeyMap Bytes) → submission_records lib codec sql l ≡ ok r → IsMap r
  unfolding IsMap
  submission_records-IsMap l r h =
      let (a, ea, b, eb, c, ec, hc) = submission_records-steps l r h in
      records_of-IsMap "retirements" codec.encode_text "" l.operations c r hc (
        records_of_table-IsMap "deletions" codec.encode_deletion l.queue_deletions b c ec (
          records_of_table-IsMap "sends" codec.encode_send l.send_attempts a b eb
            (records_of_table-IsMap "attempts" codec.encode_text l.queue_attempts [] a ea tt)))

  pub submission_records-send :
      (l : Ledger) (r : KeyMap Bytes) (t c : String) (v : SendAttempt)
      → submission_records lib codec sql l ≡ ok r
      → find t c l.send_attempts ≡ some v
      → (b : Bytes) × (codec.encode_send v ≡ some b) × (row_at (key "sends" t c) r ≡ some b)
  unfolding same_key
  submission_records-send l r t c v h found =
      let (a, ea, b, eb, d, ed, hd) = submission_records-steps l r h in
      let j = key "sends" t c in
      let (bytes, enc, there) =
        records_of_table-found "sends" codec.encode_send t c v l.send_attempts a b eb found in
      (
        bytes,
        enc,
        records_of-other "retirements" codec.encode_text "" j l.operations d r hd (λ id. refl)
            ∙ (records_of_table-other "deletions" codec.encode_deletion j l.queue_deletions b d ed
                  refl
                ∙ there),
      )
