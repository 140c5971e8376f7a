-- ===== src/History/Evidence.antt =====
-- What a search of a thread's items has seen where it reports a message.
use mathlib.Core.List.{Memᴰ}
use codex_web.Common.{
  String, ◌≡◌, refl, subst, true, false, Option, none, some, List, [], ◌∷◌, arith, ◌==◌, Bool-cases,
  Option-cases, inl, inr, eq_iff,
}
use codex_web.Errors.{Outcome, ok, err, panic, Outcome-cases}
use codex_web.Ledger.Types.{SendReceipt, QueueEntry}
use codex_web.History.Walk.{
  ThreadItemEntry, Page, Visited, accept_cursor, visit_page, walk_thread_items,
}
use codex_web.History.Messages.{
  user_message_text, is_message, Answers, visit_sent, sent_by_client_id, visit_started,
  started_by_client_id,
}

-- The item is on one of the pages that the server answered with.
pub data Shown (entry : ThreadItemEntry) : Answers → Type 0 where
  here :
      (page : Page ThreadItemEntry) (entries : List ThreadItemEntry) (rest : Answers)
      → page.entries ≡ some entries
      → Memᴰ entry entries
      → Shown entry (ok page ∷ rest)
  later :
      (answer : Outcome (Page ThreadItemEntry)) (rest : Answers)
      → Shown entry rest
      → Shown entry (answer ∷ rest)

-- The server showed the message: an item of this client identity whose text is `text`.
pub record ShowsMessage (client text : String) (answers : Answers) : Type 0 where
  pub entry : ThreadItemEntry
  pub shown : Shown entry answers
  pub is_one : is_message client entry ≡ true
  pub has_text : user_message_text entry ≡ ok text

module _ {S : Type 0} (visit : S → ThreadItemEntry → Outcome (Visited S)) (P : S → Type 0) where
  -- The visitor keeps `P` on every item that `Among` holds of.
  abbrev Keeps : (ThreadItemEntry → Type 0) → Type 0
  Keeps Among =
      (s : S) (entry : ThreadItemEntry) (v : Visited S)
      → Among entry
      → visit s entry ≡ ok v
      → P s
      → P v.state

  visit_page-keeps :
      (s : S) (ids : List String) (entries : List ThreadItemEntry) (v : Visited S)
      (ids' : List String)
      → Keeps (λ entry. Memᴰ entry entries)
      → visit_page visit s ids entries ≡ ok (v, ids')
      → P s
      → P v.state
  unfolding visit_page
  visit_page-keeps s ids [] v ids' keeps h start =
      let same : s ≡ v.state = ground arith in subst P same start
  visit_page-keeps s ids (entry ∷ entries) v ids' keeps h start =
      elim (Outcome-cases (visit s entry)) [
        | inl (visited, e) ↦
            let kept = keeps s entry visited (Memᴰ.head refl) e start in
            elim (Bool-cases visited.stop) [
              | inl stops ↦
                  let same : visited.state ≡ v.state = ground (arith, e) in subst P same kept
              | inr goes ↦
                  visit_page-keeps visited.state (entry.id ∷ ids) entries v ids'
                    (λ s x v among. keeps s x v (Memᴰ.tail among)) (ground (arith, e)) kept
            ]
        | inr (inl (x, e)) ↦ absurd (ground (arith, e))
        | inr (inr e) ↦ absurd (ground (arith, e))
      ]

  -- A walk keeps what its visitor keeps on the items that the server shows.
  pub walk_thread_items-keeps :
      (s s' : S) (ids cursors : List String) (answers : Answers)
      → Keeps (λ entry. Shown entry answers)
      → walk_thread_items visit s ids cursors answers ≡ ok s'
      → P s
      → P s'
  unfolding walk_thread_items
  walk_thread_items-keeps s s' ids cursors [] keeps h start = absurd (ground arith)
  walk_thread_items-keeps s s' ids cursors (err e ∷ answers) keeps h start = absurd (ground arith)
  walk_thread_items-keeps s s' ids cursors (panic ∷ answers) keeps h start = absurd (ground arith)
  walk_thread_items-keeps s s' ids cursors (ok page ∷ answers) keeps h start =
      elim (Option-cases page.entries) [
        | inl e ↦ absurd (ground (arith, e))
        | inr (entries, given) ↦ elim (Outcome-cases (visit_page visit s ids entries)) [
          | inl ((v, ids'), e) ↦
              let kept : P v.state =
                visit_page-keeps s ids entries v ids'
                  (λ s x v among. keeps s x v (here page entries answers given among)) e start in
              let ends : v.state ≡ s' → P s' = λ same. subst P same kept in
              elim (Option-cases page.next_cursor) [
                | inl last ↦ ends (ground (arith, given, e, last))
                | inr (cursor, more) ↦ elim (Bool-cases v.stop) [
                  | inl stops ↦ ends (ground (arith, given, e, more))
                  | inr goes ↦ elim (Outcome-cases (accept_cursor cursors cursor)) [
                    | inl (cursors', ac) ↦
                        walk_thread_items-keeps v.state s' ids' cursors' answers
                          (λ s x v among. keeps s x v (later (ok page) answers among))
                          (ground (arith, given, e, more, ac)) kept
                    | inr (inl (x, ac)) ↦ absurd (ground (arith, given, e, more, ac))
                    | inr (inr ac) ↦ absurd (ground (arith, given, e, more, ac))
                  ]
                ]
              ]
          | inr (inl (x, e)) ↦ absurd (ground (arith, given, e))
          | inr (inr e) ↦ absurd (ground (arith, given, e))
        ]
      ]

-- What a search has found is proved by an item that the server showed.
abbrev Proved : String → String → Answers → Option SendReceipt → Type 0
Proved client text answers found =
    (receipt : SendReceipt)
    → found ≡ some receipt
    → (receipt.client_user_message_id ≡ client)
      × (shows : ShowsMessage client text answers) × (receipt.turn_id ≡ shows.entry.turn_id)
      × ((receipt.turn_id == "") ≡ false)

visit_sent-Proved :
    (client text : String) (answers : Answers) (s : Option SendReceipt) (entry : ThreadItemEntry)
    (v : Visited (Option SendReceipt))
    → Shown entry answers
    → visit_sent client text s entry ≡ ok v
    → Proved client text answers s
    → Proved client text answers v.state
unfolding visit_sent
visit_sent-Proved client text answers (some receipt) entry v shown h before receipt' found =
    let (named, shows, turn, set) = before receipt refl in
    (ground arith, shows, ground arith, ground arith)
visit_sent-Proved client text answers none entry v shown h before receipt found =
    let text_is : user_message_text entry ≡ ok text =
      elim (Outcome-cases (user_message_text entry)) [
        | inl (sent, e) ↦ ground (arith, e, eq_iff sent text)
        | inr (inl (x, e)) ↦ absurd (ground (arith, e))
        | inr (inr e) ↦ absurd (ground (arith, e))
      ] in
    (
      ground (arith, text_is),
      record { entry = entry; shown = shown; is_one = ground arith; has_text = text_is },
      ground (arith, text_is),
      ground (arith, text_is),
    )

-- A receipt that history gives is for the client identity asked for, and names the turn, not empty, of
-- an item that the server showed: a user message of that identity with exactly the text asked for.
pub sent_by_client_id-shows :
    (client text : String) (answers : Answers) (receipt : SendReceipt)
    → sent_by_client_id client text answers ≡ ok (some receipt)
    → (receipt.client_user_message_id ≡ client)
      × (shows : ShowsMessage client text answers) × (receipt.turn_id ≡ shows.entry.turn_id)
      × ((receipt.turn_id == "") ≡ false)
unfolding sent_by_client_id
sent_by_client_id-shows client text answers receipt h =
    walk_thread_items-keeps (visit_sent client text) (Proved client text answers) none
      (some receipt) [] [] answers (visit_sent-Proved client text answers) h
      (λ r e. absurd (ground (arith, e))) receipt refl

abbrev Started : String → String → Answers → Option QueueEntry → Type 0
Started client text answers found =
    (entry : QueueEntry)
    → found ≡ some entry
    → (entry.client_user_message_id ≡ client)
      × (entry.text ≡ text)
      × (shows : ShowsMessage client text answers) × (entry.id ≡ shows.entry.id)

visit_started-Started :
    (client text : String) (answers : Answers) (s : Option QueueEntry) (entry : ThreadItemEntry)
    (v : Visited (Option QueueEntry))
    → Shown entry answers
    → visit_started client text s entry ≡ ok v
    → Started client text answers s
    → Started client text answers v.state
unfolding visit_started
visit_started-Started client text answers s entry v shown h before found h' =
    elim (Bool-cases (is_message client entry)) [
      | inr other ↦ before found (ground (arith, other))
      | inl is_one ↦
          let text_is : user_message_text entry ≡ ok text =
            elim (Outcome-cases (user_message_text entry)) [
              | inl (sent, e) ↦ ground (arith, e, is_one, eq_iff sent text)
              | inr (inl (x, e)) ↦ absurd (ground (arith, e, is_one))
              | inr (inr e) ↦ absurd (ground (arith, e, is_one))
            ] in
          (
            ground (arith, text_is, is_one),
            ground (arith, text_is, is_one, eq_iff text text),
            record { entry = entry; shown = shown; is_one = is_one; has_text = text_is },
            ground (arith, text_is, is_one),
          )
    ]

-- A queue entry that is reported as started carries the client identity and the text asked for, and the
-- identity of an item that the server showed: a user message of that identity with exactly that text.
pub started_by_client_id-shows :
    (client text : String) (answers : Answers) (entry : QueueEntry)
    → started_by_client_id client text answers ≡ ok (some entry)
    → (entry.client_user_message_id ≡ client)
      × (entry.text ≡ text)
      × (shows : ShowsMessage client text answers) × (entry.id ≡ shows.entry.id)
unfolding started_by_client_id
started_by_client_id-shows client text answers entry h =
    walk_thread_items-keeps (visit_started client text) (Started client text answers) none
      (some entry) [] [] answers (visit_started-Started client text answers) h
      (λ r e. absurd (ground (arith, e))) entry refl
