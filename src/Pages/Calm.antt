-- ===== src/Pages/Calm.antt =====
-- The parts of a round that fills a page (`readThreadPage` of codex/thread_page.go) and never panic.
use codex_web.Common.{
  String, ℕ, ◌+◌, ◌≡◌, ◌≢◌, refl, ◌⊎◌, inl, inr, Bool, true, false, Option, none, some, List, [],
  ◌∷◌, ◌++◌, arith, Option-cases,
}
use codex_web.Errors.{panic, Outcome-cases}
use codex_web.Prompts.Json.{Members}
use codex_web.Pages.Walk.{
  page_turn, ItemEntry, item_id, page_item, TurnsPage, ItemsPage, Filling, page_key, accept_turns,
  new_turns, take_items, go_on, accept_items, next_of,
}

pub Sum-cases {ℓ κ} :
    {A : Type ℓ} {B : Type κ} (o : A ⊎ B) → ((a : A) × (o ≡ inl a)) ⊎ ((b : B) × (o ≡ inr b))
Sum-cases (inl a) = inl (a, refl)
Sum-cases (inr b) = inr (b, refl)

take_items-calm :
    (trim_space : String → String) (turn : String) (first : Bool) (es : List ItemEntry)
    (w : Filling)
    → take_items trim_space turn first es w ≢ panic
unfolding take_items
take_items-calm trim_space turn first [] w h = ground (arith, h)
take_items-calm trim_space turn first (e ∷ es) w h =
    take_items-calm trim_space turn false es
      (record w {
        place = record w.place { last_item_id = item_id e };
        used = 1 + w.used;
        seen_items = page_key e.turn_id (item_id e) ∷ w.seen_items;
        entries = w.entries ++ page_item trim_space turn e.raw;
        taken = w.taken ++ (e ∷ []);
      })
      (ground (arith, h))

new_turns-calm :
    (last : String) (seen : List String) (raws : List Members) → new_turns last seen raws ≢ panic
unfolding new_turns page_turn
new_turns-calm last seen [] h = ground (arith, h)
new_turns-calm last seen (raw ∷ raws) h = elim (Outcome-cases (page_turn raw)) [
  | inr (inl (x, e)) ↦ ground (arith, e, h)
  | inr (inr e) ↦ ground (arith, e)
  | inl (turn, e) ↦ elim (Outcome-cases (new_turns last (turn.id ∷ seen) raws)) [
    | inr (inl (x, f)) ↦ ground (arith, e, f, h)
    | inr (inr f) ↦ new_turns-calm last (turn.id ∷ seen) raws f
    | inl (x, f) ↦ ground (arith, e, f, h)
  ]
]

next_of-calm :
    (size : String → ℕ) (before last : String) (next : Option String)
    → next_of size before last next ≢ panic
unfolding next_of
next_of-calm size before last none h = ground (arith, h)
next_of-calm size before last (some cursor) h = ground (arith, h)

go_on-calm :
    (size : String → ℕ) (turn : String) (page : ItemsPage) (w : Filling)
    → go_on size turn page w ≢ panic
unfolding go_on
go_on-calm size turn page w h = elim (Option-cases page.next_cursor) [
  | inl e ↦ ground (arith, e, h)
  | inr (cursor, e) ↦
      ground
        (arith, e, h, next_of-calm size w.place.item_cursor w.place.last_item_cursor (some cursor))
]

pub accept_items-calm :
    (size : String → ℕ) (trim_space : String → String) (turn : String) (limit : ℕ)
    (page : ItemsPage) (w : Filling)
    → accept_items size trim_space turn limit page w ≢ panic
unfolding accept_items
accept_items-calm size trim_space turn limit page w h = elim (Option-cases page.entries) [
  | inl e ↦ ground (arith, e, h)
  | inr (entries, e) ↦ elim (Outcome-cases (take_items trim_space turn true entries w)) [
    | inr (inl (x, f)) ↦ ground (arith, e, f, h)
    | inr (inr f) ↦ take_items-calm trim_space turn true entries w f
    | inl (x, f) ↦ ground (arith, e, f, h, go_on-calm size turn page x)
  ]
]

pub accept_turns-calm :
    (size : String → ℕ) (limit : ℕ) (page : TurnsPage) (w : Filling)
    → accept_turns size limit page w ≢ panic
unfolding accept_turns
accept_turns-calm size limit page w h = elim (Option-cases page.entries) [
  | inl e ↦ ground (arith, e, h)
  | inr (raws, e) ↦
      elim (Outcome-cases
        (next_of size w.place.turn_cursor w.place.last_turn_cursor page.next_cursor)) [
          | inr (inl (x, f)) ↦ ground (arith, e, f, h)
          | inr (inr f) ↦
              next_of-calm size w.place.turn_cursor w.place.last_turn_cursor page.next_cursor f
          | inl (x, f) ↦ ground (arith, e, f, h, new_turns-calm w.place.last_turn_id [] raws)
        ]
]
