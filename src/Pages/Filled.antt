-- ===== src/Pages/Filled.antt =====
-- What the loop that fills a page ends with (`readThreadPage` of codex/thread_page.go).
use mathlib.Core.List.{append-nil, append_assoc}
use codex_web.Common.{
  String, ℕ, ◌+◌, ◌-◌, ◌≤◌, ◌≡◌, refl, sym, ap, ◌∙◌, subst, inl, inr, Bool, true, false, some, List,
  [], ◌∷◌, ◌++◌, length, length-append, arith, ◌==◌, eq_iff, if◌then◌else◌, Bool-cases,
  Option-cases,
}
use codex_web.Errors.{ok, Outcome-cases}
use codex_web.Prompts.Json.{Members}
use codex_web.Pages.Walk.{
  transcript_page_size, ItemEntry, item_id, page_item, TurnsPage, ItemsPage, PageEntry, failure,
  item, Filling, page_key, already_seen, accept_turns, new_turns, take_items, go_on, accept_items,
  next_of,
}

-- How often an item was taken.
abbrev pub times_taken : String → List ItemEntry → ℕ
times_taken k [] = 0
times_taken k (e ∷ es) = (if page_key e.turn_id (item_id e) == k then 1 else 0) + times_taken k es

pub times_taken-append :
    (k : String) (a b : List ItemEntry) → times_taken k (a ++ b) ≡ times_taken k a + times_taken k b
times_taken-append k [] b = omega arith
times_taken-append k (e ∷ a) b = omega (arith, times_taken-append k a b)

abbrev pub failures : List PageEntry → ℕ
failures [] = 0
failures (failure _ ∷ entries) = 1 + failures entries
failures (item _ _ ∷ entries) = failures entries

pub failures-append : (a b : List PageEntry) → failures (a ++ b) ≡ failures a + failures b
failures-append [] b = omega arith
failures-append (failure _ ∷ a) b = omega (arith, failures-append a b)
failures-append (item _ _ ∷ a) b = failures-append a b

-- The entries that are of items.
abbrev pub items_of : List PageEntry → List PageEntry
items_of [] = []
items_of (failure _ ∷ entries) = items_of entries
items_of (item turn id ∷ entries) = item turn id ∷ items_of entries

pub items_of-append : (a b : List PageEntry) → items_of (a ++ b) ≡ items_of a ++ items_of b
items_of-append [] b = refl
items_of-append (failure _ ∷ a) b = items_of-append a b
items_of-append (item turn id ∷ a) b = ap (λ l. item turn id ∷ l) (items_of-append a b)

module _ (trim_space : String → String) where
  -- What is shown of a list of items.
  abbrev pub visible : List ItemEntry → List PageEntry
  visible [] = []
  visible (e ∷ es) = page_item trim_space e.turn_id e.raw ++ visible es

  visible-append : (a b : List ItemEntry) → visible (a ++ b) ≡ visible a ++ visible b
  visible-append [] b = refl
  visible-append (e ∷ a) b =
      ap (λ l. page_item trim_space e.turn_id e.raw ++ l) (visible-append a b)
      ∙ sym (append_assoc (page_item trim_space e.turn_id e.raw) (visible a) (visible b))

  page_item-of :
      (turn : String) (raw : Members)
      → (items_of (page_item trim_space turn raw) ≡ page_item trim_space turn raw)
        × (failures (page_item trim_space turn raw) ≡ 0)
  unfolding page_item
  page_item-of turn raw = (ground arith, ground arith)

  -- The page so far: a slot for each failure shown and each item taken, no item twice, and of the items
  -- what is shown of them.
  pub record Shows (w : Filling) : Type 0 where
    pub counted : length w.taken + failures w.entries ≡ w.used
    pub exact : items_of w.entries ≡ visible w.taken
    pub once : (k : String) → times_taken k w.taken ≤ 1
    pub fresh : (k : String) → already_seen k w.seen_items ≡ false → times_taken k w.taken ≡ 0

  pub Shows-same :
      (w w' : Filling)
      → w'.entries ≡ w.entries
      → w'.taken ≡ w.taken
      → w'.used ≡ w.used
      → w'.seen_items ≡ w.seen_items
      → Shows w
      → Shows w'
  Shows-same w w' entries taken used seen s =
      let c = s.counted in
      record {
        counted = omega (arith, c, used, ap (λ l. length l) taken, ap failures entries);
        exact = ap items_of entries ∙ (s.exact ∙ ap visible (sym taken));
        once = λ k. let h = s.once k in let e = ap (times_taken k) taken in omega arith;
        fresh = λ k h. ap (times_taken k) taken ∙ s.fresh k (ap (already_seen k) (sym seen) ∙ h);
      }

  take_items-Shows :
      (turn : String) (first : Bool) (es : List ItemEntry) (w w' : Filling)
      → take_items trim_space turn first es w ≡ ok w'
      → Shows w
      → Shows w' × (w'.used ≡ length es + w.used) × (w'.visited ≡ w.visited)
  unfolding take_items already_seen
  take_items-Shows turn first [] w w' h s =
      let same : w ≡ w' = ground (arith, h) in
      (
        subst Shows same s,
        (let e : w.used ≡ w'.used = ap (λ x. x.used) same in omega arith),
        ap (λ x. x.visited) (sym same),
      )
  take_items-Shows turn first (e ∷ es) w w' h s =
      let shown = page_item trim_space turn e.raw in
      let next = record w {
        place = record w.place { last_item_id = item_id e };
        used = 1 + w.used;
        seen_items = page_key e.turn_id (item_id e) ∷ w.seen_items;
        entries = w.entries ++ shown;
        taken = w.taken ++ (e ∷ []);
      } in
      let key = page_key e.turn_id (item_id e) in
      let unseen : already_seen key w.seen_items ≡ false = ground (arith, h) in
      let own_turn : e.turn_id ≡ turn = ground (arith, h, eq_iff e.turn_id turn) in
      let more : take_items trim_space turn false es next ≡ ok w' = ground (arith, h) in
      let (of_items, no_failure) = page_item-of turn e.raw in
      let added : Shows next = record {
        counted =
            let c = s.counted in
            omega (
              arith,
              c,
              length-append w.taken (e ∷ []),
              failures-append w.entries shown,
              no_failure,
            );
        exact =
            items_of-append w.entries shown
            ∙ (ap (λ l. l ++ items_of shown) s.exact
                ∙ (ap (λ l. visible w.taken ++ l)
                      (of_items
                        ∙ (ap (λ t. page_item trim_space t e.raw) (sym own_turn)
                            ∙ sym (append-nil (page_item trim_space e.turn_id e.raw))))
                    ∙ sym (visible-append w.taken (e ∷ []))));
        once = λ k.
            let split = times_taken-append k w.taken (e ∷ []) in
            elim (Bool-cases (key == k)) [
              | inl hit ↦
                  let own : key ≡ k = ground (arith, hit, eq_iff key k) in
                  let none_yet =
                    s.fresh k (ap (λ x. already_seen x w.seen_items) (sym own) ∙ unseen) in
                  ground (arith, split, hit, none_yet)
              | inr miss ↦ ground (arith, split, miss, s.once k)
            ];
        fresh = λ k absent.
            let split = times_taken-append k w.taken (e ∷ []) in
            let miss : (key == k) ≡ false = ground (arith, absent) in
            let before : already_seen k w.seen_items ≡ false = ground (arith, absent) in
            ground (arith, split, miss, s.fresh k before);
      } in
      let (s', used, visited) = take_items-Shows turn false es next w' more added in
      (s', omega (arith, used), visited)

-- Within the bounds of a page.
pub record Within (trim_space : String → String) (w : Filling) : Type 0 where
  pub few : w.used ≤ transcript_page_size
  pub turns : w.visited ≤ transcript_page_size
  pub shows : Shows trim_space w

-- A step that only moves the place.
abbrev pub Moves : Filling → Filling → Type 0
Moves w w' =
    (w'.entries ≡ w.entries)
    × (w'.taken ≡ w.taken)
    × (w'.used ≡ w.used)
    × (w'.seen_items ≡ w.seen_items)
    × (w'.visited ≡ w.visited)

pub Within-Moves :
    (trim_space : String → String) (w w' : Filling)
    → Moves w w'
    → Within trim_space w
    → Within trim_space w'
Within-Moves trim_space w w' (entries, taken, used, seen, visited) i =
    let few = i.few in
    let turns = i.turns in
    record {
      few = omega (arith, used, few);
      turns = omega (arith, visited, turns);
      shows = Shows-same trim_space w w' entries taken used seen i.shows;
    }

go_on-Moves :
    (size : String → ℕ) (turn : String) (page : ItemsPage) (w w' : Filling)
    → go_on size turn page w ≡ ok w'
    → Moves w w'
unfolding go_on
go_on-Moves size turn page w w' h = elim (Option-cases page.next_cursor) [
  | inl e ↦ (
    ground (arith, e, h),
    ground (arith, e, h),
    ground (arith, e, h),
    ground (arith, e, h),
    ground (arith, e, h),
  )
  | inr (cursor, e) ↦
      elim (Outcome-cases
        (next_of size w.place.item_cursor w.place.last_item_cursor (some cursor))) [
          | inr (inl (x, f)) ↦ absurd (ground (arith, e, f, h))
          | inr (inr f) ↦ absurd (ground (arith, e, f, h))
          | inl (x, f) ↦ (
            ground (arith, e, f, h),
            ground (arith, e, f, h),
            ground (arith, e, f, h),
            ground (arith, e, f, h),
            ground (arith, e, f, h),
          )
        ]
]

pub accept_turns-Moves :
    (size : String → ℕ) (limit : ℕ) (page : TurnsPage) (w w' : Filling)
    → accept_turns size limit page w ≡ ok w'
    → Moves w w' × (w'.place.turn_index ≡ 0)
unfolding accept_turns
accept_turns-Moves size limit page w w' h = elim (Option-cases page.entries) [
  | inl e ↦ absurd (ground (arith, e, h))
  | inr (raws, e) ↦
      elim (Outcome-cases
        (next_of size w.place.turn_cursor w.place.last_turn_cursor page.next_cursor)) [
          | inr (inl (x, f)) ↦ absurd (ground (arith, e, f, h))
          | inr (inr f) ↦ absurd (ground (arith, e, f, h))
          | inl (x, f) ↦ elim (Outcome-cases (new_turns w.place.last_turn_id [] raws)) [
            | inr (inl (y, g)) ↦ absurd (ground (arith, e, f, g, h))
            | inr (inr g) ↦ absurd (ground (arith, e, f, g, h))
            | inl (turns, g) ↦ (
              (
                ground (arith, e, f, g, h),
                ground (arith, e, f, g, h),
                ground (arith, e, f, g, h),
                ground (arith, e, f, g, h),
                ground (arith, e, f, g, h),
              ),
              ground (arith, e, f, g, h),
            )
          ]
        ]
]

pub accept_items-Within :
    (size : String → ℕ) (trim_space : String → String) (turn : String) (page : ItemsPage)
    (w w' : Filling)
    → accept_items size trim_space turn (transcript_page_size - w.used) page w ≡ ok w'
    → Within trim_space w
    → Within trim_space w' × (w'.visited ≡ w.visited)
unfolding accept_items
accept_items-Within size trim_space turn page w w' h i = elim (Option-cases page.entries) [
  | inl e ↦ absurd (ground (arith, e, h))
  | inr (entries, e) ↦ elim (Outcome-cases (take_items trim_space turn true entries w)) [
    | inr (inl (x, f)) ↦ absurd (ground (arith, e, f, h))
    | inr (inr f) ↦ absurd (ground (arith, e, f, h))
    | inl (x, f) ↦
        let (s, used, visited) = take_items-Shows trim_space turn true entries w x f i.shows in
        let fits : length entries ≤ transcript_page_size - w.used = ground (arith, e, f, h) in
        let gone_on : go_on size turn page x ≡ ok w' = ground (arith, e, f, h) in
        let moved = go_on-Moves size turn page x w' gone_on in
        let few = i.few in
        let turns = i.turns in
        let inside : Within trim_space x = record {
          few = omega (arith, used, fits, few);
          turns = omega (arith, visited, turns);
          shows = s;
        } in
        (Within-Moves trim_space x w' moved inside, moved.4 ∙ visited)
  ]
]
