-- ===== src/Pages/Evicted.antt =====
-- What `savePageCursor` leaves of the continuations (codex/thread_page.go).
use codex_web.Common.{
  String, ℕ, zero, suc, ◌+◌, ◌-◌, ◌≤◌, ◌<◌, ◌≡◌, sym, ap, ◌∙◌, ◌||◌, none, some, [], ◌∷◌, length,
  arith, ltb, leb, ◌==◌, eq_iff, eq_refl, Bool-cases, Option-cases, inl, inr,
}
use codex_web.GoMap.{lookup, insert, delete, lookup-insert, lookup-delete}
use codex_web.Pages.Types.{PageContinuation}
use codex_web.Pages.Cursors.{
  PageCursors, page_cursor_limit, page_cursor_bytes, is_idle, drop_idle, total_bytes, oldest,
  make_room, store_page_cursor,
}
use codex_web.Pages.Bounded.{
  IsMap, IsMap-delete, delete-found, delete-less, oldest-there, oldest-least, oldest-none,
}

-- What is left of some continuations, beside one of `extra` bytes: there is room for it, nothing is
-- changed, and what is gone was used no later than what is left.
pub record Roomy (extra : ℕ) (before left : PageCursors) : Type 0 where
  pub distinct : IsMap left
  pub few : length left < page_cursor_limit
  pub light : extra + total_bytes left ≤ page_cursor_bytes
  pub unchanged :
      (k : String) (v : PageContinuation) → lookup k left ≡ some v → lookup k before ≡ some v
  pub oldest_gone :
      (k j : String) (v w : PageContinuation)
      → lookup k left ≡ some v
      → lookup j before ≡ some w
      → lookup j left ≡ none
      → w.last_used ≤ v.last_used

make_room-Roomy :
    (fuel extra : ℕ) (cursors : PageCursors)
    → IsMap cursors
    → length cursors < fuel
    → extra ≤ page_cursor_bytes
    → (left : PageCursors) × (make_room fuel (extra + total_bytes cursors) cursors ≡ some left)
      × Roomy extra cursors left
unfolding make_room total_bytes
make_room-Roomy zero extra cursors distinct enough small = absurd (omega arith)
make_room-Roomy (suc fuel) extra cursors distinct enough small =
    elim (Bool-cases (
      leb page_cursor_limit (length cursors)
      || ltb page_cursor_bytes (extra + total_bytes cursors))) [
        | inr roomy ↦ (
          cursors,
          ground (arith, roomy),
          record {
            distinct = distinct;
            few = ground (arith, roomy);
            light = ground (arith, roomy);
            unchanged = λ k v h. h;
            oldest_gone = λ k j v w at there gone. absurd (ground (arith, there, gone));
          },
        )
        | inl full ↦ elim (Option-cases (oldest cursors)) [
          | inl e ↦ absurd (
              ground (
                arith,
                full,
                small,
                ap (λ c. length c) (oldest-none cursors e),
                ap total_bytes (oldest-none cursors e),
              ))
          | inr ((token, used), e) ↦
              let (x, found, when) = oldest-there cursors token used distinct e in
              let (shorter, lighter) = delete-found token cursors x distinct found in
              let (left, rest, roomy) =
                make_room-Roomy fuel extra (delete token cursors)
                  (IsMap-delete token cursors distinct) (omega (arith, shorter, enough)) small in
              let total : extra + total_bytes cursors - x.bytes
                  ≡ extra + total_bytes (delete token cursors) =
                omega (arith, lighter) in
              (
                left,
                ground (
                  arith,
                  full,
                  e,
                  found,
                  ap (λ n. make_room fuel n (delete token cursors)) total,
                  rest,
                ),
                record {
                  distinct = roomy.distinct;
                  few = roomy.few;
                  light = roomy.light;
                  unchanged = λ k v h.
                      let later = roomy.unchanged k v h in
                      ground (arith, later, lookup-delete token k cursors);
                  oldest_gone = λ k j v w at there gone. elim (Bool-cases (token == j)) [
                    | inl hit ↦
                        let own : token ≡ j = ground (arith, hit, eq_iff token j) in
                        let same : x ≡ w =
                          ground (arith, found, there, ap (λ t. lookup t cursors) own) in
                        let kept : lookup k cursors ≡ some v =
                          ground (arith, roomy.unchanged k v at, lookup-delete token k cursors) in
                        let least = oldest-least cursors token k used v e kept in
                        let when' : w.last_used ≡ used = ap (λ y. y.last_used) (sym same) ∙ when in
                        omega (arith, least, when')
                    | inr miss ↦
                        roomy.oldest_gone k j v w at
                          (ground (arith, there, miss, lookup-delete token j cursors)) gone
                  ];
                },
              )
        ]
      ]

drop_idle-IsMap :
    (now : ℕ) (entries cursors : PageCursors)
    → IsMap cursors
    → IsMap (drop_idle now entries cursors)
unfolding drop_idle
drop_idle-IsMap now [] cursors h = h
drop_idle-IsMap now ((token, state) ∷ entries) cursors h = elim (Bool-cases (is_idle now state)) [
  | inl idle ↦
      rw idle (drop_idle-IsMap now entries (delete token cursors) (IsMap-delete token cursors h))
  | inr used ↦ rw used (drop_idle-IsMap now entries cursors h)
]

pub store_page_cursor-room :
    (now : ℕ) (token : String) (state : PageContinuation) (cursors : PageCursors)
    → IsMap cursors
    → state.bytes ≤ page_cursor_bytes
    → (after : PageCursors) × (store_page_cursor now token state cursors ≡ some after)
      × IsMap after
      × (length after ≤ page_cursor_limit)
      × (total_bytes after ≤ page_cursor_bytes)
      × (lookup token after ≡ some (record state { last_used = now }))
unfolding store_page_cursor total_bytes IsMap insert
store_page_cursor-room now token state cursors distinct small =
    let kept = drop_idle now cursors cursors in
    let (left, made, roomy) =
      make_room-Roomy (suc (length kept)) state.bytes kept
        (drop_idle-IsMap now cursors cursors distinct) (omega arith) small in
    let (few, light) = delete-less token left in
    let fits = roomy.few in
    let holds = roomy.light in
    let saved = record state { last_used = now } in
    (
      insert token saved left,
      ground (arith, made),
      (
        ground (arith, lookup-delete token token left, eq_refl token),
        IsMap-delete token left roomy.distinct,
      ),
      omega (arith, few, fits),
      omega (arith, light, holds),
      ground (arith, lookup-insert token token saved left, eq_refl token),
    )
