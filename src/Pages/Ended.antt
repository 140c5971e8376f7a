-- ===== src/Pages/Ended.antt =====
-- The loop that fills a page, round by round (`readThreadPage` of codex/thread_page.go).
use mathlib.Core.List.{append-nil}
use codex_web.Common.{
  String, ◌≤◌, ℕ, zero, suc, ◌+◌, ◌-◌, ◌<◌, ◌≡◌, refl, sym, ap, ◌∙◌, subst, inl, inr, Bool, true,
  false, ◌&&◌, none, some, List, [], ◌∷◌, ◌++◌, length, arith, ltb, nat_eq, ◌==◌, Bool-cases,
}
use codex_web.Errors.{Outcome, ok, err, panic, Outcome-cases}
use codex_web.Pages.Types.{PageTurn, PageContinuation}
use codex_web.Pages.Walk.{
  transcript_page_size, page_failure, Pager, failure, Filling, Round, again, stop, accept_turns,
  turns_of, turn_at, accept_items, show_failure, visit_turn, visit, fill_round, fill_page,
}
use codex_web.Pages.Filled.{
  times_taken, failures, failures-append, items_of, items_of-append, visible, Shows-same, Within,
  Within-Moves, accept_turns-Moves, accept_items-Within,
}
use codex_web.Pages.Calm.{Sum-cases, accept_items-calm, accept_turns-calm}

turn_at-below :
    (n : ℕ) (turns : List PageTurn)
    → n < length turns
    → (turn : PageTurn) × (turn_at n turns ≡ some turn)
unfolding turn_at
turn_at-below n [] below = absurd (omega (arith, below))
turn_at-below zero (turn ∷ turns) below = (turn, refl)
turn_at-below (suc n) (turn ∷ turns) below = turn_at-below n turns (omega (arith, below))

show_failure-Within :
    (trim_space : String → String) (turn : PageTurn) (w : Filling)
    → Within trim_space w
    → w.used < transcript_page_size
    → Within trim_space (show_failure turn w) × ((show_failure turn w).visited ≡ w.visited)
unfolding show_failure
show_failure-Within trim_space turn w i room = elim (Bool-cases w.place.error_emitted) [
  | inl e ↦
      let same : show_failure turn w ≡ w = ground (arith, e) in
      (subst (Within trim_space) (sym same) i, ap (λ x. x.visited) same)
  | inr e ↦ elim (Bool-cases (page_failure turn)) [
    | inr fine ↦
        let same : show_failure turn w
            ≡ record w { place = record w.place { error_emitted = true } } =
          ground (arith, e, fine) in
        (
          subst (Within trim_space) (sym same) (
              Within-Moves trim_space w
                (record w { place = record w.place { error_emitted = true } })
                (refl, refl, refl, refl, refl) i),
          ap (λ x. x.visited) same,
        )
    | inl bad ↦
        let added = record w {
          place = record w.place { error_emitted = true };
          entries = w.entries ++ (failure turn.id ∷ []);
          used = 1 + w.used;
        } in
        let same : show_failure turn w ≡ added = ground (arith, e, bad) in
        let c = i.shows.counted in
        let turns = i.turns in
        (
          subst (Within trim_space) (sym same) (record {
            few = omega (arith, room);
            turns = turns;
            shows = record {
              counted = omega (arith, c, failures-append w.entries (failure turn.id ∷ []));
              exact =
                  items_of-append w.entries (failure turn.id ∷ [])
                  ∙ (append-nil (items_of w.entries) ∙ i.shows.exact);
              once = i.shows.once;
              fresh = i.shows.fresh;
            };
          }),
          ap (λ x. x.visited) same,
        )
  ]
]

-- What a round may make of the variables.
abbrev pub Advances : (String → String) → ℕ → Outcome Round → Type 0
Advances trim_space n r = elim r [
  | ok (again w') ↦ Within trim_space w' × (w'.visited ≡ 1 + n)
  | ok (stop w') ↦ Within trim_space w'
  | err _ ↦ Unit
  | panic ↦ false ≡ true
]

-- A page: a slot for each failure shown and each item taken, no item twice, and of the items what is
-- shown of them, in their order.
pub record IsPage (trim_space : String → String) (w : Filling) : Type 0 where
  pub few : w.used ≤ transcript_page_size
  pub turns : w.visited ≤ transcript_page_size
  pub counted : length w.taken + failures w.entries ≡ w.used
  pub exact : items_of w.entries ≡ visible trim_space w.taken
  pub once : (k : String) → times_taken k w.taken ≤ 1

module _ (pager : Pager) (is_first : Bool) where
  visit_turn-Advances :
      (turn : PageTurn) (w : Filling)
      → Within pager.trim_space w
      → w.used < transcript_page_size
      → w.visited < transcript_page_size
      → Advances pager.trim_space w.visited (visit_turn pager is_first turn w)
  unfolding visit_turn
  visit_turn-Advances turn w i room more =
      let counted = record w { visited = 1 + w.visited } in
      let few = i.few in
      let inside : Within pager.trim_space counted = record {
        few = few;
        turns = omega (arith, more);
        shows = Shows-same pager.trim_space w counted refl refl refl refl i.shows;
      } in
      let now = show_failure turn counted in
      let (i', visited) = show_failure-Within pager.trim_space turn counted inside room in
      let whole = visit_turn pager is_first turn w in
      let as_is = λ (r : Outcome Round) (e : whole ≡ r) (p : Advances pager.trim_space w.visited r).
        subst (Advances pager.trim_space w.visited) (sym e) p in
      elim (Bool-cases (nat_eq now.used transcript_page_size)) [
        | inl full ↦ as_is (ok (stop now)) (ground (arith, full)) i'
        | inr left ↦
            elim (Sum-cases (
              pager.items now.requests turn.id (transcript_page_size - now.used)
                now.place.item_cursor)) [
                  | inl (x, e) ↦ as_is (err x) (ground (arith, left, e)) tt
                  | inr (page, e) ↦
                      let asked = record now { requests = 1 + now.requests } in
                      let result =
                        accept_items pager.byte_length pager.trim_space turn.id
                          (transcript_page_size - now.used) page asked in
                      elim (Outcome-cases result) [
                        | inr (inl (x, f)) ↦ as_is (err x) (ground (arith, left, e, f)) tt
                        | inr (inr f) ↦ absurd (
                            accept_items-calm pager.byte_length pager.trim_space turn.id
                              (transcript_page_size - now.used) page asked f)
                        | inl (w', f) ↦
                            let (i'', same) =
                              accept_items-Within pager.byte_length pager.trim_space turn.id page
                                asked w' f
                                (Within-Moves pager.trim_space now asked
                                  (refl, refl, refl, refl, refl) i') in
                            as_is (ok (again w')) (ground (arith, left, e, f)) (i'', same ∙ visited)
                      ]
                ]
      ]

  visit-Advances :
      (w : Filling)
      → Within pager.trim_space w
      → w.used < transcript_page_size
      → w.visited < transcript_page_size
      → w.place.turn_index < length (turns_of w.place)
      → Advances pager.trim_space w.visited (visit pager is_first w)
  unfolding visit
  visit-Advances w i room more there =
      let (turn, at) = turn_at-below w.place.turn_index (turns_of w.place) there in
      let same : visit pager is_first w ≡ visit_turn pager is_first turn w = ground (arith, at) in
      subst (Advances pager.trim_space w.visited) (sym same)
        (visit_turn-Advances turn w i room more)

  fill_round-Advances :
      (w : Filling)
      → Within pager.trim_space w
      → w.used < transcript_page_size
      → w.visited < transcript_page_size
      → Advances pager.trim_space w.visited (fill_round pager is_first w)
  unfolding fill_round
  fill_round-Advances w i room more =
      let whole = fill_round pager is_first w in
      let as_is = λ (r : Outcome Round) (e : whole ≡ r) (p : Advances pager.trim_space w.visited r).
        subst (Advances pager.trim_space w.visited) (sym e) p in
      let asked = record w { requests = 1 + w.requests } in
      let asked_inside = Within-Moves pager.trim_space w asked (refl, refl, refl, refl, refl) i in
      let limit = transcript_page_size - w.visited in
      elim (Bool-cases (ltb w.place.turn_index (length (turns_of w.place)))) [
        | inl there ↦
            as_is (visit pager is_first w) (ground (arith, there))
              (visit-Advances w i room more (ground (arith, there)))
        | inr past ↦
            elim (Bool-cases (
              (elim w.place.turns [ none ↦ false | some _ ↦ true ])
              && (w.place.turn_cursor == ""))) [
                | inl done ↦ as_is (ok (stop w)) (ground (arith, past, done)) i
                | inr ongoing ↦
                    elim (Sum-cases (pager.turns w.requests limit w.place.turn_cursor)) [
                      | inl (x, e) ↦ elim (Bool-cases (is_first && pager.no_rollout x)) [
                        | inl unwritten ↦
                            as_is (ok (stop asked)) (ground (arith, past, ongoing, e, unwritten))
                              asked_inside
                        | inr failed ↦ as_is (err x) (ground (arith, past, ongoing, e, failed)) tt
                      ]
                      | inr (page, e) ↦
                          elim (Outcome-cases (accept_turns pager.byte_length limit page asked)) [
                            | inr (inl (x, f)) ↦
                                as_is (err x) (ground (arith, past, ongoing, e, f)) tt
                            | inr (inr f) ↦
                                absurd (accept_turns-calm pager.byte_length limit page asked f)
                            | inl (w', f) ↦
                                let (moved, start) =
                                  accept_turns-Moves pager.byte_length limit page asked w' f in
                                let i' =
                                  Within-Moves pager.trim_space asked w' moved asked_inside in
                                let (_, _, used, _, visited) = moved in
                                elim (Bool-cases (nat_eq (length (turns_of w'.place)) 0)) [
                                  | inl empty ↦
                                      as_is (ok (stop w'))
                                        (ground (arith, past, ongoing, e, f, empty)) i'
                                  | inr some_turns ↦
                                      let visit' =
                                        visit-Advances w' i' (omega (arith, used, room))
                                          (omega (arith, visited, more))
                                          (ground (arith, start, some_turns)) in
                                      as_is (visit pager is_first w')
                                        (ground (arith, past, ongoing, e, f, some_turns))
                                        (subst
                                          (λ n.
                                            Advances pager.trim_space n (visit pager is_first w'))
                                          visited visit')
                                ]
                          ]
                    ]
              ]
      ]

  -- How the loop ends.
  abbrev pub Ends : Outcome Filling → Type 0
  Ends r = elim r [ ok w ↦ IsPage pager.trim_space w | err _ ↦ Unit | panic ↦ false ≡ true ]

  IsPage-Within : (w : Filling) → Within pager.trim_space w → IsPage pager.trim_space w
  IsPage-Within w i = record {
    few = i.few;
    turns = i.turns;
    counted = i.shows.counted;
    exact = i.shows.exact;
    once = i.shows.once;
  }

  fill_rounds-Ends :
      (fuel : ℕ) (w : Filling)
      → Within pager.trim_space w
      → transcript_page_size < fuel + w.visited
      → (r : Outcome Filling) × (fill_page pager is_first fuel w ≡ some r) × Ends r
  unfolding fill_page
  fill_rounds-Ends zero w i enough = let few = i.turns in absurd (omega (arith, few, enough))
  fill_rounds-Ends (suc fuel) w i enough =
      elim (Bool-cases (ltb w.used transcript_page_size && ltb w.visited transcript_page_size)) [
        | inr full ↦ (ok w, ground (arith, full), IsPage-Within w i)
        | inl room ↦
            let advances = fill_round-Advances w i (ground (arith, room)) (ground (arith, room)) in
            elim (Outcome-cases (fill_round pager is_first w)) [
              | inr (inl (x, e)) ↦ (err x, ground (arith, room, e), tt)
              | inr (inr e) ↦
                  absurd (ground (arith, subst (Advances pager.trim_space w.visited) e advances))
              | inl (stop w', e) ↦ (
                ok w',
                ground (arith, room, e),
                IsPage-Within w' (subst (Advances pager.trim_space w.visited) e advances),
              )
              | inl (again w', e) ↦
                  let (i', more) = subst (Advances pager.trim_space w.visited) e advances in
                  let (r, ran, ends) = fill_rounds-Ends fuel w' i' (omega (arith, more, enough)) in
                  (r, ground (arith, room, e, ran), ends)
            ]
      ]

  -- However the App Server answers, the loop that fills a page ends within a hundred rounds, without a panic;
  -- where it gives a page, the page has taken a slot for each failure that it shows and each item, at most
  -- a hundred together, from at most a hundred turns, and no item twice; and its entries of items are what is
  -- shown of these items, in their order: one of each, and none of reasoning without a summary.
  pub fill_page-Ends :
      (place : PageContinuation)
      → (r : Outcome Filling) × (fill_page pager is_first 101 (record {
        place = place;
        used = 0;
        visited = 0;
        seen_items = [];
        entries = [];
        taken = [];
        requests = 0;
      })
          ≡ some r)
        × Ends r
  fill_page-Ends place =
      let start : Filling = record {
        place = place;
        used = 0;
        visited = 0;
        seen_items = [];
        entries = [];
        taken = [];
        requests = 0;
      } in
      fill_rounds-Ends 101 start
        (record {
          few = omega arith;
          turns = omega arith;
          shows = record {
            counted = refl;
            exact = refl;
            once = λ k. omega arith;
            fresh = λ k h. refl;
          };
        })
        (omega arith)
