-- ===== src/Prompts/Handed.antt =====
-- What a response that was written did (`writeOffer` and `finishResponse` of codex/client.go).
use codex_web.Common.{
  ◌≡◌, refl, ◌∙◌, ap, inl, inr, Bool, true, false, ◌&&◌, none, some, ◌∷◌, arith, nat_eq, eq_refl,
  Bool-cases, Option-cases,
}
use codex_web.Errors.{ok, Outcome-cases}
use codex_web.GoMap.{lookup, delete, lookup-delete}
use codex_web.Prompts.Types.{PendingRequest}
use codex_web.Prompts.State.{PromptState, bump_pending, prune_pending_revision, request_thread_id}
use codex_web.Prompts.Offers.{
  is_current, same_offer, Writing, ended, no_writer, broke, transmitted, write_offer,
  finish_response,
}
use codex_web.Prompts.Once.Claims.{bump_requests, prune_requests}

-- The offer was still claimed, by the present connection; its response was handed to the writer, once, and
-- written; and it is no offer any more.
pub record Handed (writing : Writing) (request : PendingRequest) (s s' : PromptState) : Type 0 where
  pub current : is_current s request ≡ true
  pub held :
      (offer : PendingRequest) × (lookup request.id s.requests ≡ some offer)
      × (offer.claimed ≡ true)
      × (same_offer offer request ≡ true)
  pub transmits : writing ≡ transmitted
  pub wrote : s'.written ≡ request.token ∷ s.written
  pub gone : lookup request.id s'.requests ≡ none

module _ (writing : Writing) (request : PendingRequest) (s : PromptState) where
  transmitted-of :
      (offer : PendingRequest)
      → is_current s request ≡ true
      → lookup request.id s.requests ≡ some offer
      → (offer.claimed && same_offer offer request && nat_eq offer.connection request.connection)
        ≡ true
      → (write_offer writing request s).0 ≡ ok tt
      → writing ≡ transmitted
  unfolding write_offer
  transmitted-of offer current found own h = go writing h
    where
      go : (x : Writing) → (write_offer x request s).0 ≡ ok tt → x ≡ transmitted
      go ended h = absurd (ground (arith, current, found, own, h))
      go (no_writer alive) h = absurd (ground (arith, current, found, own, h))
      go broke h = absurd (ground (arith, current, found, own, h))
      go transmitted h = refl

  pub write_offer-Handed :
      (write_offer writing request s).0 ≡ ok tt
      → Handed writing request s (write_offer writing request s).1
  unfolding write_offer
  write_offer-Handed h = elim (Bool-cases (is_current s request)) [
    | inr lost ↦ absurd (ground (arith, lost, h))
    | inl current ↦ elim (Option-cases (lookup request.id s.requests)) [
      | inl e ↦ absurd (ground (arith, current, e, h))
      | inr (offer, e) ↦
          elim (Bool-cases (
            offer.claimed
            && same_offer offer request
            && nat_eq offer.connection request.connection)) [
              | inr other ↦ absurd (ground (arith, current, e, other, h))
              | inl own ↦
                  let writes = transmitted-of offer current e own h in
                  let left = record s {
                    written = request.token ∷ s.written;
                    requests = delete request.id s.requests;
                  } in
                  let (requests, written) = bump_requests (request_thread_id request) left in
                  let done : (write_offer writing request s).1
                      ≡ bump_pending (request_thread_id request) left =
                    ground (arith, current, e, own, writes) in
                  record {
                    current = current;
                    held = (offer, e, ground (arith, own), ground (arith, own));
                    transmits = writes;
                    wrote = ap (λ x. x.written) done ∙ written;
                    gone =
                        ap (λ x. lookup request.id x.requests) done
                        ∙ (ap (lookup request.id) requests
                            ∙ ground (
                              arith,
                              lookup-delete request.id request.id s.requests,
                              eq_refl request.id,
                            ));
                  }
            ]
    ]
  ]

  pub finish_response-Handed :
      (observer encodes : Bool)
      → (finish_response observer encodes writing request s).0 ≡ ok tt
      → (observer ≡ false)
        × (encodes ≡ true)
        × Handed writing request s (finish_response observer encodes writing request s).1
  unfolding finish_response
  finish_response-Handed observer encodes h =
      let owner : observer ≡ false = ground (arith, h) in
      let encoded : encodes ≡ true = ground (arith, h) in
      elim (Outcome-cases (write_offer writing request s).0) [
        | inr e ↦ absurd (ground (arith, owner, encoded, e, h))
        | inl (u, e) ↦
            let thread = request_thread_id request in
            let s' = (write_offer writing request s).1 in
            let handed = write_offer-Handed e in
            let (requests, written) = prune_requests thread s' in
            let done : (finish_response observer encodes writing request s).1
                ≡ prune_pending_revision thread s' =
              ground (arith, owner, encoded, e) in
            (
              owner,
              encoded,
              record {
                current = handed.current;
                held = handed.held;
                transmits = handed.transmits;
                wrote = ap (λ x. x.written) done ∙ (written ∙ handed.wrote);
                gone =
                    ap (λ x. lookup request.id x.requests) done
                    ∙ (ap (lookup request.id) requests ∙ handed.gone);
              },
            )
      ]
