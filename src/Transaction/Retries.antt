-- ===== src/Transaction/Retries.antt =====
-- Who may move a request in transaction_service.go, and what a retry does.
use bingwa.Prelude.{
  ℕ, ◌≡◌, refl, ap, subst, ◌∙◌, List, ◌⊎◌, inl, inr, true, not, Option, none, some, [], ◌==◌,
  find_row, update_where, arith,
}
use bingwa.Domain.Transaction.{
  OfferRequest, OfferRedemption, TransactionStatus, UpdateUssdResponseInput, pending, is_failed,
}
use bingwa.Store.{Env, Database, World, Result, ok, err, msg, not_found}
use bingwa.Store.Triples.{
  Ends, Triple, Triple-bind, Triple-wrapping, Triple-weaken, Triple-refuse_if, Triple-assume,
  Triple-find_one, Triple-exec, Triple-at_time, Triple-return,
}
use bingwa.Transaction.Repository
use bingwa.Transaction.Repository.{
  request_has_id, redemption_has_id, redeems, request_moved, redemption_moved, retried,
  update_request,
}
use bingwa.Transaction.Service
use bingwa.Transaction.Moves.{IsMoved, Unmoved, move-Triple}

module _ {F : Type 0} where
  -- The request exists and is the agent's.
  abbrev pub OwnRequest : ℕ → ℕ → OfferRequest F → Database F → Type 0
  OwnRequest agent k r d =
      (find_row (request_has_id k) d.requests ≡ some r) × ((r.agent_identity_id == agent) ≡ true)

  -- The request was failed and is pending again, counted once more, with its redemption.
  pub record IsRetried (agent k : ℕ) (old d : Database F) : Type 0 where
    pub request : OfferRequest F
    pub own : OwnRequest agent k request old
    pub was_failed : is_failed request.status ≡ true
    pub counted_at : ℕ
    pub at : ℕ
    pub at' : ℕ
    pub redemption : OfferRedemption F
    pub linked : find_row (redeems k) old.redemptions ≡ some redemption
    pub requests :
        d.requests
        ≡ update_where
            (request_has_id k)
            (request_moved pending [] at)
            (update_where (request_has_id k) (retried counted_at) old.requests)
    pub redemptions :
        d.redemptions
        ≡ update_where
            (redemption_has_id redemption.id)
            (redemption_moved pending [] at')
            old.redemptions

  -- Nothing has moved, and the request is counted at most.
  abbrev pub CountedAtMost : ℕ → Database F → Database F → Type 0
  CountedAtMost k old d =
      ((d.requests ≡ old.requests)
        ⊎ ((t : ℕ) × (d.requests ≡ update_where (request_has_id k) (retried t) old.requests)))
      × (d.redemptions ≡ old.redemptions)

module _ {F : Type 0} ⦃env : Env⦄ (agent k : ℕ) where
  own-Triple :
      (P : Database F → Type 0)
      → Triple P (Service.get_offer_request agent k) (λ r d. OwnRequest agent k r d × P d) P
  unfolding Service.get_offer_request Repository.find_request
  own-Triple P =
      Triple-bind
        (Triple-find_one "failed to find offer request"
          λ _ d. find_row (request_has_id k) d.requests)
        λ r.
          Triple-bind
            (Triple-weaken {Q' = λ _ d. OwnRequest agent k r d × P d} (λ d h. h)
              (λ _ d h. ((h.1.0.1, ground (arith, h.0)), h.1.1)) (λ d h. h.1)
              (Triple-refuse_if (not (r.agent_identity_id == agent))
                (msg "unauthorized: request does not belong to agent")))
            λ _. Triple-return r λ d h. h

  status-Triple :
      (status : TransactionStatus) (response : Option UpdateUssdResponseInput) (old : Database F)
      → Triple
          (λ d. d ≡ old)
          (Service.update_offer_request_status agent k status response)
          (λ _ d.
            ((r : OfferRequest F) × OwnRequest agent k r old) × IsMoved k status response old d)
          (Unmoved response old)
  unfolding Service.update_offer_request_status
  status-Triple status response old =
      Triple-bind
        (Triple-weaken
          {Q' = λ _ d.
            ((r : OfferRequest F) × OwnRequest agent k r old)
            × ((d.requests ≡ old.requests) × (d.redemptions ≡ old.redemptions))}
          (λ d h. h)
          (λ r d h. (
            (r, subst (OwnRequest agent k r) h.1 h.0),
            (ap requests_of h.1, ap redemptions_of h.1),
          ))
          (λ d h. unmoved response d h) (own-Triple λ d. d ≡ old))
        λ _. Triple-assume λ own.
          Triple-weaken (λ d h. h) (λ _ d h. (own, h)) (λ d h. h)
            (move-Triple k status old response)
    where
      requests_of : Database F → List (OfferRequest F)
      requests_of d = d.requests

      redemptions_of : Database F → List (OfferRedemption F)
      redemptions_of d = d.redemptions

      unmoved : (o : Option UpdateUssdResponseInput) (d : Database F) → d ≡ old → Unmoved o old d
      unmoved none d e = (ap requests_of e, ap redemptions_of e)
      unmoved (some input) d e = ap requests_of e

  -- UpdateOfferRequestStatus moves only a request of the agent. Where it returns no error, the request
  -- has the status, and the redemption that is linked to it has that status too, or the response's
  -- where one is given; all other rows are as they were. Where it returns an error, no request has
  -- moved, and without a response no redemption either.
  pub update_offer_request_status-Ends :
      (status : TransactionStatus) (response : Option UpdateUssdResponseInput) (w : World F)
      → Ends
          (λ _ d.
            ((r : OfferRequest F) × OwnRequest agent k r w.db) × IsMoved k status response w.db d)
          (Unmoved response w.db)
          (Service.update_offer_request_status agent k status response w)
  update_offer_request_status-Ends status response w =
      (status-Triple status response w.db).apply w refl

  counted-Triple :
      (old : Database F) (r : OfferRequest F)
      → OwnRequest agent k r old
      → is_failed r.status ≡ true
      → Triple
          (λ d.
            ((t : ℕ) × (d.requests ≡ update_where (request_has_id k) (retried t) old.requests))
            × (d.redemptions ≡ old.redemptions))
          (Service.update_offer_request_status agent k pending none)
          (λ _. IsRetried agent k old)
          (CountedAtMost k old)
  counted-Triple old r own was_failed = record {
    apply = λ w h.
        go w.db h (Service.update_offer_request_status agent k pending none w)
          (update_offer_request_status-Ends pending none w);
  }
    where
      go :
          (mid : Database F)
          → ((t : ℕ) × (mid.requests ≡ update_where (request_has_id k) (retried t) old.requests))
            × (mid.redemptions ≡ old.redemptions)
          → (o : Result (Unit {0}) × World F)
          → Ends
              (λ _ d.
                ((x : OfferRequest F) × OwnRequest agent k x mid) × IsMoved k pending none mid d)
              (Unmoved none mid)
              o
          → Ends (λ _. IsRetried agent k old) (CountedAtMost k old) o
      go mid ((t, counted), kept) (ok a, w) (x, m) = record {
        request = r;
        own = own;
        was_failed = was_failed;
        counted_at = t;
        at = m.at;
        at' = m.at';
        redemption = m.redemption;
        linked = subst (λ l. find_row (redeems k) l ≡ some m.redemption) kept m.linked;
        requests =
            m.requests
            ∙ ap (update_where (request_has_id k) (request_moved pending [] m.at)) counted;
        redemptions =
            m.redemptions
            ∙ ap
                (update_where (redemption_has_id m.redemption.id)
                  (redemption_moved pending [] m.at'))
                kept;
      }
      go mid ((t, counted), kept) (err e, w) (same, same') = (inr (t, same ∙ counted), same' ∙ kept)

  module _ (old : Database F) where
    abbrev Same : Database F → Type 0
    Same d = (d.requests ≡ old.requests) × (d.redemptions ≡ old.redemptions)

    same : (d : Database F) → d ≡ old → Same d
    same d e = rw e (refl, refl)

    untouched : (d : Database F) → Same d → CountedAtMost k old d
    untouched d h = (inl h.0, h.1)

    counting-Triple :
        Triple Same
          (Repository.increment_retry_count k)
          (λ _ d.
            ((t : ℕ) × (d.requests ≡ update_where (request_has_id k) (retried t) old.requests))
            × (d.redemptions ≡ old.redemptions))
          (CountedAtMost k old)
    unfolding Repository.increment_retry_count
    counting-Triple = Triple-at_time λ t.
        Triple-bind
          (Triple-wrapping "failed to increment retry count" (
            Triple-weaken (λ d h. h) (λ _ d h. h) (λ d h. untouched d h)
              (Triple-exec {Q = Counted t} (update_request k (retried t))
                (λ d h. (rw h.0 refl, h.1)))))
          λ hit.
            Triple-weaken (λ d h. h) (λ _ d h. ((t, h.1.0), h.1.1)) (λ d h. (inr (t, h.0), h.1))
              (Triple-refuse_if (not hit) not_found)
      where
        Counted : ℕ → Database F → Type 0
        Counted t d =
            (d.requests ≡ update_where (request_has_id k) (retried t) old.requests)
            × (d.redemptions ≡ old.redemptions)

  retry-Triple :
      (old : Database F)
      → Triple
          (λ d. d ≡ old)
          (Service.retry_failed_request agent k)
          (λ _. IsRetried agent k old)
          (CountedAtMost k old)
  unfolding Service.retry_failed_request
  retry-Triple old =
      Triple-bind
        (Triple-weaken {Q' = λ r d. OwnRequest agent k r old × Same old d} (λ d h. h)
          (λ r d h. (subst (OwnRequest agent k r) h.1 h.0, same old d h.1))
          (λ d h. untouched old d (same old d h)) (own-Triple λ d. d ≡ old))
        λ r. Triple-assume λ own.
          Triple-bind
            (Triple-weaken (λ d h. h) (λ _ d h. h) (λ d h. untouched old d h)
              (Triple-refuse_if (not (is_failed r.status)) (msg "can only retry failed requests")))
            λ _. Triple-assume λ failed.
              Triple-bind (Triple-wrapping "failed to increment retry count" (counting-Triple old))
                λ _.
                  Triple-wrapping "failed to update status"
                    (counted-Triple old r own (ground (arith, failed)))

  -- RetryFailedRequest retries only a failed request of the agent: without an error, the request is
  -- pending and counted once more, and the redemption that is linked to it is pending. With an error
  -- no status has changed, and the request is counted at most.
  pub retry_failed_request-Ends :
      (w : World F)
      → Ends
          (λ _. IsRetried agent k w.db)
          (CountedAtMost k w.db)
          (Service.retry_failed_request agent k w)
  retry_failed_request-Ends w = (retry-Triple w.db).apply w refl
