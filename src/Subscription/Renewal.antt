-- ===== src/Subscription/Renewal.antt =====
-- `RenewSubscription`: its transaction updates the row, and so locks it; the reset of the usage is
-- a statement of the pool on the same row, which has to wait for that lock.
use bingwa.Prelude.{
  ℕ, ◌+◌, ◌≡◌, refl, sym, subst, Bool, true, false, ◌||◌, ◌&&◌, Option, List, [], ◌∷◌, String,
  any_row, update_where, if◌then◌else◌, arith, ◌==◌,
}
use bingwa.Domain.Subscription.{AgentSubscription}
use bingwa.Store.{
  ok, err, Env, World, Database, M, Error, driver, wrap, LockWait, timed_out, context_cancelled,
  ends_by_cancel, waits, fails, next_step, rollback, wrapping, attempt, affected, ◌>>=◌, ◌>>◌,
}
use bingwa.Store.Triples.{Ends}
use bingwa.Store.Transactions.{EndsInside, transact-Ends}
use bingwa.Subscription.Repository as Subscriptions
use bingwa.Subscription.Service.{count_use, renew_and_count, store_renewal}
use bingwa.Subscription.Creation.{count_use-campaigns, Untouched}

ends_timed_out : (x : LockWait) (c : Bool) → (c || ends_by_cancel x) ≡ false → x ≡ timed_out
ends_timed_out timed_out c h = refl
ends_timed_out context_cancelled c h = ground arith

waits_self : (k : ℕ) → any_row (λ j. j == k) (k ∷ []) ≡ true
waits_self k = ground arith

fails_cancelled : (c b : Bool) → (c || b) ≡ false → c ≡ false
fails_cancelled false b h = refl
fails_cancelled true b h = h

module _ {F : Type 0} ⦃env : Env⦄ where
  blocked :
      (message : String) (e : Error) (hit waiting failing ends : Bool) (d : Database F)
      (w : World F)
      → waiting ≡ true
      → let m : M F Bool = λ _. (
        if waiting || failing then err e else ok hit,
        record w {
          db = if waiting || failing then w.db else d;
          cancelled = w.cancelled || waiting && ends;
          steps = w.steps + 1;
        },
      ) in
        attempt (affected (wrapping message m)) w ≡ (
          ok (err (wrap message e)),
          record w { cancelled = w.cancelled || ends; steps = w.steps + 1 },
        )
  blocked message e hit true failing ends d w h = refl
  blocked message e hit false failing ends d w h = cc

  -- While the row is locked by the caller's own transaction, its usage is not reset.
  reset-blocked :
      (k : ℕ) (w : World F)
      → waits k w ≡ true
      → (e : Error) × (attempt (Subscriptions.reset_request_usage k) w ≡ (
        ok (err e),
        record w {
          cancelled = w.cancelled || ends_by_cancel (env.lock_wait w.steps);
          steps = w.steps + 1;
        },
      ))
  unfolding Subscriptions.reset_request_usage
  reset-blocked k w h =
      (_, blocked "failed to reset request usage" (driver w.steps) _ (waits k w) (fails w) _ _ w h)

  -- The renewed table: one that is only reached when the wait for the lock is timed out, which
  -- leaves the request's context alive.
  abbrev pub IsRenewed :
      AgentSubscription F → ℕ → ℕ → List (AgentSubscription F) → Database F → Type 0
  IsRenewed s start end old d =
      (t : ℕ) × (n : ℕ) × (env.lock_wait n ≡ timed_out)
      × (d.subscriptions
          ≡ update_where (Subscriptions.has_id s.id)
              (Subscriptions.renewed start end end (s.renewal_count + 1) t) old)

  -- The statements after the update, where the transaction holds the lock of the row.
  reset_ends :
      (s : AgentSubscription F) (start end t : ℕ) (c : Option ℕ) (w : World F) (k : ℕ)
      → let g =
          Subscriptions.update_subscription s.id
            (Subscriptions.renewed start end end (s.renewal_count + 1) t) in
        let w' = record w { uncommitted = λ d. (g d).0; locked = s.id ∷ []; steps = k } in
        EndsInside
          (λ _. IsRenewed s start end w.db.subscriptions)
          (Untouched w.db.subscriptions)
          ((attempt (Subscriptions.reset_request_usage s.id) >>= λ _. count_use c) w')
  reset_ends s start end t c w k =
      let g =
        Subscriptions.update_subscription s.id
          (Subscriptions.renewed start end end (s.renewal_count + 1) t) in
      let w' = record w { uncommitted = λ d. (g d).0; locked = s.id ∷ []; steps = k } in
      let (e, wait) = reset-blocked s.id w' (waits_self s.id) in
      let w'' = record w' {
        cancelled = w.cancelled || ends_by_cancel (env.lock_wait k);
        steps = k + 1;
      } in
      let (cs, n, counted) = count_use-campaigns c w'' in
      subst
        (λ o.
          EndsInside (λ _. IsRenewed s start end w.db.subscriptions) (Untouched w.db.subscriptions)
            (((λ _. o) >>= λ _. count_use c) w'))
        (sym wait)
        (subst
          (EndsInside (λ _. IsRenewed s start end w.db.subscriptions)
            (Untouched w.db.subscriptions))
          (sym counted)
          (refl, λ fine. (t, k, ends_timed_out _ w.cancelled (fails_cancelled _ _ fine), refl)))

  renewal_ends :
      (s : AgentSubscription F) (start end : ℕ) (c : Option ℕ) (w : World F) (b hit : Bool)
      → let t = env.clock w.steps in
        let g =
          Subscriptions.update_subscription s.id
            (Subscriptions.renewed start end end (s.renewal_count + 1) t) in
        let update : M F Bool = λ _. (
          if b then err (driver w.steps) else ok hit,
          record w {
            uncommitted = if b then (λ d. d) else (λ d. (g d).0);
            locked = if b then [] else s.id ∷ [];
            steps = w.steps + 1;
          },
        ) in
        EndsInside
          (λ _. IsRenewed s start end w.db.subscriptions)
          (Untouched w.db.subscriptions)
          ((do
            wrapping "failed to update renewal info"
                (affected (wrapping "failed to update renewal info" update))
            _ ← attempt (Subscriptions.reset_request_usage s.id)
            count_use c)
            w)
  renewal_ends s start end c w true hit = refl
  renewal_ends s start end c w false false = refl
  renewal_ends s start end c w false true = reset_ends s start end (env.clock w.steps) c w _

  pub store_renewal-Ends :
      (s : AgentSubscription F) (start end : ℕ) (c : Option ℕ) (w : World F)
      → Ends
          (λ _. IsRenewed s start end w.db.subscriptions)
          (Untouched w.db.subscriptions)
          (store_renewal s start end c w)
  unfolding store_renewal Subscriptions.update_renewal_info_with_tx
  store_renewal-Ends s start end c w =
      let w' = next_step (rollback w) in
      transact-Ends (λ _. IsRenewed s start end w.db.subscriptions) (Untouched w.db.subscriptions)
        (renew_and_count s start end c) w refl (renewal_ends s start end c w' (fails w') _)
