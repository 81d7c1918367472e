-- ===== src/Plan/Deletion.antt =====
-- `DeletePlan` of subscription_plans.go: what goes with a plan.
use bingwa.Prelude.{
  some, subst, ℕ, ◌≡◌, refl, Bool, true, false, not, ◌&&◌, List, [], ◌∷◌, any_row, select,
  delete_where, arith, Bool-cases, inl, inr,
}
use bingwa.Store.{Env, Database, World, fails}
use bingwa.Subscription.Entities.{is_ok}
use bingwa.Store.Constraints.{Triple-try_write}
use bingwa.Store.Triples.{Ends, Triple-wrapping}
use bingwa.Subscription.Repository.{plan_has_id}
use bingwa.Plan.Repository
use bingwa.Plan.Repository.{of_plan, without_plan}
use bingwa.Plan.Service

module _ {A : Type 0} (p : A → Bool) where
  any_row-delete_where : (xs : List A) → any_row p (delete_where p xs) ≡ false
  any_row-delete_where [] = refl
  any_row-delete_where (x ∷ xs) = elim (Bool-cases (p x)) [
    | inl hit ↦ ground (arith, any_row-delete_where xs)
    | inr miss ↦ ground (arith, any_row-delete_where xs)
  ]

  delete_where-select : (xs : List A) → delete_where p xs ≡ select (λ x. not (p x)) xs
  delete_where-select [] = refl
  delete_where-select (x ∷ xs) = elim (Bool-cases (p x)) [
    | inl hit ↦ ground (arith, delete_where-select xs)
    | inr miss ↦ ground (arith, delete_where-select xs)
  ]

module _ {F : Type 0} where
  -- The plan was there; it is gone, and so is every subscription that refers to it, while all others
  -- are as they were.
  pub record IsDeleted (k : ℕ) (old d : Database F) : Type 0 where
    pub was_there : any_row (plan_has_id k) old.plans ≡ true
    pub gone : any_row (plan_has_id k) d.plans ≡ false
    pub plans : d.plans ≡ select (λ p. not (plan_has_id k p)) old.plans
    pub unsubscribed : any_row (of_plan k) d.subscriptions ≡ false
    pub subscriptions : d.subscriptions ≡ select (λ s. not (of_plan k s)) old.subscriptions

module _ {F : Type 0} ⦃env : Env⦄ (k : ℕ) where
  deleted :
      (old : Database F)
      → any_row (plan_has_id k) old.plans ≡ true
      → IsDeleted k old (without_plan k old).0
  deleted old there = rw there (record {
    was_there = there;
    gone = any_row-delete_where (plan_has_id k) old.plans;
    plans = delete_where-select (plan_has_id k) old.plans;
    unsubscribed = any_row-delete_where (of_plan k) old.subscriptions;
    subscriptions = delete_where-select (of_plan k) old.subscriptions;
  })

  written :
      (old d d' : Database F)
      → some (without_plan k d) ≡ some (d', true)
      → d ≡ old
      → IsDeleted k old d'
  written old d d' e same =
      let after : d' ≡ (without_plan k d).0 = ground arith in
      let there : any_row (plan_has_id k) d.plans ≡ true = ground arith in
      rw after (subst (λ x. IsDeleted k x (without_plan k d).0) same (deleted d there))

  missed : (old d d' : Database F) → some (without_plan k d) ≡ some (d', false) → d ≡ old → d' ≡ old
  missed old d d' e same = ground (arith, same)

  answer :
      (w : World F)
      → is_ok (Service.delete_plan k w).0 ≡ (not (fails w) && any_row (plan_has_id k) w.db.plans)
  unfolding Service.delete_plan Service.has_active_subscriptions Repository.delete
  answer w = elim (Bool-cases (fails w)) [
    | inl failed ↦ ground (arith, failed)
    | inr fine ↦ ground (arith, fine)
  ]

  deletion : (w : World F) → Ends (λ _. IsDeleted k w.db) (λ d. d ≡ w.db) (Service.delete_plan k w)
  unfolding Service.delete_plan Service.has_active_subscriptions Repository.delete
  deletion w =
      (Triple-wrapping "failed to delete plan" (
          Triple-try_write {P = λ d. d ≡ w.db} {Q = IsDeleted k w.db} {E = λ d. d ≡ w.db}
            "failed to delete subscription plan" (λ t d. some (without_plan k d)) (λ d h. h)
            (λ t d d' e same. written w.db d d' e same)
            (λ t d d' e same. missed w.db d d' e same))).apply
        w refl

  -- DeletePlan does not spare a plan that has subscriptions, active ones included: it succeeds
  -- wherever its statement does not fail and the plan is there, whatever the subscriptions. The plan is
  -- then gone, and with it exactly the subscriptions that refer to it. An error changes nothing.
  pub delete_plan-Ends :
      (w : World F)
      → (is_ok (Service.delete_plan k w).0 ≡ (not (fails w) && any_row (plan_has_id k) w.db.plans))
        × Ends (λ _. IsDeleted k w.db) (λ d. d ≡ w.db) (Service.delete_plan k w)
  delete_plan-Ends w = (answer w, deletion w)
