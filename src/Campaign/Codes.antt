-- ===== src/Campaign/Codes.antt =====
-- `generateCampaignCode` of campaign.go: the loop of at most five attempts.
use bingwa.Prelude.{
  ℕ, zero, suc, ◌+◌, ◌≤◌, ◌<◌, ◌≡◌, refl, ◌⊎◌, inl, inr, Bool, true, false, arith, any_row,
  Bool-cases, subst, ◌==◌,
}
use bingwa.Domain.Campaign.{CampaignCode, DiscountType}
use bingwa.Store.{Error, ok, err, Env, World, fails, next_step, wrap, driver}
use bingwa.Campaign.Repository.{has_campaign_code, exists_by_campaign_code}
use bingwa.Campaign.Service.{campaign_code_from, generate_campaign_code, type_prefix}

module _ {F : Type 0} ⦃env : Env⦄ where
  abbrev after_attempt : World F → World F
  after_attempt w = record w { steps = w.steps + 1 + 1 }

  abbrev candidate : ℕ → DiscountType → World F → CampaignCode
  candidate i t w = record {
    type_prefix = type_prefix t;
    year_month = env.year_month (env.clock w.steps);
    suffix = i;
  }

  abbrev taken_in : World F → CampaignCode → Bool
  taken_in w c = any_row (has_campaign_code c) w.db.campaigns

  -- One round: its statement fails, or the candidate is free, or the loop goes on.
  attempt_cases :
      (left i : ℕ) (t : DiscountType) (w : World F)
      → ((fails (next_step w) ≡ true)
          × ((e : Error) × (campaign_code_from (suc left) i t w ≡ (err e, after_attempt w))))
        ⊎ ((taken_in w (candidate i t w) ≡ false)
            × (campaign_code_from (suc left) i t w ≡ (ok (candidate i t w), after_attempt w)))
        ⊎ ((taken_in w (candidate i t w) ≡ true)
            × (campaign_code_from (suc left) i t w
                ≡ campaign_code_from left (i + 1) t (after_attempt w)))
  unfolding campaign_code_from exists_by_campaign_code
  attempt_cases left i t w = elim (Bool-cases (fails (next_step w))) [
    | inl broken ↦
        inl (broken, (wrap "failed to check campaign code" (driver (w.steps + 1)), ground arith))
    | inr fine ↦ elim (Bool-cases (taken_in w (candidate i t w))) [
      | inl taken ↦ inr (inr (taken, ground arith))
      | inr free ↦ inr (inl (free, ground arith))
    ]
  ]

  fresh_lem :
      (left i : ℕ) (t : DiscountType) (w : World F) (c : CampaignCode)
      → taken_in w (candidate i t w) ≡ false
      → candidate i t w ≡ c
      → (taken_in w c ≡ false) × (i ≤ c.suffix) × (c.suffix < i + suc left)
  fresh_lem left i t w c free e =
      subst (λ x. (taken_in w x ≡ false) × (i ≤ x.suffix) × (x.suffix < i + suc left)) e
        (free, omega arith, omega arith)

  campaign_code_from-fresh :
      (left i : ℕ) (t : DiscountType) (w : World F) (c : CampaignCode)
      → (campaign_code_from left i t w).0 ≡ ok c
      → (any_row (has_campaign_code c) w.db.campaigns ≡ false)
        × (i ≤ c.suffix)
        × (c.suffix < i + left)
  unfolding campaign_code_from exists_by_campaign_code
  campaign_code_from-fresh zero i t w c h = ground arith
  campaign_code_from-fresh (suc left) i t w c h = elim (attempt_cases left i t w) [
    | inl failed ↦ cc (failed.1.1, h)
    | inr (inl (free, e)) ↦ fresh_lem left i t w c free (cc (e, h))
    | inr (inr (taken, e)) ↦
        ground (arith, campaign_code_from-fresh left (i + 1) t (after_attempt w) c (rw e at h))
  ]

  candidate_at :
      (i k ym : ℕ) (t : DiscountType) (w : World F)
      → env.year_month (env.clock w.steps) ≡ ym
      → i ≡ k
      → taken_in w (record { type_prefix = type_prefix t; year_month = ym; suffix = k })
        ≡ taken_in w (candidate i t w)
  candidate_at i k ym t w e same =
      subst
        (λ x.
          taken_in w (record { type_prefix = type_prefix t; year_month = x; suffix = k })
          ≡ taken_in w (candidate i t w))
        e (subst (λ x. taken_in w (candidate x t w) ≡ taken_in w (candidate i t w)) same refl)

  -- With nothing failing, a free candidate among those still to be tried is enough.
  campaign_code_from-total :
      (left i k ym : ℕ) (t : DiscountType) (w : World F)
      → w.cancelled ≡ false
      → ((n : ℕ) → env.fault n ≡ false)
      → ((n : ℕ) → env.year_month (env.clock n) ≡ ym)
      → i ≤ k
      → k < i + left
      → taken_in w (record { type_prefix = type_prefix t; year_month = ym; suffix = k }) ≡ false
      → (c : CampaignCode) × ((campaign_code_from left i t w).0 ≡ ok c)
  campaign_code_from-total zero i k ym t w live sound month lo hi free = absurd (omega arith)
  campaign_code_from-total (suc left) i k ym t w live sound month lo hi free =
      elim (attempt_cases left i t w) [
        | inl failed ↦ absurd (ground (arith, sound (w.steps + 1)))
        | inr (inl (_, e)) ↦ (candidate i t w, rw e)
        | inr (inr (taken, e)) ↦ elim (Bool-cases (i == k)) [
          | inl same ↦ cc (taken, free, candidate_at i k ym t w (month w.steps) (ground arith))
          | inr differ ↦
              let (c, found) =
                campaign_code_from-total left (i + 1) k ym t (after_attempt w) live sound month
                  (ground arith) (omega arith) free in
              (c, cc (e, found))
        ]
      ]

  -- A generated code is not in use, its suffix is one of the five, and nothing is written.
  generate_campaign_code-fresh :
      (t : DiscountType) (w : World F) (c : CampaignCode)
      → (generate_campaign_code t w).0 ≡ ok c
      → (any_row (has_campaign_code c) w.db.campaigns ≡ false) × (c.suffix < 5)
  unfolding generate_campaign_code
  generate_campaign_code-fresh t w c h =
      let (free, _, below) = campaign_code_from-fresh 5 0 t w c h in (free, below)

  -- With nothing failing and the month standing still, a free code among the five is enough for
  -- the generation to succeed.
  pub generate_campaign_code-total :
      (k ym : ℕ) (t : DiscountType) (w : World F)
      → w.cancelled ≡ false
      → ((n : ℕ) → env.fault n ≡ false)
      → ((n : ℕ) → env.year_month (env.clock n) ≡ ym)
      → k < 5
      → any_row
          (has_campaign_code (record { type_prefix = type_prefix t; year_month = ym; suffix = k }))
          w.db.campaigns
        ≡ false
      → (c : CampaignCode) × ((generate_campaign_code t w).0 ≡ ok c)
  unfolding generate_campaign_code
  generate_campaign_code-total k ym t w live sound month below free =
      campaign_code_from-total 5 0 k ym t w live sound month (omega arith) (omega arith) free
