-- ===== src/Subscription/Quotes.antt =====
-- The discount that `CreateSubscription` and `RenewSubscription` take off the price.
use bingwa.Prelude.{
  All, All-found, ℕ, ◌%◌, ◌||◌, ltb, ◌≡◌, refl, sym, subst, Bool, false, not, Option, none, some,
  [], ◌∷◌, Text, find_row, zero, suc,
}
use bingwa.Float64.{Float64, IsIeee, ◌≼◌}
use bingwa.Domain.Campaign as Campaign
use bingwa.Domain.Campaign.{
  PromotionalCampaign, DiscountType, percentage, fixed_amount, free_trial, other_discount,
}
use bingwa.Campaign.Bounds.{CapNonneg, calculate_discount-bounds}
use bingwa.Campaign.Invariant.{IsWellFormed}
use bingwa.Campaign.Discount.{calculate_discount, discount_for, used_up, plan_excluded}
use bingwa.Store.{
  Result, ok, err, Env, World, Database, refuse_if, Error, msg, attempt, pure, ◌>>=◌,
}
use bingwa.Store.Triples.{
  Ends, Triple, Triple-bind, Triple-wrapping, Triple-find_one, Triple-weaken, Triple-assume,
  Triple-now, Triple-pure,
}
use bingwa.Campaign.Repository as Campaigns
use bingwa.Store.Reads.{Triple-attempt, Triple-find_any, Triple-pass}
use bingwa.Subscription.Pricing.{
  by_type, quote_discount, charset_at, or_nothing, promotional_discount, apply_promotional_code,
  generate_random_string, generate_subscription_reference,
}

module _ {F : Type 0} ⦃env : Env⦄ where
  pub random-Reads :
      (n : ℕ) (P : Database F → Type 0) → Triple P (generate_random_string n) (λ _. P) P
  unfolding generate_random_string
  random-Reads zero P = Triple-pure []
  random-Reads (suc n) P =
      Triple-bind Triple-now
        λ t. Triple-bind (random-Reads n P) λ rest. Triple-pure (charset_at (t % 36) ∷ rest)

  pub reference-Reads :
      (P : Database F → Type 0) → Triple P generate_subscription_reference (λ _. P) P
  unfolding generate_subscription_reference
  reference-Reads P = Triple-bind Triple-now λ t. Triple-bind (random-Reads 6 P) λ r.
      Triple-pure (record { prefix = b'S' ∷ b'U' ∷ b'B' ∷ []; made_at = env.second t; random = r })

module _ {F : Type 0} ⦃fl : Float64 F⦄ ⦃env : Env⦄ where
  open fl use {nought}

  apply_promotional_code-Reads :
      (code : Text) (plan : ℕ) (base : F) (P : Database F → Type 0)
      → Triple P (apply_promotional_code code plan base) (λ _. P) P
  unfolding apply_promotional_code Campaigns.find_by_promotional_code
  apply_promotional_code-Reads code plan base P =
      Triple-bind
        (Triple-wrapping "promotional code not found" (
          Triple-find_any P "failed to find campaign"
            (λ _ d. find_row (Campaigns.has_promotional_code code) d.campaigns)))
        λ c. Triple-bind Triple-now λ t.
          Triple-bind
            (Triple-pass P
              (not (Campaign.is_active c.status) || ltb t c.start_date || ltb c.end_date t)
              (msg "promotional code is not active"))
            λ _.
              Triple-bind
                (Triple-pass P (plan_excluded c.applicable_plans plan)
                  (msg "promotional code not applicable to this plan"))
                λ _.
                  Triple-bind
                    (Triple-pass P (used_up c.max_uses c.current_uses)
                      (msg "promotional code usage limit reached"))
                    λ _. Triple-pure (promotional_discount c base, c.id)

  pub quote-Reads :
      (code : Text) (plan : ℕ) (base : F) (P : Database F → Type 0)
      → Triple P (quote_discount code plan base) (λ _. P) P
  unfolding quote_discount
  quote-Reads [] plan base P = Triple-pure (nought, none)
  quote-Reads (c ∷ code) plan base P =
      Triple-bind (Triple-attempt (apply_promotional_code-Reads (c ∷ code) plan base P))
        λ r. Triple-pure (or_nothing r)

module _ {F : Type 0} ⦃fl : Float64 F⦄ where
  open fl use {nought}

  -- `applyPromotionalCode` and `CalculateDiscount` take the same discount off a price.
  promotional_discount-calculate_discount :
      (c : PromotionalCampaign F) (price : F)
      → promotional_discount c price ≡ calculate_discount c price
  unfolding promotional_discount calculate_discount by_type
  promotional_discount-calculate_discount c price = same c.discount_type c.max_discount_amount
    where
      same :
          (kind : DiscountType) (top : Option F)
          → by_type kind c.discount_value top price ≡ discount_for kind c.discount_value top price
      same percentage none = refl
      same percentage (some top) = refl
      same fixed_amount top = refl
      same free_trial top = refl
      same other_discount top = refl

  abbrev pub Within : F → F → Type 0
  Within price d = (nought ≼ d) × (d ≼ price)

  -- Campaigns as validation leaves them, with caps that are not negative.
  abbrev pub SoundCampaigns : Database F → Type 0
  SoundCampaigns d =
      All IsWellFormed d.campaigns × All (λ c. CapNonneg c.max_discount_amount) d.campaigns

module _ {F : Type 0} ⦃fl : Float64 F⦄ ⦃env : Env⦄ (price : F) (law : IsIeee fl)
    (nonneg : fl.lt price fl.nought ≡ false) where
  open fl use {nought}

  abbrev Anything : Database F → Type 0
  Anything d = Unit {0}

  guard :
      (c : Bool) (e : Error) → Triple SoundCampaigns (refuse_if c e) (λ _. SoundCampaigns) Anything
  guard c e = Triple-weaken (λ d h. h) (λ a d h. h) (λ d h. tt) (Triple-pass SoundCampaigns c e)

  find_sound-Triple :
      (code : Text)
      → Triple SoundCampaigns
          (Campaigns.find_by_promotional_code code)
          (λ c d. (IsWellFormed c × CapNonneg c.max_discount_amount) × SoundCampaigns d)
          Anything
  unfolding Campaigns.find_by_promotional_code
  find_sound-Triple code =
      Triple-weaken (λ d h. h)
        (λ c d h. (
          (
            All-found IsWellFormed (Campaigns.has_promotional_code code) d.campaigns c h.1.0 h.0.1,
            All-found (λ x. CapNonneg x.max_discount_amount) (Campaigns.has_promotional_code code)
                d.campaigns c h.1.1 h.0.1,
          ),
          h.1,
        ))
        (λ d h. tt)
        (Triple-find_one "failed to find campaign"
          (λ _ d. find_row (Campaigns.has_promotional_code code) d.campaigns))

  discount-Triple :
      (c : PromotionalCampaign F)
      → IsWellFormed c × CapNonneg c.max_discount_amount
      → Triple {A = F × ℕ} SoundCampaigns
          (pure (promotional_discount c price, c.id))
          (λ r _. Within price r.0)
          Anything
  discount-Triple c sound = record {
    apply = λ w h.
        subst (Within price) (sym (promotional_discount-calculate_discount c price))
          (calculate_discount-bounds c price law nonneg sound.1 sound.0.discount);
  }

  apply-Triple :
      (code : Text) (plan : ℕ)
      → Triple SoundCampaigns
          (apply_promotional_code code plan price)
          (λ r _. Within price r.0)
          Anything
  unfolding apply_promotional_code
  apply-Triple code plan =
      Triple-bind (Triple-wrapping "promotional code not found" (find_sound-Triple code)) λ c.
        Triple-assume λ sound. Triple-bind Triple-now λ t.
          Triple-bind
            (guard (not (Campaign.is_active c.status) || ltb t c.start_date || ltb c.end_date t)
              (msg "promotional code is not active"))
            λ _.
              Triple-bind
                (guard (plan_excluded c.applicable_plans plan)
                  (msg "promotional code not applicable to this plan"))
                λ _.
                  Triple-bind
                    (guard (used_up c.max_uses c.current_uses)
                      (msg "promotional code usage limit reached"))
                    λ _. discount-Triple c sound

  attempted :
      (o : Result (F × ℕ) × World F)
      → Ends (λ r _. Within price r.0) Anything o
      → Ends
          (λ q _. Within price q.0)
          (λ _. ⊥)
          ((attempt (λ _. o) >>= λ r. pure (or_nothing r)) o.1)
  attempted (ok a, w) h = h
  attempted (err e, w) h = (law.lt_irrefl nought, nonneg)

  -- Where the price is not negative and the campaigns are as validation leaves them, whatever
  -- statement fails, the discount that is quoted lies between nothing and the price, and the quote
  -- is never an error.
  pub quote_discount-Within :
      (code : Text) (plan : ℕ) (w : World F)
      → SoundCampaigns w.db
      → Ends (λ q _. Within price q.0) (λ _. ⊥) (quote_discount code plan price w)
  unfolding quote_discount
  quote_discount-Within [] plan w h = (law.lt_irrefl nought, nonneg)
  quote_discount-Within (c ∷ code) plan w h =
      attempted (apply_promotional_code (c ∷ code) plan price w)
        ((apply-Triple (c ∷ code) plan).apply w h)
