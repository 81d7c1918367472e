-- ===== src/Campaign/Bounds.antt =====
-- The discounts of campaign.go, compared with nothing and the price.
use bingwa.Prelude.{◌≡◌, Option, none, some, arith, Bool-cases, inl, inr, subst}
use bingwa.Float64.{Float64, IsIeee, ◌≼◌, ◌<f◌, ◌*f◌, ◌/f◌}
use bingwa.Domain.Campaign.{
  PromotionalCampaign, DiscountType, percentage, fixed_amount, free_trial, other_discount,
}
use bingwa.Campaign.Discount.{
  capped, discount_for, calculate_discount, validate_discount_type_and_value,
}

module _ {F : Type 0} ⦃fl : Float64 F⦄ where
  open fl use {nought, one, hundred}

  -- A cap, where there is one, is not negative (`min=0` on the request).
  abbrev pub CapNonneg : Option F → Type 0
  CapNonneg none = Unit {0}
  CapNonneg (some top) = nought ≼ top

  capped-le : (top : Option F) (d price : F) → IsIeee fl → d ≼ price → capped top d ≼ price
  capped-le none d price law h = h
  capped-le (some top) d price law h = elim (Bool-cases (top <f d)) [
    | inl over ↦ rw over (law.le_trans top d price (law.le_of_lt top d over) h)
    | inr under ↦ rw under h
  ]

  capped-nonneg : (top : Option F) (d : F) → CapNonneg top → nought ≼ d → nought ≼ capped top d
  capped-nonneg none d c h = h
  capped-nonneg (some top) d c h = ground arith

  -- A percentage of at most 100 takes at most the whole price.
  percentage-le :
      (v price : F) → IsIeee fl → nought ≼ price → v ≼ hundred → (price *f (v /f hundred)) ≼ price
  percentage-le v price law p h =
      subst (λ x. (price *f (v /f hundred)) ≼ x) (law.times_one price)
        (law.times_mono price (v /f hundred) one p (law.div_le_one v h))

  discount_for-bounds :
      (t : DiscountType) (v price : F) (top : Option F)
      → IsIeee fl
      → nought ≼ price
      → CapNonneg top
      → validate_discount_type_and_value t v ≡ none
      → (nought ≼ discount_for t v top price) × (discount_for t v top price ≼ price)
  unfolding validate_discount_type_and_value
  discount_for-bounds percentage v price top law p c h =
      let nonneg : nought ≼ v = ground arith in
      let small : v ≼ hundred = ground arith in
      (
        capped-nonneg top _ c
            (law.nonneg_times price (v /f hundred) p (law.nonneg_over_hundred v nonneg)),
        capped-le top _ price law (percentage-le v price law p small),
      )
  discount_for-bounds fixed_amount v price top law p c h = elim (Bool-cases (price <f v)) [
    | inl over ↦ rw over (p, law.lt_irrefl price)
    | inr under ↦ rw under (ground arith, under)
  ]
  discount_for-bounds free_trial v price top law p c h = (p, law.lt_irrefl price)
  discount_for-bounds other_discount v price top law p c h = cc

  -- The discount of a campaign whose type and value pass validation, and whose cap is not negative,
  -- lies between nothing and a price that is not negative.
  pub calculate_discount-bounds :
      (c : PromotionalCampaign F) (price : F)
      → IsIeee fl
      → nought ≼ price
      → CapNonneg c.max_discount_amount
      → validate_discount_type_and_value c.discount_type c.discount_value ≡ none
      → (nought ≼ calculate_discount c price) × (calculate_discount c price ≼ price)
  unfolding calculate_discount
  calculate_discount-bounds c price law p =
      discount_for-bounds c.discount_type c.discount_value price c.max_discount_amount law p
