-- ===== src/Campaign/Operations.antt =====
-- The operations of campaign.go that write, and sequences of them, on a well-formed table.
use bingwa.Prelude.{
  ℕ, ◌≤◌, ◌≡◌, refl, Bool, Option, none, some, List, [], ◌∷◌, Text, arith, find_row, ltb, All-found,
  any_row, zero, suc, ◌+◌, to_upper_idem, get_or,
}
use bingwa.Float64.{Float64}
use bingwa.Domain.Campaign.{
  CampaignStatus, DiscountType, CampaignCode, CreateCampaignRequest, UpdateCampaignRequest,
}
use bingwa.Store.{
  Database, World, fresh, Env, Error, msg, refuse_if, wrapping, ◌>>=◌, ◌>>◌, IsCalendar, Result, ok,
  err,
}
use bingwa.Store.Triples.{
  Triple, Ends, Triple-bind, Triple-refuse_if, Triple-wrapping, Triple-weaken, Triple-query,
  Triple-assume, Triple-if, Triple-pure, Triple-raise, Triple-now,
}
use bingwa.Campaign.Repository
use bingwa.Campaign.Repository.{has_id, has_promotional_code, has_campaign_code}
use bingwa.Campaign.Discount.{validate_discount_type_and_value, validate_promotional_code}
use bingwa.Campaign.Invariant.{
  IsWellFormed, CampaignsValid, KeepsCampaigns, create-Triple, find_by_id-Triple,
  extend-IsWellFormed, update-Triple, update_status-Triple, increment_uses-Triple, delete-Triple,
}
use bingwa.Campaign.Service.{
  check, check_discount, new_campaign, type_prefix, changed, campaign_code_from,
  generate_campaign_code, create_campaign, update_campaign, extend_campaign, activate_campaign,
  deactivate_campaign, delete_campaign,
}

module _ {F : Type 0} ⦃fl : Float64 F⦄ ⦃env : Env⦄ where
  -- What passes a check has no error.
  check-Triple :
      {P : Database F → Type 0} (o : Option Error) → Triple P (check o) (λ _ d. (o ≡ none) × P d) P
  check-Triple none = record { apply = λ w h. (refl, h) }
  check-Triple (some e) = record { apply = λ w h. h }

  activate_campaign-Triple : (k : ℕ) → KeepsCampaigns {F = F} (activate_campaign k)
  unfolding activate_campaign
  activate_campaign-Triple k =
      Triple-wrapping "failed to activate campaign" (update_status-Triple k CampaignStatus.active)

  deactivate_campaign-Triple : (k : ℕ) → KeepsCampaigns {F = F} (deactivate_campaign k)
  unfolding deactivate_campaign
  deactivate_campaign-Triple k =
      Triple-wrapping "failed to deactivate campaign"
        (update_status-Triple k CampaignStatus.inactive)

  delete_campaign-Triple : (k : ℕ) → KeepsCampaigns {F = F} (delete_campaign k)
  unfolding delete_campaign
  delete_campaign-Triple k =
      Triple-bind (Triple-weaken (λ d h. h) (λ c d h. h.1) (λ d h. h) (find_by_id-Triple k)) λ c.
        Triple-bind (Triple-refuse_if _ _) λ _.
          Triple-wrapping "failed to delete campaign"
            (Triple-weaken (λ d h. h.1) (λ _ d h. h) (λ d h. h) (delete-Triple k))

  -- A row that is read is well formed.
  find-IsWellFormed-Triple :
      (k : ℕ)
      → Triple {F = F} CampaignsValid
          (Repository.find_by_id k)
          (λ c d. IsWellFormed c × ((find_row (has_id k) d.campaigns ≡ some c) × CampaignsValid d))
          CampaignsValid
  find-IsWellFormed-Triple k =
      Triple-weaken (λ d h. h)
        (λ c d h. (All-found IsWellFormed (has_id k) d.campaigns c h.1.rows h.0, h)) (λ d h. h)
        (find_by_id-Triple k)

  extend_campaign-Triple :
      (k days : ℕ) → IsCalendar env → KeepsCampaigns {F = F} (extend_campaign k days)
  unfolding extend_campaign
  extend_campaign-Triple k days cal = Triple-bind (Triple-refuse_if _ _) λ _.
      Triple-bind (Triple-weaken (λ d h. h.1) (λ c d h. h) (λ d h. h) (find-IsWellFormed-Triple k))
        λ c. Triple-wrapping "failed to extend campaign" (
          Triple-assume λ v.
            Triple-weaken (λ d h. h) (λ _ d h. h) (λ d h. h)
              (update-Triple k _ c (extend-IsWellFormed c days cal v) refl refl))

  exists_by_campaign_code-Triple :
      (code : CampaignCode) → KeepsCampaigns {F = F} (Repository.exists_by_campaign_code code)
  unfolding Repository.exists_by_campaign_code
  exists_by_campaign_code-Triple code =
      Triple-weaken (λ d h. h) (λ _ d h. h.1) (λ d h. h)
        (Triple-query λ _ d. any_row (has_campaign_code code) d.campaigns)

  exists_by_promotional_code-Triple :
      (code : Text) → KeepsCampaigns {F = F} (Repository.exists_by_promotional_code code)
  unfolding Repository.exists_by_promotional_code
  exists_by_promotional_code-Triple code =
      Triple-weaken (λ d h. h) (λ _ d h. h.1) (λ d h. h)
        (Triple-query λ _ d. any_row (has_promotional_code code) d.campaigns)

  campaign_code_from-Triple :
      (left i : ℕ) (t : DiscountType) → KeepsCampaigns {F = F} (campaign_code_from left i t)
  unfolding campaign_code_from
  campaign_code_from-Triple zero i t = Triple-raise _
  campaign_code_from-Triple (suc left) i t = Triple-bind Triple-now λ at.
      let code : CampaignCode = record {
        type_prefix = type_prefix t;
        year_month = env.year_month at;
        suffix = i;
      } in
      Triple-bind
        (Triple-wrapping "failed to check campaign code" (exists_by_campaign_code-Triple code))
        λ exists. Triple-if exists (campaign_code_from-Triple left (i + 1) t) (Triple-pure code)

  insert_new-Triple :
      (req : CreateCampaignRequest F) (exists : Bool)
      → req.start_date ≤ req.end_date
      → validate_discount_type_and_value req.discount_type req.discount_value ≡ none
      → KeepsCampaigns {F = F} (do
        refuse_if exists (msg "promotional code '%s' already exists")
        code ←
            wrapping "failed to generate campaign code" (campaign_code_from 5 0 req.discount_type)
        wrapping "failed to create campaign" (Repository.create (new_campaign req code)))
  insert_new-Triple req exists ordered discount =
      Triple-bind (Triple-refuse_if exists (msg "promotional code '%s' already exists")) λ _.
        Triple-assume λ unused.
          Triple-bind
            (Triple-wrapping "failed to generate campaign code"
              (campaign_code_from-Triple 5 0 req.discount_type))
            λ code. Triple-wrapping "failed to create campaign" (
              create-Triple (new_campaign req code) (record {
                dates = ordered;
                discount = discount;
                upper = to_upper_idem req.promotional_code;
              }))

  create_campaign-Triple :
      (req : CreateCampaignRequest F) → KeepsCampaigns {F = F} (create_campaign req)
  unfolding create_campaign generate_campaign_code
  create_campaign-Triple req =
      Triple-bind
        (Triple-refuse_if (ltb req.end_date req.start_date)
          (msg "end date must be after start date"))
        λ _. Triple-assume λ ordered.
          Triple-bind
            (check-Triple (validate_discount_type_and_value req.discount_type req.discount_value))
            λ _. Triple-assume λ discount.
              Triple-bind (check-Triple (validate_promotional_code req.promotional_code)) λ _.
                Triple-assume λ _.
                  Triple-bind
                    (Triple-wrapping "failed to check promotional code"
                      (exists_by_promotional_code-Triple req.promotional_code))
                    λ exists. insert_new-Triple req exists (ground arith) discount

  check_discount-Triple :
      {P : Database F → Type 0} (t : DiscountType) (v : F) (o : Option F)
      → validate_discount_type_and_value t v ≡ none
      → Triple P
          (check_discount t o)
          (λ _ d. (validate_discount_type_and_value t (get_or o v) ≡ none) × P d)
          P
  check_discount-Triple t v none h = record { apply = λ w p. (h, p) }
  check_discount-Triple t v (some x) h = check-Triple (validate_discount_type_and_value t x)

  update_campaign-Triple :
      (k : ℕ) (req : UpdateCampaignRequest F) → KeepsCampaigns {F = F} (update_campaign k req)
  unfolding update_campaign
  update_campaign-Triple k req = Triple-bind (find-IsWellFormed-Triple k) λ c. Triple-assume λ v.
      Triple-bind
        (Triple-weaken (λ d h. h) (λ _ d h. h) (λ d h. h.1)
          (check_discount-Triple c.discount_type c.discount_value req.discount_value v.discount))
        λ _. Triple-assume λ discount.
          Triple-bind
            (Triple-weaken (λ d h. h) (λ _ d h. h) (λ d h. h.1)
              (Triple-refuse_if (ltb (changed c req).end_date (changed c req).start_date)
                (msg "end date must be after start date")))
            λ _. Triple-assume λ ordered.
              Triple-bind
                (Triple-wrapping "failed to update campaign" (
                  update-Triple k (changed c req) c
                    (record { dates = ground arith; discount = discount; upper = v.upper }) refl
                    refl))
                λ _. Triple-weaken (λ d h. h) (λ c d h. h.1) (λ d h. h) (find_by_id-Triple k)

-- The calls of the handlers that write to the table.
pub data CampaignCall (F : Type 0) : Type 0 where
  creates : CreateCampaignRequest F → CampaignCall F
  updates : ℕ → UpdateCampaignRequest F → CampaignCall F
  activates deactivates deletes increments : ℕ → CampaignCall F
  extends : ℕ → ℕ → CampaignCall F

module _ {F : Type 0} ⦃fl : Float64 F⦄ ⦃env : Env⦄ where
  -- One call, its result dropped.
  pub step : CampaignCall F → World F → World F
  step (creates req) w = (create_campaign req w).1
  step (updates k req) w = (update_campaign k req w).1
  step (activates k) w = (activate_campaign k w).1
  step (deactivates k) w = (deactivate_campaign k w).1
  step (deletes k) w = (delete_campaign k w).1
  step (increments k) w = (Repository.increment_uses k w).1
  step (extends k days) w = (extend_campaign k days w).1

  pub run : List (CampaignCall F) → World F → World F
  run [] w = w
  run (c ∷ cs) w = run cs (step c (fresh w))

  kept :
      {A : Type 0} (o : Result A × World F)
      → Ends {F = F} (λ _. CampaignsValid) CampaignsValid o
      → CampaignsValid o.1.db
  kept (ok a, w) h = h
  kept (err e, w) h = h

  step-CampaignsValid :
      (c : CampaignCall F) (w : World F)
      → IsCalendar env
      → CampaignsValid w.db
      → CampaignsValid (step c w).db
  unfolding step
  step-CampaignsValid (creates req) w cal h = kept _ ((create_campaign-Triple req).apply w h)
  step-CampaignsValid (updates k req) w cal h = kept _ ((update_campaign-Triple k req).apply w h)
  step-CampaignsValid (activates k) w cal h = kept _ ((activate_campaign-Triple k).apply w h)
  step-CampaignsValid (deactivates k) w cal h = kept _ ((deactivate_campaign-Triple k).apply w h)
  step-CampaignsValid (deletes k) w cal h = kept _ ((delete_campaign-Triple k).apply w h)
  step-CampaignsValid (increments k) w cal h = kept _ ((increment_uses-Triple k).apply w h)
  step-CampaignsValid (extends k days) w cal h =
      kept _ ((extend_campaign-Triple k days cal).apply w h)

  -- After any sequence of calls, whatever statements fail on the way, every campaign starts before
  -- it ends, has a discount that passes validation and a code in upper case, and no id and no code
  -- stands twice, if that was so before.
  pub run-CampaignsValid :
      (cs : List (CampaignCall F)) (w : World F)
      → IsCalendar env
      → CampaignsValid w.db
      → CampaignsValid (run cs w).db
  unfolding run
  run-CampaignsValid [] w cal h = h
  run-CampaignsValid (c ∷ cs) w cal h =
      run-CampaignsValid cs (step c (fresh w)) cal (step-CampaignsValid c (fresh w) cal h)
