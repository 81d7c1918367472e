-- ===== src/Campaign/Invariant.antt =====
-- Well-formedness of the table of campaigns, and the statements of promotional_campaign_repo.go.
use bingwa.Prelude.{
  ℕ, ◌+◌, ◌≤◌, ◌<◌, ◌≡◌, refl, false, none, some, Text, String, to_upper, arith, find_row, any_row,
  update_where, All, AtMostOne, All-append_one, All-weaken, All-delete_where, All-update_where,
  All-update_found, AtMostOne-update_where, AtMostOne-append_one, AtMostOne-delete_where,
  any_row-All-false, subst, text_eq_iff, Bool-cases, inl, inr,
}
use bingwa.Float64.{Float64}
use bingwa.Domain.Campaign.{PromotionalCampaign, CampaignStatus}
use bingwa.Store.{Database, Env, IsCalendar, M, at_time, affected, wrapping, exec}
use bingwa.Store.Triples.{
  Triple, Triple-wrapping, Triple-weaken, Triple-exec, Triple-find_one, Triple-insert,
  Triple-affected, Triple-update,
}
use bingwa.Campaign.Repository
use bingwa.Campaign.Repository.{
  has_id, has_promotional_code, created, updated, with_row, code_taken, inserted,
}
use bingwa.Campaign.Discount.{validate_discount_type_and_value}

module _ {F : Type 0} ⦃fl : Float64 F⦄ where
  -- What a row has to be.
  pub record IsWellFormed (c : PromotionalCampaign F) : Type 0 where
    pub dates : c.start_date ≤ c.end_date
    pub discount : validate_discount_type_and_value c.discount_type c.discount_value ≡ none
    pub upper : to_upper c.promotional_code ≡ c.promotional_code

  -- Well-formed rows, no id and no promotional code twice, and ids that the sequence has given.
  pub record CampaignsValid (d : Database F) : Type 0 where
    pub rows : All IsWellFormed d.campaigns
    pub ids : (k : ℕ) → AtMostOne (has_id k) d.campaigns
    pub codes : (code : Text) → AtMostOne (has_promotional_code code) d.campaigns
    pub below : All (λ c. c.id < d.next_id) d.campaigns

  -- The action keeps the table valid, whether it succeeds or fails.
  abbrev pub KeepsCampaigns : {A : Type 0} → M F A → Type 0
  KeepsCampaigns m = Triple {F = F} CampaignsValid m (λ _. CampaignsValid) CampaignsValid

  -- An update that leaves ids and codes alone and keeps the rows that it hits well formed.
  update-CampaignsValid :
      (k : ℕ) (f : PromotionalCampaign F → PromotionalCampaign F) (d : Database F)
      → ((c : PromotionalCampaign F) → (f c).id ≡ c.id)
      → ((c : PromotionalCampaign F) → (f c).promotional_code ≡ c.promotional_code)
      → All IsWellFormed (update_where (has_id k) f d.campaigns)
      → CampaignsValid d
      → CampaignsValid (Repository.update_campaign k f d).0
  update-CampaignsValid k f d same_id same_code rows v = record {
    rows = rows;
    ids =
        λ j. AtMostOne-update_where (has_id j) (has_id k) f d.campaigns (λ c. rw same_id) (v.ids j);
    codes = λ code.
        AtMostOne-update_where (has_promotional_code code) (has_id k) f d.campaigns
          (λ c. rw same_code) (v.codes code);
    below =
        All-update_where (λ c. c.id < d.next_id) (has_id k) f d.campaigns (λ c _ h. rw same_id h)
          v.below;
  }

  created-IsWellFormed :
      (c : PromotionalCampaign F) (k t : ℕ) → IsWellFormed c → IsWellFormed (created c k t)
  created-IsWellFormed c k t v = record { dates = v.dates; discount = v.discount; upper = v.upper }

  -- A new row whose code is not taken, under the next id of the sequence.
  with_row-CampaignsValid :
      (c : PromotionalCampaign F) (t : ℕ) (d : Database F)
      → code_taken c d ≡ false
      → IsWellFormed c
      → CampaignsValid d
      → CampaignsValid (with_row (created c d.next_id t) d)
  with_row-CampaignsValid c t d free v h = record {
    rows =
        All-append_one IsWellFormed d.campaigns (created c d.next_id t) h.rows
          (created-IsWellFormed c d.next_id t v);
    ids = λ k.
        AtMostOne-append_one (has_id k) d.campaigns (created c d.next_id t)
          (λ hit. any_row-All-false (has_id k) d.campaigns (
            All-weaken (λ x. x.id < d.next_id) (λ x. has_id k x ≡ false) d.campaigns
              (λ x lt. ground arith) h.below))
          (h.ids k);
    codes = λ code.
        AtMostOne-append_one (has_promotional_code code) d.campaigns (created c d.next_id t)
          (λ hit.
            subst (λ x. any_row (has_promotional_code x) d.campaigns ≡ false)
              ((text_eq_iff c.promotional_code code).0 hit) (ground arith))
          (h.codes code);
    below =
        All-append_one (λ x. x.id < d.next_id + 1) d.campaigns (created c d.next_id t)
          (All-weaken (λ x. x.id < d.next_id) (λ x. x.id < d.next_id + 1) d.campaigns
            (λ x lt. omega arith) h.below)
          (omega arith);
  }

  inserted-CampaignsValid :
      (c : PromotionalCampaign F) (t : ℕ) (d d' : Database F) (row : PromotionalCampaign F)
      → IsWellFormed c
      → inserted c t d ≡ some (d', row)
      → CampaignsValid d
      → CampaignsValid d'
  inserted-CampaignsValid c t d d' row v e h = elim (Bool-cases (code_taken c d)) [
    | inl taken ↦ absurd (ground arith)
    | inr free ↦ subst CampaignsValid (ground arith) (with_row-CampaignsValid c t d free v h)
  ]

  module _ ⦃env : Env⦄ where
    pub create-Triple :
        (c : PromotionalCampaign F)
        → IsWellFormed c
        → Triple CampaignsValid (Repository.create c) (λ _. CampaignsValid) CampaignsValid
    unfolding Repository.create
    create-Triple c v =
        Triple-wrapping "failed to create campaign"
          (Triple-insert (inserted c) λ t d d' row. inserted-CampaignsValid c t d d' row v)

    -- `AddDate` moves no end date before the start date.
    pub find_by_id-Triple :
        (k : ℕ)
        → Triple CampaignsValid
            (Repository.find_by_id {F = F} k)
            (λ c d. (find_row (has_id k) d.campaigns ≡ some c) × CampaignsValid d)
            CampaignsValid
    unfolding Repository.find_by_id
    find_by_id-Triple k =
        Triple-weaken (λ d h. h) (λ c d h. (h.0.1, h.1)) (λ d h. h)
          (Triple-find_one "failed to find campaign" (λ _ d. find_row (has_id k) d.campaigns))

    pub extend-IsWellFormed :
        (c : PromotionalCampaign F) (days : ℕ)
        → IsCalendar env
        → IsWellFormed c
        → IsWellFormed (record c { end_date = env.add_date c.end_date 0 0 days })
    extend-IsWellFormed c days cal v = record {
      dates = omega (arith, v.dates, cal.not_before c.end_date 0 0 days);
      discount = v.discount;
      upper = v.upper;
    }

    pub update-Triple :
        (k : ℕ) (c old : PromotionalCampaign F)
        → IsWellFormed c
        → c.discount_type ≡ old.discount_type
        → c.promotional_code ≡ old.promotional_code
        → Triple
            (λ d. (find_row (has_id k) d.campaigns ≡ some old) × CampaignsValid d)
            (Repository.update k c)
            (λ _. CampaignsValid)
            CampaignsValid
    unfolding Repository.update
    update-Triple k c old v t p =
        Triple-update "failed to update campaign"
          (λ time. Repository.update_campaign k (updated c time)) (λ d h. h.1)
          λ time d h.
            update-CampaignsValid k (updated c time) d (λ _. refl) (λ _. refl)
              (All-update_found IsWellFormed (has_id k) (updated c time) d.campaigns old (h.1.ids k)
                h.0
                (record {
                  dates = v.dates;
                  discount = rw (← t) v.discount;
                  upper = rw (← p) v.upper;
                })
                h.1.rows)
              h.1

    -- An update of the columns that well-formedness does not read.
    touch-Triple :
        (k : ℕ) (s : String) (f : ℕ → PromotionalCampaign F → PromotionalCampaign F)
        → ((t : ℕ) (c : PromotionalCampaign F) → (f t c).id ≡ c.id)
        → ((t : ℕ) (c : PromotionalCampaign F) → (f t c).promotional_code ≡ c.promotional_code)
        → ((t : ℕ) (c : PromotionalCampaign F) → IsWellFormed c → IsWellFormed (f t c))
        → Triple CampaignsValid
            (at_time λ t. affected (wrapping s (exec (Repository.update_campaign k (f t)))))
            (λ _. CampaignsValid)
            CampaignsValid
    touch-Triple k s f same_id same_code keep =
        Triple-update s (λ t. Repository.update_campaign k (f t)) (λ d h. h)
          λ t d h.
            update-CampaignsValid k (f t) d (same_id t) (same_code t)
              (All-update_where IsWellFormed (has_id k) (f t) d.campaigns (λ c _. keep t c) h.rows)
              h

    pub update_status-Triple :
        (k : ℕ) (s : CampaignStatus)
        → Triple CampaignsValid (Repository.update_status k s) (λ _. CampaignsValid) CampaignsValid
    unfolding Repository.update_status
    update_status-Triple k s =
        touch-Triple k "failed to update status" (λ t c. record c { status = s; updated_at = t })
          (λ _ _. refl) (λ _ _. refl)
          λ t c v. record { dates = v.dates; discount = v.discount; upper = v.upper }

    pub increment_uses-Triple :
        (k : ℕ)
        → Triple CampaignsValid (Repository.increment_uses k) (λ _. CampaignsValid) CampaignsValid
    unfolding Repository.increment_uses
    increment_uses-Triple k =
        touch-Triple k "failed to increment uses"
          (λ t c. record c { current_uses = c.current_uses + 1; updated_at = t }) (λ _ _. refl)
          (λ _ _. refl) λ t c v. record { dates = v.dates; discount = v.discount; upper = v.upper }

    pub delete-Triple :
        (k : ℕ) → Triple CampaignsValid (Repository.delete k) (λ _. CampaignsValid) CampaignsValid
    unfolding Repository.delete
    delete-Triple k = Triple-affected (
        Triple-wrapping "failed to delete campaign" (
          Triple-exec _ λ d h. record {
            rows = All-delete_where IsWellFormed (has_id k) d.campaigns h.rows;
            ids = λ j. AtMostOne-delete_where (has_id j) (has_id k) d.campaigns (h.ids j);
            codes = λ code.
                AtMostOne-delete_where (has_promotional_code code) (has_id k) d.campaigns
                  (h.codes code);
            below = All-delete_where (λ c. c.id < d.next_id) (has_id k) d.campaigns h.below;
          }))
