-- ===== src/Campaign/Repository.antt =====
-- internal/repository/postgres/promotional_campaign_repo.go: one function for each statement.
use bingwa.Prelude.{
  ℕ, ◌+◌, Bool, false, ◌&&◌, ◌||◌, Option, none, some, List, [], ◌∷◌, ◌++◌, Text, text_eq, ◌==◌,
  leb, select, find_row, any_row, update_where, delete_where, if◌then◌else◌,
}
use bingwa.Domain.Subscription.{AgentSubscription}
use bingwa.Domain.Campaign.{PromotionalCampaign, CampaignStatus, CampaignCode, is_active}
use bingwa.Store.{
  Database, Env, M, query, query_rows, exec, insert, at_time, affected, find_one, wrapping,
}

abbrev pub code_eq : CampaignCode → CampaignCode → Bool
code_eq a b =
    text_eq a.type_prefix b.type_prefix && a.year_month == b.year_month && a.suffix == b.suffix

-- `WHERE id = $1`, `WHERE promotional_code = $1`, `WHERE campaign_code = $1`
abbrev pub has_id : {F : Type 0} → ℕ → PromotionalCampaign F → Bool
has_id k c = c.id == k

abbrev pub has_promotional_code : {F : Type 0} → Text → PromotionalCampaign F → Bool
has_promotional_code code c = text_eq c.promotional_code code

abbrev pub has_campaign_code : {F : Type 0} → CampaignCode → PromotionalCampaign F → Bool
has_campaign_code code c = code_eq c.campaign_code code

-- `promotional_campaign_id = $1`
abbrev pub refers_to : ℕ → Option ℕ → Bool
refers_to k none = false
refers_to k (some c) = c == k

-- `WHERE status = 'active' AND start_date <= $1 AND end_date >= $1`
abbrev pub is_running : {F : Type 0} → ℕ → PromotionalCampaign F → Bool
is_running t c = is_active c.status && leb c.start_date t && leb t c.end_date

module _ {F : Type 0} where
  -- UPDATE promotional_campaigns SET f WHERE id = k
  abbrev pub update_campaign :
      ℕ → (PromotionalCampaign F → PromotionalCampaign F) → Database F → Database F × Bool
  update_campaign k f d = (
    record d { campaigns = update_where (has_id k) f d.campaigns },
    any_row (has_id k) d.campaigns,
  )

  -- What `Create` inserts: the columns of the statement, and the columns' defaults.
  abbrev pub created : PromotionalCampaign F → ℕ → ℕ → PromotionalCampaign F
  created c k t = record c { id = k; current_uses = 0; created_at = t; updated_at = t }

  abbrev pub with_row : PromotionalCampaign F → Database F → Database F
  with_row c d = record d { campaigns = d.campaigns ++ c ∷ []; next_id = d.next_id + 1 }

  -- Both codes are UNIQUE columns (db/migrations/svc_init.sql).
  abbrev pub code_taken : PromotionalCampaign F → Database F → Bool
  code_taken c d =
      any_row (has_promotional_code c.promotional_code) d.campaigns
      || any_row (has_campaign_code c.campaign_code) d.campaigns

  abbrev pub inserted :
      PromotionalCampaign F → ℕ → Database F → Option (Database F × PromotionalCampaign F)
  inserted c t d =
      let row = created c d.next_id t in if code_taken c d then none else some (with_row row d, row)

  -- The columns that `Update` writes.
  abbrev pub updated : PromotionalCampaign F → ℕ → PromotionalCampaign F → PromotionalCampaign F
  updated c t row = record row {
    name = c.name;
    description = c.description;
    discount_value = c.discount_value;
    max_discount_amount = c.max_discount_amount;
    start_date = c.start_date;
    end_date = c.end_date;
    max_uses = c.max_uses;
    uses_per_user = c.uses_per_user;
    applicable_plans = c.applicable_plans;
    target_user_types = c.target_user_types;
    metadata = c.metadata;
    updated_at = t;
  }

  abbrev pub discounted_by : ℕ → AgentSubscription F → Bool
  discounted_by k s = refers_to k s.promotional_campaign_id

  -- `DELETE FROM promotional_campaigns WHERE id = $1`: the foreign key of the subscriptions has
  -- ON DELETE SET NULL.
  abbrev pub without_campaign : ℕ → Database F → Database F
  without_campaign k d = record d {
    campaigns = delete_where (has_id k) d.campaigns;
    subscriptions =
        if any_row (has_id k) d.campaigns
        then update_where (discounted_by k) (λ s. record s { promotional_campaign_id = none })
            d.subscriptions
        else d.subscriptions;
  }

module _ {F : Type 0} ⦃env : Env⦄ where
  unfoldable pub create : PromotionalCampaign F → M F (PromotionalCampaign F)
  create c = wrapping "failed to create campaign" (insert (inserted c))

  unfoldable pub find_by_id : ℕ → M F (PromotionalCampaign F)
  find_by_id k = find_one "failed to find campaign" (query λ _ d. find_row (has_id k) d.campaigns)

  unfoldable pub find_by_promotional_code : Text → M F (PromotionalCampaign F)
  find_by_promotional_code code =
      find_one "failed to find campaign"
        (query λ _ d. find_row (has_promotional_code code) d.campaigns)

  unfoldable pub update : ℕ → PromotionalCampaign F → M F (Unit {0})
  update k c =
      at_time λ t.
        affected (wrapping "failed to update campaign" (exec (update_campaign k (updated c t))))

  unfoldable pub update_status : ℕ → CampaignStatus → M F (Unit {0})
  update_status k s = at_time λ t. affected (
      wrapping "failed to update status"
        (exec (update_campaign k λ c. record c { status = s; updated_at = t })))

  unfoldable pub increment_uses : ℕ → M F (Unit {0})
  increment_uses k = at_time λ t. affected (
      wrapping "failed to increment uses" (
        exec
          (update_campaign k λ c. record c { current_uses = c.current_uses + 1; updated_at = t })))

  unfoldable pub delete : ℕ → M F (Unit {0})
  delete k = affected (
      wrapping "failed to delete campaign"
        (exec λ d. (without_campaign k d, any_row (has_id k) d.campaigns)))

  -- `GetActiveCampaigns`, up to the order of the rows
  unfoldable pub get_active_campaigns : M F (List (PromotionalCampaign F))
  get_active_campaigns =
      wrapping "failed to get active campaigns"
        (query_rows λ t d. select (is_running t) d.campaigns)

  unfoldable pub exists_by_promotional_code : Text → M F Bool
  exists_by_promotional_code code = query λ _ d. any_row (has_promotional_code code) d.campaigns

  unfoldable pub exists_by_campaign_code : CampaignCode → M F Bool
  exists_by_campaign_code code = query λ _ d. any_row (has_campaign_code code) d.campaigns
