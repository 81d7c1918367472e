-- ===== src/Offer/Management.antt =====
-- The operations on offers in internal/service/offer/offers.go. Logging is left out.
use bingwa.Prelude.{
  set_text, given_or, ℕ, zero, suc, ◌+◌, false, not, Option, none, some, [], ◌∷◌, Text, null_string,
  to_upper, get_or, ◌==◌, if◌then◌else◌,
}
use bingwa.Float64.{Float64}
use bingwa.Domain.Offer.{
  AgentOffer, CreateOfferRequest, UpdateOfferRequest, active, inactive, paused,
}
use bingwa.Store.{
  refuse, Env, M, unauthorized, msg, pure, raise, wrapping, refuse_if, now, ◌>>=◌, ◌>>◌,
}
use bingwa.Offer.Repository.{find_offer}
use bingwa.Offer.Table
use bingwa.Offer.Terms.{
  units_refusal, template_refusal, generate_validity_label, offer_code_at, is_offer_available,
}
use bingwa.Offer.Templates.{get_offer}

-- `if validityLabel == "" { … }`
abbrev pub label_or : Text → Text → Text
label_or [] generated = generated
label_or (c ∷ t) generated = c ∷ t

-- The label after an update: made anew where the days are given, then the one that is given
abbrev pub label_after : Option ℕ → Option Text → Option Text → Option Text
label_after none label old = set_text label old
label_after (some days) label old = set_text label (some (generate_validity_label days))

module _ {F : Type 0} where
  -- The entity that `CreateOffer` builds.
  unfoldable pub new_offer : ℕ → Text → CreateOfferRequest F → AgentOffer F
  unfolding generate_validity_label
  new_offer agent code req = record {
    id = 0;
    agent_identity_id = agent;
    offer_code = code;
    name = req.name;
    description = null_string req.description;
    offer_type = req.offer_type;
    amount = req.amount;
    units = req.units;
    price = req.price;
    currency = to_upper req.currency;
    discount_percentage = req.discount_percentage;
    validity_days = req.validity_days;
    validity_label = some (label_or req.validity_label (generate_validity_label req.validity_days));
    ussd_code_template = req.ussd_code_template;
    ussd_processing_type = req.ussd_processing_type;
    ussd_expected_response = null_string req.ussd_expected_response;
    ussd_error_pattern = null_string req.ussd_error_pattern;
    is_featured = req.is_featured;
    is_recurring = req.is_recurring;
    max_purchases_per_customer = req.max_purchases_per_customer;
    status = active;
    available_from = req.available_from;
    available_until = req.available_until;
    tags = req.tags;
    metadata = req.metadata;
    created_at = 0;
    updated_at = 0;
    deleted_at = none;
    primary_ussd_code = none;
  }

  -- The fields that a request of `UpdateOffer` gives.
  unfoldable pub merged_offer : UpdateOfferRequest F → AgentOffer F → AgentOffer F
  merged_offer req o = record o {
    name = get_or req.name o.name;
    description = set_text req.description o.description;
    offer_type = get_or req.offer_type o.offer_type;
    amount = get_or req.amount o.amount;
    units = get_or req.units o.units;
    price = get_or req.price o.price;
    discount_percentage = get_or req.discount_percentage o.discount_percentage;
    validity_days = get_or req.validity_days o.validity_days;
    validity_label = label_after req.validity_days req.validity_label o.validity_label;
    ussd_code_template = get_or req.ussd_code_template o.ussd_code_template;
    ussd_processing_type = get_or req.ussd_processing_type o.ussd_processing_type;
    ussd_expected_response = set_text req.ussd_expected_response o.ussd_expected_response;
    ussd_error_pattern = set_text req.ussd_error_pattern o.ussd_error_pattern;
    is_featured = get_or req.is_featured o.is_featured;
    is_recurring = get_or req.is_recurring o.is_recurring;
    max_purchases_per_customer =
        given_or req.max_purchases_per_customer o.max_purchases_per_customer;
    available_from = given_or req.available_from o.available_from;
    available_until = given_or req.available_until o.available_until;
    tags = get_or req.tags o.tags;
    metadata = given_or req.metadata o.metadata;
  }

  -- The request that `CloneOffer` makes of an offer.
  unfoldable pub clone_request : Text → AgentOffer F → CreateOfferRequest F
  clone_request name o = record {
    name = name;
    description = get_or o.description [];
    offer_type = o.offer_type;
    amount = o.amount;
    units = o.units;
    price = o.price;
    currency = o.currency;
    discount_percentage = o.discount_percentage;
    validity_days = o.validity_days;
    validity_label = get_or o.validity_label [];
    ussd_code_template = o.ussd_code_template;
    ussd_processing_type = o.ussd_processing_type;
    ussd_expected_response = get_or o.ussd_expected_response [];
    ussd_error_pattern = get_or o.ussd_error_pattern [];
    is_featured = false;
    is_recurring = o.is_recurring;
    max_purchases_per_customer = o.max_purchases_per_customer;
    available_from = none;
    available_until = none;
    tags = o.tags;
    metadata = o.metadata;
  }

  abbrev pub check_template : Option Text → M F (Unit {0})
  check_template none = pure tt
  check_template (some template) = refuse (template_refusal template)

module _ {F : Type 0} ⦃fl : Float64 F⦄ ⦃env : Env⦄ where
  -- The attempts that are left, the next with the number i.
  unfoldable pub offer_code_from : ℕ → ℕ → ℕ → CreateOfferRequest F → M F Text
  unfolding offer_code_at
  offer_code_from zero i agent req =
      raise (msg "failed to generate unique offer code after %d attempts")
  offer_code_from (suc left) i agent req = do
    exists ←
        wrapping "failed to check offer code"
          (Table.exists_by_offer_code (offer_code_at agent req i))
    if exists then offer_code_from left (i + 1) agent req else pure (offer_code_at agent req i)

  -- `maxAttempts := 5`
  unfoldable pub generate_offer_code : ℕ → CreateOfferRequest F → M F Text
  unfolding offer_code_from
  generate_offer_code agent req = offer_code_from 5 0 agent req

  unfoldable pub create_offer : ℕ → CreateOfferRequest F → M F (AgentOffer F)
  unfolding units_refusal template_refusal generate_offer_code new_offer
  create_offer agent req = do
    refuse (units_refusal req.offer_type req.units)
    refuse (template_refusal req.ussd_code_template)
    code ← wrapping "failed to generate offer code" (generate_offer_code agent req)
    row ← wrapping "failed to create offer" (Table.create (new_offer agent code req))
    find_offer row.id

  unfoldable pub clone_offer : ℕ → ℕ → Text → M F (AgentOffer F)
  unfolding get_offer clone_request create_offer
  clone_offer agent k name = do o ← get_offer agent k; create_offer agent (clone_request name o)

module _ {F : Type 0} ⦃env : Env⦄ where
  unfoldable pub get_offer_by_code : ℕ → Text → M F (AgentOffer F)
  get_offer_by_code agent code = do
    o ← Table.find_by_offer_code code
    refuse_if (not (o.agent_identity_id == agent)) unauthorized
    pure o

  unfoldable pub update_offer : ℕ → ℕ → UpdateOfferRequest F → M F (AgentOffer F)
  unfolding get_offer merged_offer units_refusal template_refusal
  update_offer agent k req = do
    o ← get_offer agent k
    check_template req.ussd_code_template
    refuse (units_refusal (merged_offer req o).offer_type (merged_offer req o).units)
    wrapping "failed to update offer" (Table.update k (merged_offer req o))
    find_offer k

  unfoldable pub activate_offer : ℕ → ℕ → M F (Unit {0})
  unfolding get_offer
  activate_offer agent k = do
    _ ← get_offer agent k
    wrapping "failed to activate offer" (Table.update_status k active)

  unfoldable pub deactivate_offer : ℕ → ℕ → M F (Unit {0})
  unfolding get_offer
  deactivate_offer agent k = do
    _ ← get_offer agent k
    wrapping "failed to deactivate offer" (Table.update_status k inactive)

  unfoldable pub pause_offer : ℕ → ℕ → M F (Unit {0})
  unfolding get_offer
  pause_offer agent k = do
    _ ← get_offer agent k
    wrapping "failed to pause offer" (Table.update_status k paused)

  unfoldable pub delete_offer : ℕ → ℕ → M F (Unit {0})
  unfolding get_offer
  delete_offer agent k = do
    _ ← get_offer agent k
    wrapping "failed to delete offer" (Table.soft_delete k)

  unfoldable pub validate_offer_purchase : AgentOffer F → M F (Unit {0})
  unfolding is_offer_available
  validate_offer_purchase o = do
    t ← now
    refuse_if (not (is_offer_available o t)) (msg "offer is not currently available")
