-- ===== src/Offer/Templates.antt =====
-- internal/service/offer/ussd_code_gen.go: the USSD codes that are dialled, from their templates.
use bingwa.Prelude.{
  ℕ, zero, suc, ◌-◌, Bool, true, false, ◌&&◌, not, Option, none, some, List, [], ◌∷◌, ◌++◌, Text,
  ◌==◌, length, select, find_row, get_or, if◌then◌else◌,
}
use bingwa.Float64.{Float64}
use bingwa.Domain.Offer.{
  AgentOffer, OfferUssdCode, UssdCodeExecutionInfo, Placeholder, phone, customer_phone, amount,
  price,
}
use bingwa.Store.{Env, M, ok, unauthorized, pure, wrapping, refuse_if, next_step, ◌>>=◌, ◌>>◌}
use bingwa.Offer.Repository

abbrev pub starts_with : Text → Text → Bool
starts_with [] s = true
starts_with (c ∷ p) [] = false
starts_with (c ∷ p) (b ∷ s) = c == b && starts_with p s

-- The rest of a text after `skip` bytes that a match has taken.
unfoldable pub replace_from : Text → Text → ℕ → Text → Text
replace_from old new skip [] = []
replace_from old new (suc skip) (b ∷ s) = replace_from old new skip s
replace_from old new zero (b ∷ s) =
    let hit = starts_with old (b ∷ s) in
    (if hit then new else b ∷ []) ++ replace_from old new (if hit then length old - 1 else 0) s

-- `strings.ReplaceAll(s, old, new)`, for an `old` that is not empty
unfoldable pub replace_all : Text → Text → Text → Text
unfolding replace_from
replace_all old new s = replace_from old new 0 s

-- "{phone}", "{customer_phone}", "{amount}" and "{price}"
abbrev pub placeholder_text : Placeholder → Text
placeholder_text phone = b'{' ∷ b'p' ∷ b'h' ∷ b'o' ∷ b'n' ∷ b'e' ∷ b'}' ∷ []
placeholder_text customer_phone =
    b'{' ∷ b'c' ∷ b'u' ∷ b's' ∷ b't' ∷ b'o' ∷ b'm' ∷ b'e' ∷ b'r' ∷ b'_' ∷ b'p' ∷ b'h' ∷ b'o' ∷ b'n'
    ∷ b'e' ∷ b'}' ∷ []
placeholder_text amount = b'{' ∷ b'a' ∷ b'm' ∷ b'o' ∷ b'u' ∷ b'n' ∷ b't' ∷ b'}' ∷ []
placeholder_text price = b'{' ∷ b'p' ∷ b'r' ∷ b'i' ∷ b'c' ∷ b'e' ∷ b'}' ∷ []

-- "Priority 1: Use primary USSD code if available", and else the offer's template
abbrev pub own_template : Text → Option OfferUssdCode → Text
own_template fallback none = fallback
own_template fallback (some c) = elim c.ussd_code [ [] ↦ fallback | b ∷ t ↦ b ∷ t ]

module _ {F : Type 0} ⦃fl : Float64 F⦄ where
  -- The map of replacements.
  abbrev pub replacement : AgentOffer F → Text → Placeholder → Text
  replacement o number phone = number
  replacement o number customer_phone = number
  replacement o number amount = fl.whole o.amount
  replacement o number price = fl.whole o.price

  -- The loop over the map, in the order of its keys.
  unfoldable pub substituted : AgentOffer F → Text → List Placeholder → Text → Text
  unfolding replace_all
  substituted o number [] code = code
  substituted o number (p ∷ ps) code =
      substituted o number ps (replace_all (placeholder_text p) (replacement o number p) code)

-- The two answers of `GetUSSDCodeForExecution`.
abbrev pub fallback_info : {F : Type 0} → AgentOffer F → Text → UssdCodeExecutionInfo
fallback_info o code = record {
  ussd_code_id = 0;
  ussd_code = code;
  processing_type = o.ussd_processing_type;
  expected_response = get_or o.ussd_expected_response [];
  error_pattern = get_or o.ussd_error_pattern [];
  signature_pattern = [];
  priority = 0;
  fallback_codes = [];
  is_fallback = true;
}

abbrev pub primary_info : OfferUssdCode → Text → List Text → UssdCodeExecutionInfo
primary_info c code rest = record {
  ussd_code_id = c.id;
  ussd_code = code;
  processing_type = c.processing_type;
  expected_response = get_or c.expected_response [];
  error_pattern = get_or c.error_pattern [];
  signature_pattern = get_or c.signature_pattern [];
  priority = c.priority;
  fallback_codes = rest;
  is_fallback = false;
}

module _ {F : Type 0} ⦃fl : Float64 F⦄ ⦃env : Env⦄ where
  -- A `range` over the map goes through its keys in an order of its own.
  unfoldable pub fill : AgentOffer F → Text → Text → M F Text
  unfolding substituted
  fill o number code w = (ok (substituted o number (env.map_order w.steps) code), next_step w)

  unfoldable pub generate_ussd_code : AgentOffer F → Text → M F Text
  unfolding fill
  generate_ussd_code o number =
      fill o number (own_template o.ussd_code_template o.primary_ussd_code)

  unfoldable pub fill_each : AgentOffer F → Text → List OfferUssdCode → M F (List Text)
  unfolding fill
  fill_each o number [] = pure []
  fill_each o number (c ∷ cs) = do
    code ← fill o number c.ussd_code
    rest ← fill_each o number cs
    pure (code ∷ rest)

  -- The code with the priority, where it is there and not empty.
  unfoldable pub fill_or_generate : AgentOffer F → Text → Option OfferUssdCode → M F Text
  unfolding fill generate_ussd_code
  fill_or_generate o number none = generate_ussd_code o number
  fill_or_generate o number (some c) = elim c.ussd_code [
    | [] ↦ generate_ussd_code o number
    | b ∷ t ↦ fill o number (b ∷ t)
  ]

  unfoldable pub generate_ussd_code_with_priority : AgentOffer F → Text → ℕ → M F Text
  unfolding fill_or_generate
  generate_ussd_code_with_priority o number priority = do
    codes ← wrapping "failed to get USSD codes" (Repository.get_active_codes_by_priority o.id)
    fill_or_generate o number (find_row (λ c. c.priority == priority && c.is_active) codes)

  -- `GenerateAllActiveUSSDCodes` once the codes are read
  unfoldable pub all_or_fallback : AgentOffer F → Text → List OfferUssdCode → M F (List Text)
  unfolding generate_ussd_code fill_each
  all_or_fallback o number [] = do code ← generate_ussd_code o number; pure (code ∷ [])
  all_or_fallback o number (c ∷ cs) = fill_each o number (select (λ x. x.is_active) (c ∷ cs))

  unfoldable pub generate_all_active_ussd_codes : AgentOffer F → Text → M F (List Text)
  unfolding all_or_fallback
  generate_all_active_ussd_codes o number = do
    codes ←
        wrapping "failed to get active USSD codes" (Repository.get_active_codes_by_priority o.id)
    all_or_fallback o number codes

module _ {F : Type 0} ⦃env : Env⦄ where
  unfoldable pub get_offer : ℕ → ℕ → M F (AgentOffer F)
  get_offer agent offer = do
    o ← Repository.find_offer offer
    refuse_if (not (o.agent_identity_id == agent)) unauthorized
    pure o

module _ {F : Type 0} ⦃fl : Float64 F⦄ ⦃env : Env⦄ where
  -- "If no codes, use fallback"; "Use primary code (priority 1)", the first of the list.
  unfoldable pub execution_info :
      AgentOffer F → Text → List OfferUssdCode → M F UssdCodeExecutionInfo
  unfolding generate_ussd_code fill fill_each
  execution_info o number [] = do code ← generate_ussd_code o number; pure (fallback_info o code)
  execution_info o number (c ∷ cs) = do
    code ← fill o number c.ussd_code
    rest ← fill_each o number cs
    pure (primary_info c code rest)

  unfoldable pub get_ussd_code_for_execution : ℕ → ℕ → Text → M F UssdCodeExecutionInfo
  unfolding get_offer execution_info
  get_ussd_code_for_execution agent offer number = do
    o ← get_offer agent offer
    codes ← wrapping "failed to get USSD codes" (Repository.get_active_codes_by_priority offer)
    execution_info o number codes
