-- ===== src/Examples/Customers.antt =====
-- The theorems on customers, at one customer of the agent 7 and one of the agent 8.
use bingwa.Prelude.{ℕ, ◌≡◌, ◌↔◌, ◌⊎◌, refl, true, false, none, [], ◌∷◌, Text, arith}
use bingwa.Float64.{Fixed}
use bingwa.Domain.Customer.{AgentCustomer, CreateCustomerRequest}
use bingwa.Store.{World, ◌>>◌}
use bingwa.Store.Triples.{Ends}
use bingwa.Customer.Phone.{phone_refusal, cleaned, IsPhone, phone_refusal_iff}
use bingwa.Customer.Calls.{CustomerCall, run}
use bingwa.Customer.Validity.{CustomersValid, run-CustomersValid}
use bingwa.Customer.Isolation.{others, IdsValid, run-others}
use bingwa.Customer.Service.{create_customer, bulk_import_customers, with_tag, add_tag, remove_tag}
use bingwa.Customer.Registration.{IsRegistered, create_customer-Ends}
use bingwa.Customer.Import.{Balanced, bulk_import_customers-Balanced}
use bingwa.Customer.Tags.{IsTagged, tags-round_trip}
use bingwa.Examples.{test_env, test_world, test_database}

abbrev phone_one : Text
phone_one =
    b'+' ∷ b'2' ∷ b'5' ∷ b'5' ∷ b'7' ∷ b'1' ∷ b'2' ∷ b'3' ∷ b'4' ∷ b'5' ∷ b'6' ∷ b'7' ∷ b'8' ∷ []

-- With a space, which the validation removes
abbrev phone_two : Text
phone_two = b'0' ∷ b'7' ∷ b'1' ∷ b' ' ∷ b'1' ∷ b'1' ∷ b'1' ∷ b'2' ∷ b'2' ∷ b'2' ∷ b'3' ∷ []

abbrev test_customer : ℕ → ℕ → AgentCustomer
test_customer id agent = record {
  id = id;
  agent_identity_id = agent;
  customer_reference = record { agent = agent; day = 1; random = [] };
  full_name = none;
  phone_number = phone_one;
  alt_phone_number = none;
  email = none;
  is_active = true;
  is_verified = false;
  verified_at = none;
  notes = none;
  tags = [];
  metadata = none;
  created_at = 1;
  updated_at = 1;
  deleted_at = none;
}

abbrev customer_world : World Fixed
customer_world = record test_world {
  db = record test_database { customers = test_customer 14 7 ∷ test_customer 15 8 ∷ [] };
}

abbrev registration : Text → CreateCustomerRequest
registration phone = record {
  full_name = b'A' ∷ [];
  phone_number = phone;
  alt_phone_number = [];
  email = [];
  notes = [];
  tags = [];
  metadata = none;
}

phone_refusal_iff_example : (phone_refusal phone_two ≡ none) ↔ IsPhone (cleaned phone_two)
phone_refusal_iff_example = phone_refusal_iff phone_two

accepted : phone_refusal phone_one ≡ none
unfolding phone_refusal
accepted = refl

all_valid : CustomersValid customer_world.db
all_valid = (
  record { phone = accepted; dated = λ e. ground arith },
  (record { phone = accepted; dated = λ e. ground arith }, tt),
)

run-CustomersValid_example :
    CustomersValid
      (run 7
        (CustomerCall.creates (registration phone_two) ∷ CustomerCall.verifies 14 ∷ [])
        customer_world).db
run-CustomersValid_example =
    run-CustomersValid 7
      (CustomerCall.creates (registration phone_two) ∷ CustomerCall.verifies 14 ∷ []) customer_world
      all_valid

ids : IdsValid customer_world.db
ids = record {
  unique = λ k. ((λ e. ground arith), ((λ e. refl), tt));
  ahead = (omega arith, (omega arith, tt));
}

run-others_example :
    others 7
      (run 7 (CustomerCall.deletes 14 ∷ CustomerCall.verifies 15 ∷ []) customer_world).db.customers
    ≡ test_customer 15 8 ∷ []
run-others_example =
    run-others 7 (CustomerCall.deletes 14 ∷ CustomerCall.verifies 15 ∷ []) customer_world ids

create_customer-Ends_example :
    Ends
      (IsRegistered 7 (registration phone_two) customer_world.db)
      (λ d. d ≡ customer_world.db)
      (create_customer 7 (registration phone_two) customer_world)
create_customer-Ends_example = create_customer-Ends 7 (registration phone_two) customer_world

bulk_import_customers-Balanced_example :
    Ends
      (Balanced 7 2 3)
      (λ _. ⊥)
      (bulk_import_customers 7
        (registration phone_two ∷ registration [] ∷ registration phone_one ∷ [])
        customer_world)
bulk_import_customers-Balanced_example =
    bulk_import_customers-Balanced 7
      (registration phone_two ∷ registration [] ∷ registration phone_one ∷ []) customer_world

tags-round_trip_example :
    let tag : Text = b'a' ∷ [] in
    Ends
      (λ _. IsTagged 7 14 tag (with_tag tag) customer_world.db)
      (λ d. d ≡ customer_world.db)
      (add_tag 7 14 tag customer_world)
    × Ends
        (λ _. IsTagged 7 14 tag (λ tags. tags) customer_world.db)
        (λ d. (d ≡ customer_world.db) ⊎ IsTagged 7 14 tag (with_tag tag) customer_world.db d)
        ((add_tag 7 14 tag >> remove_tag 7 14 tag) customer_world)
tags-round_trip_example =
    tags-round_trip 7 14 (b'a' ∷ []) customer_world ((λ e. refl), ((λ e. refl), tt))
