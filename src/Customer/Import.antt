-- ===== src/Customer/Import.antt =====
-- `BulkImportCustomers` of customer.go: what it answers, and how many customers it adds.
use bingwa.Prelude.{ℕ, suc, ◌+◌, ◌≡◌, refl, Option, none, some, List, [], ◌∷◌, ◌++◌, length, arith}
use bingwa.Domain.Customer.{AgentCustomer, CreateCustomerRequest}
use bingwa.Store.{Error, Result, ok, err, Env, Database, World, pure, ◌>>=◌}
use bingwa.Store.Triples.{Ends, Triple, Triple-bind}
use bingwa.Store.Reads.{Triple-outcome, Either}
use bingwa.Customer.Service
use bingwa.Customer.Registration.{IsRegistered, create_customer-Ends}

-- How many creations of an import have no error.
pub created_count : List (Option Error) → ℕ
created_count [] = 0
created_count (none ∷ es) = suc (created_count es)
created_count (some e ∷ es) = created_count es

length-append_one :
    (xs : List AgentCustomer) (c : AgentCustomer) → length (xs ++ c ∷ []) ≡ suc (length xs)
length-append_one [] c = refl
length-append_one (x ∷ xs) c = omega (arith, length-append_one xs c)

sized_after : ℕ → Result AgentCustomer → ℕ
sized_after n (ok c) = suc n
sized_after n (err e) = n

module _ {F : Type 0} ⦃env : Env⦄ (agent : ℕ) where
  abbrev Sized : ℕ → Database F → Type 0
  Sized n d = length d.customers ≡ n

  one-Triple :
      (n : ℕ) (req : CreateCustomerRequest)
      → Triple (Sized n) (Service.create_customer agent req) (λ _. Sized (suc n)) (Sized n)
  one-Triple n req = record {
    apply = λ w h.
        counted (w.db) h (Service.create_customer agent req w) (create_customer-Ends agent req w);
  }
    where
      counted :
          (old : Database F)
          → length old.customers ≡ n
          → (o : Result AgentCustomer × World F)
          → Ends (IsRegistered agent req old) (λ d. d ≡ old) o
          → Ends (λ _. Sized (suc n)) (Sized n) o
      counted old h (ok c, w) r = rw r.is_db (omega (arith, length-append_one old.customers c))
      counted old h (err e, w) r = rw r h

  -- One answer for each request, and as many new rows as there are answers without an error.
  abbrev pub Balanced : ℕ → ℕ → List ℕ × List (Option Error) → Database F → Type 0
  Balanced n asked r d =
      (length r.0 ≡ asked) × (length r.1 ≡ asked) × (length d.customers ≡ n + created_count r.1)

  import-Triple :
      (n : ℕ) (reqs : List CreateCustomerRequest)
      → Triple
          (Sized n)
          (Service.bulk_import_customers agent reqs)
          (Balanced n (length reqs))
          (λ _. ⊥)
  unfolding Service.bulk_import_customers created_count sized_after
  import-Triple n [] = record { apply = λ w h. (refl, refl, omega (arith, h)) }
  import-Triple n (req ∷ reqs) =
      Triple-bind (Triple-outcome (one-Triple n req))
        (after (import-Triple (suc n) reqs) (import-Triple n reqs))
    where
      put :
          (r : Result AgentCustomer) (rest : List ℕ × List (Option Error)) (d : Database F)
          → Balanced (sized_after n r) (length reqs) rest d
          → Balanced n
              (suc (length reqs))
              ((Service.outcome r).0 ∷ rest.0, (Service.outcome r).1 ∷ rest.1)
              d
      put (ok c) rest d h = (omega (arith, h.0), omega (arith, h.1), omega (arith, h.2))
      put (err e) rest d h = (omega (arith, h.0), omega (arith, h.1), omega (arith, h.2))

      finish :
          (r : Result AgentCustomer) (rest : List ℕ × List (Option Error))
          → Triple
              (Balanced (sized_after n r) (length reqs) rest)
              (pure ((Service.outcome r).0 ∷ rest.0, (Service.outcome r).1 ∷ rest.1))
              (Balanced n (suc (length reqs)))
              (λ _. ⊥)
      finish r rest = record { apply = λ w h. put r rest w.db h }

      Imports : ℕ → Type 0
      Imports m =
          Triple (Sized m) (Service.bulk_import_customers agent reqs) (Balanced m (length reqs))
            (λ _. ⊥)

      after :
          Imports (suc n)
          → Imports n
          → (r : Result AgentCustomer)
          → Triple
              (Either (λ _. Sized (suc n)) (Sized n) r)
              (do
                rest ← Service.bulk_import_customers agent reqs
                pure ((Service.outcome r).0 ∷ rest.0, (Service.outcome r).1 ∷ rest.1))
              (Balanced n (suc (length reqs)))
              (λ _. ⊥)
      after more same (ok c) = Triple-bind more (finish (ok c))
      after more same (err e) = Triple-bind same (finish (err e))

  -- BulkImportCustomers never returns an error of its own: it has one id and one error or nil for
  -- each request, and has added exactly as many customers as there are requests without an error.
  pub bulk_import_customers-Balanced :
      (reqs : List CreateCustomerRequest) (w : World F)
      → Ends
          (Balanced (length w.db.customers) (length reqs))
          (λ _. ⊥)
          (Service.bulk_import_customers agent reqs w)
  bulk_import_customers-Balanced reqs w = (import-Triple (length w.db.customers) reqs).apply w refl
