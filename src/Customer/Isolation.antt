-- ===== src/Customer/Isolation.antt =====
-- The customers of other agents under the calls of customer.go.
use bingwa.Prelude.{
  ℕ, ◌+◌, ◌<◌, ◌≡◌, refl, ◌∙◌, Bool, false, not, ◌==◌, List, [], ◌∷◌, ◌++◌, All, All-append_one,
  All-update_where, All-weaken, AtMostOne, AtMostOne-update_where, AtMostOne-append_one, any_row,
  any_row-All-false, select, select-update_where, select-append_one, All-unique_found, arith, subst,
}
use bingwa.Domain.Customer.{AgentCustomer}
use bingwa.Store.{Env, Database, World}
use bingwa.Customer.Repository.{has_id, with_row, created}
use bingwa.Customer.Keeping.{Keeps}
use bingwa.Customer.Calls.{CustomerCall, run, run-keeps}
use bingwa.Customer.Validity.{inserted_row}

-- The customers of the other agents.
abbrev pub others : ℕ → List AgentCustomer → List AgentCustomer
others agent = select λ c. not (c.agent_identity_id == agent)

abbrev pub with_id : ℕ → AgentCustomer → Bool
with_id k c = c.id == k

live_unique : (k : ℕ) (xs : List AgentCustomer) → AtMostOne (with_id k) xs → AtMostOne (has_id k) xs
live_unique k [] u = tt
live_unique k (x ∷ xs) u = (λ e. no_live xs (u.0 (ground arith)), live_unique k xs u.1)
  where
    no_live :
        (ys : List AgentCustomer) → any_row (with_id k) ys ≡ false → any_row (has_id k) ys ≡ false
    no_live [] h = refl
    no_live (y ∷ ys) h = ground (arith, no_live ys)

fresh : (n : ℕ) (xs : List AgentCustomer) → All (λ c. c.id < n) xs → any_row (with_id n) xs ≡ false
fresh n xs h =
    any_row-All-false (with_id n) xs
      (All-weaken (λ c. c.id < n) (λ c. with_id n c ≡ false) xs (λ c l. ground arith) h)

module _ {F : Type 0} where
  -- No id stands twice, and the sequence is ahead of all of them.
  pub record IdsValid (d : Database F) : Type 0 where
    pub unique : (k : ℕ) → AtMostOne (with_id k) d.customers
    pub ahead : All (λ c. c.id < d.next_id) d.customers

  module _ (agent : ℕ) (old : List AgentCustomer) where
    abbrev Kept : Database F → Type 0
    Kept d = (others agent d.customers ≡ old) × IdsValid d

    appended-IdsValid :
        (c : AgentCustomer) (t : ℕ) (d : Database F)
        → IdsValid d
        → IdsValid (with_row (created c d.next_id t) d)
    appended-IdsValid c t d v = record {
      unique = λ k.
          AtMostOne-append_one (with_id k) d.customers (created c d.next_id t)
            (λ e.
              let same : d.next_id ≡ k = ground arith in
              subst (λ n. any_row (with_id n) d.customers ≡ false) same
                (fresh d.next_id d.customers v.ahead))
            (v.unique k);
      ahead =
          All-append_one (λ c. c.id < d.next_id + 1) d.customers (created c d.next_id t)
            (All-weaken (λ x. x.id < d.next_id) (λ x. x.id < d.next_id + 1) d.customers
              (λ x l. omega arith) v.ahead)
            (omega arith);
    }

    Kept-Keeps : Keeps agent Kept
    Kept-Keeps = record {
      insert = λ c t d d' row mine fine e h.
          let (is_row, is_db, free) = inserted_row c t d d' row e in
          let theirs : others agent (d.customers ++ created c d.next_id t ∷ [])
              ≡ others agent d.customers =
            select-append_one (λ x. not (x.agent_identity_id == agent)) d.customers
              (created c d.next_id t) (ground arith) in
          rw is_db (rw is_row (theirs ∙ h.0, appended-IdsValid c t d h.1));
      write = λ k c f d e mine edit h. (
        select-update_where (λ x. not (x.agent_identity_id == agent)) (has_id k) f d.customers
              (λ x. rw (edit.same_agent x) refl)
              (All-unique_found (λ x. not (x.agent_identity_id == agent) ≡ false) (has_id k)
                d.customers c (live_unique k d.customers (h.1.unique k)) e (ground arith))
            ∙ h.0,
        record {
          unique = λ j.
              AtMostOne-update_where (with_id j) (has_id k) f d.customers
                (λ x. rw (edit.same_id x) refl) (h.1.unique j);
          ahead =
              All-update_where (λ x. x.id < d.next_id) (has_id k) f d.customers
                (λ x hit l. rw (edit.same_id x) l) h.1.ahead;
        },
      );
    }

  -- Where no id of a customer stands twice and the sequence of ids is ahead of all of them, no
  -- sequence of the calls of an agent adds, changes or removes a customer of another agent, whatever
  -- statement fails on the way.
  pub run-others :
      ⦃env : Env⦄ (agent : ℕ) (cs : List CustomerCall) (w : World F)
      → IdsValid w.db
      → others agent (run agent cs w).db.customers ≡ others agent w.db.customers
  run-others agent cs w v =
      (run-keeps agent (Kept agent (others agent w.db.customers))
        (Kept-Keeps agent (others agent w.db.customers)) cs w (refl, v)).0
