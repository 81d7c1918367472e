-- ===== src/Lib.antt =====
-- Bingwa: an API server for agents who resell airtime offers. This library models its billing
-- core: campaigns, plans, subscriptions, the offers and their USSD codes, customers, transactions and
-- schedules.
--
-- The parts, and where they are modelled. Paths are from the repository's root.
--   * Prelude: names of the libraries, Boolean tests, texts as bytes, tables as lists of rows.
--   * Float64: Go's float64 as an interface, the laws that the theorems on prices use (`IsIeee`),
--     and a number type with four decimals that has them.
--   * Domain: the structs of internal/domain/{campaign,subscription,offer,customer,transaction,
--     schedule}. A nullable column and a pointer are an Option, an enumeration of texts is a data
--     type, a time is a number.
--   * Store: errors (internal/pkg/errors), the database with its one open transaction, and the
--     actions of the services as functions from a world to a result and a world. `Env` is what the
--     program does not decide: which statement fails, what the clock shows, what pgx returns for
--     no row, how a wait for a row lock ends, and where the read of a list breaks off: the loops on
--     rows.Next() do not look at rows.Err(), so that such a read (`query_rows`) gives the rows
--     before that and no error. Store/Triples has the rules for pre- and
--     postconditions; Store/Reads, Store/Locks, Store/Constraints and Store/Transactions have
--     those for reads, for rows that may be locked, for tables with constraints, and for
--     transactions; Store/Bodies, Store/Statements and Store/Staged those for the statements
--     inside a transaction. Store/Schema is what the tables of internal/db/migrations/svc_init.sql
--     admit, where the services write more than that.
--   * Campaign: internal/service/campaign/campaign.go over
--     internal/repository/postgres/promotional_campaign_repo.go. Repository has one function for
--     each statement (Create is `create`, IncrementUses is `increment_uses`), Discount the pure
--     functions (CalculateDiscount is `calculate_discount`), Service the operations
--     (ValidateCampaign is `validate_campaign`).
--   * Subscription: internal/service/subscription/subscription_service.go over
--     internal/repository/postgres/agent_subscription_repo.go. Repository has the statements,
--     Pricing the promotional codes and periods, Entities the values that are built, Usage the
--     counts, Service the operations (CreateSubscription is `create_subscription`).
--   * Plan: internal/service/subscription_plans/subscription_plans.go over
--     internal/repository/postgres/subscription_plans.go.
--   * Offer: internal/service/offer/offers.go over
--     internal/repository/postgres/{agent_offers_repo,offer_ussd_code_repo}.go. For the offers
--     themselves Table has the statements, Terms the validation, codes, labels and prices,
--     Management the operations (CreateOffer is `create_offer`). For their USSD codes Repository
--     has the statements, Codes the operations (AddUSSDCode is `add_ussd_code`), each with the
--     work it does once the offer is found to be the agent's as a function of its own. Templates
--     is internal/service/offer/ussd_code_gen.go: the loop over the map of replacements goes
--     through its keys in an order that the environment gives.
--   * Customer: internal/service/customer/customer.go over
--     internal/repository/postgres/agent_customer_repo.go, with the validation of phone numbers in
--     Phone. Calls has the calls that write, in sequence.
--   * Transaction: internal/service/transaction/transaction_service.go over
--     internal/repository/postgres/{offer_request_repo,offer_redemption_repo}.go. Entities has
--     what is built, Service the operations (CreateOfferRequest is `create_offer_request`).
--   * Schedule: internal/service/schedule/schedule_service.go over
--     internal/repository/postgres/{scheduled_offer_repo,scheduled_offer_history_repo}.go.
--   * Examples: a small database, on which the results below are tried.
--
-- How the parts interact: the subscription service reads and counts campaigns in the campaigns'
-- repository; transactions and schedules look up offers, create customers and take the USSD code
-- from the services of those, and transactions ask the subscription service for access. Services
-- share nothing but the database. A call is a sequence of statements, each of which may fail;
-- nothing else runs between the statements of one call. A statement of the pool commits by itself.
-- A statement of a transaction is kept apart until the commit, and locks the row of
-- agent_subscriptions that it updates; a statement of the pool on that row then waits until it is
-- timed out or the request's context ends. In a sequence of calls each has a context of its own.
--
-- Bounds: the loop of generateCampaignCode makes five attempts, and those of
-- generateCustomerReference and generateOfferCode too, in the code and in the model; all other
-- loops are over lists. Counts and ids are natural numbers: the columns are INT and BIGINT, and an
-- update that overflows one is among the statements that fail. Texts are bytes, and upper case is
-- that of ASCII. Columns keep numbers as they are given, without the rounding of NUMERIC(10, 2).
--
-- Not modelled: handlers, routing, logging, e-mail and WebSockets, which are input and output
-- around the services; authentication and sessions; configurations and notifications; the
-- lists and the statistics, which only read. Calls of several requests at once are not
-- interleaved.
pub mod Prelude
pub mod Float64
pub mod Domain
pub mod Store
pub mod Campaign
pub mod Subscription
pub mod Offer
pub mod Plan
pub mod Customer
pub mod Transaction
pub mod Schedule
pub mod Examples
