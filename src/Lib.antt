-- ===== src/Lib.antt =====
-- Verification library for Arbibot 2, an arbitrage platform of services over one database.
--
-- The centre is apps/execution-orchestrator: it takes a plan from `planned` over `reserved` and `armed`
-- to `executing`, sends the legs of the plan to venues, and ends the plan as `completed` or `failed`.
-- It meets risk-service and capital-service over HTTP (their answers are arguments of the definitions
-- here), and other services through rows of outbox_events. Around it, each over tables of its own:
-- apps/risk-service decides about a plan, apps/opportunity-service learns of the decision through the
-- outbox, apps/capital-service reserves the amount, and apps/portfolio-service adds up confirmed fills.
-- apps/paper-trading-service keeps trades that are never sent, with virtual capital of their own.
--
-- Which file models which part:
--   Base        tests, lists, texts, tables under a text key, integers
--   Json        the jsonb columns, and the reads that the services make of them
--   Store       the rows of packages/persistence (Types), the exceptions (Outcome), and a service
--               method as a function of the world with transactions that roll back (Exec)
--   Plans       plans/plans.service.ts: the checks against risk-service and capital-service (Guards),
--               create, linkReservation, arm, tryMarkPlanCompletedWhenAllLegsFilled and markFailed
--               (Lifecycle), with theorems in Linking, Completion and Failing
--   Legs        legs/legs.service.ts: the playbook config (Playbook), the pre-trade cost gate (Cost),
--               beginExecution (Begin), markSent with execution/on-chain-transaction.service.ts and
--               execution/dex-outbox-events.service.ts (Send), markAcknowledged and applyFill (Fill);
--               what each transaction does in Effects and BeginEffects, theorems in Beginning, Replay and
--               Sending
--   Reaper      legs/stuck-plan-reaper.worker.ts
--   Interleaving  every transaction above as an atomic action, and histories of actions: the moves of
--               a leg (Moves), what every history keeps (Closure, Keys, Txs, Announcements), the moves of a
--               plan (PlanMoves), and theorems in Invariants, PlanInvariants, Broadcast, Recovery and
--               FilledOnce
--   Capital     apps/capital-service/src/capital/capital.service.ts: reserve, getById and release
--               (Reservations), with theorems in Ceiling, Retry and Uniqueness; the ceiling of
--               capital-limits.service.ts (Limits), with its effect on reserve in Gate; and
--               capital-reservation-sweeper.worker.ts with its theorems (Sweeper)
--   PaperTrading  apps/paper-trading-service/src/paper: paper-capital.service.ts (Reserving),
--               paper-trades.service.ts (Trades, Trading), and the drafts that auto-drive.worker.ts saves
--               as canceled by itself (AutoDrive); what its transactions change in Changes, sums over
--               the reservations in Weights, and theorems over histories in Histories, with Booked and
--               Bookings, and Settled
--   Portfolio   apps/portfolio-service/src/positions: the addition of decimal texts in
--               add-decimal-string.ts (Decimal), with the digits (Digits), the printing (Format), the sums
--               (Sum), and the texts that it takes (Grammar, Normal); confirmFill and close of positions.service.ts (Positions), with theorems in
--               Deliveries and Close
--   Messaging   packages/messaging/src: outbox-poll.ts and inbox.ts, with lemmas on a fetched row (Polling)
--   OpportunityRelay  apps/opportunity-service/src/outbox-relay.service.ts; what a round does in Rounds
--               and Claims, theorems in Draining, Delivery and Once
--   Risk        apps/risk-service/src/risk: risk.policy.ts with policy/adaptive-risk.service.ts (Policy), and
--               reserveRiskWindow and evaluateRisk of risk.service.ts (Evaluate), with theorems in Limits,
--               Replay and Windows
--   Examples    runs at concrete rows
--
-- A method is a function `World -> Reply`: the value or the exception, and the world it leaves. The
-- tables are lists of rows in order of insertion; a row lock makes a transaction one atomic action, so
-- concurrency is a list of actions in any order, and a method of several transactions takes as an
-- argument what others commit in between. The recursions are structural, but
-- for two loops of add-decimal-string.ts, which have fuel: n rounds write the digits of n, since each
-- divides by ten, and scale + 1 rounds pad to more digits than the scale.
--
-- Quantities and amounts are natural numbers in a fixed small unit (the code has floating point, which
-- it compares, copies and, for amounts, rounds). Times are milliseconds. Log lines, metrics, the text
-- of exceptions and the payloads of audit calls are not modelled, nor is the envelope of an event
-- beyond its correlation id: it repeats columns of the row.
--
-- Not modelled: apps/web, whose logic is display; the adapters of venues, bridges and wallets in
-- apps/execution-orchestrator/src/execution, whose answers are arguments here; the workers that drive
-- legs, settle fills and promote paper trades by themselves (but for the drafts above), and the services for configuration, audit,
-- market data, scanning and reconciliation, which keep tables of their own; and the packages that only
-- wire a service to Nest, TypeORM or Kafka.
pub mod Base
pub mod Json
pub mod Store
pub mod Plans
pub mod Legs
pub mod Reaper
pub mod Capital
pub mod PaperTrading
pub mod Portfolio
pub mod Messaging
pub mod OpportunityRelay
pub mod Risk
pub mod Interleaving
pub mod Examples
