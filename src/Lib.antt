-- ===== src/Lib.antt =====
-- Verification of the investment platform: the ledger of transactions, the portfolio that is
-- reconstructed from it, its exposures and risk, and the governance of investment proposals.
--
-- The parts and how they interact. Commands enter the ledger (apps/api/app/ledger) as transactions.
-- The portfolio engine (apps/api/app/portfolio) replays the transactions of a fund up to a cutoff
-- into cash, positions and warnings. Prices come from providers (apps/api/app/market_data), and
-- valuation (apps/api/app/valuation) puts the positions at the latest quotes. A valued portfolio
-- has exposures by sector, asset class and geography (apps/api/app/exposures), statistics of its
-- returns (apps/api/app/analytics) and of its risk, and a policy judges them as metrics against
-- thresholds (apps/api/app/risk), before and after a scenario (apps/api/app/scenarios). Analysts
-- draw up proposals, which managers and advisors review and decide on the evidence of a risk
-- evaluation (apps/api/app/governance).
--
-- Ledger/: `validate_transaction` (ledger/validation.py) in Validation, `TransactionRepository` and
--   the rows in Store, `TransactionService.create` in Service.
-- Portfolio/: `PortfolioEngine` (portfolio/engine.py): Validation, Effects (what one transaction
--   does), Engine (the loop and the output), and what holds of it in Replay, Holdings and Cash.
-- Snapshots/: how SnapshotService (snapshots/service.py) reads the ledger's rows as the engine's
--   transactions.
-- MarketData/: `MarketDataService` (market_data/service.py): the tables and queries in Store,
--   `_ingest_one` in Service, `ingest` in Ingestion, `latest_quote` in Quotes.
-- Valuation/: `ValuationEngine.value` in Engine and `RealizedPnlEngine.calculate` in Realized
--   (valuation/engine.py); Kept and Reversals are what the loop keeps of a sale and what a reversal
--   takes back.
-- Exposures/: `ExposureEngine.calculate` (exposures/engine.py).
-- Analytics/: `AnalyticsEngine` (analytics/engine.py) in Engine, on the functions in Statistics;
--   Growth and Drawdowns are what holds of its returns and drawdowns.
-- Risk/: `PolicyEngine.evaluate` and the metrics (risk/policy.py) in Policy, `RiskEngine.calculate`
--   (risk/engine.py) in Engine, `RiskPolicyService` (risk/service.py) in Service.
-- Scenarios/: `BeforeAfterEngine` (scenarios/comparison.py) in Comparison.
-- Governance/: `AuthorizationService.require` in Authorization (what it rests on in Grants and
--   Approval); of `ProposalService` (governance/service.py) `_validate_content` in Content, hashes
--   and clear analyses in Evidence, the shared helpers in Workflow, the operations of authors in
--   Drafting and of reviewers in Deciding. `LiquidityEngine` (governance/liquidity.py) in
--   Liquidity. Lifecycle is the workflow as a machine of its own, with the proof that the
--   operations run it.
-- Number is `Decimal`, as an interface with the laws that a theorem names: the comparisons
--   (IsOrdered), exact sums (IsExact, which leaves aside the rounding of sums beyond 28 digits),
--   and the signs that rounding keeps (IsRounded). Int has two instances for the examples, whole
--   numbers and hundredths. Clock is `datetime`. Dict is a dict, and Prelude holds the shared
--   names.
--
-- State and errors. A service's session is a record of tables, passed on from call to call; a call
-- returns a value and a new store, or the exception that it raises, as a constructor of the
-- component's error type. A call that raises returns no store: the services mostly check before
-- they write, and an ingestion of prices that raises midway leaves the rows that it has flushed in
-- the session, for its caller to roll back, which the model leaves out. Identifiers are numbers: a
-- UUID is read as its 128 bits, whose order is that of its text. `uuid4` is a counter or an
-- argument; `datetime.now` is an argument. Texts are lists of code points. The SHA-256 of a
-- canonical JSON text is a parameter, a function of what goes into the text,
-- and so is the rounding of a NUMERIC column where rows of an evaluation are stored.
--
-- Every loop of the source runs over a list, and is a structural recursion: there is no fuel.
--
-- Not modelled: the HTTP shell, the configuration, the migrations and fixtures, and the parts that the
-- manifest lists as such.
pub mod Prelude
pub mod Number
pub mod Int
pub mod Clock
pub mod Dict
pub mod Ledger
pub mod Portfolio
pub mod Analytics
pub mod Exposures
pub mod Snapshots
pub mod Risk
pub mod MarketData
pub mod Valuation
pub mod Scenarios
pub mod Governance
