-- ===== src/Lib.antt =====
-- Meridian, an on-chain index-fund platform: a TypeScript backend (backend/src) that prices baskets of
-- tokenized stocks, plans the transactions of their vaults and runs keepers, and a client library
-- (packages/sdk/src). This library models the decisions of both, and proves what they promise.
--
-- The parts and how they interact.
-- A source of prices is read by an adapter; the router walks the sources in a fixed order, or fuses all
-- that are healthy, and gives every reading a market status and an estimate mark. The NAV engine takes
-- its figures from the on-chain fair-value engine, or from the router's readings, or from a
-- demonstration. The plan builder asks which actions a vault offers to an account, and turns a request
-- into the steps that a wallet signs and sends: the approvals that are missing, then the call. The
-- client checks the plan before it sends a step, and aggregates prices by itself. The keepers settle
-- queues and record observations, on a schedule; a job deploys and wires the queue by which a vault is
-- settled in cash. The indexer reads the chain's logs, a range of blocks at a time, into the tables that
-- the keepers and the API read.
--
-- The files and the code.
--   Base          shared names, Boolean tests, lists by native numbers, text, `Result` for calls that throw
--   Oracle        backend/src/domain/oracle.ts, market-status.ts; Oracle/Wire: domain/wire.ts
--   Signals       backend/src/signals: Status (market-status.service.ts), Calendar (market-calendar.ts),
--                 Fusion (fusion.ts), Adapters (chainlink-feed, pyth, chainlink-data-streams and the three
--                 files of adapters/), Router (signal-router.ts)
--   Nav           backend/src/nav: Band (confidence.service.ts), Onchain (onchain-nav.reader.ts), Engine
--                 (nav-engine.service.ts, basket-source.ts)
--   Tx            backend/src/tx: Summaries (summaries.ts), Approvals (actions/approvals.ts), Mint with
--                 Quote and Permit (actions/mint.ts), Recipe (registry-recipe.ts, keeper-escrow.ts), Claims
--                 with Registry (actions/registry-claims.ts), Actions (actions/redeem.ts, forward.ts,
--                 keeper.ts, curator.ts), Auction (actions/auction.ts), Deploy (actions/deploy.ts, faucet.ts);
--                 Guard: packages/sdk/src/tx-guard.ts
--   Plan          Availability (backend/src/api/availability.service.ts), Assembly and Builder
--                 (backend/src/tx/tx-plan.builder.ts and tx-simulator.ts), Controller (tx.controller.ts)
--   Safety        packages/sdk/src/price-safety.ts
--   Keeper        backend/src/keeper: keeper.types.ts, rebalance.service.ts, forward-ap.provider.ts and
--                 idempotency.ts in the root, Settle (settle.service.ts), Forward
--                 (forward-settle.service.ts), Record (forward-record.service.ts)
--   Indexer       backend/src/indexer: the events and tables in the root, Repository (indexer.repository.ts),
--                 Reader (ViemChainLogReader of indexer.service.ts), Tick (IndexerService of indexer.service.ts)
--   Enable        backend/src/api/forward-enable.params.ts; Handler and Jobs:
--                 backend/src/jobs/forward-enable.handler.ts with contracts/forward-enable.writer.ts;
--                 Request: backend/src/api/forward-enable.service.ts, forward-enable-auth.service.ts and
--                 forward-enable.controller.ts
-- A definition has the name of the function it models, in lower case (`getReading` is `get_reading`); a
-- method's body that is cut into several definitions is named for its part (`gate`, `attempt`, `walk`).
-- The children that hold no code prove what the file above them is for, and each part's Examples applies
-- the theorems to concrete inputs.
--
-- How the code is modelled.
-- A `bigint` of the code is a uint256 of the chain or a sum of them, never negative, and is a native
-- number. Where the code subtracts, its tests put the larger number first; an age that would be below 0
-- is 0, which no threshold tells apart. A decimal text of a request or of the database is the number it
-- spells. An exponent of Pyth is signed. Addresses, identifiers and hashes are texts, compared as the
-- code compares them, with `toLowerCase` where the code calls it. Calldata is kept as the interface,
-- function and arguments that the encoder of viem is given. A rejected call is `err` with its message
-- and a call's answer is an argument of the model, so that a theorem speaks of every answer; a function
-- that awaits several calls takes them in the code's order.
-- What is outside the repository is a parameter: viem with its recovery of a signer, the policies of
-- cockatiel around an adapter, the Merkle tree of OpenZeppelin, the conversion of a date by
-- Intl.DateTimeFormat, the sines of the demonstration's drift. What a theorem needs of them is a
-- hypothesis of it. A writer's call of the enabling job that throws may have taken effect on the chain,
-- as the answers of the run say. In the keepers and the enabling job the database answers every read and
-- write. In the indexer a row that names a vault without a basket is rejected by the foreign key, and
-- whatever a tick wrote before an error stays; the readers of new baskets, of lifecycles, of payouts and
-- of activity are answers of `ChainLogReader`.
-- The loops run down a list. Two are bounded by a number: the printing of a number by its own size plus
-- one, as a number has no more digits than that, and the capping of depths by the twenty passes of the
-- code.
--
-- What is not modelled, and why.
-- The preview of a deployment, the services behind the API, the decoding in the client library and the
-- reducer of the application's create wizard have logic of their own, and are outside this library. The
-- routing of HTTP, the readers and writers of contracts, persistence, configuration, streams and logging
-- are calls of libraries. Prisma's client and the contracts' ABIs are generated. The contracts in
-- blockchain are Solidity; the ledgers that the theorems on plans use are ERC-20's and ERC-6909's
-- documented behaviour. The components of the application are presentation.
pub mod Base
pub mod Oracle
pub mod Plan
pub mod Signals
pub mod Nav
pub mod Tx
pub mod Safety
pub mod Keeper
pub mod Enable
pub mod Indexer
