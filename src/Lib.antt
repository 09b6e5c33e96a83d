-- ===== src/Lib.antt =====
-- Betpulse's backend: limits, promo codes, the model registry, sessions, pushes, ingestion, data
-- quality and backtests.
--
-- The backend (backend/app) sells access to match predictions. Its services keep their state in
-- PostgreSQL tables and in Redis keys, and this library models the services whose state machines
-- decide who gets what. A table is a list of rows, a transaction a function from tables to tables,
-- and an exception a constructor of a result type. Calls of Redis go through a record of commands
-- with their documented laws (Redis/Core, and Redis/Hashes for hashes), which Redis/Fake and
-- Redis/FakeHashes fill with a server in memory.
--
-- Parts and files. Counters is services/counters.py: each Lua script is one step on the server;
-- Counters/Effect says what a step does to its keys. Limits (services/limits.py, with the calendar
-- arithmetic in Clock) and RateLimit (services/rate_limit.py) call Counters. Promo is
-- services/promo.py with models/promo.py: Model holds the tables, Codes the text of a code, Batch
-- generate_batch and kill_batch, Redeem redeem and _apply_effect with the request of api/promo.py
-- around it. Registry is ml/registry.py and services/model_admin.py: Model the tables, Champion
-- snapshots, demotion, the transfer of the title and rollback, Selection apply_champion_selection,
-- Admin the operations of an administrator. Auth is services/auth.py with services/twofa.py and
-- parts of services/user_admin.py: Login authenticate and its lockout, Tokens the refresh tokens,
-- Rotate _rotate_locked and _try_replay, Replay services/refresh_replay.py, Account the other
-- operations. ClientIp is core/client_ip.py, the address of a client behind proxies, with Hops on
-- its header. Tiers is the assignment and resolution of tiers in services/user_admin.py; its
-- children Cache, Config and Resolve are services/tiers.py with update_tier of api/admin.py. Push
-- is the dispatch of services/live/push.py with services/push/follows.py, and Push/Telegram
-- services/push/telegram_link.py. Ingest is services/ingestion with providers/id_mapping.py and
-- core/seasons.py: Seasons the labels of seasons, Mapping the teams and leagues of the sources,
-- Fixtures, Quotes, Reconcile, Steps and Records the records of a source (ingest_records), Runner
-- and Pairs the recorded runs of runner.py, each pair in a transaction of its own. Quality is
-- services/data_quality.py, the report on the tables that the ingestion writes: Model its issues
-- and rows, Checks the fixtures and the pairs of them, Quotes the odds, Coverage the seasons,
-- Report build_report; Reference says what its errors stand for. Live is services/live: Ingestion
-- poll_live on the same tables, Recompute recompute_fixture and replay_since. Backtest is
-- services/backtester: Population the store of features, Engine and Run the replay of a strategy.
-- Ml is ml/chronology.py and ml/odds_selection.py, which the walks over past fixtures use. A
-- function keeps the name it has in Python, without a leading underscore. The other files prove;
-- the files whose names end in Tests hold runs at concrete inputs.
--
-- Interleavings. A Redis script and a committed transaction are one step each. A redemption's reads
-- are apart from its guarded UPDATE, so events in Promo/Slots may carry rows that were read long
-- ago. The advisory locks of token families and of the registry make the operations under them one
-- step; for the administrator's writes an argument says whether the lock was granted. A dispatch of
-- pushes and an ingestion run one after the other; what ends a pair of a recorded ingestion with an
-- error is rolled back, what precedes it stays. A caller who misses the cache of tiers may store
-- the row that it read in a later step, and a change of a tier invalidates the cache in a step
-- before its commit. Between the events of a day's budget whole seconds pass, which age the keys.
--
-- Bounds and fuel. Numbers are unbounded; instants are microseconds in natural numbers, so a
-- difference of instants stops at 0, which is the order in which the clocks run. Identifiers,
-- hashes and texts that are only compared are numbers; a stored score is the 32-bit word of its
-- Integer column, which the data report reads as signed; the text of a promo code is its list of
-- code points, upper-cased and filtered as ASCII. The one loop without a bound of its own, the
-- drawing of promo codes, runs over the list of its draws, and gives none when these run out.
-- Floats and Decimals are the parameters Numbers (Registry) and Floats (Live), with an order on the
-- finite ones where a theorem needs it; prices and gains of Backtest are whole thousandths, and its
-- rounded quotients are parameters.
--
-- Not modelled: password hashing, HMAC, TOTP and encryption, which are parameters; the contents of
-- audit events beyond action and actor; access tokens; numerics of the prediction models; the CSV
-- parser, the texts of the data report, the publication of live updates, the clients of Telegram
-- and Web Push, and language models; HTTP routing, providers, migrations and the frontend.
pub mod Prelude
pub mod Redis
pub mod Counters
pub mod Clock
pub mod ClientIp
pub mod Limits
pub mod RateLimit
pub mod Promo
pub mod Push
pub mod Tiers
pub mod Ingest
pub mod Ml
pub mod Quality
pub mod Live
pub mod Backtest
pub mod Registry
pub mod Auth
