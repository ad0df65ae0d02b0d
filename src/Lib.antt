-- ===== src/Lib.antt =====
-- The Go program of fm-demo/go-scripts and the two Substrate pallets of the repository. The program
-- loads the settings of Ethereum networks, derives wallets from private keys, sends transactions
-- and waits for them, deploys and funds the contracts of a Chainlink price feed, and configures
-- Chainlink nodes over HTTP.
--
-- The parts, from the bottom up, each with its files:
--   Config     fm-demo/go-scripts/config/config.go. The map of networks holds pointers, so a
--              `Heap` is the list of the records that they point to, and a pointer is an index.
--              `Config.Loading` is on `NewWithPath`.
--   Trim       `strings.TrimSpace`, which the wallets apply to every key. `Trim.Laws`.
--   Wallets    fm-demo/go-scripts/client/blockchain.go: `Wallets`, `newEthereumWallets`.
--              `Wallets.Index` is on the index test, `Wallets.Loading` on the wallets of keys.
--   Network    fm-demo/go-scripts/client/blockchain.go: `EthereumNetwork`, which reads its record
--              on the heap at each use. `Network.Keys` goes from the file to the wallets.
--   Ethereum   fm-demo/go-scripts/client/ethereum.go: the client's state (`Defs`),
--              `WaitForTransaction` (`Wait`, with `Loop`, `Result`, `Confirmed` and `Progress`),
--              `TransactionCallMessage` and `TransactionOpts` (`Messages`), `SendTransaction` and
--              `DeployContract` (`Sending`, with `Signed` and `Settled`). `Frame`: what keeps the
--              network records.
--   Bindings   the generated files fm-demo/go-scripts/contracts/ethereum/*.go: what they do alike
--              (`Bound`), how a contract or a part of it is bound (`Parts`), the methods that the
--              contracts use (`LinkToken`, `Aggregators`, `Store`), and the LINK token's event
--              iterators (`Events`) and watchers (`Watch`). `Flux` and `Offchain` are the other
--              methods and all events of FluxAggregator.go and OffchainAggregator.go.
--   Contracts  fm-demo/go-scripts/contracts/ethereum_contracts.go and contract_models.go beside
--              it: `fund` (`Defs`, `Funding`), the deployments (`Deployments`) and the methods
--              (`Methods`).
--   Chainlink  fm-demo/go-scripts/client/chainlink.go, chainlink_models.go beside it, and
--              fm-demo/go-scripts/main.go: the models, `doRaw` and `do` (`Requests`), the login
--              (`Session`), the calls (`Endpoints`), the command (`Main`).
--   RequestPallet  pallet-chainlink/src/lib.rs, a Substrate pallet in Rust: its storage
--              (`Runtime`), its calls and `on_finalize` (`Calls`), histories of them (`Moves`),
--              and what is proved of them (`Initiation`, `Answers`, `Expiry`, `Invariant`,
--              `Fees`).
--   FeedPallet  pallet-chainlink-feed/src/lib.rs and utils.rs beside it, a Substrate pallet in
--              Rust: its storage (`Types`), what a call is (`Effects`), `median` (`Median`), the
--              methods of `Feed` (`Feed`), `submit` in its parts (`Submit`), the other calls
--              (`Feeds`, `Funds`, `Owners`), what other pallets read (`Interface`), and the
--              genesis (`Genesis`). `Calls` has the calls as data, and histories of the chain. What is
--              proved stands in `Median.Bounds`, `Submit.Once` with `Submit.Statuses`,
--              `Submit.Payment`, `Submit.Safety`, `Feeds.Pruning`, `Funds.Accounts`,
--              `Owners.Handover` and the modules of `Calls`.
--   Prelude, Errors, Program, Crypto, Node: shared names and tactics, the errors, the effects, and
--              the libraries as parameters.
--   Tests      the fixtures and the theorems at concrete inputs.
--
-- Contracts deploys and calls through Bindings and sends through Ethereum, which reads the settings
-- of its Network on the heap that Config has filled; Wallets gives the senders. Chainlink stands
-- apart, and so do RequestPallet and FeedPallet, which run on a chain. A function of the source has
-- its name in lower case with underscores. A call ends in an `Outcome` of Program: with its
-- results, with an error, in a panic, or not at all while it waits on a channel. Errors are the
-- constructors of Errors, and an error of foreign code is one of them. A method that changes the
-- program's state passes it on in `State`: the world outside, the heap of network records, and what
-- the coming selects receive.
--
-- Parameters, since their code is elsewhere: `Crypto` (keys and addresses), `Node` (ethclient,
-- types and the signer of go-ethereum, over a world that every call may change), `Bind` (abi and
-- bind of go-ethereum), `Filterer` (its logs), `Web` (net/http and encoding/json), `Viper` (the
-- settings reader), the compiled contracts, and `RequestPallet.Runtime.Config` and
-- `FeedPallet.Types.Config` (the currency, the callbacks and the constants of a runtime). Nothing
-- is assumed of them but what a theorem's hypotheses say.
--
-- Only the loop of `FeedPallet.Feeds.set_pruning_window` needs fuel. The loop of
-- `WaitForTransaction` goes through the list of what its selects receive, and is `blocked` where
-- the list ends while it waits; the selects of an event iterator or a watcher take the cases of a
-- list in the same way. All other loops go through a list of the source. An `int` of the source is
-- an unbounded integer, as is the count of confirmations; a uint64 sum wraps at 2 ^ 64, and the
-- conversion to int64 is written out.
--
-- In RequestPallet an `AccountId` is a number, since it is only compared, a request's identifier
-- wraps at 2 ^ 64 and a block number at the runtime's `block_modulus`, and a storage map is the
-- list of its entries. A dispatched callback may change the whole storage. A call that fails keeps
-- what it has written, as in the source, which has no transactional calls.
--
-- In FeedPallet the storage maps are functions, accounts, feeds and values are unsigned numbers,
-- and the last ones of the runtime's number types are parameters; a round's number is of 32 bits. A
-- feed object is the configuration that a call passes on, and its drop is a last step of the call.
-- The loop of `set_pruning_window` takes as fuel the number of rounds in the window, which is
-- enough since every step takes one away. `latest_data` is the one of a release build, without the
-- assertion.
--
-- Left out: logging, contexts, how long a timer takes, the session and raw types in the generated
-- files, the Solidity sources, the pallets' weights, scripts and pages.
pub mod Prelude
pub mod Errors
pub mod Program
pub mod Config
pub mod Crypto
pub mod Trim
pub mod Wallets
pub mod Network
pub mod Node
pub mod RequestPallet
pub mod FeedPallet
pub mod Ethereum
pub mod Bindings
pub mod Contracts
pub mod Chainlink
pub mod Tests
