-- ===== src/Lib.antt =====
-- AshCoin: a small proof-of-work block chain and its node, as far as the code under src/ is its own logic.
--
-- The parts, bottom up, and how they interact:
--
-- Base: shared names, Boolean tests, lists measured by the native numbers, texts as byte lists with
--   the decimal output of unsigned numbers, signed integers, maps, and what a computation
--   that may fail gives.
-- External: what the program calls and does not implement, as a parameter `External J`: arithmetic of
--   doubles (a double is its bit pattern), the primitives of Crypto++, Boost's hash_combine and
--   iequals, nlohmann's json values (`J`), with `IsJson` for the laws that nlohmann documents, and
--   which sizes of a string and of a vector of blocks can be made (`string_fits`, `blocks_fit`).
-- CryptoUtils: src/CryptoUtils.cpp, the address of a private key and Base58Encode.
-- Tx: src/Transactions.h and .cpp. TxOutPoint, TxIn, TxOut and Transaction are records with the
--   source's members; Tx.Json holds to_json and from_json, Tx.Result the codes of TxResult.
-- Block: src/Block.h and .cpp. CalculateBlockHash is `hash_of` and `calculate_block_hash`, ValidHash
--   is `valid_hash`, and the constructor is `new_block` at a time.
-- Chain: src/Blockchain.h and .cpp. The record `Chain` has the blocks and the queue of transactions.
--   Chain has addNewBlock, isValidChain, cumDifficulty and getAdjustedDifficulty; Chain.Queue has the
--   queue and createUnminedBlock; Chain.Unspent has GetUnspentTxOuts, whose std::set is a list that
--   rises in the hash of the points; Chain.Create has CreateTransaction; Chain.Lookup has
--   FindTransaction, GetBlockDetails and the ledgers; Chain.Json the json values.
-- Database: src/ChainDatabase.h and .cpp. Database.Bytes has write_data and read_data on bytes,
--   Database.Codec the records, Database.Load the file and the operations on it.
-- Miner: src/Miner.h. mineBlock is `mine_block`; the clock, the flag _keepTrying as other threads
--   leave it and the callback are a `Schedule`, by the nonce of the round. Its outcomes are the two
--   results, a failed assertion, `threw` where no string has the difficulty as its size, and fuel that
--   is used up.
-- App: src/MinerApp.h and .cpp. The record `App` has the members of MinerApp that change; App has
--   syncBlockchain, App.Mining one round of runMineThread and broadcastNewBlock, App.Messages the
--   messages between nodes: dispatchRequest, handleResponse, handleChainResponse and the callback of
--   initWebSocket.
-- Peers: src/PeerManager.h and .cpp. The peers are a map from names to PeerData; what happens to
--   them is the step relation `Step`, one callback at a time, and `Reaches` is what can come of a
--   file. Peers.Threads has the threads of PeerManager, from connectAll to the destructor, and
--   Peers.Reconnect the timer of ReconnectWorker; how late the timer fires and how long it takes to set
--   it are part of a firing.
-- Settings: src/Settings.h and .cpp, and the Boolean texts of src/AshUtils.cpp. The classes of
--   validators are one data type; boost's lexical_cast and iequals are the parameter `Lexical`.
--   Peers.Proxy is ConnectionProxy, the text that goes out on a connection.
-- Settings.Registered: src/main.cpp, `registerSettings` and `initSettings`, the settings of this
--   program.
-- Problem: src/ProblemDetails.h, what a request that fails is answered with. Utils: the helpers of
--   src/AshUtils.cpp that do not ask the platform. ComputerId: src/ComputerID.h,
--   ComputerIDPosix.cpp and ComputerIDWindows.cpp, and ComputerId.Mac the network interfaces of
--   ComputerIDMac.cpp.
-- Settings.Types: the types of the settings, which the value functions ask for.
-- Chain.Create.Filled: CreateTransaction and GetBlockDetails together. Chain.Create.Settled: a
--   payment from CreateTransaction through the queue and the miner to the chain.
-- App.Rest and App.Pages: the handlers of src/MinerApp.cpp, `initWebService`, `initRestService` and
--   `initHttp`. A `Node` is the App with what the requests see of the mining thread; a `Reply` is
--   what is written and the node behind it, or none where the handler throws. App.Rest.Views has the
--   requests that read, App.Rest.Create the ones that make payments and wallets, App.Rest.Control
--   the ones that start and stop (what the mining thread does until it is
--   joined is an argument of the one that stops it), and App.Rest.Serve all of them as one data type,
--   `Request`.
-- App.Start: `MinerApp::run` with the constructor and `initPeers`, on what the settings say and the
--   file has.
-- App.Runs: the node over its time. `Step` is one message, one request, or one round of the mining
--   thread, and `Reaches` what any sequence of them leads to.
-- App.Messages.CatchUp and App.Messages.Wire: two nodes, one asking and one answering, and the texts
--   that go between them. Database.Load.Store: the store of blocks that the file stands for.
-- Database.Takes: what the readers take off a stream of bytes, and Database.Load.Whole files of
--   bytes that anyone may have written. App.Start.AnyFile is a node that starts on such a file.
-- Entry: src/main.cpp, `main` and `initializeLogs`, from the command line to the node.
-- Chain.Chained, App.Chained and the modules Chained below Messages, Rounds and Runs: the links
--   between the blocks, through addNewBlock, syncBlockchain, the messages and the rounds of mining.
-- Examples: concrete instances of the parameters, and runs of the theorems.
--
-- The state is passed on explicitly, and each operation is a function. `Option` is used where the code
-- may throw, fail an assertion or be undefined: those are `none`. The build is the debug build that
-- README.md describes: assertions are on, the interval is 10 blocks and the time span 60 seconds.
-- Numbers of 64 bits wrap where the code adds, written as a remainder, and so does the index of 32 bits
-- in isValidChain.
--
-- Fuel: `initialize` reads the file with as much fuel as the file has bytes, which is enough since each
-- block takes bytes, also one that the file ends within; isValidChain goes round as often as the chain
-- has blocks; `base58_loop` has the number itself as fuel, `decimal` twenty digits, which is all
-- that 64 bits take; `mine_block` takes fuel as an argument and says when it is used up, since the code
-- need not end, and so does `get_uuid_mac`. The runs of a node and of the calls of the file follow a
-- relation or a list, and the scan of a decimal number follows its text.
--
-- Not modelled: memory that runs out, but for the sizes that a peer can choose, a difficulty and an index
-- (`string_fits`, `blocks_fit`); the HTTP and WebSocket servers themselves, with the patterns that choose
-- a handler and the headers of a reply (a handler is called with its matched text, and returns the status
-- and the body); threads and locks (a callback, a request or a round is one step, and what the other threads do
-- while a block is mined is a parameter; Peers.Threads has which threads are started and joined); the
-- lines that are logged; the parser of the command line; and the folders of the system and the browser,
-- which src/AshUtils.cpp asks the platform for. What GeneratePrivateKey returns is an argument of the
-- handlers.
pub mod Base
pub mod External
pub mod CryptoUtils
pub mod Tx
pub mod Block
pub mod Chain
pub mod Database
pub mod Miner
pub mod App
pub mod Problem
pub mod Utils
pub mod ComputerId
pub mod Entry
pub mod Settings
pub mod Peers
pub mod Examples
