-- ===== src/Lib.antt =====
-- MetaSo P2P: an indexer of on-chain protocols. This library models the two replays of the program:
-- that of metatask pins (internal/metatask), which decides who holds a node of a task, which
-- submissions are verified and who is paid what, and that of Agentpedia pins
-- (internal/agentpedia), which decides what the entries of an encyclopedia say, who may write them
-- and how disputes end. Around them it models the loops of the indexer, the store with the cache
-- over it, the presence that federated nodes share, and the encoding of addresses.
--
-- Prelude holds what the modules share: tests into Bool, lists, integers with the wrap-around of
-- int64, strings as their bytes, maps as association lists and the stable sort. Metatask/Json is
-- a decoded payload and its accessors (v121.go: strAny, numAny; payload.go). Metatask/Event is
-- ChainEvent and sortChainEvents; Metatask/Votes the vote pre-pass with v121GateReason,
-- rosterGroupsFor and sameSide. Metatask/Walk is runWalk: Walk/State its walkState, Walk/Locks
-- the cases claim and release, Walk/Submissions the case submission, Walk/Run the case verify and
-- the loop, Walk/Expiry applyExpiry. Metatask/Shares is the settlement: weights, sigma,
-- accuracies and shares. Metatask/Amend is foldAmends. Metatask/Challenges is openChallenges.
-- Metatask/Pools is settle.go, the v1.2.0 settlement: its main view, in Pools/Guard its guard view,
-- in Pools/Report its vote tables.
--
-- Agentpedia is internal/agentpedia/replay.go: Agentpedia/Value the payloads, Agentpedia/State the
-- records of replayState and Agentpedia/Store what is read and changed through its maps and
-- pointers; Agentpedia/Access tierOf, checkRevGates and countRev, Agentpedia/Draw ArbiterDraw;
-- Agentpedia/Editors applyEditor, with the target of an endorsement in Editors/Target;
-- Agentpedia/Reviews entryKeyOfRev, applyReview and applyChallenge; Agentpedia/Rulings applyRuling
-- and applyParamProposal, Agentpedia/Expiry closeExpired and applyOutcome; Agentpedia/Revisions
-- applyRev, with what it does to a record in Agentpedia/Versions; Agentpedia/Replay apply and Replay, with the view in Replay/Projection. An event takes
-- a state to a state, or to none where the code panics. The records of entries stand in a store
-- of their own, since two keys may share one.
--
-- Storage is internal/storage/pebble.go over a database of Pebble, the parameter of
-- Storage/Pebble: Storage/Keys the bounds of ranges, Storage/Store the operations. Cache is
-- internal/cache/cache.go over that store and an LRU, the parameter of Cache/Lru. Federation is
-- internal/federation/store.go: Federation/Store the peers and their snapshots, Federation/Merge
-- their merge and the statistics, Federation/Pages the pages of the list. Indexer is
-- internal/indexer/engine.go: Indexer/Blocks the block loop, Indexer/Mempool what the mempool poll
-- has seen. IdAddress is pkg/idaddress, the encoding of chain addresses as GlobalMetaIds. The
-- modules below these prove; those called Examples run the code.
--
-- The parts interact as in the code: the pre-pass gives the walk its ballots by pin, the walk
-- gives cycles, and the settlement reads the active cycles, the ballots and the participants. A
-- cache reads and writes one namespace of the store.
--
-- Loops over a list or a map are recursion on it. The way up from a node of a tree has fuel for
-- two more steps than the tree has nodes; the loop of remove_node over descendants has the fuel
-- it is given; a conversion of bits has as many rounds as bits; a scan of blocks has as many
-- rounds as the range has heights; the digits of a day have a round more than its number. A map
-- that the code iterates in any order is iterated in the order of its entries, but in Agentpedia,
-- where the orders of the loops that look for one record or change several are arguments, one for
-- each event. A pointer to a shared object, such as an open database, is the entry of
-- the map that holds it, which a write replaces.
--
-- A float64 of Agentpedia is an exact fraction: what the rounding of a quotient or a sum changes is
-- not seen. An int64 there wraps around in sums and products; the conversion of a float64 that no
-- int64 holds, which Go leaves to the implementation, gives the least int64, as it does on amd64.
-- The largest capacity that `make` serves is a parameter of the replay; memory is not modelled.
--
-- Not modelled: JSON decoding (encoding/json), hashes and canonical bytes, final verification
-- over dependencies, and decoding of ids, and the rest of the repository, which is
-- mostly storage, network and chain access. Locks, goroutines, tickers and clocks are left out: an
-- operation is one step, and the time is an argument. Base58, SHA-256, Pebble, the LRU of the cache
-- and strings.TrimSpace are parameters, as is what an adapter reads of a block.
pub mod Agentpedia
pub mod Cache
pub mod Federation
pub mod IdAddress
pub mod Indexer
pub mod Metatask
pub mod Prelude
pub mod Storage
