-- ===== src/Lib.antt =====
-- lazy-storage: the core of a store that a server and its clients keep alike.
--
-- A store is a tree of records. Clients change it at once and send their changes, each with a
-- timestamp; the server decides every change by the times in the record's clock, and clients replay
-- what is not acknowledged yet over what the server said. The parts modelled are those that decide:
-- the timestamps, the paths, the merge, the keys that order a list, the store's ops and log, and a
-- client's outbox, base and shown records.
--
-- Which file models what:
--   Base           shared notation: Boolean tests, lists, results that may be errors, maps.
--   Positions      src/core/positions.js. Digits to Keys hold the functions (integerLength and the
--                  counting in Integer, midpoint in Midpoint, assertKey and keyBetween in Keys,
--                  keysBetween in Many, comparePositions in Compare); the other files prove what
--                  they return. A string is a list of character codes, a digit its index.
--   Json           JavaScript values as the code tells them apart, and objects with ordered keys.
--   Paths          src/core/paths.js, and `within` of src/core/compile.js.
--   Compile        src/core/compile.js: a local batch as changes. The others prove.
--   Shape          src/core/shape.js: what a shape that has been built answers.
--   Clock          src/core/clock.js: stamp, observe, adopt, time and clamp. The wall clock's
--                  reading is an argument.
--   Doc            src/core/doc.js. State holds the doc's fields (state, clocks, children,
--                  parentsOfChild, recordAt, journal) and relink; Clocks a record's clock; Remove
--                  subtreeMax and removeRecord; Call to Run the function `run` in blocks, in the
--                  source's order, with the object fields that it merges one by one; Trial trial,
--                  undo and setRecord; Prune newest, latest and prune. The loop over an op's changes
--                  is that of src/server/store.js. The other files prove.
--   Checks         src/core/shape.js: assertValue and assertChange, on changes of the right types;
--                  isForbiddenKey, which asks a library, is a parameter.
--   Rules          src/core/rules.js: `judge`, with the rule functions as parameters.
--   Registry       src/server/registry.js, and isStoreId of src/core/ids.js: the live stores and
--                  their idle clocks. Idle and Reach prove.
--   Store          src/server/store.js. State holds a store's fields and options; Throttle throttle;
--                  Queue commit, commitNow and later; Replicas claimReplica, rememberReplica and
--                  takeReplica; Log the log and deltaSince; Land rowsOf and landed; Compact compact
--                  and maybeCompact; Apply assertOp, sizeOf and apply; Writes patch, del and
--                  run; Session liveOp, catchUp, a hello's ops and its answer; Reach the steps of a
--                  store. The other files prove.
--   Storage        src/server/storage.js: memoryStorage. Mirror proves.
--   Client         src/client/list.js: Longest longestIncreasing; Slots the keys that reconcile writes;
--                  Order sorted, bounds, keyFor, add and move; Wanted reconcile. Fetch is
--                  src/client/snapshot-fetch.js. Pending is the outbox of src/client/index.js, Session
--                  its side of the protocol, from a local batch to what the server says, Shown the
--                  records worked out again, over lazy-watch's proxy as a parameter. The others
--                  prove.
--   Tests          runs on concrete inputs.
--
-- How the parts interact: a replica stamps its ops by its Clock, the server clamps them and hands
-- each change, once it is checked (Checks), to the Doc, which looks at the record's clock by path
-- (Paths) and at the declarations (Shape). Rules are judged within a trial of the Doc. The position
-- of a record in a list is a field that holds a position key. The Store takes an op through its gates
-- (shape, speaker, duplicates, size, Checks, age), has the Rules judge it over the Doc, and puts what
-- landed into its log, into a commit for the storage and into what it tells. The Registry makes stores
-- by id and lets go of those that are idle. A list of the Client orders records by their position keys
-- and makes new ones by keyBetween. What a client wrote is compiled to changes (Compile), which go into
-- its outbox and to the Store as ops; what the Store decided comes back as patches, deltas and
-- snapshots, which the Session puts on the client's base, a Doc.
--
-- Choices. The state of a doc is flat, a record under its record key; a path key is the path itself,
-- where the source has its JSON text. A time that the source gives as -1, null or undefined for none
-- is `none`. Values are immutable, so that the source's clones are the values themselves. Operations
-- that throw return a Result, and what was done before stays done. The walks over a record and what
-- is beneath it (subtreeMax, removeRecord) take fuel: each visit meets a record not met before, which
-- is in the index or in the state, so their sizes bound the visits. keysBetween takes its count as
-- fuel, which falls at each level; longestIncreasing takes the number of its keys, as each step of its
-- walk back goes to a lesser index. Numbers are exact up to 2^53.
--
-- Of the store, the storage is a parameter that takes some commits as one and says whether it saved
-- them, and users are known by their keys. What waits for a timer in the source (the end of a turn's
-- commit) is an operation of its own, commit_now. What is sent to a session waits for a pending commit,
-- as in the source; a session that closes meanwhile is not modelled, so that a message to it counts as
-- told. The rate limit's numbers are doubles, whose arithmetic is a parameter.
--
-- Of the client, a message is in the protocol's form, a snapshot the doc that baseFromState makes of
-- it, a link is one that is there and online, and the timer of retryHello is an event of its own. A
-- hello has the first 1000 ops of the outbox, the source's limit.
--
-- Not modelled: sockets, SQL, browser storage, bindings to user interfaces, the relay (src/relay), of
-- the client its presence and status, what it tells the app, its connection and the writes to its
-- storage (src/client), of the store its loading, its sessions' other messages and presence, the
-- checks of a declaration and of a rules object in src/core/shape.js and src/core/rules.js.
pub mod Base
pub mod Positions
pub mod Json
pub mod Paths
pub mod Shape
pub mod Doc
pub mod Clock
pub mod Rules
pub mod Checks
pub mod Registry
pub mod Store
pub mod Compile
pub mod Storage
pub mod Client
mod Tests
