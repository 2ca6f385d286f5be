-- ===== src/Lib.antt =====
-- A model of cachecore, a group cache written in Go: bounded local caches, consistent hashing,
-- shared loads, a filter gate and groups on top of them, with theorems about each part.
--
-- The parts, and where they are modelled (paths from the repository's root):
--   Go          what the code uses of Go and its libraries: `int64` as words with wrap-around,
--               strings as lists of bytes, maps as association lists, container/list, FNV-1a and
--               CRC-32, strconv and strings.TrimSpace
--   Expiry      the interface Value and expiry times, shared by internal/lru/lru.go and slru.go
--   Lru         internal/lru/lru.go: New, Get, AddWithTTL, Add, Remove, RemoveOldest,
--               RemoveExpired, Len
--   Slru        internal/lru/slru.go: the same methods of the segmented cache, with promote,
--               enforceProtectedLimit, enforceTotalLimit and removeElement
--   Bloom       bloomfilter/bloomfilter.go: New, Add, Contains, Reset, indexes
--   Ring        internal/consistenthash/consistenthash.go: New, Add, Remove, Get
--   Singleflight  internal/singleflight/singleflight.go: Do, DoChan, completeCall as a step relation
--   View        byteview.go
--   Store       cache.go: the cache of views over an LRU or SLRU cache, and increments
--   Shards      sharded.go, increment_locks.go, and newConfiguredCache and normalizedShardCount of
--               groupcache_config.go
--   Filter      groupcache_filter.go: the gate with its warmup and refresh
--   Errors      the errors of groupcache_config.go and groupcache.go, with their texts
--   Metrics     stats.go: the counters of groups, the windows of latencies, sampling, snapshots,
--               and the rounds of the logger
--   Janitor     groupcache_maintenance.go: NewJanitor and Stop
--   Group       groupcache.go: Get and its load (Reads), Increment, Invalidate, RegisterPeers
--               (Writes), what a group keeps (State); Warmup and the loops of
--               groupcache_maintenance.go (Maintenance)
--   Config      groupcache_config.go: the options, NewGroup, GetGroup
--   Http        http.go: HTTPPool (Pool), httpGetter and the broadcast (Client), ServeHTTP (Handler)
--   Server      cmd/cache-server: text and addresses (Text), values (Backend), options and peers
--               (Setup), the handler of the API (Api), the filter of the tests (Noop)
--   Tests       runs of the code, and each theorem at concrete inputs
--
-- How they interact: a group keeps its values in a cache that has the methods of `Group.CacheOps`,
-- counts in `Metrics` and asks a gate of `Filter`, which works on any filter with the methods of
-- `Filter.FilterOps`, the Bloom filter among them. The caches of `Store` hold an LRU or SLRU cache
-- each; `Shards` routes a key to one of them. A group asks the pool of `Http` for the owner of a
-- key, and the client of `Http` calls the handler of another node, over a transport that is a function
-- from an endpoint and a body to an answer; `Config` makes groups, and `Server` wires all of it up.
--
-- Conventions. A state is a record, and a method a function from state to state. The locks make a
-- method one step, but in `Singleflight`, where a step is one critical section and every
-- interleaving is a sequence of steps. The clock, random numbers and what peers, getters and
-- backends answer are arguments; one reading of the clock serves where a group writes to two
-- caches in a row. How a Get goes on after a miss is an argument too, `Group.Reads.Course`: where its
-- wait for the load ends first, the load is a step of `load_fn` of its own. Callbacks of evictions append to a log. Elements of the linked lists carry a
-- number in place of their address. The float64 ratio of the SLRU cache is the interface
-- `Slru.Ratio`. A new SLRU or LRU cache allocates element numbers in order, so that a moved entry
-- of the SLRU cache has a new one, as the code makes a new element.
--
-- Fuel. The eviction loop of `Lru.add_with_ttl` runs on one round for each entry and one to leave
-- it, and `none` means that they were used up: with a limit that is not negative they are enough,
-- which the theorems on `Lru.Shrink.shrink` show. The loops of `Slru` end with their lists and run on
-- their lengths. `Ring.search_loop` halves an interval and runs on its length. `digits` of
-- `Go.Strconv` runs on the number itself, and `trim` of `Go.Numbers` on the length of the string.
--
-- Not modelled: the library of protobuf and internal/groupcachepb/pb.pb.go, which is generated: the
-- messages are records, and their encoding is a parameter, `Http.Messages.ProtoOps`. The network
-- is a parameter too, with what net/http makes of a reply in `Http.Wire.deliver`. Of
-- cmd/cache-server, the flags, the seeding of Redis, the listeners and the JSON of /debug/stats. The
-- tickers, whose rounds are functions; the text of logs. A panic is a result where the code raises
-- one (`Config.Groups.Attempt`, `none` of `Group.Writes.register_peers`) and `none` where it would call a
-- getter that is `nil`. `strings.ToLower` lowers the letters of ASCII.
pub mod Base
pub mod Go
pub mod Errors
pub mod Expiry
pub mod Lru
pub mod Slru
pub mod Bloom
pub mod Ring
pub mod Singleflight
pub mod View
pub mod Store
pub mod Shards
pub mod Filter
pub mod Metrics
pub mod Group
pub mod Http
pub mod Janitor
pub mod Config
pub mod Server
pub mod Tests
