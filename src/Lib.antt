-- ===== src/Lib.antt =====
-- GeoProxy: a proxy that sends each request to a node of a pool, chosen by region, unlocked
-- services and session. This library models how a request's user name becomes a node:
--   auth/dsl.go parses the user name into a route (region, unlocks, node pin, session);
--   selector/selector.go and selector/unlock_filter.go choose a node for the route, and keep the
--     session on its node;
--   affinity/store.go stores the bindings of sessions to nodes and the cooldowns of the nodes.
-- auth/credentials.go checks passwords; config/api_key.go and webui/api_key_middleware.go admit
-- the requests of the read-only interface, by key and within a rate. The selector asks the node
-- database (storage/) through an interface, and calls the affinity store.
--
-- Files. Common and its children are helpers: tests, lists, integers, keys, Go maps as association
-- lists. GoText holds what the code uses of Go's strings, strconv, unicode/utf8 and
-- encoding/base64. Storage has the columns of a node that the selector reads, Storage/Table the rest
-- of the row, the subscriptions, and the statements of SQL that storage/ uses (update_where,
-- delete_where, count_rows). Storage/Regions and Storage/Lookup model storage/regions.go,
-- Storage/Identity, Storage/Probes and Storage/Updates storage/proxy_updates.go, Storage/Manual
-- storage/manual.go and storage/proxy_methods.go, Storage/Subscriptions storage/subscriptions.go:
-- each method is a function on the tables, its reply first. Storage/NodeApi models
-- storage/node_api_query.go, whose loop over batches runs on fuel, Storage/Counts the counts of
-- storage/proxy_counts.go and storage/regions.go, and Storage/Queries the lists of
-- storage/proxy_queries.go, with the choices that are drawn from them. Storage/History has the histories of
-- writes, Storage/Sound the invariant of the tables, and Selector/Database the tables as the node
-- store of the selector. Auth and Auth/Parser model
-- auth/dsl.go, function by function (parse_username is ParseUsername, split_value is splitValue
-- and so on); a Go panic is a result of its own. Affinity models affinity/store.go: `Store` has
-- the maps bindings, reverse and cooldown with the ttl and the clock's reading, and each method is
-- a function on it (count_by_proxy is CountByProxy with countByProxyLocked). Affinity/Consistency,
-- Loops, Occupancy, Sticky, Sweeping, Unseen, Questions, Alike, Cooldowns and View hold what is
-- proved of it, Affinity/History the histories of calls, and Affinity/Collector the goroutine of
-- StartGC with the calls of Stop, as steps in any order. Selector has the small tests of selector/selector.go
-- and the unlock filter, Selector/Hash the FNV hash, Selector/Score the rendezvous choice,
-- Selector/Pick PickUnlock and pickForSession, Selector/Resolve Resolve. Each step of Resolve that
-- looks at a result has a function by clauses (first_look, second_look, rebind, bind_picked).
-- Auth/Credentials models auth/credentials.go, ApiKeys config/api_key.go and the key search,
-- ApiKeys/Limiter the token buckets, ApiKeys/Middleware the middleware, whose `Response` is what
-- the client is told or `served`. Sessions has the label of webui/sessions.go. Examples applies
-- the theorems to concrete data.
--
-- Bounds. Instants are nanoseconds as natural numbers, durations are integers; the saturation of
-- time.Sub and the overflow of durations are not modelled. The 64-bit hash wraps at 2 ^ 64. The
-- buffer of sessionFNVWriteInt64 has 20 digits, which is enough for the digits of every int64. The
-- decoder of UTF-8 runs on as many steps as the text has bytes, and takes a byte or more in each. The
-- loop over batches of nodes has one step more than there are nodes, and reads a batch of 2000 in each
-- step but the last.
--
-- SQL. A statement, and a transaction, runs at one instant (the database has one connection). The
-- tables are lists of rows; rows that the order of a query does not tell apart come in the order of
-- the list. The
-- engine's own errors are left out: they leave the tables as they were. A counter of IDs leaves no
-- gaps. The score of abuse, a REAL that is only stored and compared, is a whole number, and LIKE
-- compares bytes.
--
-- Parameters. Go's float64 with math.Log (record Float64), the Unicode tables above 127 and
-- json.Unmarshal (record Runtime), rand.Intn, SHA-256, the random identifiers of keys, and the
-- node store (record NodeStore), whose queries promise what `Lawful` says where a theorem needs
-- it.
--
-- Not modelled. An operation of the affinity store runs under its mutex and is one step, at one
-- reading of the clock; the first-bind lock is left out, and a tick of the collecting goroutine is
-- a call of collectExpired in a history. A loop over a Go map runs in the order of the list that
-- stands for it, and the theorems hold of every such list. The servers (proxy/, webui/), the
-- reports and the migrations of the database (storage/), the subscriptions (custom/), the probes
-- (validator/, checker/) and the rest of the configuration (config/) are network, file or process
-- I/O around this core.
pub mod Common
pub mod GoText
pub mod Storage
pub mod Auth
pub mod Affinity
pub mod Selector
pub mod ApiKeys
pub mod Sessions
pub mod Examples
