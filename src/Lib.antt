-- ===== src/Lib.antt =====
-- Verification of the Conduit relay: the Nostr relay congee and the Conduit relay built beside it.
--
-- Each client connection of congee (congee/internal/relay) authenticates (nip42.go), asks for events
-- with filters (nip01.go, congee/internal/nostr/filter.go), publishes events that validators accept or
-- refuse (nip17.go, nip29.go), and is limited in its rates (limiter.go) and in the number of
-- connections from its address (ip_conn_tracker.go). What a connection receives passes a test of
-- visibility (nip29.go, eventVisibleToSubscription), which reads the connection's authenticated keys
-- and the groups' metadata from the store. The models of these parts use each other in the same way.
--
-- Files:
-- - Base and Base/*: Boolean tests, equality classes, lists, integers over the native numbers with the
--   wrap-around of int64, texts as lists of character codes, and Go maps as association lists.
-- - Nostr/Event, Nostr/Kinds, Nostr/Filter: congee/internal/nostr/event.go, kinds.go and filter.go,
--   with filtersMatch of congee/internal/relay/subscription.go. Nostr/Filter/Accepts describes
--   apart from the code what a filter asks.
-- - Nostr/Groups: congee/internal/nostr/nip29.go; Nostr/Groups/HTag is about the one group that a
--   valid event names.
-- - Relay/Config: the settings of congee/internal/config that the handlers read.
-- - Relay/Auth: congee/internal/relay/nip42.go; Handler is about the AUTH message, Skew about the age of
--   its event, Once about the challenges over a whole connection.
-- - Relay/GiftWrap: congee/internal/relay/nip17.go; Recipient describes the recipient of a gift wrap,
--   Request is about what a REQ may ask for.
-- - Relay/Groups: congee/internal/relay/nip29.go; Visible is about reading, Writes about the validators.
-- - Relay/Limiter: congee/internal/relay/limiter.go; Window holds the loop over the entries and the load of
--   a window, Events and Bytes the runs of the two limiters, Peers the windows of the addresses.
-- - Relay/IpConns: congee/internal/relay/ip_conn_tracker.go, with the runs of the server that uses it.
-- - Relay/Req: congee/internal/relay/req_query.go; Keys is about the map of a page, Page about one merge,
--   Pages about all the fetches of a REQ.
-- - Relay/Subs and Relay/Subs/Broadcast: congee/internal/relay/subscription.go; Bounds is about the
--   operations on the maps, Sending about what sending leaves alone, Runs about every sequence of
--   operations. Add and Remove are add_sub and remove_sub.
-- - Relay/NegSessions: congee/internal/relay/neg_sessions.go; Count is about the shared counter.
-- - Relay/Events: the EVENT handler of congee/internal/relay/nip01.go (handleEVENT), with hooks.go, middleware.go and
--   the queue of a connection (handler.go); Acknowledged is about events that are sent again, Replies
--   and Room about the replies and the room they need, Stored about the tables of Store as its store.
-- - Store: congee/internal/storage/sqlevent/store.go, with the rows of storage/models.go and the limit of
--   storage/filter_sql_limit.go; Coordinates is about the invariant of the tables, Newest about the
--   rows of a coordinate after a save, Where about the conditions of SQL, Newer about the
--   order of the results. Store/GroupQueries: the group queries of the same file.
-- - Nostr/Order: the order newest first, then lowest id.
-- - Conduit: the package conduitl2 of the repository's root, which adds product queries and gift-wrap protection to
--   a relay of the library khatru. Its events are those of Nostr/Event, its filters are `Query`.
-- - Conduit/Float: float64 by its bits. Conduit/Options, Conduit/Plan, Conduit/Products: scope2.go.
--   Options/Bounds is about the limit of a query, Plan/Print about the format of a search. Products/Store
--   holds the map of the products, Compare their order, Evaluate the answers and the hooks; Latest and Agree are about
--   the product that is kept under an address, Policy, Sorted and Answers about the answer under another
--   order, Currency about the price policy, Deleted about tombstones, Slice, Pages and Complete about paging.
-- - Conduit/GiftWrap: giftwrap.go; Registry is about the registry of authenticated connections, Delivery about
--   who receives a gift wrap.
-- - Conduit/Sync: sync.go; Incoming is about incoming events, Backfill holds the loop over the windows, Ends and
--   Covered are about its end and about the requests that it makes.
-- - Examples: the theorems at concrete inputs.
--
-- A function of the source is a function of the same name in snake case. A handler that changes a
-- connection takes its state and returns the new one. An error is a constructor of a data type, and nil is
-- none. int64 sums and differences wrap around (sub64, neg64); other ints are integers. Loops are
-- recursion on the list they walk, so no fuel is needed, except that the eviction of stale addresses has
-- the 64 rounds of the source.
--
-- A statement of SQL is its effect on lists of rows; that a transaction is atomic, that the primary key of
-- events refuses a second row with an id, and that the tags of a deleted row go with it are part of that
-- effect. A broadcast takes the lock for each delivery, so a delivery is a step of its own, and the runs of
-- the manager contain every interleaving.
--
-- The slice expression at the end of evaluate panics when its end is before its start; `Outcome` has a
-- constructor for it. slices.SortFunc is an insertion sort: of products that the comparator tells apart there is
-- only one sorted list. A client's loop over the pages has fuel, and the number of products is enough.
-- The backfill has rounds for every nanosecond of the time and of the first window, since each round either moves
-- on or halves the window. Times are nanoseconds since 1970.
--
-- Parameters: `Library` of Conduit (fiatjaf.com/nostr, base64, JSON, numbers and letter case of Go), `Host` of Conduit/Sync (the relay, the pool and the state file), the signature check (btcec), the normal form of a URL (net/url), strings.EqualFold, the random
-- bytes of a challenge, the present time, the answers of the store, which may be failures, the answers of a
-- connection's queue to what is offered to it, and the JSON of tags and messages.
--
-- An operation is one step: the registry of authenticated connections stays as it is while one query is answered, the
-- backfill and the live subscription are steps one after the other, and whether a backfill is cancelled is asked
-- of the host before each window.
--
-- Not modelled: errors of the database driver and of transactions in SaveEvent, the registry of product states by function pointer, the files and connections of sync.go, JSON and WebSocket input and output, locks (each operation is one step), plugins, metrics,
-- logs, migrations and SQL drivers, the admin API, and the library khatru.
pub mod Base
pub mod Nostr
pub mod Relay
pub mod Store
pub mod Conduit
mod Examples
