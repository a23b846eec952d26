-- ===== src/Lib.antt =====
-- A model of nekoq-bootstrap: a bootstrap service for a small data centre, with a registry of
-- services, a name server and a key-value store. It is a shallow embedding of the Go code: a struct
-- is a record, a handler is a function from a state to a state and an outcome, and an outcome is a
-- value, an error or a panic.
--
-- The parts and how they interact.
--   storage.mem.go keeps the services that this node publishes, the copies of the services of its
--   peers, the changes that its peers have not fetched, and static domains. endpoint.http.go lets
--   clients publish and query services. core.ha.go and core.ha.peertalk.go keep the copies: a worker
--   for each peer fetches everything once, then changes, and starts again after an error; the other
--   side keeps changes for the peers that it hears from. internal/dnscore answers DNS questions from
--   that store, from the records of internal/dnsdyn, or from an upstream server, with a cache before
--   all of them. internal/service/solestorage.go is a key-value store that writes to the log of
--   internal/wal/wal.go before it writes to disk (internal/storage), and recovers by replaying the
--   log. RESP and HTTP handlers serve it, client/http.go calls it, and internal/replication with
--   internal/service/spskv.go ships its log to other nodes.
--
-- The files.
--   Base: Boolean tests, byte texts, lists, maps, outcomes, and operations on a state (Io).
--   MemStore/Model, Services, Peers, Domains: storage.mem.go. MemStore/Addresses, PeerData,
--   Pending, Convergence, Copying, Rounds, History, Resync, SameDomains, Resolve: what is proved of
--   it. MemStore/PlainJson: an encoding for examples.
--   Wal/Names, Page, Disk, Write, Order, Read, Replay: internal/wal/wal.go. Wal/PageRoundTrip,
--   NamesRoundTrip, NamesOrder, Bounds, Chunks, ReplayPages, Durable, Stuck, EmptyFile, Scanning,
--   Resume, Files, Rotation, WholeLog, Listing, ReplayLog, Recovering, WholeReplay: what is proved
--   of it; from Files on, over all the files of a log.
--   Kv/Storage: internal/storage. Kv/Sole: internal/service/solestorage.go. Kv/Resp:
--   internal/service/respservice*.go. Kv/Http, HttpServer: internal/service/httpservice.go,
--   internal/httpserver/http.go and client/http.go. Kv/Shelf and PlainRouter: a store and a router
--   for examples. Kv/Recovery, Durability, PutHistory, CrashRecovery, WholeRecovery, HttpRoundTrip,
--   EndToEnd, Commands: what is proved of them.
--   Replication/Standby: internal/replication/simpleps.go. Replication/Protocol:
--   internal/replication/communication.go and internal/service/spskv.go. Replication/Client: the
--   client of communication.go. Replication/PeerWorker: the worker of simpleps.go.
--   Replication/Service: the start of spskv.go. Replication/Reachable, NeverReady, Commands, Puts:
--   what is proved of them.
--   Ha/Module, Worker, Net: core.ha.go and core.ha.peertalk.go. Ha/Endpoint: endpoint.http.go.
--   Ha/Late, Watching, Following, Expiry, Routes, Calls, Joining, KeepingUp, Session, Recovering:
--   what is proved of them. Ha/Session and Recovering run a worker against the node that it
--   follows.
--   Dns/Message, Cache, Upstream, Handlers, Server: internal/dnscore. Dns/Dynamic, DynamicStore:
--   internal/dnsdyn and reverse names. Dns/Http and its Dns/Base64:
--   internal/dnscore/service.httpdns.go. Dns/CacheKey, Caching, DynamicRecords, Deliveries,
--   Enclosing, Serving, Base64RoundTrip, HttpServing: what is proved of them.
--   Start/Boot: cmd/nekoq-bootstrap/main.go. Start/Rules, Serving: what is proved of it.
--   A function keeps the name of its Go function in snake case. A Tests module holds examples.
--
-- Representation. A Go map is an association list, and the order of its entries is the order in which
--   a range loop meets them, so what holds of every list holds of every order. A nil map that a write
--   would panic on is `none`. A Go string is its bytes. Numbers are natural numbers; where the code
--   computes in 16 or 32 bits the wrap-around is written out, and the counters of the log stay far
--   below 64 bits. A lock is held through each operation, so an operation is one step.
--
-- Fuel. `write_pages` runs on the length of the entry, which is enough as soon as a page holds a byte
--   (Wal.Chunks). `each_page` runs on one more than the length of the content, which is enough as soon as
--   a page has a byte (Wal.ReplayPages). `ship_attempts` counts the three attempts of the code.
--
-- Parameters. github.com/miekg/dns (`DnsLib`, `Packing`), github.com/peterbourgon/diskv (`Diskv`),
--   github.com/fxamacker/cbor (`Cbor`, `PeerCbor`), encoding/json at the types that cross the wire
--   (`Json`, `Wire`), net/url (`UrlLib`), github.com/meidoworks/nekoq-component (`ConfigClient`),
--   github.com/redis/go-redis (`exchange`), github.com/go-resty/resty (`Send`), what httprouter
--   answers to other requests, httprouter itself (`Router`), and the calls of the operating system,
--   whose answers are a list.
--
-- Not modelled: traces and logs, listening sockets, the goroutines that the start of the program
--   makes, and the times at which background loops run.

pub mod Base
pub mod MemStore
pub mod Wal
pub mod Kv
pub mod Replication
pub mod Ha
pub mod Dns
pub mod Start
