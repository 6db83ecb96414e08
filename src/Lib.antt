-- ===== src/Lib.antt =====
-- Orders of a pick-up point: a model of the Go program under hw-1/, and theorems about it.
--
-- The program keeps orders, their history, returns, users and an outbox of audit records in PostgreSQL. Two
-- servers, HTTP (hw-1/internal/server/server.go) and gRPC (hw-1/internal/grpcserver/server.go), call the
-- methods of one storage (hw-1/internal/storage/filestorage.go). A method that writes runs one transaction
-- through the repositories (hw-1/internal/repository/postgresql) and then updates a cache of active orders
-- (hw-1/internal/cache/order_cache.go). A publisher (hw-1/internal/kafka/publisher.go) reads the outbox and
-- sends each record to a message broker. hw-1/cmd/main.go starts all of them.
--
-- How the files correspond to the program:
--   * Base and its children: Boolean tests, texts, lists, dictionaries, sorting; no code of the program.
--   * Errors, Repository: Go errors; the structs of hw-1/internal/repository/structs.go and
--     outbox_task.go.
--   * World: the state that is passed along (committed tables, the working copy of the open transaction,
--     the cache, what the broker has received, the metrics), and the environment: the answer of the
--     database server to the n-th call, the order in which it reads the returns, the clock, new
--     identifiers, the signals of a select, bcrypt, parsers of dates and numbers. A Go function with an
--     error result is an action: it returns a value or an error with a state.
--   * Postgres: hw-1/internal/db/database.go (exec, query, begin_tx, commit, rollback). Its children
--     Orders, Returns, Outbox and Users are the repositories order.go, return.go with history.go,
--     outbox_task.go and user.go with hw-1/internal/db/InitAdmin.go, each statement a function on the
--     tables of hw-1/migrations. Frozen, Ensures and Done are rules about statements: what they leave
--     alone and what they establish; Lists and Outbox.Selection say what the queries select. Client is
--     hw-1/internal/db/client.go, which finds the environment file and makes the connection string.
--   * Cache: order_cache.go (get, set, delete, load_initial_data).
--   * Packager: hw-1/internal/storage/packager.go; Packager.Kinds has its laws.
--   * Storage: hw-1/internal/storage/types.go, createAuditPayload and the deferred end of a transaction
--     (close_tx). Orders has AddOrder, GetOrder, UpdateOrderStatus, DeleteOrder and AddReturn; Bulk has
--     IssueOrders and AcceptReturns, with processOrder as issue_one and processReturn as accept_one;
--     Queries has the methods that read lists; Calls makes one type of the methods that write. The other
--     children prove: Frozen and Rollback what an error leaves; Tracked, History, Durable and Invariants
--     the history; Rows, Committed, Coherence, Sync, Reading and Actives the cache; Moves the statuses;
--     Logged and Audit the outbox; Silent a refused commit; Bulk.Results, Bulk.Sound and Bulk.Audited the
--     results of a batch, most of them by Bulk.Rule, the rule for every way in which a batch can end,
--     Bulk.Exact which orders a batch changes. Book is the abstract order book that the methods refine:
--     Serving says when the database serves every call, Contract has the refinement. Updates lists what a
--     method still does to the cache after its commit; Races is the storage under requests side by side;
--     its children Seen and Past are about what a reading can return then.
--   * Kafka: Publisher is producer.go with processBatch, processSingleTask and Run of publisher.go;
--     Delivery and Stranded are about their ends, Marked about the first loop, Stuck and Rounds about
--     tasks that are PROCESSING. Lifecycle is the machine of Run, Shutdown, the wait group and the last
--     lines of main, Lifecycle.Ending what every end has waited for. A call under a context that is done
--     is refused.
--   * Rest and Grpc: the handlers of the two servers, by children Orders, Lists and Bulk. Rest.Routes has
--     the patterns of the ServeMux, Rest.Lifecycle the start and the end of the HTTP server, Grpc.Methods
--     the gRPC service as one function of a request. Rest.Access, Rest.Deletion, Rest.Refusals,
--     Rest.Results and Rest.Lifecycle.Ending have their laws.
--   * Consumer: hw-1/cmd/consumer/main.go, the second program, which prints what the broker has.
--   * System: the program as a whole. Boot is main up to the start of the servers, Steps the steps of the
--     running program: a whole HTTP request, a whole gRPC call, or one part of a round of the publisher.
--     Views, Http, Rpc and Publisher say what each kind of step keeps, Safe puts them together for the
--     orders, their history and the cache, Active for what the cache holds, Agreement compares the two
--     servers.
--   * Tests: a concrete environment and runs of the program in it.
--
-- Conventions: a time is its nanoseconds since Go's zero time; an int is its 64-bit pattern, an int32 and a
-- float32 their 32-bit patterns; a UUID is a number and uuid.Nil is 0; the JSON of an audit record is the
-- struct it encodes. Every loop is a recursion on a list, so no fuel is needed, except the endless loops of
-- Run and of the consumer, which take a number of rounds; the machines of the two Lifecycles take a list of
-- events.
--
-- Not modelled: transactions are serial, so FOR UPDATE plays no part; outside Storage.Races requests run one
-- after the other, with the transactions and messages of the publisher between them; in Storage.Races the
-- updates of the cache that a bulk method makes after its commit come in one go. Nor are the listener and the
-- end of the gRPC server and the redirects of ServeMux for a path that is not clean; logging; the response
-- writer and the struct for audits in hw-1/internal/server, which nothing uses; generated code.
pub mod Base
pub mod Errors
pub mod Repository
pub mod World
pub mod Postgres
pub mod Cache
pub mod Packager
pub mod Storage
pub mod Kafka
pub mod Rest
pub mod Grpc
pub mod Consumer
pub mod System
pub mod Tests
