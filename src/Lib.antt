-- ===== src/Lib.antt =====
-- Verification of the realtime server: collaborative documents over WebSockets.
--
-- Clients talk to the gateway (src/domain/ws). It keeps, for each socket, who its user is and
-- which documents it has open, and hands the messages of a document to the document manager
-- (src/global/yjs), which holds Yjs documents in memory, saves them to Redis and PostgreSQL, and
-- drops them when nobody has them open. The API server reaches this one by HTTP
-- (src/domain/node-content) and by an event bus over Redis (src/domain/event-bus): both append
-- markdown to a document through the same manager, and the gateway tells the clients.
--
-- The files:
--   Env and its children: what the server uses and does not implement (Redis, Prisma, Yjs,
--   Lexical, y-protocols, base64, JSON, the clock, random identifiers), as records of operations
--   that every definition takes as an argument. App adds the codecs of the server's own values,
--   the check of tokens and the hash of a request.
--   Common: the effects of a method (a state that is kept when an error is thrown), strings as
--   lists of code units, a Map and a Set in insertion order, lists over native numbers.
--   Yjs.Exclusive: the queue of operations on a node (runExclusive) with calls that interleave.
--   Yjs.Loading: getOrCreateDoc with calls that interleave. Yjs.FlushAll: flushAll with its
--   workers, which interleave.
--   Yjs.Managed, Yjs.Lifecycle, Yjs.Flush, Yjs.DocManager: src/global/yjs/yjs-doc-manager.ts.
--   Yjs.CrdtService: yjs-crdt.service.ts. Yjs.Markdown: markdown-yjs.ts, with the node classes in
--   Image and File. A flush is in parts: begin runs up to its first await, finish is the rest.
--   Yjs.Timers: the save timers against the documents. Yjs.Stored: what a flush leaves in Redis,
--   and a load that follows.
--   Ws.Event, Ws.State, Ws.Gateway, Ws.YjsHandlers, Ws.Presence: src/domain/ws and the awareness
--   cache. What goes to socket.io is a list of commands in the state. Ws.Delivery says, by the
--   documentation of socket.io, whom the commands reach. Ws.Presence.Table is the view of the
--   presence that its clients have, a table that forgets in which order Redis lists the members.
--   Auth: src/global/auth, the checks of a token that follow its signature.
--   NodeContent: src/domain/node-content. EventBus: src/domain/event-bus. Attachments:
--   src/domain/file-attachment and src/global/upload/s3.service.ts; Attachments.Tables says what
--   the table of attachments is for it, Attachments.Stale and Attachments.Active what the table of
--   files is, and Attachments.Active.Garbage has the sequences of syncs and releases before a
--   collection of garbage, and Yjs.CrdtService.Rows the same of the rows of nodes. Membership,
--   RedisKeys: the files of those names.
--   Js: the values that messages, log lines and answers are made of, and their texts.
--   Http: src/global/common/error, response, context, metrics and logging.interceptor.ts: what is
--   thrown, the answer to it, and the interceptors in the order of src/main.ts, with the
--   controller of NodeContent inside. Http.Faults says what each fault of the services throws.
--   Logs: src/global/common/logging and src/domain/ws/service/ws-log.service.ts.
--   NodeContent.Service.Replies has what the service asks the database for, and what Prisma says
--   of the answers.
--   Transactions: src/global/prisma, the transactions around methods and the log of queries.
--   Ws.Stable: the moves that the handlers are made of; a predicate that these keep is kept by
--   every handler, and by Server.Runs in every run. Ws.Rooms, Ws.Counted and Yjs.Timers hold such
--   predicates.
--   Server: one step for each input of the server, and runs of lists of inputs.
--   Examples: a small world in memory, the runs and the instances of the theorems.
--
-- Bounds: versions and times are natural numbers without a limit, and so are the numbers in
-- messages; times in the logs are whole milliseconds. Every loop is a recursion on a list, so
-- there is no fuel, but for the digits of a number, where the number itself is enough; the workers
-- of flushAll take the turns that a list names, as long as it likes.
--
-- Not modelled: tracing, the connections to Redis and PostgreSQL, the guard and the validation
-- pipe in front of the controller, the transport of the logs, start-up. The handlers of the
-- gateway do not carry the lines of its log with them: Logs.Sockets has the calls on their own.
-- The transaction around a save is an operation of the environment, and Transactions says what a
-- method with @Transactional does with others inside it and which client the queries go to. A
-- flush whose document leaves memory before the save has come back enqueues the job for the editor
-- that the document had at the start of the flush; an edit in between is not seen by it.
-- client.join and the metrics are taken not to throw in handleConnection. A handler runs to its
-- end before the next input is taken, but for flushes, which are also treated in their two parts,
-- and for runExclusive, getOrCreateDoc and flushAll, whose interleavings are modelled with the
-- task, the reading of the stored state, and the flush of one document left abstract.
pub mod Common
pub mod Env
pub mod RedisKeys
pub mod Attachments
pub mod Yjs
pub mod Js
pub mod Http
pub mod Logs
pub mod Transactions
pub mod Membership
pub mod App
pub mod Auth
pub mod Ws
pub mod NodeContent
pub mod EventBus
pub mod Server
pub mod Examples
