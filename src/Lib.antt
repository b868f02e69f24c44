-- ===== src/Lib.antt =====
-- The server core of the S/NC platform: playout of channels, the event bus, access to content,
-- chat, the graph of channels that carry each other, live streams, lists read page by page, and two
-- parts of the HTTP layer.
--
-- Prelude: the helpers of all parts. A table is the list of its rows in storage order; a query is
--   a selection (Prelude.Table), a stable sort and a prefix; Prelude.Table.Laws,
--   Prelude.Table.Order and Prelude.Table.Stable are the lemmas on them. Prelude.Maps is the `Map`
--   of JavaScript.
-- Shared, Events: packages/shared/src/errors.ts, result.ts and events.ts.
-- Playout: apps/api/src/services/playout-queue-transitions.ts (Playout.Transitions), and in
--   apps/api/src/services/playout: pool-scope.ts and content-pool.ts (Playout.Pool), auto-fill.ts
--   (Playout.AutoFill), prefetch.ts (Playout.Prefetch), queue-control.ts and startup.ts
--   (Playout.Control), queue-projections.ts and queue-status.ts (Playout.Status, Playout.Status.Multi);
--   playout-orchestrator.ts is Playout.Handlers, whose `call` is one call of the orchestrator and
--   whose `run` is a server's life as a list of calls. Playout.Store has the tables of
--   apps/api/src/db/schema. A function of the source keeps its name in lower case with underscores:
--   onTrackStarted is `on_track_started`, and so on; a child module has the theorems on its parent.
-- EventBus: apps/api/src/services/event-bus.ts. A Subscription is an object of the class
--   SubscriptionImpl, `next()` calls are numbered, and `resolved` lists what they were answered.
-- Access: apps/api/src/services/content-access.ts and creator-team.ts, apps/api/src/auth/user-roles.ts
--   and the role matrix of packages/shared/src/creator.ts. Access.Entitled describes who may see
--   what without the code's sets and early returns.
-- Chat: apps/api/src/services/chat.ts (Chat.Messages), chat-moderation-auth.ts (Chat.Authority),
--   chat-moderation.ts (Chat.Moderation), chat-word-filters.ts (Chat.Filters) and
--   chat-reactions.ts (Chat.Reactions), over the tables of chat.schema.ts (Chat.Store).
--   chat-rooms.ts, the clients of the rooms in memory, is Chat.Rooms; Chat.Rooms.Contract says what
--   it promises, as a relation between rooms and clients.
-- Editorial.Graph: apps/api/src/services/editorial-graph.ts. The depth of the search's recursion is
--   its fuel, and it is given the number of nodes.
-- Paging: apps/api/src/lib/cursor.ts, and the query of the drafts list of
--   apps/api/src/routes/content-feed.routes.ts, its WHERE, ORDER BY and LIMIT on a table in any order
--   (the route lists the newest first, and the model has both directions); Paging.Order and
--   Paging.Query are about the order of rows, and Paging.Reading has a client that reads all pages, as
--   many as its fuel, for which the number of rows and one is enough.
-- Streams: apps/api/src/services/stream-sessions.ts, stream-keys.ts and the live channels of
--   channels.ts (Streams), streaming-callbacks.ts and stream-lifecycle.ts (Streams.Callbacks).
-- Http: apps/api/src/lib/file-utils.ts (Http.Ranges) and apps/api/src/middleware/rate-limit.ts
--   (Http.RateLimit).
-- Tests: the same on concrete tables.
--
-- The parts meet in the events that the playout services publish, in the tables, and in the ban and
-- timeout tests of Chat.Authority, which messages and reactions share.
--
-- What the repository does not decide is a parameter: the ids that randomUUID() gives, random(),
-- the outcome of Liquidsoap's pushTrack, configuration, lower case, regular expressions of word
-- filters, SHA-256, the storage of files, JSON, base64url, the text of a date, the order of texts
-- in the database, and which sockets are open. What is assumed of them (ids do not repeat, an
-- encoding is read back, the order is strict and total) is a hypothesis of the theorems that need
-- it. Handlers run one after the other: two requests whose statements interleave are not modelled,
-- nor are failures of the database. Timestamps and positions are natural numbers, a chat text is a
-- list of UTF-16 code units, and an error's message has the fixed part of its text. Loops of the
-- source run over rows or over a text, but for the search of the graph.
--
-- Not modelled: the HTTP routes but for the query of a list, and the SSE stream, the web application,
-- authentication, payments, the forwarding of streams, media jobs and storage, the editorial engine,
-- Liquidsoap's script, federation, and the listing queries of the content pool, the chat history and
-- the reactions.
mod Prelude
pub mod Shared
pub mod Events
pub mod EventBus
pub mod Access
pub mod Chat
pub mod Playout
pub mod Editorial
pub mod Paging
pub mod Streams
pub mod Http
mod Tests
