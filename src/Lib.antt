-- ===== src/Lib.antt =====
-- Jingjie AR: an HTTP server over a reactor, with the route table, middleware and sessions that the
-- AR exhibition application runs on. This library models the parts that carry the server's own
-- logic, from the bytes that arrive to the bytes that are sent.
--
-- How the parts interact. A connection reads into a Buffer. The parser takes lines and bodies from
-- the buffer and fills a Request. The dispatcher runs the middleware, asks the route table for a
-- handler, calls it or a fallback, and runs the middleware in opposite order over the Response,
-- which is then written to a buffer. Handlers use the session manager, which keeps Session values
-- in a storage, and the services of the application: the service of sessions reads a cache before the
-- database, and the services of artworks and scenes ask it for the session of a token before they
-- reach the database themselves.
--
-- Files and sources.
--   Prelude, Text, Int: shared helpers: lists and maps over the native numbers, byte strings, and
--     signed 64-bit numbers. A byte string is a list of byte values; std::map and
--     std::unordered_map are association lists.
--   Net.Buffer: include/net/Buffer.h, src/net/Buffer.cpp. Net.Buffer.Invariant and
--     Net.Buffer.Content hold its proofs. What read(2) gives is an argument of read_fd.
--   Http.Request: include/http/HttpRequest.h, src/http/HttpRequest.cpp.
--   Http.Context and Http.Parser: include/http/HttpContext.h, src/http/HttpContext.cpp and
--     include/http/HttpLimits.h. The parser is written over an interface ByteSource; Http.Source
--     fills it with the buffer. A loop is a round function and recursion on fuel: parse_headers
--     takes one round more than there are bytes, which is enough because every round but the last
--     consumes some; parse_request takes its fuel as an argument, since the loop of parseRequest
--     does not end on all inputs.
--   Http.Response: include/http/HttpResponse.h, src/http/HttpResponse.cpp. Its headers are kept in
--     the order of std::map, and decimal numbers have up to 20 digits, enough for 64 bits.
--   Http.Responder: include/http/AsyncResponder.h, src/http/AsyncResponder.cpp. The copies of a
--     responder share one state; the exchange of its flag orders their sends.
--   Router.Pattern and Router.Table: include/router/Router.h, src/router/Router.cpp. A handler is a
--     number; std::regex_match is a parameter of the table.
--   Middleware: include/middleware and src/middleware: the chain, the access log's sanitizeTarget,
--     and in Middleware.Cors the cross-origin policy. An exception is a value of what a middleware
--     returns.
--   Dispatcher: include/http/HttpDispatcher.h, src/http/HttpDispatcher.cpp. What handlers do is a
--     parameter; the callbacks made are recorded in the result.
--   Server: include/http/HttpServer.h, src/http/HttpServer.cpp, the bytes of one connection. Its loop
--     takes fuel for its own rounds and fuel for the parser. What a connection is made to send is
--     a value, and whether a file can be opened a parameter.
--   Session.Value, Session.Codec, Session.Storage, Session.Token, Session.Manager: include/session
--     and src/session, less the Redis client. Times are integers, exact, and the codec writes them
--     as two's complement patterns. getrandom(2) is a sequence of results.
--   Net.Connection: include/net/TcpConnection.h, src/net/TcpConnection.cpp. What write(2) and
--     sendfile(2) return is an argument of each step, and the bytes and file regions that the kernel
--     took are kept in the state; callbacks are recorded as notices. A step is one call in the loop's
--     thread.
--   Timers: include/timer and src/timer. The ordered set is a list in order; what callbacks add and
--     the clock are arguments. Times are whole microseconds. The timer descriptor is what it was
--     last set to: the reading of the clock at the call, and the seconds and nanoseconds from then.
--   Http.StaticFile: include/http/StaticFileHandler.h, include/http/StaticFileCache.h and
--     src/http/StaticFileHandler.cpp. realpath(3), stat(2) and the date functions are an interface.
--   Caches.Lfu: include/LFU.h, one shard. A frequency list is the list of the keys of its nodes, and
--     a call that would follow a null pointer gives no cache.
--   Redis: what the sources ask of hiredis, as an interface with the documented answers as laws.
--   Visitor: WebApps/ARServer/src/services/VisitorSessionService.cpp. Visitor.Store has the contract
--     of a store and its proof for the one over Redis, Visitor.Bootstrap the protocol over any store.
--   Caches.SessionCache: include/cache/SessionCache.h, src/cache/SessionCache.cpp. Numbers has the
--     parts of the standard library that read and write its numbers.
--   MemoryPool: include/memoryPool.h, memory/memoryPool.cc. Addresses are numbers, the list that the
--     source threads through free slots is a list, and each call is one step.
--   Net.EventLoop: src/net/EventLoop.cpp, the functors handed over by threads and the wake-ups, as a
--     step relation of the thread of the loop and the others. Base.TaskWorkerPool:
--     src/base/TaskWorkerPool.cpp, a step for each locked section.
--   Database: what the sources ask of the C interface of MySQL, as an interface; whether the pool takes
--     a task and lends a connection is part of it. Database.SessionDao: include/db/SessionDAO.h,
--     src/db/SessionDAO.cpp, with the table of sessions of sql/jingjie_ar_schema.sql in
--     Database.SessionDao.Table. Database.ArtworkDao, Database.SceneDao:
--     src/db/ArtworkInteractionDAO.cpp, src/db/SceneInteractionDAO.cpp.
--   Services: WebApps/ARServer/src/services, over a world W in which databases, caches and workers
--     live; a callback is the result of its operation. Services.Sessions: SessionService.cpp,
--     with the stores DaoSessionStore.cpp and CachedSessionStore.cpp in Services.Sessions.Stores and
--     the tasks of the latter in any order in Services.Sessions.Tombstone. What these ask of a cache
--     are the laws of Services.Sessions.Cache, which hold of the sessions that the cache can write
--     and read back; Services.Sessions.InRedis proves them of the program's cache, from the
--     documented answers of Redis. Keys are taken not to expire, though the program lets them
--     expire after 1800 s. Services.Auth:
--     AuthService.cpp and DaoAuthStore.cpp; argon2, OpenSSL and random numbers are an interface.
--     Services.Artwork, Services.Scene: ArtworkInteractionService.cpp, SceneInteractionService.cpp and
--     WebApps/ARServer/src/catalog/SceneCatalog.cpp, with WebApps/ARServer/src/handlers in
--     Services.Artwork.Handlers and Services.Scene.Handlers. Services.Utf8: the test of UTF-8 of
--     comments. Services.Json, Services.Api: WebApps/ARServer/src/utils.
--
-- Not modelled: sockets, epoll, memory order and locks (each locked section is one step), the pools of
-- database and Redis connections and the clients behind them, statistics queries, logging, the
-- two-level cache, presence, the handlers of visitors, sessions and presence, the exhibition catalogue
-- and the web front end, and the JSON library, which is another project's.
pub mod Prelude
pub mod Text
pub mod Net
pub mod Http
pub mod Int
pub mod Router
pub mod Middleware
pub mod Dispatcher
pub mod Server
pub mod Session
pub mod Timers
pub mod Caches
pub mod Redis
pub mod Visitor
pub mod MemoryPool
pub mod Numbers
pub mod Services
pub mod Base
pub mod Database
