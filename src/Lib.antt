-- ===== src/Lib.antt =====
-- The rate limiting engine: the five limiting algorithms, the policies that choose among them, the
-- registry that evaluates requests, and the store that keeps the history.
--
-- A request is matched against the policies (Resolver), the policy's algorithm and parameters make a
-- strategy (Policy, Factory), the registry holds one strategy for each key and asks it for a decision
-- (Engine), and what was decided is logged (Database). The policies come from a file (Loader). The
-- server starts from its configuration (Startup), reads requests from connections (Server), decodes
-- and encodes their bodies (Json), and handles them (Controller); it talks to Redis over RedisStore.
--
-- Which file models which part:
--   * Double: C++ `double`. It is a parameter: a record of the operations that the program calls,
--     with the facts of IEEE 754 that the theorems use in Double.Laws. Double.Fixed, numbers in
--     thousandths, shows that the facts can hold together and lets the tests run.
--   * Strategy: RateLimitStrategy.h, and TokenBucket, LeakyBucket, FixedWindowCounter,
--     SlidingWindowLog and SlidingWindowCounter, each .h and .cpp. The state of a class is a record
--     with the fields of the class; allow_request takes the clock reading that `now()` gives, in
--     ticks of steady_clock, and returns the new state and the decision. A duration between two
--     readings is signed, and a theorem that needs a clock that never goes back says so. Strategy.Run runs a
--     sequence of requests; Strategy.Local is the interface over the five classes.
--   * Policy: policy/Policy.h, policy/Request.h and policy/Policy.cpp; Policy.Validate is
--     validatePolicyConfiguration with the errors that it sets as values.
--   * Factory: StrategyFactory.h and .cpp without a shared store, and buildPolicyKey.
--   * Resolver: policy/PolicyResolver.h and .cpp. `std::stable_sort` is insertion sort.
--   * Engine: PolicyEngine.h and .cpp over any strategy interface. `shared_ptr<Entry>` is a place in
--     a list of entries, so that two tenants that shared an entry would share its state. Each call
--     is one step, and Engine.Interleaving has the calls of several threads in any order.
--   * Database: Database.h and .cpp: the encoding of fields, the rows, the file as a text, and the
--     calls with the outcome of each write as an argument: done, or torn after some bytes, and for an
--     append also lost in the flush, behind the test of the stream. Stamps are integers; where a
--     theorem prints and reads them they are long longs.
--   * Loader: policy/PolicyLoader.h and .cpp: Loader.Lines has the helpers on texts, Loader the line
--     by line reading of a policy file, its writing, and the save with what the file system does as
--     arguments; strtol is an argument.
--   * MemoryStore: storage/InMemoryStateStore.h and .cpp. `++value` on the largest long long, which
--     C++ leaves undefined, wraps around.
--   * Json: api/JsonCodec.h and .cpp. Json.Value and Json.Strings are JsonValue and its texts,
--     Json.Parser is JsonParser with the rest of the input in place of a position, Json.Encode the
--     encoders, Json.Fields and Json.Decode the readers of fields and the two decoders.
--   * Controller: api/HttpTypes.h and api/RestController.h and .cpp: Controller has the headers, the
--     authorization and the health check, Controller.Handlers the evaluation of a request,
--     Controller.Admin the handlers that ask for the admin token, Controller.Routes handleRequest.
--     Each handler takes the controller's state and the answers of clocks, files and store, and
--     returns the new state and the response. The interface of the strategies and the creation of
--     one with a store are arguments.
--   * Server: api/Server.h and .cpp: Server has the parsing of a request and the bytes of a response,
--     Server.Reading the loop over recv, whose pieces are an argument, Server.Clients what a worker
--     does with a client, Server.Queue the queue of clients as a relation on its states.
--   * RedisStore: storage/RedisStateStore.h and .cpp: RedisStore has the encoding of commands and the
--     parser of replies over the bytes that come, RedisStore.Commands the connection of a worker and
--     the calls, with what the network does as arguments. The parser counts down the levels of nesting
--     that its limit leaves.
--   * Startup: server_main.cpp up to the start of the server: the tenant tokens, the checks of the
--     configuration, and the objects that the server starts with.
--   * Prelude: shared names, texts as lists of codes, maps, decimal numbers, the int of C++, results.
--
-- Loops are structural recursion. Three run on fuel: `decimal n` writes a number with n + 1 steps
-- allowed, more than it has digits; decode_from takes the length of the text, of which each step reads
-- at least one byte; and the JSON parser takes two steps for each byte and one more, since a loop and
-- the value in it take a step each and a round reads a byte at least.
--
-- An int counter is a number of ℕ; the invariants keep it at most the limit, which validation keeps
-- at most 2147483647, so that none overflows.
--
-- Not modelled: the Redis strategies and the overload of createStrategy that makes them; the race of
-- two calls of PolicyEngine::evaluateUnsafe; the interleaving of whole handlers beyond the calls that
-- they make of the engine; sockets, threads, the terminal, timing runs, and what is printed to stderr.
pub mod Prelude
pub mod Double
pub mod Strategy
pub mod Policy
pub mod Factory
pub mod Resolver
pub mod Engine
pub mod Database
pub mod Loader
pub mod MemoryStore
pub mod Json
pub mod Controller
pub mod Server
pub mod RedisStore
pub mod Startup
pub mod Tests
