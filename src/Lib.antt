-- ===== src/Lib.antt =====
-- The C++ SDK for the Hyperliquid exchange: requests are built as JSON actions, signed, and sent
-- over REST or over one WebSocket connection, which is kept open by a runner.
--
-- Parts, and where they are modelled:
--   Types      include/hyperliquid/types/RequestTypes.h: endpoints and subscriptions with their
--              wire names, paths and signing classes, and the structs of the exchange actions.
--   Config     include/hyperliquid/config/Config.h: wallet, vault, environment.
--   Rest       src/rest: `SymbolMap` has symbols and asset ids (`find`, `add`, `set`, `resolve`),
--              `HttpSession` the handlers of a POST, `Api` the methods of RestApi.cpp, from the body
--              that is sent to what the caller is told, and `Parser` the part of
--              RestApiMessageParser.cpp that reads the answers to actions and the lists that asset
--              ids come from, with the dispatch (`parse`).
--   Messages   src/messages/ExchangeRequestBuilder.cpp: `Mapping` fills the symbol map from the
--              exchange's answers (`initializeMapping`); `Wire` writes numbers and orders
--              (`floatToWire`, `buildOrderWire`, `setModifyOid`); `Exchange` has the builders, and
--              the exchange methods of src/rest/RestApi.cpp as the data type `ExchangeRequest`,
--              with the endpoint (`endpoint_of`) and the body (`build`) of each. `Info` is the same
--              for src/messages/InfoRequestBuilder.cpp, as the data type `InfoRequest`.
--   Signing    src/signing: `Hex` and `Encoding` are the byte formats of SigningHelpers.cpp,
--              `Eip712` its hashes and signatures, `Nonce` is `nextNonce`, and `Bodies` the
--              functions of Signing.cpp that stamp, sign and wrap a body (`prepareBodyForType`).
--   Websocket  src/websocket: `Runner` is WebsocketRunner.cpp, one function for each callback, and
--              `Runner.Events` the callbacks that the io_context may run; `Posts` is the table that
--              matches responses to requests in WebsocketApi.cpp and PostResponseDispatch.cpp;
--              `Api` is the methods of WebsocketApi.cpp (`InfoCalls`, `ExchangeCalls`), `subscribe`
--              and `unsubscribe`; `Parser` is the part of WebsocketMessageParser.cpp that finds a
--              message's parser (`crack`) and that reads books, best prices, trades, candles, fills,
--              order updates, user events, fundings, notifications and the confirmations of
--              subscriptions;
--              `Base64` is `base64Decode` of WebsocketParsingUtils.cpp.
--   Json, Doubles, Simdjson  interfaces to nlohmann::json, to `double` and to simdjson, with what the
--              library relies on as laws (`IsLawful`, `IsMapLike`, `Writer`), and an instance of each
--              to run the model on. `Simdjson.Attempt` is a `try` block that fills a response.
--
-- A body goes from `build` to `prepare_body_for_type`, which asks `next_value` for a nonce and calls
-- one of the two signing functions; an L1 action is hashed by `action_hash`, a user-signed one by
-- the field list `schema_of` gives for its endpoint.
--
-- State is passed explicitly: `lastNonce` through the functions of `Bodies`, one call at a time, and
-- as shared memory with the steps of many threads in `Nonce`; the runner's fields through its
-- callbacks. A function that may throw returns a `Result`. Strings hold ASCII characters and bytes
-- are numbers below 256. A uint64_t is a native number, with its wrap-around written out where the
-- code can reach it; an `int` is an integer without bound, but for the counter of posts and the
-- casts that are written out (`to_i32`). No function needs fuel: loops are structural recursion.
--
-- Parameters, since their code is other projects': keccak256, libsecp256k1, MessagePack, the JSON
-- library, floating point, the clock, the exchange's answers, and what simdjson finds in a
-- message.
--
-- Not modelled: Boost.Asio and Boost.Beast themselves, the parsers of the other answers and of the
-- other WebSocket messages, key generation, logging, and src/signing/sha3.c, which is a copy of
-- another project. No property covers the text of numbers inside a message, which simdjson and the
-- standard library read.
pub mod Common
pub mod Config
pub mod Doubles
pub mod Json
pub mod Messages
pub mod Rest
pub mod Signing
pub mod Simdjson
pub mod Types
pub mod Websocket
