-- ===== src/Lib.antt =====
-- coro-http: a C++20 HTTP client library in headers (include/coro_http), modelled part by part.
--
-- The parts and their modules. Every file is a header of include/coro_http.
--   connection_pool.hpp   Pool: get_connection, get_ssl_connection, release_connection,
--     release_ssl_connection, clear and get_stats on the two maps of deques. The sockets, TLS and the
--     clock are the interface Net (Net.antt). The mutex makes each operation one step (Pool.Calls).
--   rate_limiter.hpp      RateLimiter: acquire, try_acquire, remaining and reset, each an atomic step at
--     a time; the waits of acquire are the clock readings at its wake-ups.
--   coro_http_client.hpp  Client: co_execute (retries) and co_execute_with_redirects (redirects, cookies)
--     over the interface Transport, which stands for one request on the wire. Exchange: that request,
--     co_execute_http, co_execute_https and their pooled forms with co_connect_socket,
--     co_perform_socks5_handshake and co_establish_tunnel, as coroutines over the interface Wire
--     (Wire.antt). Reading: co_read_response, over a list of what its reads bring. Sse.Streaming: the
--     loops of co_stream_events_http and co_stream_events_https over a list, and Sse.Wired: these
--     functions whole, over Wire. Request: build_proxy_request. Proxy: the SOCKS5 handshake over a list
--     of replies. HttpClient: the object, its constructor and accessors, and co_get to co_options.
--   retry_policy.hpp      Retry: when an error is tried again, and the delay.
--   http_request.hpp, http_parser.hpp   Request: HttpRequest and build_request. Request.Fields has a
--     reader of requests (RFC 9112) that the text is compared with.
--   http_response.hpp, http_parser.hpp  Response: HttpResponse and parse_response.
--   chunked_decoder.hpp   Chunked: decode_chunked, with stoul in base 16 (Base.Number).
--   proxy_handler.hpp     Proxy: parse_proxy_url and the messages of CONNECT and SOCKS5.
--   url_parser.hpp        Url: parse_url, and the absolute form of a redirect's location.
--   cookie_jar.hpp        Cookie: the jar as a sorted map, Set-Cookie, the Cookie header.
--   sse_event.hpp         Sse: parse_sse_line, parse_sse_stream and SseEvent::to_string.
--   compression.hpp       Compression: decompress_gzip and decompress_deflate over zlib, the interface
--     Zlib, with fuel for the rounds of their loop.
--   client_config.hpp     Config: ClientConfig with its defaults.
--   interceptor.hpp       Interceptor: InterceptorChain and the ready-made interceptors. The client does
--     not call the chain, a program does.
--   auth.hpp, form_data.hpp             Auth: base64_encode and the headers. Form: url_encode, FormData.
-- Base has what they share: byte strings, signed integers, sorted maps (std::map), numbers in text;
-- Outcome, how a function ends: it returns, throws, or its behaviour is undefined; and Awaiting, the
-- coroutines: functions of a state that end in one of these ways, or still wait, with the rules of
-- Base.Triples and Base.Totals to reason about them.
--
-- How they interact: co_execute repeats co_execute_with_redirects, which asks parse_url for the target,
-- the jar for cookies, and the transport for a response, whose cookies go back to the jar and whose
-- location becomes the next request. On the wire a request passes the limiter, takes a connection of the
-- pool, writes build_request, reads with co_read_response, parses with parse_response, and gives the
-- connection back: that is Exchange, which changes the pool, the limiter and the outside (Session) under a
-- configuration (Setup). The last reference to a socket that the pool does not hold closes it.
-- Exchange.Recorded adds to the outside a log of the calls on it, with the bytes that reads bring,
-- Exchange.Heard follows these bytes to the response, and Exchange.Protocol is the order of the calls, and
-- of the replies that they wait for, as a step relation. Client.Wired is the Transport that Exchange
-- makes, where the network ends, and HttpClient.Execute is co_execute on the members of the object over it.
--
-- Bounds and fuel. Bytes are natural numbers, those below 256 where it matters; `int` values are ℤ, and the
-- accumulator of base64_encode keeps its 32 bits. Loops over text have its length as fuel: each round takes
-- a character off at least. The retry loop has max_retries + 1 as fuel, and redirects are counted down from
-- max_redirects. Times of the steady clock are nanoseconds. Loops that wait for the network are recursions
-- on the list of what it brings, and give none where they still wait. Sets of characters (isspace,
-- isalnum, tolower) are those of the C locale.
--
-- The loops of Exchange and Sse.Wired have the number `limit` of rounds: a theorem on them speaks of the
-- runs that end within it, and Exchange.Ending tells which limit is enough: more than the reads that
-- bring bytes without an error, and at least two more than the times that a wait of the limiter ends
-- early, as a condition variable may do.
--
-- Not modelled: asio, OpenSSL, zlib and the clock, which are parameters (and so
-- are, in Setup, the functions of compression.hpp); floating point in the backoff, a parameter; the
-- timer of sleep_for_retry, whose calls are counted; the template run; several exchanges interleaved at
-- their co_await, where the pool alone is (Pool.Calls); the examples and tests.
mod Base
pub mod Config
pub mod Compression
pub mod Net
pub mod Pool
pub mod RateLimiter
pub mod Sse
pub mod Auth
pub mod Form
pub mod Url
pub mod Request
pub mod Chunked
pub mod Response
pub mod Proxy
pub mod Reading
pub mod Retry
pub mod Client
pub mod Cookie
pub mod Wire
pub mod Exchange
pub mod Interceptor
pub mod HttpClient
