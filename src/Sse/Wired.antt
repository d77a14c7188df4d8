-- ===== src/Sse/Wired.antt =====
-- co_stream_events, co_stream_events_http and co_stream_events_https of
-- include/coro_http/coro_http_client.hpp on the wire.
use coro_http.Base.{
  ℕ, zero, suc, Bool, true, false, Option, none, some, List, [], ◌++◌, Bytes, codes, behind,
  is_empty, if◌then◌else◌,
}
use coro_http.Base.Outcome.{Outcome, returned, thrown, or_throw}
use coro_http.Base.Awaiting.{Awaitable, lift, ◌>>=◌, ◌>>◌}
use coro_http.Client.{with_cookies}
use coro_http.Cookie.{CookieJar}
use coro_http.Reading.{RoundCode, no_error, ended, failed}
use coro_http.Request.{HttpRequest, build_request}
use coro_http.Url.{UrlInfo, parse_url}
use coro_http.Wire.{Wire, Layer, plain, tls}
use coro_http.Exchange.{Setup, Session, loaded, with_socket, in_world, acquire_slot}
use coro_http.Exchange.Connect.{co_connect_socket, secure}
use coro_http.Sse.{SseEvent, fresh}
use coro_http.Sse.Streaming.{
  ReadCode, eof, other_error, ReadResult, Stream, receive_some, ends, finish,
}

read_code : RoundCode → ReadCode
read_code no_error = ReadCode.no_error
read_code ended = eof
read_code (failed e) = other_error

-- What a round of the loop over the headers leads to: an exception, `partial_event`, or more headers.
data HeaderNext : Type 0 where
  fails got more : Bytes → HeaderNext

header_round : ReadCode → Bytes → Bytes → HeaderNext
header_round ReadCode.no_error bytes headers =
    if is_empty bytes
    then fails (codes "Connection closed while reading headers")
    else elim (behind (codes "\r\n\r\n") (headers ++ bytes)) [
      | some partial ↦ got partial
      | none ↦ more (headers ++ bytes)
    ]
header_round _ bytes headers = fails (codes "system_error")

module _ {W : Type 0} (wire : Wire W) (l : Layer) (s : ℕ) where
  pub read_result : W → ReadResult
  read_result w =
      let (bytes, code) = (wire.read_some l s w).0 in
      record { bytes = bytes; code = read_code code }

  -- The loop "Read response headers first": the text behind them.
  pub header_loop : ℕ → Bytes → W → Option (Outcome Bytes × W)
  header_loop zero headers w = none
  header_loop (suc fuel) headers w =
      let r = read_result w in
      let w' = (wire.read_some l s w).1 in
      elim (header_round r.code r.bytes headers) [
        | fails e ↦ some (thrown e, w')
        | got partial ↦ some (returned partial, w')
        | more later ↦ header_loop fuel later w'
      ]

  -- "Stream event lines": the events handed to the callback in so many rounds, and whether the loop has
  -- ended in them.
  pub line_loop : ℕ → Stream → W → (List SseEvent × Bool) × W
  line_loop zero st w = (([], false), w)
  line_loop (suc fuel) st w =
      let r = read_result w in
      let w' = (wire.read_some l s w).1 in
      let q = receive_some r.bytes st in
      elim (ends r) [
        | true ↦ ((q.1 ++ finish q.0.partial_event q.0.parser, true), w')
        | false ↦ let later = line_loop fuel q.0 w' in ((q.1 ++ later.0.0, later.0.1), later.1)
      ]

module _ {W : Type 0} (wire : Wire W) (c : Setup) where
  pub read_headers : Layer → ℕ → Awaitable (Session W) Bytes
  read_headers l s st = loaded st (header_loop wire l s c.limit [] st.world)

  pub read_lines : Layer → ℕ → Bytes → Awaitable (Session W) (List SseEvent × Bool)
  read_lines l s partial st =
      let (o, w) =
        line_loop wire l s c.limit (record { partial_event = partial; parser = fresh }) st.world in
      some (returned o, record st { world = w })

  -- Both loops.
  pub stream_lines : Layer → ℕ → Awaitable (Session W) (List SseEvent × Bool)
  stream_lines l s = do partial ← read_headers l s; read_lines l s partial

  pub stream_on : HttpRequest → UrlInfo → ℕ → Awaitable (Session W) (List SseEvent × Bool)
  stream_on r info s = do
    co_connect_socket wire c s info
    in_world (wire.write plain s (build_request r info c.config.enable_compression false))
    stream_lines plain s

  pub co_stream_events_http : HttpRequest → UrlInfo → Awaitable (Session W) (List SseEvent × Bool)
  co_stream_events_http r info = do acquire_slot wire c; with_socket wire (stream_on r info)

  pub stream_tls_on : HttpRequest → UrlInfo → ℕ → Awaitable (Session W) (List SseEvent × Bool)
  stream_tls_on r info s = do
    co_connect_socket wire c s info
    secure wire c s info
    in_world (wire.write tls s (build_request r info c.config.enable_compression false))
    stream_lines tls s

  pub co_stream_events_https : HttpRequest → UrlInfo → Awaitable (Session W) (List SseEvent × Bool)
  co_stream_events_https r info = do acquire_slot wire c; with_socket wire (stream_tls_on r info)

  -- With the jar, and the clock for its cookies.
  pub co_stream_events : ℕ → CookieJar → HttpRequest → Awaitable (Session W) (List SseEvent × Bool)
  co_stream_events now jar r = do
    info ← lift (or_throw (codes "Invalid URL format") (parse_url r.url))
    let request = with_cookies c.config now info jar r
    if info.is_https
        then co_stream_events_https request info
        else co_stream_events_http request info
