-- ===== src/Client/Wired.antt =====
-- include/coro_http/coro_http_client.hpp: co_execute_with_redirects over the exchanges of Exchange.
use coro_http.Base.{ℕ, Option, none, some, if◌then◌else◌}
use coro_http.Base.Outcome.{Outcome}
use coro_http.Base.Totals.{EndsIn}
use coro_http.Wire.{Wire}
use coro_http.Exchange.{Setup, Session}
use coro_http.Exchange.Requests.{co_execute_http, co_execute_https}
use coro_http.Exchange.Ending.{EndsWithin}
use coro_http.Exchange.Total.{IsReady, exchange-IsTotal}
use coro_http.Client.{Transport}

-- A session in which no exchange waits for ever on the limiter.
abbrev pub ReadySession : Type 0 → Type 0
ReadySession W = (st : Session W) × IsReady st

-- What an exchange that ends leaves.
abbrev pub left_by :
    {W A : Type 0} (r : Option (Outcome A × Session W))
    → EndsIn IsReady r
    → Outcome A × ReadySession W
left_by none h = absurd h
left_by (some (o, st)) h = (o, (st, h))

module _ {W : Type 0} (wire : Wire W) (c : Setup) (end : EndsWithin wire c.limit)
    (system_now : W → ℕ) (backoff : ℕ → W → ℕ) where
  -- `co_execute_https` or `co_execute_http`
  pub over_wire : Transport (ReadySession W)
  over_wire = record {
    now = λ s. system_now s.0.world;
    exchange = λ r info s.
        if info.is_https
        then left_by (co_execute_https wire c r info s.0)
            ((exchange-IsTotal wire c end r info).1.at s.0 s.1)
        else left_by (co_execute_http wire c r info s.0)
            ((exchange-IsTotal wire c end r info).0.at s.0 s.1);
    wait = λ n s. (record s.0 { world = wire.pause n s.0.world }, s.1);
    backoff = λ n s. backoff n s.0.world;
  }
