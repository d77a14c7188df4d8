-- ===== src/Wire.antt =====
-- What an exchange takes from asio, OpenSSL and the operating system beyond what the pool takes
-- (Net.antt): an interface, since that code is not in the repository.
use coro_http.Base.{ℕ, ◌≤◌, Bool, List, Bytes}
use coro_http.Base.Outcome.{Outcome}
use coro_http.Net.{Net, NetLaws}
use coro_http.Reading.{RoundCode}

-- The socket itself, or the TLS stream above it.
pub data Layer : Type 0 where
  plain tls : Layer

-- A call that reports by an exception has an outcome. Endpoints are texts.
pub record Wire (W : Type 0) : Type 0 where
  pub net : Net W
  -- `async_resolve` and `async_connect`
  pub resolve : Bytes → Bytes → W → Outcome (List Bytes) × W
  pub connect : ℕ → List Bytes → W → Outcome {0} Unit × W
  -- `SSL_set_tlsext_host_name` and `async_handshake`
  pub set_host_name : ℕ → Bytes → W → W
  pub handshake : ℕ → W → Outcome {0} Unit × W
  -- `async_write`, `async_read_some` with its bytes and code, and `async_read` of so many bytes
  pub write : Layer → ℕ → Bytes → W → Outcome {0} Unit × W
  pub read_some : Layer → ℕ → W → (Bytes × RoundCode) × W
  pub read : ℕ → ℕ → W → Outcome Bytes × W
  -- `available() > 0`, false where it throws
  pub available : ℕ → W → Bool
  -- the timer of `co_read_response` and `cv_.wait_until`
  pub pause : ℕ → W → W
  pub wait_until : ℕ → W → W
  -- `shutdown(shutdown_both, ec)` and `close(ec)`, and `async_shutdown`, which throws
  pub shutdown : ℕ → W → W
  pub close : ℕ → W → W
  pub tls_shutdown : ℕ → W → Outcome {0} Unit × W

-- No call takes away a socket that was made.
pub record WireLaws {W : Type 0} (wire : Wire W) : Type 0 where
  pub net_laws : NetLaws wire.net
  open net_laws use {created}
  pub resolve_created :
      (host port : Bytes) (w : W) → created w ≤ created (wire.resolve host port w).1
  pub connect_created :
      (s : ℕ) (endpoints : List Bytes) (w : W) → created w ≤ created (wire.connect s endpoints w).1
  pub set_host_name_created :
      (s : ℕ) (host : Bytes) (w : W) → created w ≤ created (wire.set_host_name s host w)
  pub handshake_created : (s : ℕ) (w : W) → created w ≤ created (wire.handshake s w).1
  pub write_created :
      (l : Layer) (s : ℕ) (text : Bytes) (w : W) → created w ≤ created (wire.write l s text w).1
  pub read_some_created : (l : Layer) (s : ℕ) (w : W) → created w ≤ created (wire.read_some l s w).1
  pub read_created : (n s : ℕ) (w : W) → created w ≤ created (wire.read n s w).1
  pub pause_created : (n : ℕ) (w : W) → created w ≤ created (wire.pause n w)
  pub wait_until_created : (t : ℕ) (w : W) → created w ≤ created (wire.wait_until t w)
  pub shutdown_created : (s : ℕ) (w : W) → created w ≤ created (wire.shutdown s w)
  pub close_created : (s : ℕ) (w : W) → created w ≤ created (wire.close s w)
  pub tls_shutdown_created : (s : ℕ) (w : W) → created w ≤ created (wire.tls_shutdown s w).1
