-- ===== src/Net.antt =====
-- What the client takes from asio, OpenSSL and the steady clock: an interface, since that code is
-- not in the repository. `W` is the state of the world behind it: sockets, peers and the clock.
use coro_http.Base.{ℕ, ◌≤◌, ◌<◌, Bool}

-- The result of `read_some` on a non-blocking socket.
pub data ReadOutcome : Type 0 where
  would_block end_of_file failed got_data : ReadOutcome

-- A socket is the identity of its `shared_ptr`. A call that reports by `error_code` returns
-- whether the code was set.
pub record Net (W : Type 0) : Type 0 where
  pub now : W → ℕ × W
  pub make_socket : W → ℕ × W
  pub is_open : ℕ → W → Bool
  pub remote_endpoint : ℕ → W → Bool
  pub non_blocking : ℕ → W → Bool × W
  -- `non_blocking(false)`, taken to succeed where `non_blocking(true, ec)` did
  pub restore_blocking : ℕ → W → W
  pub read_some : ℕ → W → ReadOutcome × W
  -- `native_handle() != nullptr`, `SSL_is_init_finished`, `SSL_get_session() != nullptr`
  pub native_handle : ℕ → W → Bool
  pub is_init_finished : ℕ → W → Bool
  pub has_session : ℕ → W → Bool

-- Sockets are numbered in the order in which `make_shared` makes them: `created` is the number of
-- those made so far, and no call takes one away while something points to it.
pub record NetLaws {W : Type 0} (net : Net W) : Type 0 where
  pub created : W → ℕ
  pub now_created : (w : W) → created w ≤ created (net.now w).1
  pub make_socket_new : (w : W) → created w ≤ (net.make_socket w).0
  pub make_socket_created : (w : W) → (net.make_socket w).0 < created (net.make_socket w).1
  pub non_blocking_created : (s : ℕ) (w : W) → created w ≤ created (net.non_blocking s w).1
  pub restore_blocking_created : (s : ℕ) (w : W) → created w ≤ created (net.restore_blocking s w)
  pub read_some_created : (s : ℕ) (w : W) → created w ≤ created (net.read_some s w).1
