-- ===== src/Exchange/Heard.antt =====
-- What co_read_response and a whole transfer read from a recorded stream
-- (include/coro_http/coro_http_client.hpp).
use coro_http.Base.{
  ℕ, zero, suc, ◌≡◌, refl, sym, ◌∙◌, ap, Bool, true, false, not, ◌&&◌, Option, none, some, inl, inr,
  List, [], ◌∷◌, ◌++◌, append-nil, append_assoc, Bytes, is_empty, behind, codes, Option-cases,
  if◌then◌else◌,
}
use coro_http.Base.Outcome.{Outcome, returned, thrown, undefined}
use coro_http.Base.Triples.{Ends, Post, Triple, Triple-bind, Triple-any, Triple-lift}
use coro_http.Pool.{ConnectionPool}
use coro_http.Reading.{
  Reading, RoundCode, no_error, ended, failed, no_reading, receive, find_headers, is_complete,
  waits,
}
use coro_http.Request.{HttpMethod}
use coro_http.Wire.{Wire, Layer}
use coro_http.Exchange.{
  Setup, Session, Next, finished, again, parse, is_head, wait_more, after_read, read_round,
  read_loop, loaded, co_read_response,
}
use coro_http.Exchange.Requests.{transfer}
use coro_http.Exchange.Recorded.{Event, writes, reads, recorded, adding, At, in_world-At}

-- Reads on a stream, one after another, and the bytes that they brought.
abbrev pub reads_of : Layer → ℕ → List Bytes → List Event
reads_of l s [] = []
reads_of l s (bytes ∷ pieces) = reads l s bytes ∷ reads_of l s pieces

abbrev pub joined : List Bytes → Bytes
joined [] = []
joined (bytes ∷ pieces) = bytes ++ joined pieces

reads_of-append :
    (l : Layer) (s : ℕ) (pieces more : List Bytes)
    → reads_of l s (pieces ++ more) ≡ reads_of l s pieces ++ reads_of l s more
reads_of-append l s [] more = refl
reads_of-append l s (bytes ∷ pieces) more =
    ap (◌∷◌ (reads l s bytes)) (reads_of-append l s pieces more)

joined-append : (pieces more : List Bytes) → joined (pieces ++ more) ≡ joined pieces ++ joined more
joined-append [] more = refl
joined-append (bytes ∷ pieces) more =
    ap (λ x. bytes ++ x) (joined-append pieces more)
    ∙ sym (append_assoc bytes (joined pieces) (joined more))

find_headers_same : (state : Reading) → (find_headers state).response_data ≡ state.response_data
unfolding find_headers
find_headers_same state = elim (Option-cases (behind (codes "\r\n\r\n") state.response_data)) [
  | inl n ↦ rw (n, find_headers) refl
  | inr (body, e) ↦ rw (e, find_headers) refl
]

either_same :
    (b : Bool) (x y : Reading) (text : Bytes)
    → x.response_data ≡ text
    → y.response_data ≡ text
    → (if b then x else y).response_data ≡ text
either_same true x y text h k = h
either_same false x y text h k = k

receive_added :
    (bytes : Bytes) (state : Reading)
    → (receive bytes state).response_data ≡ state.response_data ++ bytes
unfolding receive
receive_added [] state = sym (append-nil state.response_data)
receive_added (b ∷ bs) state =
    let t = record state { response_data = state.response_data ++ (b ∷ bs) } in
    either_same state.headers_complete t (find_headers t) t.response_data refl (find_headers_same t)

module _ {W : Type 0} (wire : Wire W) (l : Layer) (s : ℕ) (log : List Event) where
  -- Since `log`, reads on the stream have brought `text`.
  record Gathered (text : Bytes) (w : List Event × W) : Type 0 where
    pieces : List Bytes
    events : w.0 ≡ log ++ reads_of l s pieces
    same : text ≡ joined pieces

  Gathered-more :
      (text bytes : Bytes) (w : List Event × W) (v : W)
      → Gathered text w
      → Gathered (text ++ bytes) (adding w.0 (reads l s bytes), v)
  Gathered-more text bytes w v g = record {
    pieces = g.pieces ++ (bytes ∷ []);
    events =
        ap (λ k. adding k (reads l s bytes)) g.events
        ∙ append_assoc log (reads_of l s g.pieces) (reads l s bytes ∷ [])
        ∙ ap (λ k. log ++ k) (sym (reads_of-append l s g.pieces (bytes ∷ [])));
    same =
        ap (λ k. k ++ bytes) g.same
        ∙ ap (λ k. joined g.pieces ++ k) (sym (append-nil bytes))
        ∙ sym (joined-append g.pieces (bytes ∷ []));
  }

  -- Some bytes have been read.
  Some : List Event × W → Type 0
  Some w = (text : Bytes) × Gathered text w

  abbrev Goes : Next × (List Event × W) → Type 0
  Goes (finished o, w) = Post Gathered Some o w
  Goes (again t, w) = Gathered t.response_data w

  Goes-if : (b : Bool) (x y : Next × (List Event × W)) → Goes x → Goes y → Goes (if b then x else y)
  Goes-if true x y h k = h
  Goes-if false x y h k = k

  wait_more-Goes :
      (t : Reading) (w : List Event × W)
      → Gathered t.response_data w
      → Goes (wait_more (recorded wire) l s t w)
  unfolding wait_more
  wait_more-Goes t w g =
      let v = wire.pause 100 w.1 in
      let later : Gathered t.response_data (w.0, v) = record {
        pieces = g.pieces;
        events = g.events;
        same = g.same;
      } in
      let (read, v') = wire.read_some l s v in
      Goes-if (wire.available s v) _ _ (Gathered-more t.response_data read.0 (w.0, v) v' later)
        later

  after_read-Goes :
      (bytes : Bytes) (code : RoundCode) (t : Reading) (w : List Event × W)
      → Gathered t.response_data w
      → Goes (after_read (recorded wire) l s bytes code t w)
  unfolding after_read Some
  after_read-Goes bytes ended t w g = g
  after_read-Goes bytes (failed e) t w g = (t.response_data, g)
  after_read-Goes bytes no_error t w g =
      Goes-if (waits t && not (is_empty bytes)) _ _ (wait_more-Goes t w g) g

  read_round-Goes :
      (head_request : Bool) (state : Reading) (w : List Event × W)
      → Gathered state.response_data w
      → Goes (read_round (recorded wire) head_request l s state w)
  unfolding read_round
  read_round-Goes head_request state w g =
      let ((bytes, code), v) = wire.read_some l s w.1 in
      let t = receive bytes state in
      let more = Gathered-more state.response_data bytes w v g in
      let now : Gathered t.response_data (adding w.0 (reads l s bytes), v) = record {
        pieces = more.pieces;
        events = more.events;
        same = receive_added bytes state ∙ more.same;
      } in
      Goes-if (not (is_empty bytes) && is_complete head_request t) _ _ now
        (after_read-Goes bytes code t (adding w.0 (reads l s bytes), v) now)

  read_loop-Gathered :
      (head_request : Bool) (fuel : ℕ) (state : Reading) (w : List Event × W)
      → Gathered state.response_data w
      → Ends Gathered Some (read_loop (recorded wire) head_request l s fuel state w)
  unfolding read_loop
  read_loop-Gathered head_request zero state w g = tt
  read_loop-Gathered head_request (suc fuel) state w g =
      let r = read_round (recorded wire) head_request l s state w in
      elim r.0
          as (λ next.
            Goes (next, r.1)
            → Ends {A = Bytes} Gathered Some (elim next [
              | finished o ↦ some (o, r.1)
              | again t ↦ read_loop (recorded wire) head_request l s fuel t r.1
            ])) [
              | finished o ↦ λ h. h
              | again t ↦ λ h. read_loop-Gathered head_request fuel t r.1 h
            ]
        (read_round-Goes head_request state w g)

module _ {W : Type 0} (wire : Wire W) (c : Setup) (log : List Event) (K : ConnectionPool → Type 0)
    {E : Session (List Event × W) → Type 0} (l : Layer) (s : ℕ)
    (stops : (pieces : List Bytes) (st : Session (List Event × W))
      → At (log ++ reads_of l s pieces) K st
      → E st) where
  loaded-At :
      (st : Session (List Event × W)) (r : Option (Outcome Bytes × (List Event × W)))
      → At log K st
      → Ends (Gathered wire l s log) (Some wire l s log) r
      → Ends
          (λ text later.
            (pieces : List Bytes) × (text ≡ joined pieces)
            × At (log ++ reads_of l s pieces) K later)
          E
          (loaded st r)
  unfolding Some
  loaded-At st none h g = tt
  loaded-At st (some (returned text, w)) h g =
      (g.pieces, g.same, record { events = g.events; pool = h.pool })
  loaded-At st (some (thrown x, w)) h (text, g) =
      stops g.pieces (record st { world = w }) (record { events = g.events; pool = h.pool })
  loaded-At st (some (undefined, w)) h g = tt

  co_read_response-At :
      (head_request : Bool)
      → Triple
          (At log K)
          (co_read_response (recorded wire) c head_request l s)
          (λ text st.
            (pieces : List Bytes) × (text ≡ joined pieces) × At (log ++ reads_of l s pieces) K st)
          E
  unfolding co_read_response
  co_read_response-At head_request = record {
    at = λ st h.
        loaded-At st (read_loop (recorded wire) head_request l s c.limit no_reading st.world) h (
          read_loop-Gathered wire l s log head_request c.limit no_reading st.world
            (record { pieces = []; events = h.events ∙ sym (append-nil log); same = refl }));
  }

-- A request on a stream, and its response: what parse_response makes of the bytes that the reads behind
-- the request brought.
pub transfer-At :
    {W : Type 0} (wire : Wire W) (c : Setup) (l : Layer) (s : ℕ) (method : HttpMethod)
    (request : Bytes) (log : List Event) (K : ConnectionPool → Type 0)
    {E : Session (List Event × W) → Type 0}
    → ((pieces : List Bytes) (st : Session (List Event × W))
        → At (adding log (writes l s request) ++ reads_of l s pieces) K st
        → E st)
    → Triple
        (At log K)
        (transfer (recorded wire) c l s method request)
        (λ response st.
          (pieces : List Bytes) × (parse c (joined pieces) ≡ returned response)
          × At (adding log (writes l s request) ++ reads_of l s pieces) K st)
        E
unfolding transfer
transfer-At wire c l s method request log K {E} stops =
    let sent = adding log (writes l s request) in
    Triple-bind _ _ _
      (in_world-At log K (λ k. adding k (writes l s request)) _ (λ w. refl)
        (λ st h. stops [] st (record { events = h.events ∙ sym (append-nil sent); pool = h.pool })))
      (λ u.
        Triple-bind _ _ _ (co_read_response-At wire c sent K l s stops (is_head method)) (λ text.
          Triple-any {X = (pieces : List Bytes) × (text ≡ joined pieces)}
            (λ x. At (sent ++ reads_of l s x.0) K) _ (λ st h. ((h.0, h.1), h.2))
            (λ x.
              Triple-lift _ (λ a e st h. (x.0, ap (parse c) (sym x.1) ∙ e, h))
                (λ st h. stops x.0 st h))))
