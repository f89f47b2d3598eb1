-- ===== src/RoutingMessage/Exchange.antt =====
-- A request to the routing socket and its reply: `exchange` and `EndpointRoute::lookup` of
-- wg-kotlin-daemon-rust/daemon/src/platform/endpoint_macos.rs. The deadline of five seconds is a
-- bound on the reads before it.
use wg_kotlin.Base.{
  ℕ, zero, suc, ◌+◌, ◌%◌, ◌^◌, ◌<◌, ◌≡◌, refl, ap, ◌∙◌, false, none, some, List, [], ◌∷◌, ◌++◌,
  arith, length, drop, length-append, All, ok, err,
}
use wg_kotlin.Base.Eff.{Eff, ◌>>=◌, ◌>>◌, lift}
use wg_kotlin.Protocol.{IpAddr}
use wg_kotlin.RoutingMessage.{
  RouteError, Header, InRange, Layout, IsLayout, get_code, timed_out, closed,
}
use wg_kotlin.RoutingMessage.Endpoint.{EndpointRoute, message, from_reply}
use wg_kotlin.RoutingMessage.Scan.{Scan, scan}
use wg_kotlin.RoutingMessage.Addresses.{drop-write}
use wg_kotlin.RoutingMessage.Answers.{
  Traffic, IsOther, IsReply, traffic_of, scan-traffic_of, written-long,
}

-- Of the operating system: `connect` makes the socket with its flag and time-outs.
pub record RouteSocket (W : Type 0) : Type 0 where
  pub getpid : ℕ
  pub connect : Eff W RouteError (Unit {0})
  pub write_all : List ℕ → Eff W RouteError (Unit {0})
  pub read : Eff W RouteError (List ℕ)

module _ {Rest W : Type 0} (layout : Layout Rest) (socket : RouteSocket W) where
  -- `scan` always ends, so that the last case is that of no reply.
  abbrev after_scan : Eff W RouteError (List ℕ) → Scan → Eff W RouteError (List ℕ)
  after_scan go (some (err e)) w = (err e, w)
  after_scan go (some (ok (some reply))) w = (ok reply, w)
  after_scan go _ w = go w

  abbrev received : Eff W RouteError (List ℕ) → (List ℕ → Scan) → List ℕ → Eff W RouteError (List ℕ)
  received go find [] w = (err closed, w)
  received go find (b ∷ bytes) w = after_scan go (find (b ∷ bytes)) w

  -- The outer loop; it goes on until a reply, an error or the deadline.
  unfoldable pub receive : ℕ → (List ℕ → Scan) → Eff W RouteError (List ℕ)
  receive zero find w = (err timed_out, w)
  receive (suc n) find w = (socket.read >>= λ buffer. received (receive n find) find buffer) w

  -- The request with the identity of this process and the next number.
  abbrev pub stamped : List ℕ → ℕ → List ℕ
  stamped request sequence =
      layout.write (record (layout.read request) { pid = socket.getpid; seq = sequence })
      ++ drop layout.size request

  abbrev pub transact : ℕ → List ℕ → ℕ → Eff W RouteError (List ℕ)
  unfolding receive
  transact reads request sequence = do
    socket.connect
    socket.write_all (stamped request sequence)
    receive reads (scan layout (layout.read request).kind socket.getpid sequence)

  -- `SEQUENCE.fetch_add(1)`, and the request; the number is used up whatever comes of it.
  unfoldable pub exchange : ℕ → List ℕ → Eff (ℕ × W) RouteError (List ℕ)
  exchange reads request (sequence, w) =
      let (r, w') = transact reads request sequence w in (r, ((sequence + 1) % 2 ^ 32, w'))

  -- `EndpointRoute::lookup`
  unfoldable pub lookup : ℕ → IpAddr → Eff (ℕ × W) RouteError EndpointRoute
  unfolding exchange
  lookup reads destination = do
    request ← lift (
        message layout
          (record {
            destination = destination;
            interface = 0;
            gateway = [];
            via_gateway = false;
            source = none;
            mtu = 0;
            hopcount = 0;
          })
          get_code)
    reply ← exchange reads request
    lift (from_reply layout destination reply)

  module _ (libc : IsLayout layout) where
    received-cons :
        (go : Eff W RouteError (List ℕ)) (find : List ℕ → Scan) (bytes : List ℕ) (w : W)
        → 0 < length bytes
        → received go find bytes w ≡ after_scan go (find bytes) w
    received-cons go find [] w h = absurd (omega arith)
    received-cons go find (b ∷ bytes) w h = refl

    receive-found :
        (reads : ℕ) (find : List ℕ → Scan) (bytes reply : List ℕ) (w w' : W)
        → socket.read w ≡ (ok bytes, w')
        → 0 < length bytes
        → find bytes ≡ some (ok (some reply))
        → receive (suc reads) find w ≡ (ok reply, w')
    unfolding receive
    receive-found reads find bytes reply w w' reading long found = rw reading (
        received-cons (receive reads find) find bytes w' long
        ∙ ap (λ s. after_scan (receive reads find) s w') found)

    -- A request that is sent, and answered in the first read, returns that answer, whatever other
    -- messages the read brings before it. The request carries the process and a number, which is
    -- not used again for the next request.
    pub exchange_answered :
        (reads sequence : ℕ) (request : Header Rest) (body rest : List ℕ)
        (traffic : List (Traffic layout request.kind socket.getpid sequence)) (answer : Header Rest)
        (payload : List ℕ) (w w₁ w₂ w₃ : W)
        → InRange request
        → socket.connect w ≡ (ok tt, w₁)
        → socket.write_all
            (layout.write (record request { pid = socket.getpid; seq = sequence }) ++ body)
            w₁
          ≡ (ok tt, w₂)
        → socket.read w₂ ≡ (
          ok (
              traffic_of layout request.kind socket.getpid sequence traffic
              ++ ((layout.write answer ++ payload) ++ rest)),
          w₃,
        )
        → All (IsOther layout request.kind socket.getpid sequence) traffic
        → IsReply layout request.kind socket.getpid sequence answer payload
        → answer.errno ≡ 0
        → exchange (suc reads) (layout.write request ++ body) (sequence, w)
          ≡ (ok (layout.write answer ++ payload), ((sequence + 1) % 2 ^ 32, w₃))
    unfolding exchange transact
    exchange_answered reads sequence request body rest traffic answer payload w w₁ w₂ w₃ range
          connects writes reading others good fine =
        let pid : ℕ = socket.getpid in
        let kind : ℕ = request.kind in
        let bytes : List ℕ =
          traffic_of layout kind pid sequence traffic
          ++ ((layout.write answer ++ payload) ++ rest) in
        let found : scan layout kind pid sequence bytes
            ≡ some (ok (some (layout.write answer ++ payload))) =
          scan-traffic_of layout kind pid sequence libc traffic answer payload rest others good
          ∙ rw fine refl in
        let long : 0 < length bytes = omega (
          arith,
          length-append (traffic_of layout kind pid sequence traffic)
              ((layout.write answer ++ payload) ++ rest),
          written-long layout kind pid sequence libc answer payload rest,
        ) in
        let last =
          receive-found reads (scan layout kind pid sequence) bytes (layout.write answer ++ payload)
            w₂ w₃ reading long found in
        rw
          (
            libc.reads_back request body range,
            drop-write layout libc request body,
            connects,
            writes,
            last,
          )
          refl
