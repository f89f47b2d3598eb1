-- ===== src/Tests/Messages.antt =====
-- Routing messages to 198.51.100.10 and of a tunnel.
use wg_kotlin.Base.{
  false, ℕ, ◌+◌, ◌^◌, ◌<◌, ◌≡◌, refl, inr, true, none, some, List, [], ◌∷◌, ◌++◌, map, arith,
  length, keep, Result, ok, err,
}
use wg_kotlin.Protocol.{IpAddr}
use wg_kotlin.RoutingMessage.{
  RouteError, Header, InRange, header, addresses, ip_address, link_address, append, add_code,
  get_code, rtm_version,
}
use wg_kotlin.RoutingMessage.Endpoint.{EndpointRoute, message, from_reply, zero_header}
use wg_kotlin.RoutingMessage.Replies.{from_reply-message}
use wg_kotlin.MacRoutes.{rtm_delete}
use wg_kotlin.MacRoutes.Snapshot.{key, same_path}
use wg_kotlin.MacRoutes.Snapshot
use wg_kotlin.MacRoutes.Backup.{message_keeps_route}
use wg_kotlin.MacRoutes.Dump.{
  Dumped, IsDumped, bytes_of, is_ip, table_of, dump, dump_from, dump_from-ends, dump-table_of,
}
use wg_kotlin.RoutingMessage.Exchange.{RouteSocket, exchange, exchange_answered}
use wg_kotlin.RoutingMessage.Answers.{IsReply, notice}
use wg_kotlin.MacRoutes.Tun.{RouteView, tun_route}
use wg_kotlin.MacRoutes.System.{Sysctl, dump_routes, find}
use wg_kotlin.MacRoutes.Snapshot.{RouteKey}
use wg_kotlin.MacRoutes.Search.{Searched, find-Searched}
use wg_kotlin.RoutingMessage.Exchange.{RouteSocket}
use wg_kotlin.Frame.{IoError}
use wg_kotlin.Text.{Str}
use wg_kotlin.Tests.Layouts.{rt_msghdr, rt_msghdr-IsLayout}

abbrev remote : IpAddr
remote = IpAddr.v4 (198 ∷ 51 ∷ 100 ∷ 10 ∷ [])

abbrev router : List ℕ
unfolding ip_address
router = ip_address (IpAddr.v4 (192 ∷ 0 ∷ 2 ∷ 1 ∷ []))

abbrev local_address : List ℕ
unfolding ip_address
local_address = ip_address (IpAddr.v4 (192 ∷ 0 ∷ 2 ∷ 2 ∷ []))

-- RTF_UP, RTF_GATEWAY, RTF_HOST and RTF_DONE
abbrev headed : ℕ → ℕ → Header (Unit {0})
headed size addrs = record (zero_header rt_msghdr) {
  msglen = size;
  version = rtm_version;
  kind = get_code;
  index = 7;
  flags = 1 + 2 + 4 + 64;
  addrs = addrs;
  pid = 99;
  seq = 5;
  mtu = 1400;
}

headed-InRange : (size addrs : ℕ) → size < 2 ^ 16 → addrs < 2 ^ 32 → InRange (headed size addrs)
headed-InRange size addrs a b = record {
  msglen = a;
  version = omega arith;
  kind = omega arith;
  index = omega arith;
  flags = omega arith;
  addrs = b;
  pid = omega arith;
  seq = omega arith;
  errno = omega arith;
  inits = omega arith;
  mtu = omega arith;
  hopcount = omega arith;
}

-- With a destination, a gateway and a source.
abbrev reply_header : Header (Unit {0})
reply_header = headed (92 + 48) (1 + 2 + 32)

abbrev payload : List ℕ
payload = ip_address remote ++ router ++ local_address

abbrev reply_bytes : List ℕ
reply_bytes = rt_msghdr.write reply_header ++ payload

abbrev route : EndpointRoute
route = record {
  destination = remote;
  interface = 7;
  gateway = router;
  via_gateway = true;
  source = some local_address;
  mtu = 1400;
  hopcount = 0;
}

looked : from_reply rt_msghdr remote reply_bytes ≡ ok route
unfolding from_reply header addresses ip_address
looked = refl

abbrev value_or : {A : Type 0} → A → Result RouteError A → A
value_or other (ok a) = a
value_or other (err e) = other

abbrev sent : List ℕ
unfolding message
sent = value_or [] (message rt_msghdr route add_code)

made : message rt_msghdr route add_code ≡ ok sent
unfolding message append ip_address link_address
made = refl

from_reply-message_example : from_reply rt_msghdr remote sent ≡ ok route
from_reply-message_example =
    from_reply-message rt_msghdr rt_msghdr-IsLayout remote reply_bytes sent route refl looked made

-- The message that removes the route of the reply.
abbrev removal : List ℕ
unfolding Snapshot.message
removal = value_or [] (Snapshot.message rt_msghdr reply_bytes rtm_delete)

removing : Snapshot.message rt_msghdr reply_bytes rtm_delete ≡ ok removal
unfolding Snapshot.message header addresses append ip_address link_address
removing = refl

message_keeps_route_example :
    (key rt_msghdr removal ≡ key rt_msghdr reply_bytes)
    × ((other : List ℕ) → same_path rt_msghdr removal other ≡ same_path rt_msghdr reply_bytes other)
message_keeps_route_example =
    message_keeps_route rt_msghdr rt_msghdr-IsLayout reply_bytes removal rtm_delete removing

-- A table of that route and of one to an interface.
abbrev routed : Dumped rt_msghdr
routed = record {
  head = reply_header;
  payload = payload;
  slots =
      some (ip_address remote)
      ∷ some router
      ∷ none
      ∷ none
      ∷ none
      ∷ some local_address
      ∷ none
      ∷ none
      ∷ [];
}

abbrev linked : Dumped rt_msghdr
linked = record {
  head = headed 112 1;
  payload = link_address 7;
  slots = some (link_address 7) ∷ none ∷ none ∷ none ∷ none ∷ none ∷ none ∷ none ∷ [];
}

routed-IsDumped : IsDumped rt_msghdr routed
unfolding addresses ip_address
routed-IsDumped = record {
  range = headed-InRange 140 35 (omega arith) (omega arith);
  size = refl;
  version = refl;
  read = refl;
}

linked-IsDumped : IsDumped rt_msghdr linked
unfolding addresses link_address
linked-IsDumped = record {
  range = headed-InRange 112 1 (omega arith) (omega arith);
  size = refl;
  version = refl;
  read = refl;
}

dump-table_of_example :
    dump rt_msghdr (table_of rt_msghdr (linked ∷ routed ∷ []))
    ≡ some (ok (map (bytes_of rt_msghdr) (keep (is_ip rt_msghdr) (linked ∷ routed ∷ []))))
dump-table_of_example =
    dump-table_of rt_msghdr rt_msghdr-IsLayout (linked ∷ routed ∷ [])
      (linked-IsDumped, (routed-IsDumped, tt))

-- Of the two, the route to the interface is left out.
only_routed :
    map (bytes_of rt_msghdr) (keep (is_ip rt_msghdr) (linked ∷ routed ∷ [])) ≡ reply_bytes ∷ []
unfolding ip_address link_address
only_routed = refl

dump_from-ends_example :
    (r : Result RouteError (List (List ℕ))) × (dump_from rt_msghdr 140 reply_bytes ≡ some r)
unfolding ip_address
dump_from-ends_example = dump_from-ends rt_msghdr rt_msghdr-IsLayout 140 reply_bytes (omega arith)

-- A socket that brings a notification and the reply.
abbrev brought : List ℕ
brought = (4 ∷ 0 ∷ 5 ∷ 12 ∷ []) ++ (reply_bytes ++ [])

abbrev socket : RouteSocket ℕ
socket = record {
  getpid = 99;
  connect = λ n. (ok tt, n);
  write_all = λ bytes n. (ok tt, n + length bytes);
  read = λ n. (ok brought, n);
}

reply_header-IsReply : IsReply rt_msghdr get_code 99 5 reply_header payload
unfolding ip_address
reply_header-IsReply = record {
  range = headed-InRange 140 35 (omega arith) (omega arith);
  size = refl;
  version = refl;
  kind = refl;
  of_process = refl;
  of_request = refl;
}

exchange_answered_example :
    exchange rt_msghdr socket 1 (rt_msghdr.write (headed 92 0) ++ []) (5, 0)
    ≡ (ok reply_bytes, (6, 92))
unfolding ip_address
exchange_answered_example =
    exchange_answered rt_msghdr socket rt_msghdr-IsLayout 0 5 (headed 92 0) [] []
      (notice 4 0 5 12 [] ∷ []) reply_header payload 0 0 92 92
      (headed-InRange 92 0 (omega arith) (omega arith)) refl refl refl ((refl, inr (λ e. cc)), tt)
      reply_header-IsReply refl

-- A tunnel's route to 10.1.2.0/24 through interface 9.
abbrev tunnel : RouteView (Unit {0})
tunnel = record {
  if_name = λ r. some [];
  destination = λ r. IpAddr.v4 (10 ∷ 1 ∷ 2 ∷ 3 ∷ []);
  mask = λ r. IpAddr.v4 (255 ∷ 255 ∷ 255 ∷ 0 ∷ []);
  prefix = λ r. 24;
}

abbrev index_of : Str → Result IoError ℕ
index_of name = ok 9

abbrev tunnel_bytes : List ℕ
unfolding tun_route
tunnel_bytes = value_or [] (tun_route rt_msghdr tunnel index_of tt)

tunnelling : tun_route rt_msghdr tunnel index_of tt ≡ ok tunnel_bytes
unfolding tun_route append ip_address link_address
tunnelling = refl

-- A table of one route, which sysctl gives at once.
abbrev one_route : Sysctl (ℕ × ℕ)
one_route = record { size = λ w. (ok 92, w); table = λ size w. (ok reply_bytes, w) }

abbrev silent : RouteSocket ℕ
silent = record {
  getpid = 41;
  connect = λ w. (ok tt, w);
  write_all = λ bytes w. (ok tt, w);
  read = λ w. (ok [], w);
}

abbrev asked : RouteKey
asked = record {
  family = 2;
  destination = 198 ∷ 51 ∷ 100 ∷ 0 ∷ [];
  mask = 255 ∷ 255 ∷ 255 ∷ 0 ∷ [];
  host = false;
  scope = 0;
}

find-Searched_example :
    Searched rt_msghdr one_route silent 3 asked
      (dump_routes rt_msghdr one_route (1, 0))
      (find rt_msghdr one_route silent 3 asked (1, 0))
find-Searched_example = find-Searched rt_msghdr one_route silent 3 asked (1, 0)
