-- ===== src/Balancer/Router.antt =====
-- loadbalancer/router.py: which chat server a client is sent to. Redis, the sockets and the reading of
-- an address are parameters; the health of the servers is state.
use quickonnect.Prelude.{
  Bool, true, false, not, ◌&&◌, ◌||◌, Option, none, some, [], ◌∷◌, Text, codes, nat_eq, text_eq,
  string_eq, ◌==◌, if◌then◌else◌,
}
use quickonnect.Prelude.Dict.{Dict, get, put}
use quickonnect.Json
use quickonnect.Json.{Json, Fields, dict, num, str, obj}
use quickonnect.Packet
use quickonnect.Packet.{PacketType}
use quickonnect.Protocol.{Message}
use quickonnect.Rooms.{is_dm_room}
use quickonnect.Handler.{strip, is_empty, error_payload}
use quickonnect.Balancer.{ServerInfo, Servers, get_least_loaded}

-- What the router works with: the servers, and Redis, whose keys hold which server a room is on. The chat
-- servers share these keys: between two requests they set them, and delete one when its room empties.
pub record State : Type 0 where
  pub servers : Servers
  pub pins : Dict Text Text

-- Whether Redis answers a `get`, and a `set`.
pub record Redis : Type 0 where
  pub get_works : Bool
  pub set_works : Bool

unfoldable pub get_room_server : Redis → Text → State → Option Text
get_room_server r room_code st = if r.get_works then get room_code st.pins else none

unfoldable pub set_room_server : Redis → Text → Text → State → State
set_room_server r room_code server_id st =
    if r.set_works then record st { pins = put room_code server_id st.pins } else st

abbrev pub running : Option ServerInfo → Option ServerInfo
running none = none
running (some info) = if info.is_up then some info else none

-- The server of an id, if it is up; an empty id counts as none.
abbrev pub on_server : Option Text → Servers → Option ServerInfo
on_server none d = none
on_server (some server_id) d = if is_empty server_id then none else running (get server_id d)

-- The server that a room is on.
unfoldable pub pinned : Redis → Text → State → Option ServerInfo
unfolding get_room_server
pinned r room_code st = on_server (get_room_server r room_code st) st.servers

-- The server with the least load, for a room that it is to be kept for.
unfoldable pub assign : Redis → Text → State → Option ServerInfo × State
assign r room_code st = elim (get_least_loaded st.servers) [
  | none ↦ (none, st)
  | some target ↦ (some target, set_room_server r room_code target.server_id st)
]

-- `_resolve`, without a room code for one that is empty or missing.
unfoldable pub resolve : Redis → Option Text → State → Option ServerInfo × State
unfolding pinned assign
resolve r none st = (get_least_loaded st.servers, st)
resolve r (some room_code) st =
    if is_empty room_code || is_dm_room room_code
    then (get_least_loaded st.servers, st)
    else elim (pinned r room_code st) [ some info ↦ (some info, st) | none ↦ assign r room_code st ]

-- What the libraries make of an address: `str.lower`, and whether `ip_address` reads it as a loopback
-- or as an unspecified one.
pub record Network : Type 0 where
  pub lower : Text → Text
  pub ip : Text → Option (Bool × Bool)

abbrev local_ip : Option (Bool × Bool) → Bool
local_ip none = false
local_ip (some (is_loopback, is_unspecified)) = is_loopback || is_unspecified

unfoldable pub is_local_only_host : Network → Text → Bool
is_local_only_host net host =
    let normalized = net.lower (strip host) in
    if normalized == codes "localhost" then true else local_ip (net.ip normalized)

abbrev unspecified_ip : Option (Bool × Bool) → Bool
unspecified_ip none = false
unspecified_ip (some (is_loopback, is_unspecified)) = is_unspecified

unfoldable pub is_unspecified_host : Network → Text → Bool
is_unspecified_host net host = unspecified_ip (net.ip (strip host))

-- `local_host` is what `getsockname` gives; it is empty where that raises.
unfoldable pub advertised_host : Network → Text → Text → Text
unfolding is_local_only_host is_unspecified_host
advertised_host net configured_host local_host =
    if not (is_local_only_host net configured_host)
    then configured_host
    else if not (is_empty local_host) && not (is_unspecified_host net local_host)
    then local_host
    else codes "127.0.0.1"

abbrev pub expected_request : Text
expected_request = codes "Expected CONNECT_REQUEST"

abbrev pub no_servers : Text
no_servers = codes "No available servers"

abbrev pub answer : Network → Text → Option ServerInfo → PacketType × Json
answer net local_host none = (Packet.error, error_payload 503 no_servers)
answer net local_host (some target) = (
  Packet.connect_response,
  dict (
      ("server_ip", str (advertised_host net target.host local_host))
      ∷ ("server_port", num target.port)
      ∷ []),
)

-- The room code of a request; `none` is a value that counts as true and is no string, which raises.
unfoldable pub requested_room : Option Json → Option (Option Text)
requested_room none = some none
requested_room (some (str t)) = some (some t)
requested_room (some v) = if Json.truthy v then none else some none

unfoldable pub route : Redis → Network → Text → Fields → State → Option (PacketType × Json) × State
unfolding requested_room resolve advertised_host
route r net local_host payload st = elim (requested_room (Json.find "room_code" payload)) [
  | none ↦ (none, st)
  | some room_code ↦
      let (target, st') = resolve r room_code st in (some (answer net local_host target), st')
]

-- `handle_client`: the packet that is sent, if one is.
unfoldable pub handle_client :
    Redis → Network → Text → Message → State → Option (PacketType × Json) × State
unfolding route
handle_client r net local_host packet st =
    if Packet.code packet.packet_type == Packet.code Packet.connect_request
    then elim packet.payload [ obj payload ↦ route r net local_host payload st | _ ↦ (none, st) ]
    else (some (Packet.error, error_payload 400 expected_request), st)
