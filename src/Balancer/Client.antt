-- ===== src/Balancer/Client.antt =====
-- client/network/lb_client.py: the client's request for a server, and what the load balancer makes of it.
use quickonnect.Prelude.{
  Bool, false, Option, none, some, [], ◌∷◌, Text, codes, text_eq, string_eq, nat_eq, ◌==◌,
  if◌then◌else◌, elem,
}
use quickonnect.Json
use quickonnect.Json.{Json, Fields, fields, str, obj}
use quickonnect.Packet
use quickonnect.Packet.{PacketType}
use quickonnect.Balancer.Router.{State, Redis, Network, handle_client, advertised_host}

abbrev pub request_payload : Option Text → Fields
request_payload (some (c ∷ t)) = fields (("room_code", str (c ∷ t)) ∷ [])
request_payload _ = fields []

-- The hosts that stand for the machine that names them.
unfoldable pub is_own_host : Json → Bool
is_own_host (str host) =
    elem host (codes "0.0.0.0" ∷ codes "127.0.0.1" ∷ codes "localhost" ∷ codes "::" ∷ [] ∷ [])
is_own_host _ = false

abbrev pub address : Text → Option Json → Option Json → Option (Json × Json)
address lb_host (some host) (some port) =
    some ((if is_own_host host then str lb_host else host), port)
address lb_host _ _ = none

-- The host and the port that a response gives; `none` raises.
unfoldable pub read_response : Text → PacketType × Json → Option (Json × Json)
unfolding is_own_host
read_response lb_host (t, obj payload) =
    if Packet.code t == Packet.code Packet.connect_response
    then address lb_host (Json.find "server_ip" payload) (Json.find "server_port" payload)
    else none
read_response lb_host (t, _) = none

abbrev pub read_reply : Text → Option (PacketType × Json) → Option (Json × Json)
read_reply lb_host none = none
read_reply lb_host (some response) = read_response lb_host response

-- `request_server`, of a load balancer that is reached, and reached by the address `local_host`.
unfoldable pub request_server :
    Redis → Network → Text → Text → Option Text → State → Option (Json × Json)
unfolding read_response
request_server r net local_host lb_host room_code st =
    read_reply lb_host
      (handle_client r net local_host
        (record { packet_type = Packet.connect_request; payload = obj (request_payload room_code) })
        st).0

-- An empty code is not sent.
abbrev asked_room : Option Text → Option Text
asked_room (some (c ∷ t)) = some (c ∷ t)
asked_room _ = none

-- What the client makes of the address of a server: its own name for the balancer's machine where the
-- address that is advertised stands for that.
abbrev pub reached_host : Network → Text → Text → Text → Json
reached_host net local_host lb_host host =
    let advertised = str (advertised_host net host local_host) in
    if is_own_host advertised then str lb_host else advertised
