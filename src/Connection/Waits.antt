-- ===== src/Connection/Waits.antt =====
-- The waits in the log of a connection, through the parts of an attempt to make it again.
use quickonnect.Prelude.{
  ℕ, ◌≡◌, refl, ◌∙◌, arith, Bool, true, false, Option, none, some, List, [], ◌∷◌, Text, codes,
  text_eq, ◌==◌, inl, inr, Bool-cases,
}
use quickonnect.Json
use quickonnect.Json.{Json, Fields, end, field}
use quickonnect.Packet
use quickonnect.Connection.{
  Connection, Event, waited, Attempt, no_handshake, silent_handshake, handshake, Answer, raised,
  received, silent, after_auth, attempt, try_auth, do_reconnect_auth, do_rejoin_rooms, rejoin, send,
  handle_disconnect, connected, authenticate_with, with_payload, after_token, after_login,
  with_token, join_payload,
}

-- The waits, the newest first.
unfoldable pub waits : List Event → List ℕ
waits [] = []
waits (waited n ∷ log) = n ∷ waits log
waits (_ ∷ log) = waits log

waits-send :
    (works : Bool) (t : Packet.PacketType) (p : Json) (c : Connection)
    → waits (send works t p c).0.log ≡ waits c.log
unfolding send handle_disconnect connected waits
waits-send works t p c = ground arith

waits-rejoin :
    (codes : List Text) (answers : List Bool) (c : Connection)
    → waits (rejoin codes answers c).log ≡ waits c.log
unfolding rejoin
waits-rejoin [] answers c = refl
waits-rejoin (code ∷ rest) [] c =
    waits-rejoin rest [] (send true Packet.join_room (join_payload code) c).0
    ∙ waits-send true Packet.join_room (join_payload code) c
waits-rejoin (code ∷ rest) (works ∷ answers) c =
    waits-rejoin rest answers (send works Packet.join_room (join_payload code) c).0
    ∙ waits-send works Packet.join_room (join_payload code) c

waits-with_token : (token : Json) (c : Connection) → waits (with_token token c).log ≡ waits c.log
waits-with_token token c = elim (Bool-cases (Json.truthy token)) [
  | inl some_token ↦ rw some_token refl
  | inr no_token ↦ rw no_token refl
]

waits-after_login :
    (answer : Answer) (c : Connection) → waits (after_login answer c).1.log ≡ waits c.log
waits-after_login raised c = refl
waits-after_login silent c = refl
waits-after_login (received response) c =
    elim (Bool-cases (Json.truthy (Json.get_or "success" Json.null response))) [
      | inl welcome ↦ rw welcome (waits-with_token (Json.get_or "token" Json.null response) c)
      | inr refused ↦ rw refused refl
    ]

waits-after_token :
    (answer : Answer) (c : Connection) → waits (after_token answer c).1.log ≡ waits c.log
waits-after_token raised c = refl
waits-after_token silent c = refl
waits-after_token (received response) c = refl

waits-authenticate_with :
    (answer : Answer) (payload : Fields) (c : Connection)
    → waits (authenticate_with answer payload c).1.log ≡ waits c.log
unfolding waits
waits-authenticate_with answer payload c = elim (Bool-cases (c.auth_type == codes "jwt")) [
  | inl token ↦ rw token (waits-after_token answer _)
  | inr other ↦ elim (Bool-cases (c.auth_type == codes "login")) [
    | inl login ↦ rw other (rw login (waits-after_login answer _))
    | inr neither ↦ rw other (rw neither refl)
  ]
]

waits-with_payload :
    (answer : Answer) (payload : Option Fields) (c : Connection)
    → waits (with_payload answer payload c).1.log ≡ waits c.log
waits-with_payload answer none c = refl
waits-with_payload answer (some end) c = refl
waits-with_payload answer (some (field k v l)) c = waits-authenticate_with answer (field k v l) c

waits-do_reconnect_auth :
    (answer : Answer) (c : Connection) → waits (do_reconnect_auth answer c).1.log ≡ waits c.log
unfolding do_reconnect_auth
waits-do_reconnect_auth answer c = waits-with_payload answer c.auth_payload c

waits-after_auth :
    (joins : List Bool) (tried : Option Bool × Connection)
    → waits (after_auth joins tried).1.log ≡ waits tried.1.log
unfolding do_rejoin_rooms waits
waits-after_auth joins (none, c) = refl
waits-after_auth joins (some true, c) = waits-rejoin c.room_codes joins c
waits-after_auth joins (some false, c) = refl

pub waits-attempt : (a : Attempt) (c : Connection) → waits (attempt a c).1.log ≡ waits c.log
unfolding attempt try_auth waits
waits-attempt no_handshake c = refl
waits-attempt silent_handshake c = refl
waits-attempt (handshake answer joins) c =
    let fresh = record c { alive = true; has_key = true; running = true } in
    waits-after_auth joins (do_reconnect_auth answer fresh) ∙ waits-do_reconnect_auth answer fresh
