-- ===== src/Examples/Reconnecting.antt =====
-- A connection that is lost, and made again at the third attempt.
use quickonnect.Prelude.{
  ℕ, ◌≡◌, refl, Bool, true, false, some, [], ◌∷◌, codes, text_beq, nat_eq, ◌==◌, if◌then◌else◌,
}
use quickonnect.Json
use quickonnect.Json.{Fields, bool, str}
use quickonnect.Connection.{
  Connection, Attempt, no_handshake, handshake, received, silent, reconnect_loop, connected,
  attempts, attempt, try_auth, do_reconnect_auth, do_rejoin_rooms, rejoin, send, handle_disconnect,
}
use quickonnect.Connection.Reconnect.{Result, Waited, reconnect_loop_lem}

abbrev lost : Connection
lost = record {
  alive = false;
  has_key = false;
  running = false;
  reconnect_enabled = true;
  auth_payload = some (Json.fields (("token", str (codes "t")) ∷ []));
  auth_type = codes "jwt";
  room_codes = codes "LOBBY1" ∷ [];
  is_reconnecting = true;
  log = [];
}

abbrev welcome : Fields
welcome = Json.fields (("success", bool true) ∷ [])

-- What the attempts meet: the join is not taken in `false`.
abbrev network : Bool → ℕ → Attempt
network taken n = if n == 3 then handshake (received welcome) (taken ∷ []) else no_handshake

reconnect_example :
    Result
      (network true)
      1
      10
      (codes "Connection lost")
      (reconnect_loop (network true) (codes "Connection lost") lost)
    × Waited 10 lost.log (reconnect_loop (network true) (codes "Connection lost") lost).1.log
reconnect_example = reconnect_loop_lem (network true) (codes "Connection lost") lost

-- A connection that is lost while the rooms are joined again is not made again.
unjoined_test : connected (reconnect_loop (network false) (codes "Connection lost") lost).1 ≡ false
unfolding reconnect_loop attempts attempt try_auth do_reconnect_auth do_rejoin_rooms rejoin send
    handle_disconnect connected Json.truthy Json.get_or Json.find text_beq
unjoined_test = refl

-- A server that accepts the connection and never answers the authentication stops the loop.
stuck_test : (reconnect_loop (λ n. handshake silent []) (codes "Connection lost") lost).0 ≡ false
unfolding reconnect_loop attempts attempt try_auth do_reconnect_auth text_beq
stuck_test = refl
