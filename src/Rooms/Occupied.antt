-- ===== src/Rooms/Occupied.antt =====
-- No room is kept without a client, and what a user leaves behind in a room.
use mathlib.Core.Path.{subst}
use quickonnect.Prelude.{
  ℕ, false, none, some, List, [], ◌∷◌, Text, nat_eq, text_eq, ◌==◌, ◌≡◌, ◌≢◌, refl, sym, ap, ◌∙◌,
  arith, text_beq_iff, nat_beq_iff, Bool-cases, inl, inr, ◌⊎◌, Option-cases,
}
use quickonnect.Prelude.Dict.{Dict, get, put, erase, has, get-put, get-erase, keys}
use quickonnect.Camera
use quickonnect.Mixer
use quickonnect.World.{World, RoomData, Session}
use quickonnect.Rooms.{
  get_room_clients, leave_room, drop_user, mark_participant_left, keep_or_destroy, remove_from,
  remove_client_from_all_rooms,
}
use quickonnect.Rooms.Leaving.{leave_room-none, leave_room-some}

-- Every room has a client.
pub record IsOccupied (rooms : Dict Text RoomData) : Type 0 where
  pub at : (c : Text) (rd : RoomData) → get c rooms ≡ some rd → rd.clients ≢ []

pub put-IsOccupied :
    (code : Text) (rd : RoomData) (rooms : Dict Text RoomData)
    → rd.clients ≢ []
    → IsOccupied rooms
    → IsOccupied (put code rd rooms)
put-IsOccupied code rd rooms n o = record {
  at = λ c rd' h. elim (Bool-cases (c == code)) [
    | inl here ↦
        let same : some rd ≡ some rd' = ground (arith, get-put code c rd rooms) in
        let q : rd ≡ rd' = cc same in subst (λ r. r.clients ≢ []) q n
    | inr other ↦ o.at c rd' (ground (arith, get-put code c rd rooms))
  ];
}

erase-IsOccupied :
    (code : Text) (rooms : Dict Text RoomData) → IsOccupied rooms → IsOccupied (erase code rooms)
erase-IsOccupied code rooms o = record {
  at = λ c rd h. o.at c rd (ground (arith, get-erase code c rooms));
}

-- The two outcomes for a room's data.
keep-some :
    (code : Text) (rd : RoomData) (w : World)
    → rd.clients ≢ []
    → (keep_or_destroy code rd w).rooms ≡ put code rd w.rooms
unfolding keep_or_destroy
keep-some code rd w h = ground arith

keep-none :
    (code : Text) (rd : RoomData) (w : World)
    → rd.clients ≡ []
    → (keep_or_destroy code rd w).rooms ≡ erase code w.rooms
unfolding keep_or_destroy
keep-none code rd w h = ground arith

pub clients-cases : (d : Dict ℕ Session) → (d ≡ []) ⊎ (d ≢ [])
clients-cases [] = inl refl
clients-cases (e ∷ d) = inr (λ h. cc h)

keep_or_destroy-IsOccupied :
    (code : Text) (rd : RoomData) (w : World)
    → IsOccupied w.rooms
    → IsOccupied (keep_or_destroy code rd w).rooms
keep_or_destroy-IsOccupied code rd w o = elim (clients-cases rd.clients) [
  | inl empty ↦ rw (keep-none code rd w empty) (erase-IsOccupied code w.rooms o)
  | inr held ↦ rw (keep-some code rd w held) (put-IsOccupied code rd w.rooms held o)
]

-- Where every room has a client, every room that is left after a leave has one.
pub leave_room-IsOccupied :
    (code : Text) (u : ℕ) (w : World)
    → IsOccupied w.rooms
    → IsOccupied (leave_room code u w).1.rooms
unfolding mark_participant_left
leave_room-IsOccupied code u w o = elim (Option-cases (get code w.rooms)) [
  | inl gone ↦ rw (leave_room-none code u w gone) o
  | inr (rd, there) ↦
      rw (leave_room-some code u w rd there)
        (keep_or_destroy-IsOccupied code (drop_user u rd) (mark_participant_left rd.room.id u w) o)
]

remove_from-IsOccupied :
    (u : ℕ) (cs : List Text) (w : World)
    → IsOccupied w.rooms
    → IsOccupied (remove_from u cs w).1.rooms
unfolding remove_from
remove_from-IsOccupied u [] w o = o
remove_from-IsOccupied u (c ∷ cs) w o = elim (Bool-cases (has u (get_room_clients c w))) [
  | inl inside ↦
      rw inside (remove_from-IsOccupied u cs (leave_room c u w).1 (leave_room-IsOccupied c u w o))
  | inr outside ↦ rw outside (remove_from-IsOccupied u cs w o)
]

-- Where every room has a client, every room that is left after a disconnect has one.
pub remove_client-IsOccupied :
    (u : ℕ) (w : World) → IsOccupied w.rooms → IsOccupied (remove_client_from_all_rooms u w).1.rooms
unfolding remove_client_from_all_rooms
remove_client-IsOccupied u w o = remove_from-IsOccupied u (keys w.rooms) w o

drop_user_media :
    (u : ℕ) (rd : RoomData)
    → (Camera.is_active u (drop_user u rd).camera ≡ false)
      × (get u (drop_user u rd).audio.buffers ≡ none)
unfolding drop_user Camera.is_active Camera.stop_camera Mixer.remove_participant
drop_user_media u rd =
    ground (arith, get-erase u u rd.camera.active, get-erase u u rd.audio.buffers, nat_beq_iff u u)

kept_data :
    (code : Text) (rd : RoomData) (w : World) (rd' : RoomData)
    → get code (keep_or_destroy code rd w).rooms ≡ some rd'
    → rd' ≡ rd
kept_data code rd w rd' h = elim (clients-cases rd.clients) [
  | inl empty ↦ absurd (
      ground
        (arith, keep-none code rd w empty, get-erase code code w.rooms, text_beq_iff code code))
  | inr held ↦
      let q : some rd' ≡ some rd =
        ground
          (arith, keep-some code rd w held, get-put code code rd w.rooms, text_beq_iff code code) in
      cc q
]

-- The media of a user who left a room that goes on: the camera is off and no audio is buffered.
pub leave_room_media :
    (code : Text) (u : ℕ) (w : World) (rd : RoomData)
    → get code (leave_room code u w).1.rooms ≡ some rd
    → (Camera.is_active u rd.camera ≡ false) × (get u rd.audio.buffers ≡ none)
leave_room_media code u w rd h = elim (Option-cases (get code w.rooms)) [
  | inl gone ↦ absurd (cc (ap (λ r. get code r.1.rooms) (leave_room-none code u w gone), gone, h))
  | inr (rd₀, there) ↦
      let w' = mark_participant_left rd₀.room.id u w in
      let kept =
        kept_data code (drop_user u rd₀) w' rd
          (ap (λ r. get code r.1.rooms) (sym (leave_room-some code u w rd₀ there)) ∙ h) in
      rw kept (drop_user_media u rd₀)
]
