-- ===== src/Rooms/Refinement.antt =====
-- The rooms as a client sees them: who is in which room, and by which connection. The tables of the
-- server carry this view through every sequence of joins, leaves and disconnects.
use quickonnect.Prelude.{
  ℕ, ◌&&◌, Option, none, some, List, [], ◌∷◌, Text, nat_eq, text_eq, ◌==◌, if◌then◌else◌, ◌≡◌, refl,
  sym, ap, ◌∙◌, inl, inr, Bool-cases,
}
use quickonnect.Prelude.Dict.{get}
use mathlib.Core.Path.{subst, ap₂}
use quickonnect.World.{World, Env, Session, start}
use quickonnect.Rooms.Admission.{may_join, join_room-may_join}
use quickonnect.Rooms.{RoomState, join_room, leave_room, remove_client_from_all_rooms}
use quickonnect.Rooms.Maps.{member}
use quickonnect.Rooms.Joining.{accepted, join_room_members, join_room-IsOccupied}
use quickonnect.Rooms.Leaving.{leave_room_members, remove_client_members}
use quickonnect.Rooms.Occupied.{IsOccupied, leave_room-IsOccupied, remove_client-IsOccupied}

pub data Request : Type 0 where
  join : Text → Session → Request
  leave : Text → ℕ → Request
  disconnect : ℕ → Request

-- The method of `RoomManager` that serves a request.
unfoldable pub perform : Env → Request → World → World
perform env (join room_code s) w = (join_room env room_code s w).1
perform env (leave room_code user_id) w = (leave_room room_code user_id w).1
perform env (disconnect user_id) w = (remove_client_from_all_rooms user_id w).1

unfoldable pub perform_all : Env → List Request → World → World
unfolding perform
perform_all env [] w = w
perform_all env (r ∷ rs) w = perform_all env rs (perform env r w)

-- The connection by which a user is in a room.
abbrev pub View : Type 0
View = Text → ℕ → Option Session

abbrev pub view : World → View
view w = λ c u. member c u w.rooms

abbrev pub with_member : Text → Session → View → View
with_member room_code s m c u = if c == room_code && u == s.user_id then some s else m c u

abbrev pub without_member : Text → ℕ → View → View
without_member room_code user_id m c u = if c == room_code && u == user_id then none else m c u

abbrev pub without_user : ℕ → View → View
without_user user_id m c u = if u == user_id then none else m c u

-- What a request comes to for the one who made it.
pub data Reply : Type 0 where
  admitted : Reply
  turned_away : Reply
  done : Reply

-- The reply that the result of `join_room` gives: a room state, or an error.
abbrev pub join_reply : (Option RoomState × Option Text) × World → Reply
join_reply r = if accepted r then admitted else turned_away

unfoldable pub reply : Env → Request → World → Reply
reply env (join room_code s) w = join_reply (join_room env room_code s w)
reply env (leave room_code user_id) w = done
reply env (disconnect user_id) w = done

-- The reply that is due, told without the methods.
unfoldable pub verdict : Env → Request → World → Reply
verdict env (join room_code s) w =
    if may_join env room_code s.user_id w then admitted else turned_away
verdict env (leave room_code user_id) w = done
verdict env (disconnect user_id) w = done

unfoldable pub replies : Env → List Request → World → List Reply
unfolding reply perform
replies env [] w = []
replies env (r ∷ rs) w = reply env r w ∷ replies env rs (perform env r w)

unfoldable pub verdicts : Env → List Request → World → List Reply
unfolding verdict perform
verdicts env [] w = []
verdicts env (r ∷ rs) w = verdict env r w ∷ verdicts env rs (perform env r w)

-- What a request with a given reply does to the view.
pub data Step : Request → Reply → View → View → Type 0 where
  joined :
      {room_code : Text} {s : Session} {m : View}
      → Step (join room_code s) admitted m (with_member room_code s m)
  refused : {room_code : Text} {s : Session} {m : View} → Step (join room_code s) turned_away m m
  left :
      {room_code : Text} {user_id : ℕ} {m : View}
      → Step (leave room_code user_id) done m (without_member room_code user_id m)
  gone : {user_id : ℕ} {m : View} → Step (disconnect user_id) done m (without_user user_id m)

pub data Steps : List Request → List Reply → View → View → Type 0 where
  finished : {m : View} → Steps [] [] m m
  next :
      {r : Request} {rs : List Request} {a : Reply} {answers : List Reply} {m n o : View}
      → Step r a m n
      → Steps rs answers n o
      → Steps (r ∷ rs) (a ∷ answers) m o

view_ext : {m n : View} → ((c : Text) (u : ℕ) → m c u ≡ n c u) → m ≡ n
view_ext h i = λ c u. h c u i

join-Step :
    (env : Env) (room_code : Text) (s : Session) (w : World)
    → Step
        (join room_code s)
        (reply env (join room_code s) w)
        (view w)
        (view (perform env (join room_code s) w))
unfolding perform reply
join-Step env room_code s w = elim (Bool-cases (accepted (join_room env room_code s w))) [
  | inl taken ↦ rw taken (
      subst (Step (join room_code s) admitted (view w))
        (sym (
          view_ext (λ c u.
            join_room_members env room_code s w c u
            ∙ ap
                (λ b.
                  if b && (c == room_code && u == s.user_id) then some s else member c u w.rooms)
                taken)))
        joined)
  | inr not_taken ↦ rw not_taken (
      subst (Step (join room_code s) turned_away (view w))
        (sym (
          view_ext (λ c u.
            join_room_members env room_code s w c u
            ∙ ap
                (λ b.
                  if b && (c == room_code && u == s.user_id) then some s else member c u w.rooms)
                not_taken)))
        refused)
]

perform-Step :
    (env : Env) (r : Request) (w : World) → Step r (reply env r w) (view w) (view (perform env r w))
unfolding perform reply
perform-Step env (join room_code s) w = join-Step env room_code s w
perform-Step env (leave room_code user_id) w =
    subst (Step (leave room_code user_id) done (view w))
      (sym (view_ext (leave_room_members room_code user_id w))) left
perform-Step env (disconnect user_id) w =
    subst (Step (disconnect user_id) done (view w))
      (sym (view_ext (remove_client_members user_id w))) gone

reply_lem : (env : Env) (r : Request) (w : World) → reply env r w ≡ verdict env r w
unfolding reply verdict
reply_lem env (join room_code s) w =
    ap (λ b. if b then admitted else turned_away) (join_room-may_join env room_code s w)
reply_lem env (leave room_code user_id) w = refl
reply_lem env (disconnect user_id) w = refl

-- Any sequence of joins, leaves and disconnects, whatever Redis and the database answer, takes the view
-- of who is in which room, and by which connection, through the steps of the specification, with the
-- replies that the methods return: a join that is answered with a room state puts the user in the room,
-- one that is answered with an error changes nothing, a leave removes the user from that room, and a
-- disconnect from every room, and nothing else changes. A join is answered with an error exactly
-- where the user may not join: Redis has the room, which is none of a direct message, on another
-- server, or it is not open here and the database neither has it nor takes it.
pub perform_all-Steps :
    (env : Env) (rs : List Request) (w : World)
    → Steps rs (replies env rs w) (view w) (view (perform_all env rs w))
      × (replies env rs w ≡ verdicts env rs w)
unfolding perform_all replies verdicts
perform_all-Steps env [] w = (finished, refl)
perform_all-Steps env (r ∷ rs) w =
    let (steps, same) = perform_all-Steps env rs (perform env r w) in
    (next (perform-Step env r w) steps, ap₂ (λ a l. a ∷ l) (reply_lem env r w) same)

perform-IsOccupied :
    (env : Env) (r : Request) (w : World) → IsOccupied w.rooms → IsOccupied (perform env r w).rooms
unfolding perform
perform-IsOccupied env (join room_code s) w o = join_room-IsOccupied env room_code s w o
perform-IsOccupied env (leave room_code user_id) w o = leave_room-IsOccupied room_code user_id w o
perform-IsOccupied env (disconnect user_id) w o = remove_client-IsOccupied user_id w o

keeps-IsOccupied :
    (env : Env) (rs : List Request) (w : World)
    → IsOccupied w.rooms
    → IsOccupied (perform_all env rs w).rooms
unfolding perform_all
keeps-IsOccupied env [] w o = o
keeps-IsOccupied env (r ∷ rs) w o =
    keeps-IsOccupied env rs (perform env r w) (perform-IsOccupied env r w o)

start-IsOccupied : IsOccupied start.rooms
unfolding get
start-IsOccupied = record { at = λ c rd h. cc h }

-- From a start without rooms, every room there is after any sequence of joins, leaves and disconnects,
-- whatever Redis and the database answer, has a client: the last to leave takes the room along.
pub perform_all-IsOccupied :
    (env : Env) (rs : List Request) → IsOccupied (perform_all env rs start).rooms
perform_all-IsOccupied env rs = keeps-IsOccupied env rs start start-IsOccupied
