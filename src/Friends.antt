-- ===== src/Friends.antt =====
-- server/services/friend_service.py: friend requests, on the tables of users and friendships. Each
-- method is one transaction: where a statement raises, nothing is written.
pub mod Mutual
pub mod History
use quickonnect.Prelude.{
  ℕ, Bool, true, false, not, ◌&&◌, Option, none, some, List, [], ◌∷◌, ◌++◌, Text, codes, nat_eq,
  text_eq, ◌==◌, HasEq, if◌then◌else◌, ◌≡◌, ◌↔◌, arith, nat_beq_iff,
}
use quickonnect.Prelude.Dict.{Dict, get, put, erase}

abbrev pub Pair : Type 0
Pair = ℕ × ℕ

abbrev pub pair_beq : Pair → Pair → Bool
pair_beq (a, b) (c, d) = a == c && b == d

pub pair_beq_iff : (x y : Pair) → (pair_beq x y ≡ true) ↔ (x ≡ y)
pair_beq_iff (a, b) (c, d) = ground (arith, nat_beq_iff a c, nat_beq_iff b d)

-- The primary key of the table of friendships.
instance abbrev pub pair_eq : HasEq Pair
pair_eq = record { equal = pair_beq; equal_iff = pair_beq_iff }

pub data Status : Type 0 where
  pending accepted : Status

-- shared/models.py: `Friend`, less `online`, with the status as it is shown.
pub record Friend : Type 0 where
  pub user_id : ℕ
  pub username : Text
  pub status : Text

-- A friendship stands under the ids of who asked and who was asked.
pub record Tables : Type 0 where
  pub users : Dict ℕ Text
  pub friendships : Dict Pair Status

abbrev pub status_text : Status → Text
status_text pending = codes "pending"
status_text accepted = codes "accepted"

abbrev pub Reply : Type 0
Reply = Bool × Text

-- `SELECT id FROM users WHERE username = …`
unfoldable pub find_user : Text → Dict ℕ Text → Option ℕ
find_user username [] = none
find_user username ((id, name) ∷ d) = if name == username then some id else find_user username d

abbrev pub already_exists : Status → Text
already_exists s = codes "Friend request already exists (status: " ++ (status_text s ++ codes ")")

-- The part of `send_request` that follows once the target is found.
unfoldable pub ask : ℕ → ℕ → Tables → Reply × Tables
ask from_user_id target_id t =
    if target_id == from_user_id
    then ((false, codes "Cannot add yourself"), t)
    else elim (get (from_user_id, target_id) t.friendships) [
      | some existing ↦ ((false, already_exists existing), t)
      | none ↦ (
        (true, []),
        record t { friendships = put (from_user_id, target_id) pending t.friendships },
      )
    ]

-- `works` says that no statement raises.
unfoldable pub send_request : Bool → ℕ → Text → Tables → Reply × Tables
send_request works from_user_id target_username t =
    if not works
    then ((false, codes "Failed to send request"), t)
    else elim (find_user target_username t.users) [
      | none ↦ ((false, codes "User not found"), t)
      | some target_id ↦ ask from_user_id target_id t
    ]

-- The writes of an answer.
abbrev pub answer : ℕ → ℕ → Bool → Dict Pair Status → Dict Pair Status
answer user_id from_user_id true f =
    put (user_id, from_user_id) accepted (put (from_user_id, user_id) accepted f)
answer user_id from_user_id false f = erase (from_user_id, user_id) f

unfoldable pub respond_to_request : Bool → ℕ → ℕ → Bool → Tables → Reply × Tables
respond_to_request works user_id from_user_id accept t =
    if not works
    then ((false, codes "Failed to process response"), t)
    else elim (get (from_user_id, user_id) t.friendships) [
      | none ↦ ((false, codes "No pending request from this user"), t)
      | some status ↦ elim status [
        | accepted ↦ ((false, codes "Request already processed"), t)
        | pending ↦ (
          (true, []),
          record t { friendships = answer user_id from_user_id accept t.friendships },
        )
      ]
    ]

-- A row of a query's join with the table of users, where the user is there.
abbrev listed : ℕ → Option Text → Text → List Friend → List Friend
listed id none status rest = rest
listed id (some name) status rest = record { user_id = id; username = name; status = status } ∷ rest

unfoldable pub accepted_friends : ℕ → Dict ℕ Text → Dict Pair Status → List Friend
accepted_friends user_id users [] = []
accepted_friends user_id users (((a, b), s) ∷ f) =
    let rest = accepted_friends user_id users f in
    elim s [
      | pending ↦ rest
      | accepted ↦ if a == user_id then listed b (get b users) (codes "accepted") rest else rest
    ]

unfoldable pub incoming_requests : ℕ → Dict ℕ Text → Dict Pair Status → List Friend
incoming_requests user_id users [] = []
incoming_requests user_id users (((a, b), s) ∷ f) =
    let rest = incoming_requests user_id users f in
    elim s [
      | accepted ↦ rest
      | pending ↦ if b == user_id then listed a (get a users) (codes "incoming") rest else rest
    ]

-- What the first query found is kept where the second raises.
unfoldable pub get_friends : Bool → Bool → ℕ → Tables → List Friend
unfolding accepted_friends incoming_requests
get_friends first second user_id t =
    if not first
    then []
    else accepted_friends user_id t.users t.friendships
      ++ (if second then incoming_requests user_id t.users t.friendships else [])

unfoldable pub get_target_user_id : Bool → Text → Tables → Option ℕ
unfolding find_user
get_target_user_id works target_username t =
    if works then find_user target_username t.users else none
