-- ===== src/Screen.antt =====
-- server/features/screen_relay.py: who shares the screen of a room, and who controls it remotely.
-- The lock makes each method one step, so a method is a function from state to state.
pub mod Steps
pub mod Control
use quickonnect.Prelude.{
  ℕ, Bool, true, false, Option, none, some, ◌==◌, text_eq, Text, codes, if◌then◌else◌, nat_eq,
  HasEq, ◌≡◌, ◌↔◌, arith, is_some,
}

pub record ShareInfo : Type 0 where
  pub sharer_user_id : ℕ
  pub sharer_username : Text
  pub controller_user_id : Option ℕ
  pub controller_username : Option Text

pub record ScreenRelayState : Type 0 where
  pub share : Option ShareInfo

-- A method's pair `(ok, error_message)`.
abbrev pub Outcome : Type 0
Outcome = Bool × Option Text

abbrev pub already_sharing : Text
already_sharing = codes "Another participant is already sharing"

abbrev pub no_share : Text
no_share = codes "No active screen share"

abbrev pub only_sharer : Text
only_sharer = codes "Only the sharer can change remote control"

-- `ScreenRelayState()`
abbrev pub init : ScreenRelayState
init = record { share = none }

-- The copy of the share has the share's fields.
unfoldable pub get_state : ScreenRelayState → Option ShareInfo
get_state s = elim s.share [
  | none ↦ none
  | some i ↦ some (record {
    sharer_user_id = i.sharer_user_id;
    sharer_username = i.sharer_username;
    controller_user_id = i.controller_user_id;
    controller_username = i.controller_username;
  })
]

unfoldable pub is_sharing : ScreenRelayState → Bool
is_sharing s = is_some s.share

unfoldable pub sharer_user_id : ScreenRelayState → Option ℕ
sharer_user_id s = elim s.share [ none ↦ none | some i ↦ some i.sharer_user_id ]

unfoldable pub controller_user_id : ScreenRelayState → Option ℕ
controller_user_id s = elim s.share [ none ↦ none | some i ↦ i.controller_user_id ]

-- `self._share.controller_user_id != user_id`, where the left side may be `None`.
abbrev pub controls : ShareInfo → ℕ → Bool
controls i user_id = elim i.controller_user_id [ none ↦ false | some c ↦ c == user_id ]

unfoldable pub start_share : ℕ → Text → ScreenRelayState → ScreenRelayState × Outcome
start_share user_id username s = elim s.share [
  | some i ↦
      if i.sharer_user_id == user_id then (s, (true, none)) else (s, (false, some already_sharing))
  | none ↦ (
    record {
      share = some (record {
        sharer_user_id = user_id;
        sharer_username = username;
        controller_user_id = none;
        controller_username = none;
      });
    },
    (true, none),
  )
]

unfoldable pub stop_share : ℕ → ScreenRelayState → ScreenRelayState × Bool
stop_share user_id s = elim s.share [
  | none ↦ (s, false)
  | some i ↦ if i.sharer_user_id == user_id then (record { share = none }, true) else (s, false)
]

-- `stop_if_sharer` calls `stop_share`.
unfoldable pub stop_if_sharer : ℕ → ScreenRelayState → ScreenRelayState × Bool
unfolding stop_share
stop_if_sharer user_id s = stop_share user_id s

unfoldable pub set_controller :
    ℕ → Option ℕ → Option Text → ScreenRelayState → ScreenRelayState × Outcome
set_controller sharer user_id username s = elim s.share [
  | none ↦ (s, (false, some no_share))
  | some i ↦
      if i.sharer_user_id == sharer
      then (
        record {
          share = some (record i { controller_user_id = user_id; controller_username = username });
        },
        (true, none),
      )
      else (s, (false, some only_sharer))
]

unfoldable pub clear_controller_if : ℕ → ScreenRelayState → ScreenRelayState × Bool
clear_controller_if user_id s = elim s.share [
  | none ↦ (s, false)
  | some i ↦
      if controls i user_id
      then (
        record {
          share = some (record i { controller_user_id = none; controller_username = none });
        },
        true,
      )
      else (s, false)
]
