-- ===== src/Camera.antt =====
-- server/features/camera_state.py: the users of a room whose camera is on.
pub mod Listing
use quickonnect.Prelude.{ℕ, Bool, Text, nat_eq, not, is_some, List, [], ◌∷◌, leb, if◌then◌else◌}
use quickonnect.Prelude.Dict.{Dict, get, has, put, erase}

pub record CameraUser : Type 0 where
  pub user_id : ℕ
  pub username : Text

pub record CameraState : Type 0 where
  pub active : Dict ℕ Text

-- `CameraState()`
abbrev pub init : CameraState
init = record { active = [] }

unfoldable pub start_camera : ℕ → Text → CameraState → CameraState × Bool
start_camera user_id username s =
    (record { active = put user_id username s.active }, not (has user_id s.active))

unfoldable pub stop_camera : ℕ → CameraState → CameraState × Bool
stop_camera user_id s = (record { active = erase user_id s.active }, has user_id s.active)

unfoldable pub is_active : ℕ → CameraState → Bool
is_active user_id s = has user_id s.active

-- One step of `sorted` on pairs, whose first parts are the distinct keys of a dict.
unfoldable pub insert_user : ℕ × Text → List (ℕ × Text) → List (ℕ × Text)
insert_user e [] = e ∷ []
insert_user e (f ∷ l) = let rest = insert_user e l in if leb e.0 f.0 then e ∷ f ∷ l else f ∷ rest

unfoldable pub sort_users : List (ℕ × Text) → List (ℕ × Text)
unfolding insert_user
sort_users [] = []
sort_users (e ∷ l) = insert_user e (sort_users l)

unfoldable pub to_users : List (ℕ × Text) → List CameraUser
to_users [] = []
to_users ((u, n) ∷ l) = record { user_id = u; username = n } ∷ to_users l

unfoldable pub get_active : CameraState → List CameraUser
unfolding sort_users to_users
get_active s = to_users (sort_users s.active)
