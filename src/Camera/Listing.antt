-- ===== src/Camera/Listing.antt =====
-- The registry of cameras as a map, and the listing that a joining client receives.
use quickonnect.Prelude.{
  ℕ, true, false, Option, none, some, Text, nat_eq, ◌≡◌, arith, List, [], ◌∷◌, refl, ◌==◌,
  if◌then◌else◌, nat_beq_iff, ◌<◌, not, ◌∙◌,
}
use quickonnect.Prelude.Dict.{get, get-put, get-erase, IsDistinct}
use quickonnect.Camera.{
  CameraUser, CameraState, start_camera, stop_camera, is_active, insert_user, sort_users, to_users,
  get_active,
}

-- Starting a camera makes exactly that user active besides those who were, and reports a change
-- exactly when the user was not active.
pub start_camera_lem :
    (u v : ℕ) (n : Text) (s : CameraState)
    → (is_active v (start_camera u n s).0 ≡ (if v == u then true else is_active v s))
      × ((start_camera u n s).1 ≡ not (is_active u s))
unfolding start_camera is_active
start_camera_lem u v n s = ground (arith, get-put u v n s.active)

-- Stopping a camera makes exactly that user inactive, and reports a change exactly when the user
-- was active; so a second stop reports none.
pub stop_camera_lem :
    (u v : ℕ) (s : CameraState)
    → (is_active v (stop_camera u s).0 ≡ (if v == u then false else is_active v s))
      × ((stop_camera u s).1 ≡ is_active u s)
      × ((stop_camera u (stop_camera u s).0).1 ≡ false)
unfolding stop_camera is_active
stop_camera_lem u v s =
    ground (arith, get-erase u v s.active, get-erase u u s.active, nat_beq_iff u u)

-- The name under which a listing shows a user.
unfoldable pub find : ℕ → List CameraUser → Option Text
find u [] = none
find u (c ∷ l) = if u == c.user_id then some c.username else find u l

-- The users stand in strictly ascending order, all above `lo`.
abbrev pub IsAscending : List CameraUser → Type 0
IsAscending [] = Unit
IsAscending (c ∷ []) = Unit
IsAscending (c ∷ d ∷ l) = (c.user_id < d.user_id) × IsAscending (d ∷ l)

find-to_users : (u : ℕ) (l : List (ℕ × Text)) → find u (to_users l) ≡ get u l
unfolding find to_users get
find-to_users u [] = refl
find-to_users u ((w, m) ∷ l) = ground (arith, find-to_users u l)

get-insert_user :
    (u v : ℕ) (n : Text) (l : List (ℕ × Text))
    → get v l ≡ none
    → get u (insert_user (v, n) l) ≡ (if u == v then some n else get u l)
unfolding insert_user get
get-insert_user u v n [] h = refl
get-insert_user u v n ((w, m) ∷ l) h = ground (arith, get-insert_user u v n l)

get-sort_users : (u : ℕ) (l : List (ℕ × Text)) → IsDistinct l → get u (sort_users l) ≡ get u l
unfolding sort_users get
get-sort_users u [] h = refl
get-sort_users u ((w, m) ∷ l) h =
    ground
      (arith, get-insert_user u w m (sort_users l), get-sort_users w l h.1, get-sort_users u l h.1)

-- The pairs stand in strictly ascending order.
abbrev Ascends : List (ℕ × Text) → Type 0
Ascends [] = Unit
Ascends (c ∷ []) = Unit
Ascends (c ∷ d ∷ l) = (c.0 < d.0) × Ascends (d ∷ l)

insert_user-Ascends :
    (v : ℕ) (n : Text) (l : List (ℕ × Text))
    → get v l ≡ none
    → Ascends l
    → Ascends (insert_user (v, n) l)
unfolding insert_user get
insert_user-Ascends v n [] h a = tt
insert_user-Ascends v n (c ∷ []) h a = ground arith
insert_user-Ascends v n (c ∷ d ∷ l) h a = ground (arith, insert_user-Ascends v n (d ∷ l))

sort_users-Ascends : (l : List (ℕ × Text)) → IsDistinct l → Ascends (sort_users l)
unfolding sort_users
sort_users-Ascends [] h = tt
sort_users-Ascends ((v, n) ∷ l) h =
    insert_user-Ascends v n (sort_users l) (ground (arith, get-sort_users v l h.1))
      (sort_users-Ascends l h.1)

to_users-IsAscending : (l : List (ℕ × Text)) → Ascends l → IsAscending (to_users l)
unfolding to_users
to_users-IsAscending [] h = tt
to_users-IsAscending (c ∷ []) h = tt
to_users-IsAscending (c ∷ d ∷ l) h = (h.0, to_users-IsAscending (d ∷ l) h.1)

-- The listing holds each active user once, in ascending order of the ids, under the stored name, and
-- nobody else, where the registry holds no user twice.
pub get_active_lem :
    (s : CameraState)
    → IsDistinct s.active
    → IsAscending (get_active s) × ((u : ℕ) → find u (get_active s) ≡ get u s.active)
unfolding get_active
get_active_lem s h = (
  to_users-IsAscending _ (sort_users-Ascends s.active h),
  λ u. find-to_users u (sort_users s.active) ∙ get-sort_users u s.active h,
)
