-- ===== src/Screen/Control.antt =====
-- Who may share, and where remote control comes from.
use quickonnect.Prelude.{ℕ, true, false, some, Text, nat_eq, ◌≡◌, arith, ◌⊎◌, ◌↔◌}
use quickonnect.Screen.{
  ScreenRelayState, start_share, stop_share, sharer_user_id, controller_user_id, is_sharing,
}
use quickonnect.Screen.Steps.{Call, start, grant, step}

-- The call is a grant of remote control to `t` by the user who shares.
abbrev pub IsGrant : Call → ScreenRelayState → ℕ → Type 0
IsGrant (grant u v n) s t = (v ≡ t) × (sharer_user_id s ≡ some u)
IsGrant _ s t = ⊥

-- After a call a user is the controller only if the call is the current sharer's grant to that user,
-- or if the user was the controller before, under the same sharer.
pub controller-step :
    (c : Call) (s : ScreenRelayState) (t : ℕ)
    → controller_user_id (step c s) ≡ some t
    → IsGrant c s t
      ⊎ ((controller_user_id s ≡ some t) × (sharer_user_id (step c s) ≡ sharer_user_id s))
unfolding step sharer_user_id controller_user_id
controller-step (start u n) s t h = ground arith
controller-step _ s t h = ground arith

-- A start succeeds exactly when nobody shares or the caller does, and then the caller is the sharer.
pub start_share_iff :
    (u : ℕ) (n : Text) (s : ScreenRelayState)
    → ((start_share u n s).1.0 ≡ true) ↔ (sharer_user_id (start_share u n s).0 ≡ some u)
unfolding start_share sharer_user_id
start_share_iff u n s = ground arith

-- A stop ends the share exactly when the caller is the sharer, and else changes nothing.
pub stop_share_iff :
    (u : ℕ) (s : ScreenRelayState)
    → (((stop_share u s).1 ≡ true) ↔ (sharer_user_id s ≡ some u))
      × ((stop_share u s).1 ≡ true → is_sharing (stop_share u s).0 ≡ false)
      × ((stop_share u s).1 ≡ false → (stop_share u s).0 ≡ s)
unfolding stop_share sharer_user_id is_sharing
stop_share_iff u s = ground arith
