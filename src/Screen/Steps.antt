-- ===== src/Screen/Steps.antt =====
-- The methods of `ScreenRelayState` as calls by users in any order, and what every history keeps.
use quickonnect.Prelude.{ℕ, none, some, Text, nat_eq, ◌≡◌, ◌≢◌, arith, List, [], ◌∷◌, All}
use quickonnect.Screen.{
  ScreenRelayState, start_share, stop_share, set_controller, clear_controller_if, sharer_user_id,
}

-- One call of a method, on behalf of the user named first.
pub data Call : Type 0 where
  start : ℕ → Text → Call
  stop : ℕ → Call
  grant : ℕ → ℕ → Text → Call
  revoke : ℕ → Call
  drop_control : ℕ → Call

-- The user on whose behalf the call is made.
abbrev pub caller : Call → ℕ
caller (start u n) = u
caller (stop u) = u
caller (grant u t n) = u
caller (revoke u) = u
caller (drop_control u) = u

unfoldable pub step : Call → ScreenRelayState → ScreenRelayState
unfolding start_share stop_share set_controller clear_controller_if
step (start u n) s = (start_share u n s).0
step (stop u) s = (stop_share u s).0
step (grant u t n) s = (set_controller u (some t) (some n) s).0
step (revoke u) s = (set_controller u none none s).0
step (drop_control u) s = (clear_controller_if u s).0

unfoldable pub run : List Call → ScreenRelayState → ScreenRelayState
run [] s = s
run (c ∷ cs) s = run cs (step c s)

-- Whoever shares, no call by another user changes who shares or ends the share.
pub sharer-step :
    (c : Call) (s : ScreenRelayState) (u : ℕ)
    → sharer_user_id s ≡ some u
    → caller c ≢ u
    → sharer_user_id (step c s) ≡ some u
unfolding step sharer_user_id
sharer-step (start v n) s u h ne = ground arith
sharer-step _ s u h ne = ground arith

-- A share outlives every history of calls by users other than its sharer.
pub sharer-run :
    (cs : List Call) (s : ScreenRelayState) (u : ℕ)
    → sharer_user_id s ≡ some u
    → All (λ c. caller c ≢ u) cs
    → sharer_user_id (run cs s) ≡ some u
unfolding run
sharer-run [] s u h ne = h
sharer-run (c ∷ cs) s u h ne = sharer-run cs (step c s) u (sharer-step c s u h ne.0) ne.1
