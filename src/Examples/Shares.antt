-- ===== src/Examples/Shares.antt =====
-- Concrete shares, cameras and packet numbers.
use quickonnect.Prelude.{some, none, [], ◌∷◌, codes, nat_eq, ◌≡◌, ◌⊎◌, refl, arith}
use quickonnect.Camera.{CameraState}
use quickonnect.Screen.{ScreenRelayState, sharer_user_id, controller_user_id}
use quickonnect.Screen.Steps.{start, stop, grant, step, run, sharer-run}
use quickonnect.Screen.Control.{IsGrant, controller-step}

-- User 1 shares, and nobody controls.
abbrev shared : ScreenRelayState
shared = record {
  share = some (record {
    sharer_user_id = 1;
    sharer_username = codes "ann";
    controller_user_id = none;
    controller_username = none;
  });
}

sharer_run_example : sharer_user_id (run (start 2 (codes "bob") ∷ stop 3 ∷ []) shared) ≡ some 1
unfolding sharer_user_id
sharer_run_example =
    sharer-run (start 2 (codes "bob") ∷ stop 3 ∷ []) shared 1 refl
      (ground arith, (ground arith, tt))

controller_step_example :
    IsGrant (grant 1 2 (codes "bob")) shared 2
    ⊎ ((controller_user_id shared ≡ some 2)
        × (sharer_user_id (step (grant 1 2 (codes "bob")) shared) ≡ sharer_user_id shared))
unfolding step sharer_user_id controller_user_id
controller_step_example = controller-step (grant 1 2 (codes "bob")) shared 2 refl

abbrev filmed : CameraState
filmed = record { active = (2, codes "bob") ∷ (1, codes "ann") ∷ [] }
