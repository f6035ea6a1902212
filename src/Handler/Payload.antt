-- ===== src/Handler/Payload.antt =====
-- Reading a field of the payload changes nothing, so a handler that starts with it does what follows
-- from the world as it was, or nothing at all.
use quickonnect.Prelude.{Option, none, some, [], Text, ◌≡◌, refl, ◌⊎◌, inl, inr}
use quickonnect.Json.{Json, str, arr, obj, bool, null}
use quickonnect.Handler.{stripped, strip}
use quickonnect.World.{World, Proc, Done, modify, ◌>>=◌}

pub stripped-cases :
    (o : Option Json) (w : World)
    → (stripped o w ≡ (none, w)) ⊎ ((t : Text) × (stripped o w ≡ (some t, w)))
unfolding stripped
stripped-cases none w = inr ([], refl)
stripped-cases (some (str t)) w = inr (strip t, refl)
stripped-cases (some (arr l)) w = inl refl
stripped-cases (some (obj l)) w = inl refl
stripped-cases (some null) w = inl refl
stripped-cases (some (bool b)) w = inl refl
stripped-cases (some _) w = inl refl

-- A property of the world afterwards, for a handler that reads a text and goes on with it.
pub stripped-then {κ} :
    (P : World → Type κ) (o : Option Json) (k : Text → Proc Done) (w : World)
    → ((t : Text) → P (k t w).1)
    → P w
    → P ((stripped o >>= k) w).1
unfolding stripped
stripped-then P none k w each same = each []
stripped-then P (some (str t)) k w each same = each (strip t)
stripped-then P (some (arr l)) k w each same = same
stripped-then P (some (obj l)) k w each same = same
stripped-then P (some null) k w each same = same
stripped-then P (some (bool b)) k w each same = same
stripped-then P (some _) k w each same = same

-- The same, for a handler that goes on with one step.
pub stripped-step {κ} :
    (P : World → Type κ) (o : Option Json) (f : Text → World → World) (w : World)
    → ((t : Text) → P (f t w))
    → P w
    → P ((stripped o >>= λ t. modify (f t)) w).1
stripped-step P o f w each same = stripped-then P o (λ t. modify (f t)) w each same
