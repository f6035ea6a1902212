-- ===== src/Mixer/Tick.antt =====
-- What a tick takes from the buffers and sends to the members.
use quickonnect.Prelude.{
  ℕ, Bool, true, false, Option, none, some, List, [], ◌∷◌, nat_eq, ◌==◌, if◌then◌else◌, ◌≡◌, refl,
  arith,
}
use quickonnect.Prelude.Dict.{Dict, get}
use quickonnect.Stt.{Bytes}
use quickonnect.Mixer.Samples.{mix_frames}
use quickonnect.Mixer.{AudioMixerState, mix_tick, pull}

abbrev head_of : Option (List Bytes) → Option Bytes
head_of none = none
head_of (some []) = none
head_of (some (f ∷ l)) = some f

abbrev pub tail_of : Option (List Bytes) → Option (List Bytes)
tail_of none = none
tail_of (some []) = some []
tail_of (some (f ∷ l)) = some l

get-pull : (u : ℕ) (d : Dict ℕ (List Bytes)) → get u (pull d).1 ≡ tail_of (get u d)
unfolding pull get
get-pull u [] = refl
get-pull u ((v, []) ∷ d) = ground (arith, get-pull u d)
get-pull u ((v, f ∷ l) ∷ d) = ground (arith, get-pull u d)

-- A tick takes the oldest frame from every buffer that is not empty, and leaves the rest in order.
pub mix_tick_buffers :
    (clients : List ℕ) (m : AudioMixerState) (u : ℕ)
    → get u (mix_tick clients m).0.buffers ≡ tail_of (get u m.buffers)
unfolding mix_tick
mix_tick_buffers clients m u = get-pull u m.buffers

-- The frames that wait for everyone but `r`: the oldest of each buffer, in the order of the buffers.
unfoldable pub waiting : ℕ → Dict ℕ (List Bytes) → List Bytes
waiting r [] = []
waiting r ((u, []) ∷ d) = waiting r d
waiting r ((u, f ∷ l) ∷ d) = if r == u then waiting r d else f ∷ waiting r d

-- The packet for `r`, if there is one.
unfoldable pub sent_to : ℕ → List (ℕ × Bytes) → Option Bytes
sent_to r [] = none
sent_to r ((u, f) ∷ l) = if r == u then some f else sent_to r l

abbrev pub heard : List Bytes → Option Bytes
heard [] = none
heard (f ∷ fs) = some (mix_frames (f ∷ fs))

abbrev pub member : ℕ → List ℕ → Bool
member r [] = false
member r (c ∷ cs) = if r == c then true else member r cs
