-- ===== src/Mixer.antt =====
-- server/features/audio_mixer.py: the jitter buffers of a room and the mix that each member hears.
-- Base64 is a parameter: `decode` gives `none` where the source's call raises.
pub mod Samples
pub mod Pcm
pub mod Average
pub mod Buffers
pub mod Tick
use quickonnect.Prelude.{
  ℕ, ◌+◌, ◌-◌, Bool, true, false, not, ◌&&◌, Option, none, some, List, [], ◌∷◌, ◌++◌, Text, nat_eq,
  ◌==◌, if◌then◌else◌, ltb, leb, length, take, replicate,
}
use quickonnect.Prelude.Dict.{Dict, get, put, erase, has}
use quickonnect.Stt
use quickonnect.Stt.{Bytes, Job, SttManager}
use Samples.{frame_bytes, mix_frames}

pub record AudioMixerState : Type 0 where
  pub buffers : Dict ℕ (List Bytes)
  pub usernames : Dict ℕ Text
  pub received_counts : Dict ℕ ℕ
  pub sent_counts : Dict ℕ ℕ
  pub running : Bool
  -- Whether a feed function was passed, and the manager that it belongs to.
  pub stt_feed : Bool
  pub stt_manager : SttManager

-- The mixer and its speech-to-text, as `RoomManager._create_audio_state` builds them.
abbrev pub init : Bool → AudioMixerState
init enabled = record {
  buffers = [];
  usernames = [];
  received_counts = [];
  sent_counts = [];
  running = false;
  stt_feed = enabled;
  stt_manager = Stt.init enabled;
}

abbrev pub max_buffer : ℕ
max_buffer = 10

-- `deque(maxlen=10).append`
unfoldable pub append_bounded : Bytes → List Bytes → List Bytes
append_bounded f [] = f ∷ []
append_bounded f (g ∷ l) =
    if ltb (length (g ∷ l)) max_buffer then (g ∷ l) ++ f ∷ [] else l ++ f ∷ []

unfoldable pub add_participant : ℕ → Text → AudioMixerState → AudioMixerState
add_participant user_id username m = if has user_id m.buffers then m else record m {
  buffers = put user_id [] m.buffers;
  usernames = put user_id username m.usernames;
  received_counts = put user_id 0 m.received_counts;
  sent_counts = put user_id 0 m.sent_counts;
}

unfoldable pub start : AudioMixerState → AudioMixerState
start m = record m { running = true }

unfoldable pub stop : AudioMixerState → AudioMixerState
stop m = record m { running = false }

unfoldable pub is_empty : Dict ℕ (List Bytes) → Bool
is_empty [] = true
is_empty (e ∷ d) = false

unfoldable pub has_participants : AudioMixerState → Bool
unfolding is_empty
has_participants m = not (is_empty m.buffers)

unfoldable pub remove_participant : ℕ → AudioMixerState → AudioMixerState
unfolding stop is_empty
remove_participant user_id m =
    let m' = record m {
      buffers = erase user_id m.buffers;
      usernames = erase user_id m.usernames;
      received_counts = erase user_id m.received_counts;
      sent_counts = erase user_id m.sent_counts;
    } in
    if is_empty m'.buffers && m.running then stop m' else m'

-- Padded with silence or cut to `FRAME_BYTES`.
unfoldable pub normalise : Bytes → Bytes
normalise pcm =
    if ltb (length pcm) frame_bytes
    then pcm ++ replicate (frame_bytes - length pcm) 0
    else if ltb frame_bytes (length pcm)
    then take frame_bytes pcm
    else pcm

abbrev pub buffer : ℕ → AudioMixerState → List Bytes
buffer user_id m = elim (get user_id m.buffers) [ none ↦ [] | some l ↦ l ]

abbrev pub count : ℕ → Dict ℕ ℕ → ℕ
count user_id d = elim (get user_id d) [ none ↦ 0 | some n ↦ n ]

abbrev pub username : ℕ → AudioMixerState → Text
username user_id m = elim (get user_id m.usernames) [ none ↦ [] | some n ↦ n ]

-- The part of `feed_audio` under the lock.
unfoldable pub queue : ℕ → Bytes → AudioMixerState → AudioMixerState
unfolding append_bounded
queue user_id pcm m = record m {
  buffers = put user_id (append_bounded pcm (buffer user_id m)) m.buffers;
  received_counts = put user_id (count user_id m.received_counts + 1) m.received_counts;
}

-- The callback into speech-to-text.
unfoldable pub feed_stt : ℕ → Bytes → AudioMixerState → AudioMixerState × Option Job
feed_stt user_id pcm m =
    let (s, job) = Stt.feed_audio user_id (username user_id m) pcm m.stt_manager in
    if m.stt_feed then (record m { stt_manager = s }, job) else (m, none)

unfoldable pub feed_audio :
    (Text → Option Bytes) → ℕ → Text → AudioMixerState → AudioMixerState × Option Job
unfolding queue normalise feed_stt start
feed_audio decode user_id pcm_b64 m = elim (decode pcm_b64) [
  | none ↦ (m, none)
  | some pcm ↦
      let (m', job) = feed_stt user_id (normalise pcm) (queue user_id (normalise pcm) m) in
      (start m', job)
]

-- `pulled`, and the buffers without the pulled frames.
unfoldable pub pull : Dict ℕ (List Bytes) → Dict ℕ Bytes × Dict ℕ (List Bytes)
pull [] = ([], [])
pull ((uid, []) ∷ d) = let (p, r) = pull d in (p, (uid, []) ∷ r)
pull ((uid, f ∷ l) ∷ d) = let (p, r) = pull d in ((uid, f) ∷ p, (uid, l) ∷ r)

-- The frames of everyone else.
unfoldable pub others : ℕ → Dict ℕ Bytes → List Bytes
others recipient [] = []
others recipient ((uid, f) ∷ p) =
    if uid == recipient then others recipient p else f ∷ others recipient p

-- The loop over the recipients: the packets to send, and the counts. `ClientHandler.send` never
-- raises.
unfoldable pub mixes : Dict ℕ Bytes → List ℕ → Dict ℕ ℕ → List (ℕ × Bytes) × Dict ℕ ℕ
unfolding others mix_frames
mixes pulled [] counts = ([], counts)
mixes pulled (uid ∷ uids) counts = elim (others uid pulled) [
  | [] ↦ mixes pulled uids counts
  | f ∷ fs ↦
      let (sends, counts') = mixes pulled uids (put uid (count uid counts + 1) counts) in
      ((uid, mix_frames (f ∷ fs)) ∷ sends, counts')
]

-- One tick of the mixer thread, for the members that `get_clients` returns.
unfoldable pub mix_tick : List ℕ → AudioMixerState → AudioMixerState × List (ℕ × Bytes)
unfolding pull mixes
mix_tick clients m =
    let (pulled, rest) = pull m.buffers in
    let (sends, counts) = mixes pulled clients m.sent_counts in
    (record m { buffers = rest; sent_counts = counts }, sends)
