-- ===== src/Stt.antt =====
-- server/features/stt_worker.py: the frames of each speaker, gathered into chunks for transcription.
-- The model, its loading and the WAV file are outside; a submitted job is a value here.
pub mod Chunks
use quickonnect.Prelude.{
  ℕ, Bool, true, false, not, ◌&&◌, ◌||◌, Option, none, some, List, [], ◌∷◌, ◌++◌, Text, nat_eq,
  if◌then◌else◌, leb, length,
}
use quickonnect.Prelude.Dict.{Dict, get, put, erase, has}

abbrev pub Bytes : Type 0
Bytes = List ℕ

abbrev pub frames_per_chunk : ℕ
frames_per_chunk = 150

pub record SttManager : Type 0 where
  pub enabled : Bool
  pub running : Bool
  pub speaker_buffers : Dict ℕ (List Bytes)
  pub speaker_names : Dict ℕ Text
  -- Whether the thread pool exists.
  pub pool : Bool

-- What is handed to the pool: the arguments of `_transcribe`.
pub record Job : Type 0 where
  pub user_id : ℕ
  pub username : Text
  pub frames : List Bytes

-- `STTManager(…)`, where the environment sets `ENABLE_STT` or not.
abbrev pub init : Bool → SttManager
init enabled = record {
  enabled = enabled;
  running = true;
  speaker_buffers = [];
  speaker_names = [];
  pool = enabled;
}

-- The buffers and names once the speaker is known.
unfoldable pub register : ℕ → Text → SttManager → SttManager
register user_id username s = if has user_id s.speaker_buffers then s else record s {
  speaker_buffers = put user_id [] s.speaker_buffers;
  speaker_names = put user_id username s.speaker_names;
}

abbrev pub buffer : ℕ → SttManager → List Bytes
buffer user_id s = elim (get user_id s.speaker_buffers) [ none ↦ [] | some l ↦ l ]

abbrev pub speaker : ℕ → Text → SttManager → Text
speaker user_id username s = elim (get user_id s.speaker_names) [ none ↦ username | some n ↦ n ]

-- `buf.append`, and the chunk if the buffer is full.
unfoldable pub push : ℕ → Text → Bytes → SttManager → SttManager × Option Job
push user_id username pcm_data s =
    let buf = buffer user_id s ++ pcm_data ∷ [] in
    if leb frames_per_chunk (length buf)
    then (
      record s { speaker_buffers = put user_id [] s.speaker_buffers },
      (if s.pool
          then some
              (record { user_id = user_id; username = speaker user_id username s; frames = buf })
          else none),
    )
    else (record s { speaker_buffers = put user_id buf s.speaker_buffers }, none)

unfoldable pub feed_audio : ℕ → Text → Bytes → SttManager → SttManager × Option Job
unfolding register push
feed_audio user_id username pcm_data s =
    if not s.enabled || not s.running
    then (s, none)
    else push user_id username pcm_data (register user_id username s)

unfoldable pub remove_speaker : ℕ → SttManager → SttManager
remove_speaker user_id s = record s {
  speaker_buffers = erase user_id s.speaker_buffers;
  speaker_names = erase user_id s.speaker_names;
}

unfoldable pub stop : SttManager → SttManager
stop s = record s { running = false; enabled = false; pool = false }
