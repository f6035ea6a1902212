-- ===== src/Examples/Sounds.antt =====
-- Concrete audio: frames of one level, a mixer of three speakers, and speech-to-text.
use quickonnect.Prelude.{
  ℕ, zero, suc, ◌<◌, true, Option, some, List, [], ◌∷◌, ◌++◌, Text, codes, nat_eq, ◌≡◌, refl, arith,
  map, length, All, replicate, length-replicate,
}
use quickonnect.Prelude.Dict.{get}
use quickonnect.Prelude.Int.{tdiv}
use quickonnect.Mixer
use quickonnect.Mixer.{AudioMixerState, append_bounded, max_buffer, others, pull, feed_audio}
use quickonnect.Mixer.Samples.{frame_size, frame_bytes, mix_frames, unpack}
use quickonnect.Mixer.Pcm.{IsByte, IsFrame}
use quickonnect.Mixer.Average.{sums, mix_frames-average}
use quickonnect.Mixer.Buffers.{IsBounded, feed_audio-IsBounded}
use quickonnect.Stt
use quickonnect.Stt.{Bytes, SttManager}
use quickonnect.Stt.Chunks.{Arrival, IsShort, feed_all, chunked, frames_of, feed_all_lem}

abbrev level : ℕ → Bytes
level b = replicate frame_bytes b

replicate-IsByte : (n b : ℕ) → b < 256 → All IsByte (replicate n b)
replicate-IsByte zero b h = tt
replicate-IsByte (suc n) b h = (h, replicate-IsByte n b h)

level-IsFrame : (b : ℕ) → b < 256 → IsFrame (level b)
level-IsFrame b h = record {
  bytes = replicate-IsByte frame_bytes b h;
  size = length-replicate frame_bytes b;
}

mix_frames_example :
    (unpack (mix_frames (level 1 ∷ level 200 ∷ []))
      ≡ map
          (λ m. tdiv m (length (level 1 ∷ level 200 ∷ [])))
          (sums frame_size (level 1 ∷ level 200 ∷ [])))
    × (length (mix_frames (level 1 ∷ level 200 ∷ [])) ≡ frame_bytes)
mix_frames_example =
    mix_frames-average (level 1) (level 200) []
      (level-IsFrame 1 (omega arith), (level-IsFrame 200 (omega arith), tt))

-- A room without speakers holds no frames.
quiet-IsBounded : IsBounded (Mixer.init true)
unfolding get
quiet-IsBounded = record { at = λ u. record { short = omega arith; sized = tt } }

abbrev decode_none : Text → Option Bytes
decode_none t = some (1 ∷ 2 ∷ [])

feed_audio_example : IsBounded (feed_audio decode_none 1 (codes "AQI=") (Mixer.init true)).0
feed_audio_example =
    feed_audio-IsBounded decode_none 1 (codes "AQI=") (Mixer.init true) quiet-IsBounded

-- Two of three speakers have a frame waiting.
abbrev talking : AudioMixerState
talking = record (Mixer.init true) {
  buffers = (1, level 1 ∷ []) ∷ (2, level 2 ∷ level 3 ∷ []) ∷ (3, []) ∷ [];
}

-- Ann is one frame short of a chunk; she and Bob speak by turns.
abbrev dictation : SttManager
dictation = record (Stt.init true) {
  speaker_buffers = (1, replicate 149 (1 ∷ [])) ∷ (2, []) ∷ [];
  speaker_names = (1, codes "ann") ∷ (2, codes "bob") ∷ [];
}

abbrev turns : List Arrival
turns = (2, codes "bob", 9 ∷ []) ∷ (1, codes "ann", 7 ∷ []) ∷ (1, codes "ann", 8 ∷ []) ∷ []

dictation-IsShort : IsShort dictation
unfolding get
dictation-IsShort v = ground (arith, length-replicate {A = Bytes} 149 (1 ∷ []))

feed_all_example :
    ((v : ℕ)
      → chunked v (feed_all turns dictation).1 ++ Stt.buffer v (feed_all turns dictation).0
        ≡ Stt.buffer v dictation ++ frames_of v turns)
    × All (λ j. length j.frames ≡ Stt.frames_per_chunk) (feed_all turns dictation).1
    × IsShort (feed_all turns dictation).0
feed_all_example =
    feed_all_lem turns dictation (record { enabled = refl; running = refl; pool = refl })
      dictation-IsShort
