-- ===== src/Mixer/Samples.antt =====
-- `AudioMixerState._mix_frames`: the average of 16-bit frames.
use quickonnect.Prelude.{
  ℕ, ◌+◌, ◌-◌, ◌*◌, ◌/◌, ◌%◌, List, [], ◌∷◌, map, length, replicate, nat_eq, ◌==◌, if◌then◌else◌,
  ltb,
}
use quickonnect.Prelude.Int.{ℤ, pos, negsuc, ◌+ℤ◌, ltb_ℤ, tdiv}
use quickonnect.Stt.{Bytes}

abbrev pub frame_size : ℕ
frame_size = 320

abbrev pub frame_bytes : ℕ
frame_bytes = 640

-- A little-endian int16, as `struct` reads and writes it.
unfoldable pub unpack_sample : ℕ → ℕ → ℤ
unpack_sample lo hi = let w = lo + 256 * hi in if ltb w 32768 then pos w else negsuc (65535 - w)

unfoldable pub word : ℤ → ℕ
word (pos n) = n
word (negsuc n) = 65535 - n

unfoldable pub unpack : Bytes → List ℤ
unfolding unpack_sample
unpack [] = []
unpack (lo ∷ []) = []
unpack (lo ∷ hi ∷ rest) = unpack_sample lo hi ∷ unpack rest

unfoldable pub pack : List ℤ → Bytes
unfolding word
pack [] = []
pack (x ∷ xs) = word x % 256 ∷ word x / 256 ∷ pack xs

-- `mixed[i] += samples[i]` for each i.
unfoldable pub add_samples : List ℤ → List ℤ → List ℤ
unfolding ◌+ℤ◌
add_samples (m ∷ ms) (x ∷ xs) = (m +ℤ x) ∷ add_samples ms xs
add_samples ms xs = ms

-- The loop over the frames; a frame of another length is skipped.
unfoldable pub sum_frames : List Bytes → List ℤ → ℕ → List ℤ × ℕ
unfolding add_samples unpack
sum_frames [] mixed valid_frames = (mixed, valid_frames)
sum_frames (frame ∷ frames) mixed valid_frames =
    sum_frames frames
      (if length frame == frame_bytes then add_samples mixed (unpack frame) else mixed)
      (if length frame == frame_bytes then valid_frames + 1 else valid_frames)

unfoldable pub clip : ℤ → ℤ
clip x =
    if ltb_ℤ (pos 32767) x then pos 32767 else if ltb_ℤ x (negsuc 32767) then negsuc 32767 else x

abbrev silence : Bytes
silence = replicate frame_bytes 0

unfoldable pub average : List ℤ × ℕ → Bytes
unfolding clip tdiv pack
average (mixed, valid_frames) =
    if valid_frames == 0 then silence else pack (map clip (map (λ m. tdiv m valid_frames) mixed))

unfoldable pub mix_frames : List Bytes → Bytes
unfolding sum_frames average
mix_frames (frame ∷ []) = frame
mix_frames frames = average (sum_frames frames (replicate frame_size (pos 0)) 0)
