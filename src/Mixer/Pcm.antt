-- ===== src/Mixer/Pcm.antt =====
-- The bytes of a frame as int16 samples, and back.
use quickonnect.Prelude.{
  ℕ, zero, suc, ◌*◌, ◌/◌, ◌%◌, ◌≤◌, ◌<◌, List, [], ◌∷◌, length, nat_eq, ◌≡◌, refl, ap, arith, All,
}
use quickonnect.Prelude.Int.{ℤ, pos, negsuc, pos_part, neg_part}
use quickonnect.Stt.{Bytes}
use quickonnect.Mixer.Samples.{frame_bytes, unpack_sample, word, unpack, pack}

-- An int16.
abbrev pub IsSample : ℤ → Type 0
IsSample x = (pos_part x ≤ 32767) × (neg_part x ≤ 32768)

abbrev pub IsByte : ℕ → Type 0
IsByte b = b < 256

-- A frame as the jitter buffers hold it.
pub record IsFrame (f : Bytes) : Type 0 where
  pub bytes : All IsByte f
  pub size : length f ≡ frame_bytes

unpack_sample-word : (x : ℤ) → IsSample x → unpack_sample (word x % 256) (word x / 256) ≡ x
unfolding unpack_sample word
unpack_sample-word (pos n) h = ground arith
unpack_sample-word (negsuc n) h = ground arith

-- Reading back what was packed gives the samples.
pub unpack-pack : (xs : List ℤ) → All IsSample xs → unpack (pack xs) ≡ xs
unfolding unpack pack
unpack-pack [] h = refl
unpack-pack (x ∷ xs) h = ground (arith, unpack_sample-word x h.0, unpack-pack xs h.1)

pub length-pack : (xs : List ℤ) → length (pack xs) ≡ 2 * length xs
unfolding pack
length-pack [] = refl
length-pack (x ∷ xs) = omega (arith, length-pack xs)

pub length-unpack : (f : Bytes) (n : ℕ) → length f ≡ 2 * n → length (unpack f) ≡ n
unfolding unpack
length-unpack [] n h = omega arith
length-unpack (lo ∷ []) n h = absurd (omega arith)
length-unpack (lo ∷ hi ∷ f) zero h = absurd (omega arith)
length-unpack (lo ∷ hi ∷ f) (suc n) h = ap suc (length-unpack f n (omega arith))

unpack_sample-IsSample : (lo hi : ℕ) → IsByte lo → IsByte hi → IsSample (unpack_sample lo hi)
unfolding unpack_sample
unpack_sample-IsSample lo hi a b = ground arith

pub unpack-IsSample : (f : Bytes) → All IsByte f → All IsSample (unpack f)
unfolding unpack
unpack-IsSample [] h = tt
unpack-IsSample (lo ∷ []) h = tt
unpack-IsSample (lo ∷ hi ∷ f) h = (unpack_sample-IsSample lo hi h.0 h.1.0, unpack-IsSample f h.1.1)
