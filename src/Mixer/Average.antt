-- ===== src/Mixer/Average.antt =====
-- The mix as an average: the loop against a plain sum, and why the clipping never acts.
use mathlib.Core.Path.{ap₂}
use native.Mathlib.Nat.{div-le_of_le-mul}
use quickonnect.Prelude.{
  ℕ, zero, suc, ◌+◌, ◌*◌, ◌/◌, ◌≤◌, ◌<◌, true, false, List, [], ◌∷◌, map, length, replicate,
  length-replicate, nat_eq, nat_beq_iff, ◌==◌, ◌≡◌, refl, sym, ap, ◌∙◌, arith, All,
}
use quickonnect.Prelude.Int.{ℤ, pos, negsuc, ◌+ℤ◌, tdiv, pos_part, neg_part}
use quickonnect.Stt.{Bytes}
use quickonnect.Mixer.Pcm.{
  IsSample, IsFrame, unpack-pack, length-pack, length-unpack, unpack-IsSample,
}
use quickonnect.Mixer.Samples.{
  frame_size, frame_bytes, unpack, add_samples, sum_frames, clip, average, mix_frames,
}

-- The sums of n int16 values.
abbrev IsSum : ℕ → ℤ → Type 0
IsSum n x = (pos_part x ≤ n * 32767) × (neg_part x ≤ n * 32768)

add-IsSum : (n : ℕ) (x y : ℤ) → IsSample x → IsSum n y → IsSum (suc n) (x +ℤ y)
unfolding ◌+ℤ◌
add-IsSum n x y h k = ground arith

add_samples-IsSum :
    (n : ℕ) (xs ms : List ℤ)
    → length ms ≡ length xs
    → All IsSample xs
    → All (IsSum n) ms
    → All (IsSum (suc n)) (add_samples xs ms)
unfolding add_samples
add_samples-IsSum n [] ms e h k = tt
add_samples-IsSum n (x ∷ xs) [] e h k = absurd (omega arith)
add_samples-IsSum n (x ∷ xs) (m ∷ ms) e h k =
    (add-IsSum n x m h.0 k.0, add_samples-IsSum n xs ms (omega arith) h.1 k.1)

pub length-add_samples : (ms xs : List ℤ) → length (add_samples ms xs) ≡ length ms
unfolding add_samples
length-add_samples [] xs = refl
length-add_samples (m ∷ ms) [] = refl
length-add_samples (m ∷ ms) (x ∷ xs) = ap suc (length-add_samples ms xs)

-- The average of int16 values is an int16.
tdiv-IsSample : (n : ℕ) (x : ℤ) → 0 < n → IsSum n x → IsSample (tdiv x n)
unfolding tdiv
tdiv-IsSample n (pos a) p h = let q : a / n ≤ 32767 = div-le_of_le-mul n h.0 in ground arith
tdiv-IsSample n (negsuc a) p h = let q : suc a / n ≤ 32768 = div-le_of_le-mul n h.1 in ground arith

clip_id : (x : ℤ) → IsSample x → clip x ≡ x
unfolding clip
clip_id x h = ground arith

clip-tdiv :
    (n : ℕ) (ms : List ℤ)
    → 0 < n
    → All (IsSum n) ms
    → (map clip (map (λ m. tdiv m n) ms) ≡ map (λ m. tdiv m n) ms)
      × All IsSample (map (λ m. tdiv m n) ms)
clip-tdiv n [] p h = (refl, tt)
clip-tdiv n (m ∷ ms) p h =
    let s = tdiv-IsSample n m p h.0 in
    let rest = clip-tdiv n ms p h.1 in (cc (clip_id (tdiv m n) s, rest.0), (s, rest.1))

zeros : ℕ → List ℤ
zeros n = replicate n (pos 0)

+ℤ_zero : (m : ℤ) → m +ℤ pos 0 ≡ m
unfolding ◌+ℤ◌
+ℤ_zero m = ground arith

+ℤ_assoc : (a b c : ℤ) → a +ℤ b +ℤ c ≡ a +ℤ (b +ℤ c)
unfolding ◌+ℤ◌
+ℤ_assoc a b c = ground arith

add_samples-zeros : (n : ℕ) (ms : List ℤ) → length ms ≡ n → add_samples ms (zeros n) ≡ ms
unfolding add_samples zeros
add_samples-zeros zero [] e = refl
add_samples-zeros zero (m ∷ ms) e = absurd (omega arith)
add_samples-zeros (suc n) [] e = absurd (omega arith)
add_samples-zeros (suc n) (m ∷ ms) e =
    ap₂ (λ x l. x ∷ l) (+ℤ_zero m) (add_samples-zeros n ms (omega arith))

add_samples_assoc :
    (ks ms xs : List ℤ)
    → length ms ≡ length ks
    → length xs ≡ length ks
    → add_samples (add_samples ks ms) xs ≡ add_samples ks (add_samples ms xs)
unfolding add_samples
add_samples_assoc [] ms xs e f = refl
add_samples_assoc (k ∷ ks) [] xs e f = absurd (omega arith)
add_samples_assoc (k ∷ ks) (m ∷ ms) [] e f = absurd (omega arith)
add_samples_assoc (k ∷ ks) (m ∷ ms) (x ∷ xs) e f =
    ap₂ (λ y l. y ∷ l) (+ℤ_assoc k m x) (add_samples_assoc ks ms xs (omega arith) (omega arith))

-- The samples of the frames, added up one position at a time.
module _ (n : ℕ) where
  unfoldable pub sums : List Bytes → List ℤ
  unfolding zeros add_samples unpack
  sums [] = zeros n
  sums (f ∷ fs) = add_samples (unpack f) (sums fs)

length-sums : (fs : List Bytes) → All IsFrame fs → length (sums frame_size fs) ≡ frame_size
unfolding sums
length-sums [] h = length-replicate {0} frame_size (pos 0)
length-sums (f ∷ fs) h =
    length-add_samples (unpack f) (sums frame_size fs) ∙ length-unpack f frame_size h.0.size

abbrev AllFrames : List Bytes → Type 0
AllFrames fs = All IsFrame fs

sum_frames-sums :
    (fs : List Bytes) (mixed : List ℤ) (k : ℕ)
    → AllFrames fs
    → length mixed ≡ frame_size
    → sum_frames fs mixed k ≡ (add_samples mixed (sums frame_size fs), k + length fs)
unfolding sum_frames sums
sum_frames-sums [] mixed k h e =
    ap₂ (λ a b. (a, b)) (sym (add_samples-zeros frame_size mixed e)) (omega arith)
sum_frames-sums (f ∷ fs) mixed k h e =
    let mixed' = add_samples mixed (unpack f) in
    let size = length-unpack f frame_size h.0.size in
    let rest = sum_frames-sums fs mixed' (k + 1) h.1 (length-add_samples mixed (unpack f) ∙ e) in
    let test : (length f == frame_bytes) ≡ true = (nat_beq_iff (length f) frame_bytes).1 h.0.size in
    rw test (
      rest
      ∙ ap₂ (λ a b. (a, b))
          (add_samples_assoc mixed (unpack f) (sums frame_size fs) (size ∙ sym e)
            (length-sums fs h.1 ∙ sym e))
          (omega arith))

zeros-IsSum : (n : ℕ) → All (IsSum 0) (zeros n)
unfolding zeros
zeros-IsSum zero = tt
zeros-IsSum (suc n) = (omega arith, zeros-IsSum n)

sums-IsSum : (fs : List Bytes) → AllFrames fs → All (IsSum (length fs)) (sums frame_size fs)
unfolding sums
sums-IsSum [] h = zeros-IsSum frame_size
sums-IsSum (f ∷ fs) h =
    add_samples-IsSum (length fs) (unpack f) (sums frame_size fs)
      (length-sums fs h.1 ∙ sym (length-unpack f frame_size h.0.size)) (unpack-IsSample f h.0.bytes)
      (sums-IsSum fs h.1)

-- The start of the loop adds nothing.
zeros-add_samples : (n : ℕ) (xs : List ℤ) → length xs ≡ n → add_samples (zeros n) xs ≡ xs
unfolding add_samples zeros ◌+ℤ◌
zeros-add_samples zero [] e = refl
zeros-add_samples zero (x ∷ xs) e = absurd (omega arith)
zeros-add_samples (suc n) [] e = absurd (omega arith)
zeros-add_samples (suc n) (x ∷ xs) e =
    ap₂ (λ y l. y ∷ l) (ground arith) (zeros-add_samples n xs (omega arith))

length-map : (f : ℤ → ℤ) (ms : List ℤ) → length (map f ms) ≡ length ms
length-map f [] = refl
length-map f (m ∷ ms) = ap suc (length-map f ms)

average_lem :
    (n : ℕ) (ms : List ℤ)
    → 0 < n
    → All (IsSum n) ms
    → (unpack (average (ms, n)) ≡ map (λ m. tdiv m n) ms)
      × (length (average (ms, n)) ≡ 2 * length ms)
unfolding average
average_lem n ms p h =
    let more : (n == 0) ≡ false = ground arith in
    let (clipped, samples) = clip-tdiv n ms p h in
    rw (more, clipped)
      (
        unpack-pack (map (λ m. tdiv m n) ms) samples,
        length-pack (map (λ m. tdiv m n) ms) ∙ ap (λ k. 2 * k) (length-map (λ m. tdiv m n) ms),
      )

mix_frames-two :
    (f g : Bytes) (fs : List Bytes)
    → mix_frames (f ∷ g ∷ fs) ≡ average (sum_frames (f ∷ g ∷ fs) (zeros frame_size) 0)
unfolding mix_frames zeros
mix_frames-two f g fs = refl

sum_frames-all :
    (fs : List Bytes)
    → AllFrames fs
    → sum_frames fs (zeros frame_size) 0 ≡ (sums frame_size fs, length fs)
unfolding zeros
sum_frames-all fs h =
    sum_frames-sums fs (zeros frame_size) 0 h (length-replicate {0} frame_size (pos 0))
    ∙ ap₂ (λ a b. (a, b)) (zeros-add_samples frame_size (sums frame_size fs) (length-sums fs h))
        (omega arith)

-- Of two or more frames of the right size the mix is the sample-wise average, cut off towards zero:
-- the clipping never acts. It has the size of a frame.
pub mix_frames-average :
    (f g : Bytes) (fs : List Bytes)
    → All IsFrame (f ∷ g ∷ fs)
    → (unpack (mix_frames (f ∷ g ∷ fs))
        ≡ map (λ m. tdiv m (length (f ∷ g ∷ fs))) (sums frame_size (f ∷ g ∷ fs)))
      × (length (mix_frames (f ∷ g ∷ fs)) ≡ frame_bytes)
mix_frames-average f g fs h =
    let all = f ∷ g ∷ fs in
    let result : mix_frames all ≡ average (sums frame_size all, length all) =
      mix_frames-two f g fs ∙ ap average (sum_frames-all all h) in
    let mean = average_lem (length all) (sums frame_size all) (omega arith) (sums-IsSum all h) in
    (ap unpack result ∙ mean.0, ap length result ∙ mean.1 ∙ ap (λ k. 2 * k) (length-sums all h))
