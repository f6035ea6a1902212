-- ===== src/Mixer/Buffers.antt =====
-- The jitter buffers stay small, and hold frames of one size.
use mathlib.Core.Path.{subst}
use quickonnect.Prelude.{
  ℕ, suc, ◌+◌, ◌-◌, ◌≤◌, true, false, Option, none, some, List, [], ◌∷◌, ◌++◌, length,
  length-append, length-replicate, length-take, replicate, nat_eq, ◌==◌, ltb, ◌≡◌, refl, sym, ap,
  arith, All, Bool-cases, inl, inr, Text, Option-cases, drop, ltb→lt,
}
use quickonnect.Prelude.Dict.{Dict, get, put, has, get-put}
use quickonnect.Stt.{Bytes}
use quickonnect.Mixer.Samples.{frame_bytes}
use quickonnect.Mixer.{
  AudioMixerState, max_buffer, append_bounded, add_participant, normalise, buffer, queue, feed_stt,
  feed_audio, mix_tick, start,
}
use quickonnect.Mixer.Tick.{mix_tick_buffers, tail_of}

-- A buffer that a deque of ten frames can be.
pub record IsBuffer (l : List Bytes) : Type 0 where
  pub short : length l ≤ max_buffer
  pub sized : All (λ f. length f ≡ frame_bytes) l

pub record IsBounded (m : AudioMixerState) : Type 0 where
  pub at : (u : ℕ) → IsBuffer (buffer u m)

-- The frame that is queued has the size of a frame, whatever came in.
pub length-normalise : (pcm : Bytes) → length (normalise pcm) ≡ frame_bytes
unfolding normalise
length-normalise pcm = elim (Bool-cases (ltb (length pcm) frame_bytes)) [
  | inl short ↦ rw short (
      omega (
        arith,
        length-append {0} pcm (replicate (frame_bytes - length pcm) 0),
        length-replicate {0} {A = ℕ} (frame_bytes - length pcm) 0,
        ltb→lt (length pcm) frame_bytes short,
      ))
  | inr enough ↦ rw enough (elim (Bool-cases (ltb frame_bytes (length pcm))) [
    | inl long ↦
        rw long
          (omega (arith, length-take {0} frame_bytes pcm, ltb→lt frame_bytes (length pcm) long))
    | inr same ↦ rw same (ground arith)
  ])
]

All-snoc :
    (l : List Bytes) (f : Bytes)
    → All (λ g. length g ≡ frame_bytes) l
    → length f ≡ frame_bytes
    → All (λ g. length g ≡ frame_bytes) (l ++ f ∷ [])
All-snoc [] f h e = (e, tt)
All-snoc (g ∷ l) f h e = (h.0, All-snoc l f h.1 e)

append_bounded-IsBuffer :
    (f : Bytes) (l : List Bytes)
    → IsBuffer l
    → length f ≡ frame_bytes
    → IsBuffer (append_bounded f l)
unfolding append_bounded
append_bounded-IsBuffer f [] b e = record { short = omega arith; sized = (e, tt) }
append_bounded-IsBuffer f (g ∷ l) b e = elim (Bool-cases (ltb (length (g ∷ l)) max_buffer)) [
  | inl room ↦ rw room (record {
    short = omega (arith, length-append {0} l (f ∷ []), ltb→lt (length (g ∷ l)) max_buffer room);
    sized = All-snoc (g ∷ l) f b.sized e;
  })
  | inr full ↦ rw full (record {
    short = omega (arith, length-append {0} l (f ∷ []), b.short);
    sized = All-snoc l f b.sized.1 e;
  })
]

-- Appending to a buffer of at most ten frames drops the oldest exactly where there were ten.
pub append_bounded_lem :
    (f : Bytes) (l : List Bytes)
    → length l ≤ max_buffer
    → append_bounded f l ≡ drop (length l + 1 - max_buffer) (l ++ f ∷ [])
unfolding append_bounded
append_bounded_lem f [] h = refl
append_bounded_lem f (g ∷ l) h = elim (Bool-cases (ltb (length (g ∷ l)) max_buffer)) [
  | inl room ↦
      let none_over : suc (length l) + 1 - max_buffer ≡ 0 =
        omega (arith, ltb→lt (length (g ∷ l)) max_buffer room) in
      rw (room, none_over)
  | inr full ↦
      let one_over : suc (length l) + 1 - max_buffer ≡ 1 = ground arith in rw (full, one_over)
]

empty-IsBuffer : IsBuffer []
empty-IsBuffer = record { short = omega arith; sized = tt }

buffer-put_self :
    (d : Dict ℕ (List Bytes)) (u v : ℕ) (l : List Bytes) (m : AudioMixerState)
    → (v == u) ≡ true
    → l ≡ buffer v (record m { buffers = put u l d })
buffer-put_self d u v l m h = ground (arith, get-put u v l d)

buffer-put_ne :
    (d : Dict ℕ (List Bytes)) (u v : ℕ) (l : List Bytes) (m : AudioMixerState)
    → (v == u) ≡ false
    → buffer v (record m { buffers = d }) ≡ buffer v (record m { buffers = put u l d })
buffer-put_ne d u v l m h = ground (arith, get-put u v l d)

-- A buffer is stored anew for one user.
put-IsBounded :
    (d : Dict ℕ (List Bytes)) (u v : ℕ) (l : List Bytes) (m : AudioMixerState)
    → ((w : ℕ) → IsBuffer (buffer w (record m { buffers = d })))
    → IsBuffer l
    → IsBuffer (buffer v (record m { buffers = put u l d }))
put-IsBounded d u v l m h b = elim (Bool-cases (v == u)) [
  | inl here ↦ subst IsBuffer (buffer-put_self d u v l m here) b
  | inr other ↦ subst IsBuffer (buffer-put_ne d u v l m other) (h v)
]

pub add_participant-IsBounded :
    (u : ℕ) (n : Text) (m : AudioMixerState) → IsBounded m → IsBounded (add_participant u n m)
unfolding add_participant
add_participant-IsBounded u n m b = elim (Bool-cases (has u m.buffers)) [
  | inl there ↦ rw there b
  | inr new ↦ rw new (record { at = λ v. put-IsBounded m.buffers u v [] m b.at empty-IsBuffer })
]

buffers-feed_stt :
    (u : ℕ) (pcm : Bytes) (m : AudioMixerState) → (feed_stt u pcm m).0.buffers ≡ m.buffers
unfolding feed_stt
buffers-feed_stt u pcm m = ground arith

feed_audio_bad :
    (decode : Text → Option Bytes) (u : ℕ) (pcm_b64 : Text) (m : AudioMixerState)
    → decode pcm_b64 ≡ none
    → (feed_audio decode u pcm_b64 m).0 ≡ m
unfolding feed_audio
feed_audio_bad decode u pcm_b64 m h = ground arith

pub buffers-feed_audio :
    (decode : Text → Option Bytes) (u : ℕ) (pcm_b64 : Text) (m : AudioMixerState) (pcm : Bytes)
    → decode pcm_b64 ≡ some pcm
    → (feed_audio decode u pcm_b64 m).0.buffers
      ≡ put u (append_bounded (normalise pcm) (buffer u m)) m.buffers
unfolding feed_audio start queue
buffers-feed_audio decode u pcm_b64 m pcm h =
    rw (h, feed_audio) (buffers-feed_stt u (normalise pcm) (queue u (normalise pcm) m))

same_buffers : (m n : AudioMixerState) → m.buffers ≡ n.buffers → IsBounded m → IsBounded n
same_buffers m n e b = record {
  at = λ u. subst (λ d. IsBuffer (buffer u (record n { buffers = d }))) e (b.at u);
}

-- Where every jitter buffer holds at most ten frames, all of the size of a frame, so it does after
-- audio of whatever size and content was fed.
pub feed_audio-IsBounded :
    (decode : Text → Option Bytes) (u : ℕ) (pcm_b64 : Text) (m : AudioMixerState)
    → IsBounded m
    → IsBounded (feed_audio decode u pcm_b64 m).0
feed_audio-IsBounded decode u pcm_b64 m b = elim (Option-cases (decode pcm_b64)) [
  | inl bad ↦ subst IsBounded (sym (feed_audio_bad decode u pcm_b64 m bad)) b
  | inr (pcm, good) ↦
      let l = append_bounded (normalise pcm) (buffer u m) in
      same_buffers (record m { buffers = put u l m.buffers }) _
        (sym (buffers-feed_audio decode u pcm_b64 m pcm good))
        (record {
          at = λ v. put-IsBounded m.buffers u v l m b.at (
              append_bounded-IsBuffer (normalise pcm) (buffer u m) (b.at u) (length-normalise pcm));
        })
]

abbrev held : Option (List Bytes) → List Bytes
held none = []
held (some l) = l

buffer_tail : (o p : Option (List Bytes)) → p ≡ tail_of o → held p ≡ held (tail_of o)
buffer_tail o p e = ap held e

tail-IsBuffer : (o : Option (List Bytes)) → IsBuffer (held o) → IsBuffer (held (tail_of o))
tail-IsBuffer none b = b
tail-IsBuffer (some []) b = b
tail-IsBuffer (some (f ∷ l)) b = record { short = omega (arith, b.short); sized = b.sized.1 }

-- So does a tick.
pub mix_tick-IsBounded :
    (clients : List ℕ) (m : AudioMixerState) → IsBounded m → IsBounded (mix_tick clients m).0
mix_tick-IsBounded clients m b = record {
  at = λ u.
      subst IsBuffer (sym (buffer_tail (get u m.buffers) _ (mix_tick_buffers clients m u)))
        (tail-IsBuffer (get u m.buffers) (b.at u));
}
