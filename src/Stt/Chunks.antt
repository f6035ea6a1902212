-- ===== src/Stt/Chunks.antt =====
-- The frames of each speaker on their way into the chunks.
use mathlib.Core.List.{append_assoc, append-nil}
use mathlib.Core.Path.{subst}
use quickonnect.Prelude.{
  ℕ, ◌<◌, true, false, ◌==◌, if◌then◌else◌, Bool-cases, inl, inr, Option, none, some, List, [], ◌∷◌,
  ◌++◌, Text, nat_eq, length, length-append, ◌≡◌, arith, refl, sym, ap, ◌∙◌, nat_beq_iff, All,
}
use quickonnect.Prelude.Dict.{get-put}
use quickonnect.Stt.{
  Bytes, SttManager, Job, frames_per_chunk, register, buffer, push, feed_audio, stop,
}

-- A manager that takes frames and can submit chunks.
pub record IsLive (s : SttManager) : Type 0 where
  pub enabled : s.enabled ≡ true
  pub running : s.running ≡ true
  pub pool : s.pool ≡ true

abbrev no_frames : List Bytes
no_frames = []

abbrev pub job_frames : Option Job → List Bytes
job_frames none = []
job_frames (some j) = j.frames

abbrev pub add_job : Option Job → List Job → List Job
add_job none jobs = jobs
add_job (some j) jobs = j ∷ jobs

-- A frame that comes in: who speaks, under which name, and the audio.
abbrev pub Arrival : Type 0
Arrival = ℕ × Text × Bytes

-- Frames of any speakers, fed one after the other: the state in the end and the submitted chunks.
unfoldable pub feed_all : List Arrival → SttManager → SttManager × List Job
feed_all [] s = (s, [])
feed_all ((u, n, f) ∷ fs) s =
    let (s', job) = feed_audio u n f s in
    let (s'', jobs) = feed_all fs s' in (s'', add_job job jobs)

-- The frames of one speaker among those that come in.
unfoldable pub frames_of : ℕ → List Arrival → List Bytes
frames_of v [] = []
frames_of v ((u, n, f) ∷ fs) = if v == u then f ∷ frames_of v fs else frames_of v fs

-- The frames in the chunks of one speaker.
unfoldable pub chunked : ℕ → List Job → List Bytes
chunked v [] = []
chunked v (j ∷ js) = if v == j.user_id then j.frames ++ chunked v js else chunked v js

abbrev chunk_of : ℕ → Option Job → List Bytes
chunk_of v none = []
chunk_of v (some j) = if v == j.user_id then j.frames else []

-- Every buffer holds less than a chunk.
abbrev pub IsShort : SttManager → Type 0
IsShort s = (v : ℕ) → length (buffer v s) < frames_per_chunk

buffer-register : (u : ℕ) (n : Text) (s : SttManager) → buffer u (register u n s) ≡ buffer u s
unfolding register
buffer-register u n s = ground (arith, get-put u u no_frames s.speaker_buffers, nat_beq_iff u u)

register-IsLive : (u : ℕ) (n : Text) (s : SttManager) → IsLive s → IsLive (register u n s)
unfolding register
register-IsLive u n s l = ground arith

-- A job holds a whole chunk.
abbrev pub IsFull : Option Job → Type 0
IsFull none = Unit
IsFull (some j) = length j.frames ≡ frames_per_chunk

push_frames :
    (u : ℕ) (n : Text) (f : Bytes) (s : SttManager)
    → s.pool ≡ true
    → job_frames (push u n f s).1 ++ buffer u (push u n f s).0 ≡ buffer u s ++ f ∷ []
unfolding push
push_frames u n f s p = ground (
  arith,
  get-put u u no_frames s.speaker_buffers,
  get-put u u (buffer u s ++ f ∷ []) s.speaker_buffers,
  nat_beq_iff u u,
  append-nil (buffer u s ++ f ∷ []),
)

push-length :
    (u : ℕ) (n : Text) (f : Bytes) (s : SttManager)
    → s.pool ≡ true
    → length (buffer u s) < frames_per_chunk
    → (length (buffer u (push u n f s).0) < frames_per_chunk) × IsFull (push u n f s).1
unfolding push
push-length u n f s p h = ground (
  arith,
  get-put u u no_frames s.speaker_buffers,
  get-put u u (buffer u s ++ f ∷ []) s.speaker_buffers,
  nat_beq_iff u u,
  length-append {0} (buffer u s) (f ∷ []),
)

push-IsLive : (u : ℕ) (n : Text) (f : Bytes) (s : SttManager) → IsLive s → IsLive (push u n f s).0
unfolding push
push-IsLive u n f s l = ground arith

feed-push :
    (u : ℕ) (n : Text) (f : Bytes) (s : SttManager)
    → IsLive s
    → feed_audio u n f s ≡ push u n f (register u n s)
unfolding feed_audio
feed-push u n f s l = ground arith

abbrev IsOwn : ℕ → Option Job → Type 0
IsOwn u none = Unit
IsOwn u (some j) = j.user_id ≡ u

register_other :
    (u v : ℕ) (n : Text) (s : SttManager)
    → (v == u) ≡ false
    → buffer v (register u n s) ≡ buffer v s
unfolding register
register_other u v n s h = ground (arith, h, get-put u v no_frames s.speaker_buffers)

push_other :
    (u v : ℕ) (n : Text) (f : Bytes) (s : SttManager)
    → (v == u) ≡ false
    → buffer v (push u n f s).0 ≡ buffer v s
unfolding push
push_other u v n f s h = ground (
  arith,
  h,
  get-put u v no_frames s.speaker_buffers,
  get-put u v (buffer u s ++ f ∷ []) s.speaker_buffers,
)

push-IsOwn : (u : ℕ) (n : Text) (f : Bytes) (s : SttManager) → IsOwn u (push u n f s).1
unfolding push
push-IsOwn u n f s = ground arith

-- What one call does to the frames of its speaker, and to those of the others.
record Fed (u : ℕ) (f : Bytes) (s : SttManager) (r : SttManager × Option Job) : Type 0 where
  frames : job_frames r.1 ++ buffer u r.0 ≡ buffer u s ++ f ∷ []
  short : length (buffer u r.0) < frames_per_chunk
  full : IsFull r.1
  live : IsLive r.0
  elsewhere : (v : ℕ) → (v == u) ≡ false → buffer v r.0 ≡ buffer v s
  own : IsOwn u r.1

feed-Fed :
    (u : ℕ) (n : Text) (f : Bytes) (s : SttManager)
    → IsLive s
    → length (buffer u s) < frames_per_chunk
    → Fed u f s (feed_audio u n f s)
feed-Fed u n f s l h =
    let s' = register u n s in
    let same = buffer-register u n s in
    let l' = register-IsLive u n s l in
    let lengths = push-length u n f s' l'.pool (omega (arith, ap length same)) in
    rw (feed-push u n f s l) (record {
      frames = push_frames u n f s' l'.pool ∙ ap (λ b. b ++ f ∷ []) same;
      short = lengths.0;
      full = lengths.1;
      live = push-IsLive u n f s' l';
      elsewhere = λ v other. push_other u v n f s' other ∙ register_other u v n s other;
      own = push-IsOwn u n f s';
    })

chunk_of-IsOwn :
    (v u : ℕ) (o : Option Job) → IsOwn u o → chunk_of v o ≡ (if v == u then job_frames o else [])
chunk_of-IsOwn v u none own = ground arith
chunk_of-IsOwn v u (some j) own = ap (λ i. if v == i then j.frames else []) own

chunked-add_job :
    (v : ℕ) (o : Option Job) (jobs : List Job)
    → chunked v (add_job o jobs) ≡ chunk_of v o ++ chunked v jobs
unfolding chunked
chunked-add_job v none jobs = refl
chunked-add_job v (some j) jobs = ground arith

All-add_job :
    (o : Option Job) (jobs : List Job)
    → IsFull o
    → All (λ j. length j.frames ≡ frames_per_chunk) jobs
    → All (λ j. length j.frames ≡ frames_per_chunk) (add_job o jobs)
All-add_job none jobs h a = a
All-add_job (some j) jobs h a = (h, a)

-- One call, for any speaker.
Fed-frames :
    (v u : ℕ) (f : Bytes) (s : SttManager) (r : SttManager × Option Job)
    → Fed u f s r
    → (chunk_of v r.1 ++ buffer v r.0 ≡ buffer v s ++ (if v == u then f ∷ [] else []))
      × (length (buffer v s) < frames_per_chunk → length (buffer v r.0) < frames_per_chunk)
Fed-frames v u f s r fed =
    let chunk = chunk_of-IsOwn v u r.1 fed.own in
    elim (Bool-cases (v == u)) [
      | inl same ↦
          let at : v ≡ u = (nat_beq_iff v u).0 same in
          rw same (
            ap (λ c. c ++ buffer v r.0) (chunk ∙ ap (λ b. if b then job_frames r.1 else []) same)
                ∙ (ap (λ i. job_frames r.1 ++ buffer i r.0) at
                    ∙ (fed.frames ∙ ap (λ i. buffer i s ++ f ∷ []) (sym at))),
            λ before. subst (λ i. length (buffer i r.0) < frames_per_chunk) (sym at) fed.short,
          )
      | inr apart ↦
          let kept = fed.elsewhere v apart in
          rw apart (
            ap (λ c. c ++ buffer v r.0) (chunk ∙ ap (λ b. if b then job_frames r.1 else []) apart)
                ∙ (kept ∙ sym (append-nil (buffer v s))),
            λ before. subst (λ b. length b < frames_per_chunk) (sym kept) before,
          )
    ]

frames_of-next :
    (v u : ℕ) (n : Text) (f : Bytes) (fs : List Arrival)
    → (if v == u then f ∷ [] else []) ++ frames_of v fs ≡ frames_of v ((u, n, f) ∷ fs)
unfolding frames_of
frames_of-next v u n f fs = ground arith

-- While speech-to-text runs, which it does only where it was enabled (otherwise every frame is dropped), and
-- from buffers of fewer than 150 frames: whoever speaks in whatever order, the chunks submitted for each
-- speaker, joined in order, and that speaker's buffer after them are the buffer before and then the
-- speaker's frames that came in; every chunk has 150 frames, and fewer are left waiting.
pub feed_all_lem :
    (fs : List Arrival) (s : SttManager)
    → IsLive s
    → IsShort s
    → ((v : ℕ)
        → chunked v (feed_all fs s).1 ++ buffer v (feed_all fs s).0 ≡ buffer v s ++ frames_of v fs)
      × All (λ j. length j.frames ≡ frames_per_chunk) (feed_all fs s).1
      × IsShort (feed_all fs s).0
unfolding feed_all chunked frames_of
feed_all_lem [] s l h = ((λ v. sym (append-nil (buffer v s))), tt, h)
feed_all_lem ((u, n, f) ∷ fs) s l h =
    let (s', job) = feed_audio u n f s in
    let fed = feed-Fed u n f s l (h u) in
    let step : (v : ℕ) → _ = λ v. Fed-frames v u f s (s', job) fed in
    let (frames, full, short) = feed_all_lem fs s' fed.live (λ v. (step v).1 (h v)) in
    let (last, jobs) = feed_all fs s' in
    (
      λ v.
          ap (λ x. x ++ buffer v last) (chunked-add_job v job jobs)
          ∙ append_assoc (chunk_of v job) (chunked v jobs) _
          ∙ ap (λ x. chunk_of v job ++ x) (frames v)
          ∙ sym (append_assoc (chunk_of v job) (buffer v s') (frames_of v fs))
          ∙ ap (λ x. x ++ frames_of v fs) (step v).0
          ∙ append_assoc (buffer v s) (if v == u then f ∷ [] else []) (frames_of v fs)
          ∙ ap (λ x. buffer v s ++ x) (frames_of-next v u n f fs),
      All-add_job job jobs fed.full full,
      short,
    )

-- Once stopped, a manager takes no frame and submits nothing.
pub feed-stop :
    (u : ℕ) (n : Text) (f : Bytes) (s : SttManager) → feed_audio u n f (stop s) ≡ (stop s, none)
unfolding feed_audio stop
feed-stop u n f s = refl
