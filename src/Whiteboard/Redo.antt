-- ===== src/Whiteboard/Redo.antt =====
-- What undo and redo do to the drawing events that are shown.
use mathlib.Core.List.{reverse_aux, reverse-append, append-nil}
use quickonnect.Prelude.{
  ℕ, ◌+◌, ◌≤◌, ◌<◌, true, false, Option, none, some, List, [], ◌∷◌, ◌++◌, reverse, ◌≡◌, refl, sym,
  arith, ==_refl, nat_eq, Text, text_eq, elem, All, ◌∙◌, ap, sorted_id,
}
use quickonnect.Prelude.Dict.{Dict, get, put, keys, get-put}
use quickonnect.Prelude.Int.{ℤ, pos, int_eq}
use quickonnect.Json
use quickonnect.Json.{Fields}
use quickonnect.Whiteboard.{
  Event, WhiteboardState, mark, mark_all, collect, is_undo, target, undo, add_event, store,
  is_processed, get_active_events, recalculate_undone_seqs,
}
use quickonnect.Whiteboard.Events.{keys-put_new, All-map}
use quickonnect.Whiteboard.Ids.{remember_keeps}
use quickonnect.Whiteboard.Valid.{IsValid, add_event-IsValid}

-- Two sets agree on the numbers up to a bound.
abbrev pub Agree : ℕ → List ℤ → List ℤ → Type 0
Agree b u v = (k : ℕ) → k ≤ b → elem (pos k) u ≡ elem (pos k) v

mark-Agree :
    (b s : ℕ) (o : Option Event) (u v : List ℤ)
    → s ≤ b
    → Agree b u v
    → Agree b (mark s o u) (mark s o v)
unfolding mark
mark-Agree b s none u v h a k l = a k l
mark-Agree b s (some e) u v h a k l = ground (arith, a s h, a k l)

mark_all-Agree :
    (b : ℕ) (d d' : Dict ℕ Event) (seqs : List ℕ) (u v : List ℤ)
    → All (λ s. s ≤ b) seqs
    → All (λ s. get s d ≡ get s d') seqs
    → Agree b u v
    → Agree b (mark_all d seqs u) (mark_all d' seqs v)
unfolding mark_all
mark_all-Agree b d d' [] u v h g a = a
mark_all-Agree b d d' (s ∷ seqs) u v h g a = rw g.0 (
    mark_all-Agree b d d' seqs (mark s (get s d') u) (mark s (get s d') v) h.1 g.1
      (mark-Agree b s (get s d') u v h.0 a))

collect-Agree :
    (b : ℕ) (d d' : Dict ℕ Event) (u v : List ℤ) (seqs : List ℕ)
    → All (λ s. s ≤ b) seqs
    → All (λ s. get s d ≡ get s d') seqs
    → Agree b u v
    → collect d u seqs ≡ collect d' v seqs
unfolding collect
collect-Agree b d d' u v [] h g a = refl
collect-Agree b d d' u v (s ∷ seqs) h g a =
    ground (arith, g.0, a s h.0, collect-Agree b d d' u v seqs h.1 g.1 a)

pub All-reverse_aux {ℓ} :
    (P : ℕ → Type ℓ) (l r : List ℕ) → All P l → All P r → All P (reverse_aux l r)
All-reverse_aux P [] r h k = k
All-reverse_aux P (x ∷ l) r h k = All-reverse_aux P l (x ∷ r) h.1 (h.0, k)

collect-append :
    (d : Dict ℕ Event) (u : List ℤ) (xs ys : List ℕ)
    → collect d u (xs ++ ys) ≡ collect d u xs ++ collect d u ys
unfolding collect
collect-append d u [] ys = refl
collect-append d u (s ∷ xs) ys = ground (arith, collect-append d u xs ys)

-- The events that are shown, by the keys as they stand.
unfoldable pub active_of : Dict ℕ Event → List ℤ → List Event
active_of d seed = collect d (mark_all d (reverse (keys d)) seed) (keys d)

pub active-valid :
    (w : WhiteboardState) → IsValid w → get_active_events none w ≡ active_of w.events []
unfolding get_active_events active_of
active-valid w v = rw (sorted_id _ v.ascending)

last_is_undo :
    (d : Dict ℕ Event) (u : List ℤ) (s : ℕ) (e : Event)
    → get s d ≡ some e
    → is_undo e ≡ true
    → collect d u (s ∷ []) ≡ []
unfolding collect
last_is_undo d u s e h un = ground arith

-- An undo as the last event only seeds the loop over the events before it.
active_snoc_undo :
    (d : Dict ℕ Event) (n s : ℕ) (e : Event) (u : List ℤ)
    → All (λ k. k ≤ n) (keys d)
    → n < s
    → is_undo e ≡ true
    → active_of (put s e d) u ≡ active_of d (mark s (some e) u)
unfolding active_of mark_all
active_snoc_undo d n s e u h lt un =
    let d' = put s e d in
    let ks = keys d in
    let here : get s d' ≡ some e = get-put s s e d ∙ (rw ((==_refl s))) in
    let same : All (λ k. get k d' ≡ get k d) ks =
      All-map _ _ ks (λ k l. get-put s k e d ∙ ground arith) h in
    let start = mark s (some e) u in
    let first : active_of d' u
        ≡ collect d' (mark_all d' (reverse (ks ++ s ∷ [])) u) (ks ++ s ∷ []) =
      ap (λ l. collect d' (mark_all d' (reverse l) u) l) (keys-put_new d n s e h lt) in
    let second : mark_all d' (reverse (ks ++ s ∷ [])) u ≡ mark_all d' (reverse ks) start =
      rw (reverse-append ks (s ∷ [])) (ap (λ o. mark_all d' (reverse ks) (mark s o u)) here) in
    let marks = mark_all d' (reverse ks) start in
    let last : collect d' marks (s ∷ []) ≡ [] = last_is_undo d' marks s e here un in
    first
    ∙ ap (λ l. collect d' l (ks ++ s ∷ [])) second
    ∙ collect-append d' marks ks (s ∷ [])
    ∙ ap (λ l. collect d' marks ks ++ l) last
    ∙ append-nil (collect d' marks ks)
    ∙ collect-Agree n d' d marks _ ks h same (
        mark_all-Agree n d' d (reverse ks) start start (All-reverse_aux _ ks [] h tt)
          (All-reverse_aux _ ks [] same tt) (λ k l. refl))

-- A seed that agrees up to the last number shows the same events.
pub active_of-Agree :
    (d : Dict ℕ Event) (n : ℕ) (u v : List ℤ)
    → All (λ k. k ≤ n) (keys d)
    → Agree n u v
    → active_of d u ≡ active_of d v
unfolding active_of
active_of-Agree d n u v h a =
    let ks = keys d in
    let same : All (λ k. get k d ≡ get k d) ks = All-map _ _ ks (λ k l. refl) h in
    collect-Agree n d d _ _ ks h same (
      mark_all-Agree n d d (reverse ks) u v (All-reverse_aux _ ks [] h tt)
        (All-reverse_aux _ ks [] same tt) a)

-- The event that `add_event` stores.
abbrev pub stored : ℕ → Text → Fields → Option Text → WhiteboardState → Event
stored u t p o w = record {
  seq_num = w.last_seq + 1;
  user_id = u;
  event_type = t;
  payload = p;
  client_event_id = o;
  from_db = false;
}

pub add_event-events :
    (u : ℕ) (t : Text) (p : Fields) (o : Option Text) (w : WhiteboardState)
    → is_processed o w ≡ false
    → ((add_event u t p o w).0.events ≡ put (w.last_seq + 1) (stored u t p o w) w.events)
      × ((add_event u t p o w).0.last_seq ≡ w.last_seq + 1)
unfolding add_event store recalculate_undone_seqs
add_event-events u t p o w n =
    let kept = remember_keeps o (store u t p o w) in rw n (kept.0, kept.1)

-- The events that are shown once a new undo event has come in.
pub active-add_undo :
    (u : ℕ) (p : Fields) (o : Option Text) (w : WhiteboardState)
    → IsValid w
    → is_processed o w ≡ false
    → (seed : List ℤ)
    → active_of (add_event u undo p o w).0.events seed
      ≡ active_of w.events (mark (w.last_seq + 1) (some (stored u undo p o w)) seed)
unfolding is_undo
active-add_undo u p o w v n seed =
    ap (λ d. active_of d seed) (add_event-events u undo p o w n).0
    ∙ active_snoc_undo w.events w.last_seq (w.last_seq + 1) (stored u undo p o w) seed v.below
        (omega arith) (==_refl undo)

pub mark_undo :
    (s : ℕ) (e : Event) (t : ℤ) → is_undo e ≡ true → target e ≡ some t → mark s (some e) [] ≡ t ∷ []
unfolding mark
mark_undo s e t un h = ground arith

mark_undone : (s : ℕ) (e : Event) (u : List ℤ) → elem (pos s) u ≡ true → mark s (some e) u ≡ u
unfolding mark
mark_undone s e u h = ground arith

-- Redo: in a valid whiteboard, a new undo event, and then a new undo of that event, show the events
-- that were shown before.
pub active-undo_again :
    (u₁ u₂ : ℕ) (p₁ p₂ : Fields) (o₁ o₂ : Option Text) (w : WhiteboardState)
    → IsValid w
    → is_processed o₁ w ≡ false
    → is_processed o₂ (add_event u₁ undo p₁ o₁ w).0 ≡ false
    → Json.find "target_seq" p₂ ≡ some (Json.num (w.last_seq + 1))
    → get_active_events none (add_event u₂ undo p₂ o₂ (add_event u₁ undo p₁ o₁ w).0).0
      ≡ get_active_events none w
unfolding target is_undo Json.find Json.as_int
active-undo_again u₁ u₂ p₁ p₂ o₁ o₂ w v n₁ n₂ h =
    let w₁ = (add_event u₁ undo p₁ o₁ w).0 in
    let w₂ = (add_event u₂ undo p₂ o₂ w₁).0 in
    let v₁ = add_event-IsValid u₁ undo p₁ o₁ w v in
    let v₂ = add_event-IsValid u₂ undo p₂ o₂ w₁ v₁ in
    let s = w.last_seq + 1 in
    active-valid w₂ v₂
    ∙ active-add_undo u₂ p₂ o₂ w₁ v₁ n₂ []
    ∙ ap (active_of w₁.events)
        (mark_undo (w₁.last_seq + 1) (stored u₂ undo p₂ o₂ w₁) (pos s) (==_refl undo) (rw h))
    ∙ active-add_undo u₁ p₁ o₁ w v n₁ (pos s ∷ [])
    ∙ ap (active_of w.events) (mark_undone s (stored u₁ undo p₁ o₁ w) (pos s ∷ []) (ground arith))
    ∙ active_of-Agree w.events w.last_seq (pos s ∷ []) [] v.below (λ k l. ground arith)
    ∙ sym (active-valid w v)
