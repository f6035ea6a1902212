-- ===== src/Whiteboard/Undo.antt =====
-- What one undo takes away from the canvas, what a snapshot puts beyond its reach, and which numbers
-- are undone in a valid whiteboard.
use mathlib.Core.List.{reverse_aux, reverse-append}
use quickonnect.Prelude.{
  ℕ, ◌+◌, ◌≤◌, ◌<◌, Bool, true, false, not, ◌||◌, Option, none, some, List, [], ◌∷◌, ◌++◌, reverse,
  ◌≡◌, ◌≢◌, refl, sym, arith, ==_refl, ◌==◌, nat_eq, Text, text_eq, elem, All, ◌∙◌, ap, IsAscending,
  Option-cases, inl, inr, select,
}
use quickonnect.Prelude.Dict.{Dict, get, keys}
use quickonnect.Prelude.Int.{ℤ, pos, int_eq}
use quickonnect.Json
use quickonnect.Json.{Fields}
use quickonnect.Whiteboard.{
  Event, WhiteboardState, mark, mark_all, collect, is_undo, target, undo, add_event, is_processed,
  get_active_events,
}
use quickonnect.Whiteboard.Events.{All-map, All-snoc}
use quickonnect.Whiteboard.Undone.{AimsBack, IsDescending, some_undoes, elem-mark_all}
use quickonnect.Whiteboard.Valid.{
  IsAscending-All, IsAscending-tail, IsValid, IsNumbered, add_event-IsValid,
}
use quickonnect.Whiteboard.Redo.{
  active_of, active-valid, active-add_undo, mark_undo, All-reverse_aux, stored,
}

-- One set is the other with `k` added.
abbrev Seeded : ℤ → List ℤ → List ℤ → Type 0
Seeded k u v = (x : ℤ) → elem x v ≡ (x == k || elem x u)

abbrev is_drawing : Option Event → Bool
is_drawing none = true
is_drawing (some e) = not (is_undo e)

mark-Seeded :
    (k s : ℕ) (o : Option Event) (u v : List ℤ)
    → (s ≡ k → is_drawing o ≡ true)
    → Seeded (pos k) u v
    → Seeded (pos k) (mark s o u) (mark s o v)
unfolding mark
mark-Seeded k s none u v h a x = a x
mark-Seeded k s (some e) u v h a x = ground (arith, a (pos s), a x, h)

mark_all-Seeded :
    (k : ℕ) (d : Dict ℕ Event) (seqs : List ℕ) (u v : List ℤ)
    → is_drawing (get k d) ≡ true
    → Seeded (pos k) u v
    → Seeded (pos k) (mark_all d seqs u) (mark_all d seqs v)
unfolding mark_all
mark_all-Seeded k d [] u v h a = a
mark_all-Seeded k d (s ∷ seqs) u v h a =
    mark_all-Seeded k d seqs (mark s (get s d) u) (mark s (get s d) v) h
      (mark-Seeded k s (get s d) u v (λ q. ap (λ i. is_drawing (get i d)) q ∙ h) a)

numbered-get :
    (d : Dict ℕ Event) (s : ℕ) (e : Event) → IsNumbered d → get s d ≡ some e → e.seq_num ≡ s
unfolding get
numbered-get [] s e h g = cc
numbered-get ((k, f) ∷ d) s e h g = ground (arith, numbered-get d s e h.1)

collect-Seeded :
    (k : ℕ) (d : Dict ℕ Event) (u v : List ℤ) (seqs : List ℕ)
    → IsNumbered d
    → Seeded (pos k) u v
    → collect d v seqs ≡ select (λ e. not (e.seq_num == k)) (collect d u seqs)
unfolding collect select
collect-Seeded k d u v [] n a = refl
collect-Seeded k d u v (s ∷ seqs) n a =
    let rest = collect-Seeded k d u v seqs n a in
    elim (Option-cases (get s d)) [
      | inl gone ↦ ground (arith, rest, gone)
      | inr (e, found) ↦ ground (arith, rest, a (pos s), numbered-get d s e n found, found)
    ]

-- In a valid whiteboard, a new undo event that names a drawing event in memory takes that event from
-- those shown, and no other. The event may have been undone before.
pub active-undo :
    (u k : ℕ) (e : Event) (p : Fields) (o : Option Text) (w : WhiteboardState)
    → IsValid w
    → is_processed o w ≡ false
    → get k w.events ≡ some e
    → is_undo e ≡ false
    → Json.find "target_seq" p ≡ some (Json.num k)
    → get_active_events none (add_event u undo p o w).0
      ≡ select (λ f. not (f.seq_num == k)) (get_active_events none w)
unfolding is_undo target Json.find Json.as_int active_of
active-undo u k e p o w v n found drawing aim =
    let w₁ = (add_event u undo p o w).0 in
    let seqs = reverse (keys w.events) in
    active-valid w₁ (add_event-IsValid u undo p o w v)
    ∙ active-add_undo u p o w v n []
    ∙ ap (active_of w.events)
        (mark_undo (w.last_seq + 1) (stored u undo p o w) (pos k) (==_refl undo) (rw aim))
    ∙ collect-Seeded k w.events _ _ (keys w.events) v.numbered
        (mark_all-Seeded k w.events seqs [] (pos k ∷ []) (rw found (ground arith)) (λ x. refl))
    ∙ ap (select (λ f. not (f.seq_num == k))) (sym (active-valid w v))

-- Two sets agree but for `k`.
abbrev SameBut : ℕ → List ℤ → List ℤ → Type 0
SameBut k u v = (j : ℕ) → j ≢ k → elem (pos j) u ≡ elem (pos j) v

mark-SameBut :
    (k s : ℕ) (o : Option Event) (u v : List ℤ)
    → s ≢ k
    → SameBut k u v
    → SameBut k (mark s o u) (mark s o v)
unfolding mark
mark-SameBut k s none u v h a j q = a j q
mark-SameBut k s (some e) u v h a j q = ground (arith, a s h, a j q)

mark_all-other :
    (k : ℕ) (d : Dict ℕ Event) (seqs : List ℕ) (u v : List ℤ)
    → All (λ s. s ≢ k) seqs
    → SameBut k v u
    → SameBut k (mark_all d seqs v) (mark_all d seqs u)
unfolding mark_all
mark_all-other k d [] u v h a = a
mark_all-other k d (s ∷ seqs) u v h a =
    mark_all-other k d seqs (mark s (get s d) u) (mark s (get s d) v) h.1
      (mark-SameBut k s (get s d) v u h.0 a)

collect-ext :
    (d : Dict ℕ Event) (u v : List ℤ) (seqs : List ℕ)
    → All (λ s. elem (pos s) u ≡ elem (pos s) v) seqs
    → collect d u seqs ≡ collect d v seqs
unfolding collect
collect-ext d u v [] a = refl
collect-ext d u v (s ∷ seqs) a = ground (arith, a.0, collect-ext d u v seqs a.1)

-- In a valid whiteboard, a new undo that names an event which a snapshot holds already changes nothing that is shown: what is
-- drawn into the snapshot cannot be undone.
pub active-undo_snapshotted :
    (u k : ℕ) (p : Fields) (o : Option Text) (w : WhiteboardState)
    → IsValid w
    → is_processed o w ≡ false
    → k ≤ w.last_snapshot_seq
    → Json.find "target_seq" p ≡ some (Json.num k)
    → get_active_events none (add_event u undo p o w).0 ≡ get_active_events none w
unfolding is_undo target Json.find Json.as_int active_of
active-undo_snapshotted u k p o w v n old aim =
    let w₁ = (add_event u undo p o w).0 in
    let seqs = reverse (keys w.events) in
    let ne : All (λ s. s ≢ k) (keys w.events) =
      All-map _ _ (keys w.events) (λ s h. omega arith) v.above in
    active-valid w₁ (add_event-IsValid u undo p o w v)
    ∙ active-add_undo u p o w v n []
    ∙ ap (active_of w.events)
        (mark_undo (w.last_seq + 1) (stored u undo p o w) (pos k) (==_refl undo) (rw aim))
    ∙ collect-ext w.events _ _ (keys w.events) (
        All-map _ _ (keys w.events)
          (λ s q.
            mark_all-other k w.events seqs [] (pos k ∷ [])
              (All-reverse_aux _ (keys w.events) [] ne tt) (λ j r. ground arith) s q)
          ne)
    ∙ sym (active-valid w v)

IsDescending-snoc :
    (l : List ℕ) (x : ℕ) → All (λ y. x < y) l → IsDescending l → IsDescending (l ++ x ∷ [])
IsDescending-snoc [] x h d = (tt, tt)
IsDescending-snoc (y ∷ l) x h d = (All-snoc _ l x d.0 h.0, IsDescending-snoc l x h.1 d.1)

reverse-IsDescending : (l : List ℕ) → IsAscending l → IsDescending (reverse l)
reverse-IsDescending [] a = tt
reverse-IsDescending (x ∷ l) a = rw (reverse-append (x ∷ []) l) (
    IsDescending-snoc (reverse l) x (All-reverse_aux _ l [] (IsAscending-All x l a) tt)
      (reverse-IsDescending l (IsAscending-tail x l a)))

some_undoes-reverse_aux :
    (d : Dict ℕ Event) (u : List ℤ) (t : ℤ) (l r : List ℕ)
    → some_undoes d u t (reverse_aux l r) ≡ (some_undoes d u t l || some_undoes d u t r)
unfolding some_undoes
some_undoes-reverse_aux d u t [] r = refl
some_undoes-reverse_aux d u t (s ∷ l) r = ground (arith, some_undoes-reverse_aux d u t l (s ∷ r))

-- In a valid whiteboard whose undo events all name earlier events, a number is undone exactly when
-- some undo event that is not itself undone names it.
pub undone_seqs_lem :
    (w : WhiteboardState) (t : ℤ)
    → IsValid w
    → AimsBack w.events
    → elem t w.undone_seqs ≡ some_undoes w.events w.undone_seqs t (keys w.events)
unfolding some_undoes
undone_seqs_lem w t v a =
    let seqs = reverse (keys w.events) in
    let r = mark_all w.events seqs [] in
    rw v.resolved (
      elem-mark_all w.events seqs [] t a (reverse-IsDescending (keys w.events) v.ascending)
      ∙ some_undoes-reverse_aux w.events r t (keys w.events) []
      ∙ ground arith)
