-- ===== src/Whiteboard/Undone.antt =====
-- Which sequence numbers are undone: the loop over the events against its fixed point.
use mathlib.Core.Path.{subst₂}
use quickonnect.Prelude.{
  Bool-cases, inl, inr, ℕ, ◌≤◌, ◌<◌, Bool, true, false, not, ◌&&◌, ◌||◌, Option, none, some, List,
  [], ◌∷◌, ◌≡◌, refl, arith, ◌==◌, nat_eq, text_eq, elem, All, ◌∙◌,
}
use quickonnect.Prelude.Dict.{Dict, get}
use quickonnect.Prelude.Int.{ℤ, pos, int_eq, ltb_ℤ}
use quickonnect.Whiteboard.{Event, is_undo, target, mark, mark_all}

-- The target of an event at `s`, if it has one, lies before `s`.
abbrev pub IsBack : ℕ → Option ℤ → Type 0
IsBack s none = Unit
IsBack s (some t) = ltb_ℤ t (pos s) ≡ true

-- Every event's target lies before the event.
abbrev pub AimsBack : Dict ℕ Event → Type 0
AimsBack [] = Unit
AimsBack ((s, e) ∷ d) = IsBack s (target e) × AimsBack d

abbrev is_some_of : Option ℤ → ℤ → Bool
is_some_of none t = false
is_some_of (some u) t = t == u

-- The event at `s` is an undo of `t` that is not itself among the undone.
unfoldable pub undoes : Dict ℕ Event → List ℤ → ℤ → ℕ → Bool
unfolding is_undo target
undoes d undone t s = elim (get s d) [
  | none ↦ false
  | some e ↦ (is_undo e && not (elem (pos s) undone)) && is_some_of (target e) t
]

unfoldable pub some_undoes : Dict ℕ Event → List ℤ → ℤ → List ℕ → Bool
some_undoes d undone t [] = false
some_undoes d undone t (s ∷ seqs) = undoes d undone t s || some_undoes d undone t seqs

IsBack-get :
    (d : Dict ℕ Event) (s : ℕ) (e : Event) → AimsBack d → get s d ≡ some e → IsBack s (target e)
unfolding get
IsBack-get [] s e a h = cc
IsBack-get ((k, f) ∷ d) s e a h = elim (Bool-cases (s == k)) [
  | inl here ↦
      let p : k ≡ s = ground arith in
      let q : f ≡ e = ground arith in subst₂ (λ j g. IsBack j (target g)) p q a.0
  | inr later ↦ IsBack-get d s e a.1 (ground arith)
]

-- Each number is above all that follow.
abbrev pub IsDescending : List ℕ → Type 0
IsDescending [] = Unit
IsDescending (x ∷ l) = All (λ y. y < x) l × IsDescending l

-- An event that aims back does not mark its own number.
mark_self :
    (s : ℕ) (o : Option Event) (u : List ℤ)
    → ((e : Event) → o ≡ some e → IsBack s (target e))
    → (k : ℕ) → s ≤ k
    → elem (pos k) (mark s o u) ≡ elem (pos k) u
unfolding mark
mark_self s none u b k h = refl
mark_self s (some e) u b k h = ground (arith, b e)

-- Later rounds of the loop add only numbers below the events that they visit.
mark_all_above :
    (d : Dict ℕ Event) (seqs : List ℕ) (u : List ℤ) (k : ℕ)
    → AimsBack d
    → All (λ s. s ≤ k) seqs
    → elem (pos k) (mark_all d seqs u) ≡ elem (pos k) u
unfolding mark_all
mark_all_above d [] u k a h = refl
mark_all_above d (s ∷ seqs) u k a h =
    mark_all_above d seqs (mark s (get s d) u) k a h.1
    ∙ mark_self s (get s d) u (λ e. IsBack-get d s e a) k h.0

All-le_of_lt : (x : ℕ) (l : List ℕ) → All (λ y. y < x) l → All (λ y. y ≤ x) l
All-le_of_lt x [] h = tt
All-le_of_lt x (y ∷ l) h = (omega arith, All-le_of_lt x l h.1)

-- One round, told by the numbers that are undone in the end.
mark_round :
    (d : Dict ℕ Event) (s : ℕ) (u r : List ℤ) (t : ℤ)
    → elem (pos s) r ≡ elem (pos s) u
    → elem t (mark s (get s d) u) ≡ elem t u || undoes d r t s
unfolding mark undoes
mark_round d s u r t h = ground arith

pub elem-mark_all :
    (d : Dict ℕ Event) (seqs : List ℕ) (u : List ℤ) (t : ℤ)
    → AimsBack d
    → IsDescending seqs
    → elem t (mark_all d seqs u) ≡ elem t u || some_undoes d (mark_all d seqs u) t seqs
unfolding mark_all some_undoes
elem-mark_all d [] u t a h = ground arith
elem-mark_all d (s ∷ seqs) u t a h =
    let u' = mark s (get s d) u in
    let above = mark_all_above d seqs u' s a (All-le_of_lt s seqs h.0) in
    let own = mark_self s (get s d) u (λ e. IsBack-get d s e a) s (omega arith) in
    ground (
      arith,
      elem-mark_all d seqs u' t a h.1,
      mark_round d s u (mark_all d seqs u') t (above ∙ own),
    )
