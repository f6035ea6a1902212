-- ===== src/Whiteboard/Events.antt =====
-- The event dict of a whiteboard: keys that ascend, and a new key at the end.
use quickonnect.Prelude.{
  ℕ, ◌≤◌, ◌<◌, none, List, [], ◌∷◌, ◌++◌, ◌≡◌, refl, arith, nat_eq, text_eq, All, IsAscending,
}
use quickonnect.Prelude.Dict.{Dict, get, put, keys}
use quickonnect.Whiteboard.{Event}

-- A number above all keys is not a key.
pub get_above : (d : Dict ℕ Event) (n s : ℕ) → All (λ k. k ≤ n) (keys d) → n < s → get s d ≡ none
unfolding get
get_above [] n s h lt = refl
get_above ((k, e) ∷ d) n s h lt = ground (arith, get_above d n s h.1 lt)

-- A new key goes to the end.
pub put_new : (d : Dict ℕ Event) (s : ℕ) (e : Event) → get s d ≡ none → put s e d ≡ d ++ (s, e) ∷ []
unfolding get put
put_new [] s e h = refl
put_new ((k, f) ∷ d) s e h = ground (arith, put_new d s e)

pub keys-snoc : (d : Dict ℕ Event) (s : ℕ) (e : Event) → keys (d ++ (s, e) ∷ []) ≡ keys d ++ s ∷ []
keys-snoc [] s e = refl
keys-snoc ((k, f) ∷ d) s e = rw (keys-snoc d s e)

pub keys-put_new :
    (d : Dict ℕ Event) (n s : ℕ) (e : Event)
    → All (λ k. k ≤ n) (keys d)
    → n < s
    → keys (put s e d) ≡ keys d ++ s ∷ []
keys-put_new d n s e h lt = rw (put_new d s e (get_above d n s h lt)) (keys-snoc d s e)

pub All-snoc {ℓ} : (P : ℕ → Type ℓ) (l : List ℕ) (s : ℕ) → All P l → P s → All P (l ++ s ∷ [])
All-snoc P [] s h p = (p, tt)
All-snoc P (x ∷ l) s h p = (h.0, All-snoc P l s h.1 p)

pub All-map {ℓ κ} :
    (P : ℕ → Type ℓ) (Q : ℕ → Type κ) (l : List ℕ) → ((x : ℕ) → P x → Q x) → All P l → All Q l
All-map P Q [] f h = tt
All-map P Q (x ∷ l) f h = (f x h.0, All-map P Q l f h.1)

pub IsAscending-snoc :
    (l : List ℕ) (n s : ℕ) → IsAscending l → All (λ k. k ≤ n) l → n < s → IsAscending (l ++ s ∷ [])
IsAscending-snoc [] n s a h lt = tt
IsAscending-snoc (x ∷ []) n s a h lt = (omega arith, tt)
IsAscending-snoc (x ∷ y ∷ l) n s a h lt = (a.0, IsAscending-snoc (y ∷ l) n s a.1 h.1 lt)
