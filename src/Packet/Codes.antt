-- ===== src/Packet/Codes.antt =====
-- The numbers of the packet types identify them.
use quickonnect.Prelude.{
  Bool-cases, inl, inr, nat_beq_iff, if◌then◌else◌, ℕ, some, ◌≡◌, refl, arith, List, [], ◌∷◌, ◌==◌,
  nat_eq, All, ◌↔◌, ap, ◌∙◌, sym,
}
use quickonnect.Packet.{PacketType, client_hello, code, of_code, find, members}

pub code-of_code : (t : PacketType) → of_code (code t) ≡ some t
unfolding of_code code
code-of_code client_hello = refl
code-of_code _ = refl

abbrev Listed : ℕ × PacketType → Type 0
Listed (k, t) = code t ≡ k

members-Listed : All Listed members
unfolding code
members-Listed = omega arith

find-Listed :
    (n : ℕ) (t : PacketType) (l : List (ℕ × PacketType))
    → All Listed l
    → find n l ≡ some t
    → code t ≡ n
unfolding find
find-Listed n t [] h e = cc
find-Listed n t ((k, u) ∷ l) h e = elim (Bool-cases (n == k)) [
  | inl here ↦
      let same : some u ≡ some t = sym (ap (λ b. if b then some u else find n l) here) ∙ e in
      let type : t ≡ u = cc same in ap code type ∙ h.0 ∙ sym ((nat_beq_iff n k).0 here)
  | inr later ↦ find-Listed n t l h.1 (sym (ap (λ b. if b then some u else find n l) later) ∙ e)
]

-- A number is read as a packet type exactly when it is that type's number.
pub of_code_iff : (n : ℕ) (t : PacketType) → (of_code n ≡ some t) ↔ (code t ≡ n)
of_code_iff n t = (listed, λ e. ap of_code (sym e) ∙ code-of_code t)
  where
    listed : of_code n ≡ some t → code t ≡ n
    listed e = find-Listed n t members members-Listed (unfold of_code in e)
