-- ===== src/Handler/Chat/Recipient.antt =====
-- The other user of a room of two.
use quickonnect.Prelude.{
  ◌-◌, true, false, some, [], ◌∷◌, ◌++◌, Text, codes, nat_eq, text_eq, ◌==◌, ◌≡◌, ◌≢◌, refl, sym,
  ap, ◌∙◌, arith, inl, inr, Bool-cases, nat_beq_iff, ==_refl, length, take, drop, elem, ltb,
  length-append,
}
use quickonnect.Prelude.Split.{elem_miss}
use mathlib.Core.List.{append_assoc}
use mathlib.Core.Path.{ap₂}
use quickonnect.Rooms.{starts_with}
use quickonnect.Handler.Chat.{extract_dm_recipient, ends_with}

-- The code of the room of two users.
abbrev pub dm_code : Text → Text → Text
dm_code a b = codes "DM-" ++ (a ++ (codes "-" ++ b))

starts_with_append : (p t : Text) → starts_with p (p ++ t) ≡ true
unfolding starts_with
starts_with_append [] t = refl
starts_with_append (c ∷ p) t = rw (==_refl c) (starts_with_append p t)

drop_prefix : (p t : Text) → drop (length p) (p ++ t) ≡ t
drop_prefix [] t = refl
drop_prefix (c ∷ p) t = drop_prefix p t

take_prefix : (p t : Text) → take (length p) (p ++ t) ≡ p
take_prefix [] t = refl
take_prefix (c ∷ p) t = ap (λ l. c ∷ l) (take_prefix p t)

length_rest : (p t : Text) → length (p ++ t) - length t ≡ length p
length_rest p t = omega (arith, length-append {0} p t)

ends_with_append : (t s : Text) → ends_with s (t ++ s) ≡ true
unfolding ends_with
ends_with_append t s =
    let fits : ltb (length (t ++ s)) (length s) ≡ false = ground (arith, length-append {0} t s) in
    let suffix : drop (length (t ++ s) - length s) (t ++ s) ≡ s =
      ap (λ n. drop n (t ++ s)) (length_rest t s) ∙ drop_prefix t s in
    rw (fits, suffix) (==_refl s)

-- Two names without a hyphen, one of which a hyphen follows wherever it follows the other.
same_name :
    (a b t : Text)
    → elem b'-' a ≡ false
    → elem b'-' b ≡ false
    → starts_with (b ++ codes "-") (a ++ (codes "-" ++ t)) ≡ true
    → b ≡ a
unfolding starts_with
same_name [] [] t g h e = refl
same_name (x ∷ a) [] t g h e = absurd (ground (arith, elem_miss b'-' x a g))
same_name [] (y ∷ b) t g h e = absurd (ground (arith, elem_miss b'-' y b h))
same_name (x ∷ a) (y ∷ b) t g h e = elim (Bool-cases (y == x)) [
  | inl here ↦
      let head : y ≡ x = (nat_beq_iff y x).0 here in
      let tail : b ≡ a =
        same_name a b t (elem_miss b'-' x a g).1 (elem_miss b'-' y b h).1
          (ground (arith, e, here)) in
      ap₂ ◌∷◌ head tail
  | inr other ↦ absurd (ground (arith, other, e))
]

first_recipient : (a t : Text) → extract_dm_recipient a (dm_code a t) ≡ some t
unfolding extract_dm_recipient
first_recipient a t =
    let assoc : (a ++ codes "-") ++ t ≡ a ++ (codes "-" ++ t) = append_assoc a (codes "-") t in
    let begins : starts_with (a ++ codes "-") (a ++ (codes "-" ++ t)) ≡ true =
      ap (starts_with (a ++ codes "-")) (sym assoc) ∙ starts_with_append (a ++ codes "-") t in
    let rest : drop (length (a ++ codes "-")) (a ++ (codes "-" ++ t)) ≡ t =
      ap (drop (length (a ++ codes "-"))) (sym assoc) ∙ drop_prefix (a ++ codes "-") t in
    rw begins (ap some rest)

second_recipient :
    (a b : Text)
    → starts_with (b ++ codes "-") (a ++ (codes "-" ++ b)) ≡ false
    → extract_dm_recipient b (dm_code a b) ≡ some a
unfolding extract_dm_recipient
second_recipient a b other =
    let rest : take (length (a ++ (codes "-" ++ b)) - length (codes "-" ++ b))
          (a ++ (codes "-" ++ b))
        ≡ a =
      ap (λ n. take n (a ++ (codes "-" ++ b))) (length_rest a (codes "-" ++ b))
      ∙ take_prefix a (codes "-" ++ b) in
    rw other (rw (ends_with_append a (codes "-" ++ b)) (ap some rest))

-- In the room of two different users whose names have no hyphen, each one's recipient is the other.
pub extract_dm_recipient_lem :
    (a b : Text)
    → a ≢ b
    → elem b'-' a ≡ false
    → elem b'-' b ≡ false
    → (extract_dm_recipient a (dm_code a b) ≡ some b)
      × (extract_dm_recipient b (dm_code a b) ≡ some a)
extract_dm_recipient_lem a b n g h = (
  first_recipient a b,
  (elim (Bool-cases (starts_with (b ++ codes "-") (a ++ (codes "-" ++ b)))) [
    | inl same ↦ absurd (n (sym (same_name a b b g h same)))
    | inr other ↦ second_recipient a b other
  ]),
)
