-- ===== src/Balancer/Choice.antt =====
-- The server with the least load.
use mathlib.Core.Path.{subst}
use quickonnect.Prelude.{
  true, false, none, some, List, [], ◌∷◌, nat_eq, ◌≡◌, refl, sym, ap, ◌∙◌, arith, if◌then◌else◌,
  ◌⊎◌, inl, inr, Bool-cases, Option-cases, All, nat_beq_iff,
}
use quickonnect.Prelude.Dict.{values}
use quickonnect.Balancer.{
  ServerInfo, Servers, less_loaded, insert_server, sort_servers, up_servers, first,
  get_least_loaded,
}

abbrev pub Among : ServerInfo → List ServerInfo → Type 0
Among s [] = ⊥
Among s (t ∷ l) = (t ≡ s) ⊎ Among s l

abbrev Least : ServerInfo → List ServerInfo → Type 0
Least s l = Among s l × All (λ t. less_loaded t s ≡ false) l

less_loaded_asym : (s t : ServerInfo) → less_loaded s t ≡ true → less_loaded t s ≡ false
unfolding less_loaded
less_loaded_asym s t h = ground (
  arith,
  h,
  nat_beq_iff s.connection_count t.connection_count,
  nat_beq_iff t.connection_count s.connection_count,
)

less_loaded_trans :
    (s t u : ServerInfo)
    → less_loaded t s ≡ false
    → less_loaded u t ≡ false
    → less_loaded u s ≡ false
unfolding less_loaded
less_loaded_trans s t u h g = ground (
  arith,
  h,
  g,
  nat_beq_iff t.connection_count s.connection_count,
  nat_beq_iff u.connection_count t.connection_count,
  nat_beq_iff u.connection_count s.connection_count,
)

not_less_self : (s : ServerInfo) → less_loaded s s ≡ false
unfolding less_loaded
not_less_self s = ground (arith, nat_beq_iff s.connection_count s.connection_count)

All_trans :
    (s t : ServerInfo) (l : List ServerInfo)
    → less_loaded t s ≡ false
    → All (λ u. less_loaded u t ≡ false) l
    → All (λ u. less_loaded u s ≡ false) l
All_trans s t [] h a = tt
All_trans s t (u ∷ l) h a = (less_loaded_trans s t u h a.0, All_trans s t l h a.1)

insert_nonempty : (s : ServerInfo) (l : List ServerInfo) → first (insert_server s l) ≡ none → ⊥
unfolding insert_server
insert_nonempty s [] e = cc e
insert_nonempty s (t ∷ l) e = elim (Bool-cases (less_loaded t s)) [
  | inl less ↦ ground (arith, e, less)
  | inr other ↦ ground (arith, e, other)
]

-- The first of a sorted list, once a server was inserted in it.
insert-Least :
    (x s : ServerInfo) (l m : List ServerInfo)
    → ((t : ServerInfo) → first m ≡ some t → Least t l)
    → (first m ≡ none → l ≡ [])
    → first (insert_server x m) ≡ some s
    → Least s (x ∷ l)
unfolding insert_server
insert-Least x s l [] each empty e =
    let same : x ≡ s = ground (arith, e) in
    subst (λ t. Least t (x ∷ l)) same (rw (empty refl) (inl refl, (not_less_self x, tt)))
insert-Least x s l (t ∷ m) each empty e = elim (Bool-cases (less_loaded t x)) [
  | inl less ↦
      let same : t ≡ s = ground (arith, e, less) in
      subst (λ u. Least u (x ∷ l)) same
        (inr (each t refl).0, (less_loaded_asym t x less, (each t refl).1))
  | inr other ↦
      let same : x ≡ s = ground (arith, e, other) in
      subst (λ u. Least u (x ∷ l)) same
        (inl refl, (not_less_self x, All_trans x t l other (each t refl).1))
]

sort_empty : (l : List ServerInfo) → first (sort_servers l) ≡ none → l ≡ []
unfolding sort_servers
sort_empty [] e = refl
sort_empty (x ∷ l) e = absurd (insert_nonempty x (sort_servers l) e)

sort-Least : (l : List ServerInfo) (s : ServerInfo) → first (sort_servers l) ≡ some s → Least s l
unfolding sort_servers
sort-Least [] s e = cc e
sort-Least (x ∷ l) s e = insert-Least x s l (sort_servers l) (sort-Least l) (sort_empty l) e

up_empty : (l : List ServerInfo) → up_servers l ≡ [] → All (λ t. t.is_up ≡ false) l
unfolding up_servers
up_empty [] e = tt
up_empty (t ∷ l) e = elim (Bool-cases t.is_up) [
  | inl up ↦ absurd (ground (arith, e, up))
  | inr down ↦ (down, up_empty l (ground (arith, e, down)))
]

up-Among :
    (s : ServerInfo) (l : List ServerInfo) → Among s (up_servers l) → Among s l × (s.is_up ≡ true)
unfolding up_servers
up-Among s [] h = absurd h
up-Among s (t ∷ l) h = elim (Bool-cases t.is_up) [
  | inl up ↦ elim (subst (λ b. Among s (if b then t ∷ up_servers l else up_servers l)) up h) [
    | inl here ↦ (inl here, ap (λ u. u.is_up) (sym here) ∙ up)
    | inr there ↦ let deeper = up-Among s l there in (inr deeper.0, deeper.1)
  ]
  | inr down ↦
      let deeper =
        up-Among s l (subst (λ b. Among s (if b then t ∷ up_servers l else up_servers l)) down h) in
      (inr deeper.0, deeper.1)
]

up-All :
    (P : ServerInfo → Type 0) (l : List ServerInfo)
    → All P (up_servers l)
    → All (λ t. t.is_up ≡ true → P t) l
unfolding up_servers
up-All P [] h = tt
up-All P (t ∷ l) h = elim (Bool-cases t.is_up) [
  | inl up ↦
      let all = subst (λ b. All P (if b then t ∷ up_servers l else up_servers l)) up h in
      (λ e. all.0, up-All P l all.1)
  | inr down ↦ (
    λ e. absurd (ground (arith, e, down)),
    up-All P l (subst (λ b. All P (if b then t ∷ up_servers l else up_servers l)) down h),
  )
]

pub get_least_loaded_lem :
    (d : Servers)
    → ((get_least_loaded d ≡ none) × All (λ t. t.is_up ≡ false) (values d))
      ⊎ ((s : ServerInfo) × ((get_least_loaded d ≡ some s)
            × ((Among s (values d) × (s.is_up ≡ true))
                × All (λ t. t.is_up ≡ true → less_loaded t s ≡ false) (values d))))
unfolding get_least_loaded
get_least_loaded_lem d = elim (Option-cases (first (sort_servers (up_servers (values d))))) [
  | inl nobody ↦ inl (nobody, up_empty (values d) (sort_empty (up_servers (values d)) nobody))
  | inr (s, chosen) ↦
      let least = sort-Least (up_servers (values d)) s chosen in
      inr (
        s,
        (
          chosen,
          (up-Among s (values d) least.0, up-All (λ t. less_loaded t s ≡ false) (values d) least.1),
        ),
      )
]
