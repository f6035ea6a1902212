-- ===== src/Prelude/Split.antt =====
-- Texts cut at a separator.
use mathlib.Core.Path.{◌≡◌, refl, ap}
use mathlib.Core.Bool.{false}
use mathlib.Core.List.{List, [], ◌∷◌, ◌++◌}
use Prim.Native.Nat.{ℕ}
use native.Mathlib.Omega.{arith}
use quickonnect.Prelude.Tests.{Text, nat_eq, ==_refl, ◌==◌, if◌then◌else◌}
use quickonnect.Prelude.Lists.{elem}

abbrev pub glue : ℕ → List Text → List Text
glue c [] = (c ∷ []) ∷ []
glue c (part ∷ parts) = (c ∷ part) ∷ parts

-- `t.split(c)`: at every separator, empty parts included.
unfoldable pub split : ℕ → Text → List Text
split sep [] = [] ∷ []
split sep (c ∷ t) = let rest = split sep t in if c == sep then [] ∷ rest else glue c rest

pub elem_miss :
    (sep c : ℕ) (t : Text) → elem sep (c ∷ t) ≡ false → ((c == sep) ≡ false) × (elem sep t ≡ false)
elem_miss sep c t h = ground arith

pub split_whole : (sep : ℕ) (t : Text) → elem sep t ≡ false → split sep t ≡ t ∷ []
unfolding split
split_whole sep [] h = refl
split_whole sep (c ∷ t) h =
    let miss = elem_miss sep c t h in rw miss.0 (ap (glue c) (split_whole sep t miss.1))

pub split_append :
    (sep : ℕ) (t u : Text) → elem sep t ≡ false → split sep (t ++ (sep ∷ u)) ≡ t ∷ split sep u
unfolding split
split_append sep [] u h = rw (==_refl sep) refl
split_append sep (c ∷ t) u h =
    let miss = elem_miss sep c t h in rw miss.0 (ap (glue c) (split_append sep t u miss.1))
