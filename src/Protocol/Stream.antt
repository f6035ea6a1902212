-- ===== src/Protocol/Stream.antt =====
-- Reading an exact number of bytes, in whatever pieces they arrive.
use quickonnect.Prelude.{
  ℕ, zero, suc, ◌-◌, ◌≤◌, ◌<◌, ◌≡◌, ◌≢◌, refl, sym, ap, ◌∙◌, none, some, [], ◌∷◌, ◌++◌, nat_eq, leb,
  length, take, drop, arith, inl, inr, Bool-cases, All, length-append, take-append, drop-append,
  take-all, drop-all,
}
use mathlib.Core.List.{append_assoc, append-nil}
use quickonnect.Stt.{Bytes}
use quickonnect.Protocol.{Pieces, recv_exact}

-- All bytes that are still to come.
abbrev pub bytes : Pieces → Bytes
bytes [] = []
bytes (p ∷ ps) = p ++ bytes ps

-- The connection stays open for as long as bytes come.
abbrev pub AllFilled : Pieces → Type 0
AllFilled ps = All (λ p. p ≢ []) ps

-- `got` stands before what is read, and the pieces that are left hold the bytes after it.
pub record Received (n : ℕ) (got : Bytes) (ps : Pieces) : Type 0 where
  pub left : Pieces
  pub result : recv_exact n got ps ≡ some (got ++ take n (bytes ps), left)
  pub after : bytes left ≡ drop n (bytes ps)
  pub filled : AllFilled left

recv_exact-none : (got : Bytes) (ps : Pieces) → recv_exact 0 got ps ≡ some (got, ps)
unfolding recv_exact
recv_exact-none got [] = refl
recv_exact-none got (p ∷ ps) = refl

recv_exact-piece :
    (n : ℕ) (got p : Bytes) (ps : Pieces)
    → 0 < n
    → p ≢ []
    → length p ≤ n
    → recv_exact n got (p ∷ ps) ≡ recv_exact (n - length p) (got ++ p) ps
unfolding recv_exact
recv_exact-piece n got [] ps more filled fits = absurd (filled refl)
recv_exact-piece n got (b ∷ p) ps more filled fits = ground arith

recv_exact-split :
    (n : ℕ) (got p : Bytes) (ps : Pieces)
    → 0 < n
    → n < length p
    → recv_exact n got (p ∷ ps) ≡ some (got ++ take n p, drop n p ∷ ps)
unfolding recv_exact
recv_exact-split n got p ps more long = ground arith

drop-ne : (n : ℕ) (xs : Bytes) → n < length xs → drop n xs ≢ []
drop-ne n [] h = absurd (omega arith)
drop-ne zero (x ∷ xs) h = λ e. cc
drop-ne (suc n) (x ∷ xs) h = drop-ne n xs (omega arith)

-- However the stream is cut into pieces, reading takes exactly the next bytes.
pub recv_exact_lem :
    (n : ℕ) (got : Bytes) (ps : Pieces) → n ≤ length (bytes ps) → AllFilled ps → Received n got ps
recv_exact_lem zero got ps enough filled = record {
  left = ps;
  result = recv_exact-none got ps ∙ ap (λ l. some (l, ps)) (sym (append-nil got));
  after = refl;
  filled = filled;
}
recv_exact_lem (suc n) got [] enough filled = absurd (omega arith)
recv_exact_lem (suc n) got (p ∷ ps) enough filled = elim (Bool-cases (leb (length p) (suc n))) [
  | inl fits ↦
      let short : length p ≤ suc n = ground arith in
      let rest =
        recv_exact_lem (suc n - length p) (got ++ p) ps
          (omega (arith, length-append {0} p (bytes ps))) filled.1 in
      record {
        left = rest.left;
        result =
            recv_exact-piece (suc n) got p ps (omega arith) filled.0 short
            ∙ (rest.result
                ∙ ap (λ l. some (l, rest.left))
                    (append_assoc got p (take (suc n - length p) (bytes ps))
                      ∙ ap (λ l. got ++ l)
                          (sym (
                            take-append (suc n) p (bytes ps)
                            ∙ ap (λ l. l ++ take (suc n - length p) (bytes ps))
                                (take-all (suc n) p short)))));
        after =
            rest.after
            ∙ sym (
                drop-append (suc n) p (bytes ps)
                ∙ ap (λ l. l ++ drop (suc n - length p) (bytes ps)) (drop-all (suc n) p short));
        filled = rest.filled;
      }
  | inr long ↦
      let more : suc n < length p = ground arith in
      let over : suc n - length p ≡ 0 = omega arith in
      record {
        left = drop (suc n) p ∷ ps;
        result =
            recv_exact-split (suc n) got p ps (omega arith) more
            ∙ ap (λ l. some (got ++ l, drop (suc n) p ∷ ps))
                (sym (
                  take-append (suc n) p (bytes ps)
                  ∙ (ap (λ k. take (suc n) p ++ take k (bytes ps)) over
                      ∙ append-nil (take (suc n) p))));
        after =
            sym (
              drop-append (suc n) p (bytes ps)
              ∙ ap (λ k. drop (suc n) p ++ drop k (bytes ps)) over);
        filled = (drop-ne (suc n) p more, filled.1);
      }
]

-- A stream that ends early raises.
pub recv_exact_short :
    (n : ℕ) (got : Bytes) (ps : Pieces) → length (bytes ps) < n → recv_exact n got ps ≡ none
unfolding recv_exact
recv_exact_short n got [] h = ground arith
recv_exact_short n got (p ∷ ps) h =
    ground (arith, length-append {0} p (bytes ps), recv_exact_short (n - length p) (got ++ p) ps)
