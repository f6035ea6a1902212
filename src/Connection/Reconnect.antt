-- ===== src/Connection/Reconnect.antt =====
-- How long the client tries to connect again, and how that ends.
use mathlib.Core.List.{append_assoc}
use quickonnect.Prelude.{
  ℕ, zero, suc, ◌+◌, ◌≤◌, ◌<◌, ◌≡◌, refl, sym, ap, ◌∙◌, arith, Bool, true, false, Option, none,
  some, List, [], ◌∷◌, ◌++◌, Text, text_eq, length, length-append, All, ◌⊎◌, inl, inr,
}
use quickonnect.Connection.Waits.{waits, waits-attempt}
use quickonnect.Connection.{
  Connection, Event, reconnecting, reconnected, disconnected, waited, Attempt, no_handshake,
  silent_handshake, handshake, Answer, raised, received, silent, after_auth, attempts, attempt,
  reconnect_loop, max_backoff, max_reconnect_attempts, initial_backoff, next_backoff, exhausted,
  failure, outcome, emit, try_auth, do_reconnect_auth, do_rejoin_rooms,
}

-- How the loop ended: with the connection made again, or given up; `is_reconnecting` is reset.
abbrev pub Ended : Connection → Text → Type 0
Ended c reason =
    (c.is_reconnecting ≡ false)
    × (((log : List Event) × (c.log ≡ reconnected ∷ log))
        ⊎ ((c.reconnect_enabled ≡ false)
            × ((log : List Event) × (c.log ≡ disconnected (failure reason) ∷ log))))

-- Between two logs there were at most so many waits, none of them too long.
pub record Waited (most : ℕ) (before after : List Event) : Type 0 where
  pub waits_made : List ℕ
  pub made : waits after ≡ waits_made ++ waits before
  pub few : length waits_made ≤ most
  pub short : All (λ n. n ≤ max_backoff) waits_made

after_auth-reconnected :
    (joins : List Bool) (tried : Option Bool × Connection)
    → (after_auth joins tried).0 ≡ some true
    → ((after_auth joins tried).1.is_reconnecting ≡ false)
      × ((log : List Event) × ((after_auth joins tried).1.log ≡ reconnected ∷ log))
after_auth-reconnected joins (none, c) e = cc e
after_auth-reconnected joins (some true, c) e = (refl, ((do_rejoin_rooms joins c).log, refl))
after_auth-reconnected joins (some false, c) e = absurd (ground (arith, e))

attempt-reconnected :
    (a : Attempt) (c : Connection)
    → (attempt a c).0 ≡ some true
    → ((attempt a c).1.is_reconnecting ≡ false)
      × ((log : List Event) × ((attempt a c).1.log ≡ reconnected ∷ log))
unfolding attempt try_auth
attempt-reconnected no_handshake c e = absurd (ground (arith, e))
attempt-reconnected silent_handshake c e = cc e
attempt-reconnected (handshake answer joins) c e =
    after_auth-reconnected joins
      (do_reconnect_auth answer (record c { alive = true; has_key = true; running = true })) e

-- Whether a read in the attempt, of the handshake or the authentication, gets nothing and never returns.
unfoldable pub is_silent : Attempt → Bool
is_silent no_handshake = false
is_silent silent_handshake = true
is_silent (handshake raised joins) = false
is_silent (handshake (received response) joins) = false
is_silent (handshake silent joins) = true

after_auth-none :
    (joins : List Bool) (tried : Option Bool × Connection)
    → (after_auth joins tried).0 ≡ none
    → tried.0 ≡ none
after_auth-none joins (none, c) e = refl
after_auth-none joins (some true, c) e = cc e
after_auth-none joins (some false, c) e = cc e

do_reconnect_auth-none :
    (answer : Answer) (joins : List Bool) (c : Connection)
    → (do_reconnect_auth answer c).0 ≡ none
    → is_silent (handshake answer joins) ≡ true
unfolding do_reconnect_auth is_silent
do_reconnect_auth-none silent joins c e = refl
do_reconnect_auth-none raised joins c e = ground (arith, e)
do_reconnect_auth-none (received response) joins c e = ground (arith, e)

attempt-is_silent : (a : Attempt) (c : Connection) → (attempt a c).0 ≡ none → is_silent a ≡ true
unfolding attempt try_auth is_silent
attempt-is_silent no_handshake c e = cc e
attempt-is_silent silent_handshake c e = refl
attempt-is_silent (handshake answer joins) c e =
    let fresh = record c { alive = true; has_key = true; running = true } in
    do_reconnect_auth-none answer joins fresh
      (after_auth-none joins (do_reconnect_auth answer fresh) e)

waits-exhausted :
    (reason : Text) (left : ℕ) (c : Connection) → Waited left c.log (exhausted reason c).log
unfolding waits
waits-exhausted reason left c = record {
  waits_made = [];
  made = refl;
  few = omega arith;
  short = tt;
}

-- A wait, an attempt, and what comes after it.
after_attempt :
    (a : Attempt) (number backoff left : ℕ) (c c' : Connection)
    → backoff ≤ max_backoff
    → Waited left (attempt a (emit (waited backoff) (emit (reconnecting number) c))).1.log c'.log
    → Waited (suc left) c.log c'.log
unfolding waits
after_attempt a number backoff left c c' small rest =
    let waiting = emit (waited backoff) (emit (reconnecting number) c) in
    record {
      waits_made = rest.waits_made ++ (backoff ∷ []);
      made =
          rest.made
          ∙ (ap (λ l. rest.waits_made ++ l) (waits-attempt a waiting)
              ∙ sym (append_assoc rest.waits_made (backoff ∷ []) (waits c.log)));
      few =
          let size : length (rest.waits_made ++ (backoff ∷ [])) ≡ length rest.waits_made + 1 =
            length-append {0} rest.waits_made (backoff ∷ []) in
          omega (arith, size, rest.few);
      short = All-append rest.waits_made backoff rest.short small;
    }
  where
    All-append :
        (ws : List ℕ) (n : ℕ)
        → All (λ k. k ≤ max_backoff) ws
        → n ≤ max_backoff
        → All (λ k. k ≤ max_backoff) (ws ++ (n ∷ []))
    All-append [] n h g = (g, tt)
    All-append (w ∷ ws) n h g = (h.0, All-append ws n h.1 g)

no_wait : (left : ℕ) (log : List Event) → Waited left log log
no_wait left log = record { waits_made = []; made = refl; few = omega arith; short = tt }

-- What the loop comes to, of attempts from one number on: it returns, or one of them is silent.
abbrev pub Result : (ℕ → Attempt) → ℕ → ℕ → Text → Bool × Connection → Type 0
Result network number left reason (returned, c) =
    ((returned ≡ true) × Ended c reason)
    ⊎ ((returned ≡ false)
        × ((n : ℕ) × ((number ≤ n) × (n < number + left) × (is_silent (network n) ≡ true))))

Result-later :
    (network : ℕ → Attempt) (number left : ℕ) (reason : Text) (r : Bool × Connection)
    → Result network (suc number) left reason r
    → Result network number (suc left) reason r
Result-later network number left reason r (inl ended) = inl ended
Result-later network number left reason r (inr (stuck, (n, (from, to, quiet)))) =
    inr (stuck, (n, (omega (arith, from), omega (arith, to), quiet)))

outcome_lem :
    (P : Bool × Connection → Type 0) (enabled : Bool) (tried : Option Bool)
    (given_up c : Connection) (later : Bool × Connection)
    → P (true, given_up)
    → (tried ≡ none → P (false, c))
    → (tried ≡ some true → P (true, c))
    → P later
    → P (outcome enabled tried given_up c later)
outcome_lem P false tried given_up c later p h q r = p
outcome_lem P true none given_up c later p h q r = h refl
outcome_lem P true (some true) given_up c later p h q r = q refl
outcome_lem P true (some false) given_up c later p h q r = r

attempts_lem :
    (network : ℕ → Attempt) (left number : ℕ) (reason : Text) (backoff : ℕ) (c : Connection)
    → backoff ≤ max_backoff
    → Result network number left reason (attempts network left number reason backoff c)
      × Waited left c.log (attempts network left number reason backoff c).1.log
unfolding attempts
attempts_lem network zero number reason backoff c small =
    (inl (refl, (refl, inr (refl, (c.log, refl)))), waits-exhausted reason zero c)
attempts_lem network (suc left) number reason backoff c small =
    let waiting = emit (waited backoff) (emit (reconnecting number) c) in
    let tried = attempt (network number) waiting in
    let later = attempts network left (suc number) reason (next_backoff backoff) tried.1 in
    let rest =
      attempts_lem network left (suc number) reason (next_backoff backoff) tried.1 (ground arith) in
    let once =
      after_attempt (network number) number backoff left c tried.1 small
        (no_wait left tried.1.log) in
    outcome_lem (λ r. Result network number (suc left) reason r × Waited (suc left) c.log r.1.log)
      c.reconnect_enabled tried.0 (exhausted reason c) tried.1 later
      (inl (refl, (refl, inr (refl, (c.log, refl)))), waits-exhausted reason (suc left) c)
      (λ stuck. (
        inr (
          refl,
          (number, (omega arith, omega arith, attempt-is_silent (network number) waiting stuck)),
        ),
        once,
      ))
      (λ succeeded.
        let done = attempt-reconnected (network number) waiting succeeded in
        (inl (refl, (done.0, inl done.1)), once))
      (
        Result-later network number left reason later rest.0,
        after_attempt (network number) number backoff left c later.1 small rest.1,
      )

-- Whatever the network does, the loop waits at most ten times, of at most thirty seconds each, and then
-- either it returns, or one of its ten attempts is silent, whose handshake or authentication never
-- answers: such a read has no time limit. Where it returns, it has reported that the connection was
-- made again, or that it was given up, in which case it is not tried again; and the connection is not
-- marked as being made again any more.
pub reconnect_loop_lem :
    (network : ℕ → Attempt) (reason : Text) (c : Connection)
    → Result network 1 10 reason (reconnect_loop network reason c)
      × Waited 10 c.log (reconnect_loop network reason c).1.log
unfolding reconnect_loop
reconnect_loop_lem network reason c =
    attempts_lem network max_reconnect_attempts 1 reason initial_backoff c (omega arith)
