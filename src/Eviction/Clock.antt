-- ===== src/Eviction/Clock.antt =====
-- The daemon's own clock, over the rounds of the loop.
use lspee.Base.{
  ℕ, ◌-◌, ◌≤◌, ◌<◌, ◌≡◌, true, Option, some, List, [], ◌∷◌, arith, All, All-map, Option-cases, inl,
  inr,
}
use lspee.Eviction.Defs.{idle_clock}

-- What a round saw: its time and the number of sessions.
pub record Look : Type 0 where
  pub at : ℕ
  pub sessions : ℕ

-- The clock after some rounds, the last of them in front.
unfoldable pub clock_after : ℕ → ℕ → List Look → Option ℕ
unfolding idle_clock
clock_after ttl start [] = some start
clock_after ttl start (l ∷ ls) =
    (idle_clock (some ttl) l.at (clock_after ttl start ls) l.sessions).0

-- The rounds come at later and later times.
abbrev pub Falling : List Look → Type 0
Falling [] = Unit
Falling (l ∷ ls) = All (λ m. m.at < l.at) ls × Falling ls

-- No session was seen at the time `t` or after it.
abbrev pub EmptySince : ℕ → List Look → Type 0
EmptySince t ls = All (λ l. t ≤ l.at → l.sessions ≡ 0) ls

nothing_since : (t : ℕ) (ls : List Look) → All (λ m. m.at < t) ls → EmptySince t ls
nothing_since t ls f = All-map _ _ (λ m earlier later. absurd (omega arith)) ls f

clock_after-EmptySince :
    (ttl start t : ℕ) (ls : List Look)
    → Falling ls
    → clock_after ttl start ls ≡ some t
    → EmptySince t ls
unfolding clock_after
clock_after-EmptySince ttl start t [] f h = tt
clock_after-EmptySince ttl start t (l ∷ ls) f h = elim (Option-cases (clock_after ttl start ls)) [
  | inl e ↦ let now : l.at ≡ t = ground arith in (ground arith, nothing_since t ls (rw (← now) f.0))
  | inr (u, e) ↦ (ground arith, clock_after-EmptySince ttl start t ls f.1 (ground arith))
]

-- If the daemon stops in a round, the rounds coming at later and later times, then for its whole
-- idle time up to that round no round saw a session.
pub stop_after_idle :
    (ttl start : ℕ) (l : Look) (ls : List Look)
    → Falling (l ∷ ls)
    → (idle_clock (some ttl) l.at (clock_after ttl start ls) l.sessions).1 ≡ true
    → (t : ℕ) × (ttl ≤ l.at - t) × EmptySince t (l ∷ ls)
unfolding clock_after idle_clock
stop_after_idle ttl start l ls f h = elim (Option-cases (clock_after ttl start (l ∷ ls))) [
  | inl e ↦ absurd (ground arith)
  | inr (t, e) ↦ (t, ground arith, clock_after-EmptySince ttl start t (l ∷ ls) f e)
]
