-- ===== src/Eviction/Rounds.antt =====
-- What a round does to the sessions.
use lspee.Base.{
  ℕ, ◌<◌, ◌≡◌, refl, Bool, true, false, Option, none, List, [], ◌∷◌, arith, if◌then◌else◌, any, All,
}
use lspee.Base.Eq.{◌==◌}
use lspee.Base.Map.{get, get-remove}
use lspee.Registry.State.{SessionKey, SessionHandle, SessionRegistry, key_eq, key_beq_iff}
use lspee.Registry.Leases.{count}
use lspee.Registry.Ops.{remove, increment_idle_gc, idle_candidates}
use lspee.Registry.Snapshots.{session_count}
use lspee.Registry.Invariant.{WellFormed, gates-WellFormed}
use lspee.Registry.Invariant.Ops.{remove-WellFormed, idle_candidates-WellFormed}
use lspee.Registry.Release.{Swept, idle_candidates_lem, sweep_spares_leased}
use lspee.Eviction.Defs.{Loop, evict_idle, eviction_tick}

abbrev pub has_handle : List SessionHandle → SessionKey → Bool
has_handle hs k = any (λ h. h.key == k) hs

module _ (fails : ℕ → Bool) where
  evict_idle-WellFormed :
      (hs : List SessionHandle) (r : SessionRegistry)
      → WellFormed r
      → WellFormed (evict_idle fails hs r).0
  unfolding evict_idle
  evict_idle-WellFormed [] r v = v
  evict_idle-WellFormed (h ∷ hs) r v =
      evict_idle-WellFormed hs _ (gates-WellFormed _ _ _ _ _ (remove-WellFormed h.key r v))

  get-evict_idle :
      (hs : List SessionHandle) (r : SessionRegistry) (k : SessionKey)
      → get k (evict_idle fails hs r).0.sessions
        ≡ (if has_handle hs k then none else get k r.sessions)
  unfolding evict_idle remove any
  get-evict_idle [] r k = refl
  get-evict_idle (h ∷ hs) r k = ground (
    arith,
    get-evict_idle hs (increment_idle_gc (remove h.key r)) k,
    get-remove h.key k r.sessions,
  )

  -- A round keeps the registry well formed.
  pub eviction_tick-WellFormed :
      (ttl : Option ℕ) (now later : ℕ) (l : Loop)
      → WellFormed l.registry
      → WellFormed (eviction_tick fails ttl now later l).state.registry
  unfolding eviction_tick
  eviction_tick-WellFormed ttl now later l v =
      evict_idle-WellFormed (idle_candidates now l.registry).1 _
        (idle_candidates-WellFormed now l.registry v)

  not-Swept :
      (now : ℕ) (r : SessionRegistry) (k : SessionKey) (hs : List SessionHandle)
      → All (Swept now r) hs
      → 0 < count k r.leases
      → has_handle hs k ≡ false
  unfolding any
  not-Swept now r k [] a used = refl
  not-Swept now r k (h ∷ hs) a used =
      ground (arith, not-Swept now r k hs a.1, key_beq_iff h.key k, a.0)

  -- In a well-formed registry a session that a lease holds is there after a round of the eviction
  -- loop, unchanged.
  pub eviction_spares_leased :
      (ttl : Option ℕ) (now later : ℕ) (l : Loop) (k : SessionKey)
      → WellFormed l.registry
      → 0 < count k l.registry.leases
      → get k (eviction_tick fails ttl now later l).state.registry.sessions
        ≡ get k l.registry.sessions
  unfolding eviction_tick
  eviction_spares_leased ttl now later l k v used = ground (
    arith,
    get-evict_idle (idle_candidates now l.registry).1 (idle_candidates now l.registry).0 k,
    not-Swept now l.registry k (idle_candidates now l.registry).1
        (idle_candidates_lem now l.registry v) used,
    sweep_spares_leased now l.registry k v used,
  )

  -- A round of the eviction loop stops the daemon only if no session is left.
  pub stops_without_sessions :
      (ttl : Option ℕ) (now later : ℕ) (l : Loop)
      → (eviction_tick fails ttl now later l).stopped ≡ true
      → session_count (eviction_tick fails ttl now later l).state.registry ≡ 0
  unfolding eviction_tick
  stops_without_sessions ttl now later l h = ground arith
