-- ===== src/Stream/Ending.antt =====
-- What becomes of the lease when a dedicated stream ends.
use lspee.Base.{
  ℕ, ◌-◌, ◌≡◌, refl, ap, sym, ◌∙◌, Option, none, some, List, [], ◌∷◌, ◌++◌, Result, ok, err,
  append-nil,
}
use lspee.Base.Eq.{text_eq}
use lspee.Base.Text.{Text, codes}
use lspee.Base.Map.{get}
use lspee.Json.{Json}
use lspee.Protocol.{StreamFrame}
use lspee.Registry.State.{LeaseRecord, SessionRegistry, key_eq}
use lspee.Registry.Ops.{release_by_lease_id, idle_candidates}
use lspee.Registry.Leases.{count, refs}
use lspee.Registry.Invariant.{WellFormed}
use lspee.Registry.Release.{count_pos, release_counts, sweep_spares_leased}
use lspee.Stream.Defs.{Inbound, line, inbound, run_stream_connection}
use lspee.Stream.Frames.{Reads, lines, inbound-lines}

module _ (from_str : Text → Option (StreamFrame Json)) (send : Json → Result (Unit {0}) Text)
    (lease_id : Text) (reads : List (Text × StreamFrame Json)) (s : (j : Json) → send j ≡ ok tt)
    (a : Reads from_str send lease_id reads) where
  abbrev ls : List Inbound
  ls = lines from_str send lease_id reads

  clean_end :
      (now : ℕ) (r : SessionRegistry)
      → (run_stream_connection from_str send lease_id now ls r).0
        ≡ (release_by_lease_id now lease_id r).0
  unfolding run_stream_connection inbound
  clean_end now r =
      let e : (inbound from_str send lease_id ls).1 ≡ ok tt =
        ap (λ xs. (inbound from_str send lease_id xs).1) (sym (append-nil ls))
        ∙ ap (λ x. x.1) (inbound-lines from_str send lease_id reads [] s a) in
      rw (e, run_stream_connection) refl

  bad_end :
      (now : ℕ) (r : SessionRegistry) (bad : Text) (rest : List Inbound)
      → from_str bad ≡ none
      → (run_stream_connection from_str send lease_id now (ls ++ (line bad ∷ rest)) r).0 ≡ r
  unfolding run_stream_connection inbound
  bad_end now r bad rest unread =
      let m = codes "failed to decode inbound dedicated stream frame" in
      let e : (inbound from_str send lease_id (ls ++ (line bad ∷ rest))).1 ≡ err m =
        ap (λ x. x.1) (inbound-lines from_str send lease_id reads (line bad ∷ rest) s a)
        ∙ rw (unread, inbound) refl in
      rw (e, run_stream_connection) refl

  -- In a well-formed registry with the lease, and while the runtime takes messages, a stream whose
  -- lines all read as frames gives its lease back at its end, and the session has one lease less;
  -- a stream in which a line reads as none keeps it, and each later sweep leaves the session as it
  -- is.
  pub stream_end-leases :
      (now : ℕ) (r : SessionRegistry) (l : LeaseRecord) (bad : Text) (rest : List Inbound)
      → WellFormed r
      → get lease_id r.leases ≡ some l
      → from_str bad ≡ none
      → let clean = (run_stream_connection from_str send lease_id now ls r).0 in
        let left =
          (run_stream_connection from_str send lease_id now (ls ++ (line bad ∷ rest)) r).0 in
        (get lease_id clean.leases ≡ none)
        × (refs (get l.key clean.sessions) ≡ count l.key r.leases - 1)
        × (get lease_id left.leases ≡ some l)
        × ((later : ℕ) → get l.key (idle_candidates later left).0.sessions ≡ get l.key r.sessions)
  stream_end-leases now r l bad rest v e unread =
      let (answer, counted, gone) = release_counts r lease_id l now v e in
      rw (clean_end now r, bad_end now r bad rest unread)
        (
          gone,
          counted,
          e,
          (λ later. sweep_spares_leased later r l.key v (count_pos lease_id l r.leases e)),
        )
