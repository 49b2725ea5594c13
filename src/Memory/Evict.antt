-- ===== src/Memory/Evict.antt =====
-- The eviction of a session and the round of the monitor of memory.rs.
use lspee.Base.{ℕ, Bool, true, not, Option, none, some, List, [], ◌∷◌, ◌++◌, if◌then◌else◌, Result}
use lspee.Base.Text.{Text, codes}
use lspee.Base.Decimal.{to_string}
use lspee.Json.{Json, string, number, null, object, field, end}
use lspee.Protocol.{StreamErrorPayload, kind_eq, error_session_evicted_memory}
use lspee.Registry.State.{SessionRegistry, key_eq}
use lspee.Registry.Ops.{mark_terminating_with_notice, remove, increment_memory_eviction}
use lspee.Stopping.{Effect, publish, stop_runtime}
use lspee.Memory.Defs.{
  MemoryBudgetSettings, enabled, MemorySample, collect_samples, select_evictions,
}

abbrev pub number_or_null : Option ℕ → Json
number_or_null none = null
number_or_null (some n) = number n

unfoldable pub eviction_notice : MemorySample → MemoryBudgetSettings → StreamErrorPayload
eviction_notice s settings = record {
  code = error_session_evicted_memory;
  message =
      codes "Session evicted due to memory budget pressure (rss="
      ++ to_string s.rss_bytes
      ++ codes " bytes). Re-attach or retry the request to resume.";
  retryable = true;
  details = some (
      object (
        field (codes "project_root") (string s.root) (
          field (codes "lsp_id") (string s.key.lsp_id) (
            field (codes "rss_bytes") (number s.rss_bytes) (
              field (codes "max_session_bytes") (number_or_null settings.max_session_bytes) (
                field (codes "max_total_bytes") (number_or_null settings.max_total_bytes) (
                  field (codes "resume_hint")
                    (string (
                      codes
                        "Re-attach or retry the request. For Helix, restart the language server if it does not reconnect automatically."))
                    (field (codes "eviction_policy") (string (codes "idle_lru")) end))))))));
}

-- The requests to the process and to the clients, and the registry after them.
unfoldable pub evict_session :
    (ℕ → Bool)
    → MemoryBudgetSettings
    → MemorySample
    → SessionRegistry
    → SessionRegistry × List Effect
unfolding eviction_notice mark_terminating_with_notice remove increment_memory_eviction
evict_session fails settings s r =
    let notice = eviction_notice s settings in
    let marked = mark_terminating_with_notice s.key (some notice) r in
    (
      increment_memory_eviction (remove s.key marked),
      publish s.handle.events notice ∷ stop_runtime fails s.handle.runtime,
    )

unfoldable pub evict_all :
    (ℕ → Bool)
    → MemoryBudgetSettings
    → List MemorySample
    → SessionRegistry
    → SessionRegistry × List Effect
evict_all fails settings [] r = (r, [])
evict_all fails settings (s ∷ ss) r =
    let (r', effects) = evict_session fails settings s r in
    let (r'', more) = evict_all fails settings ss r' in (r'', effects ++ more)

-- What the monitor does at a tick of its timer.
unfoldable pub monitor_tick :
    (ℕ → Result (Option ℕ) Text)
    → (ℕ → Bool)
    → ℕ
    → MemoryBudgetSettings
    → SessionRegistry
    → SessionRegistry × List Effect
unfolding enabled collect_samples select_evictions evict_all
monitor_tick rss fails now settings r =
    if not (enabled settings)
    then (r, [])
    else evict_all fails settings (select_evictions (collect_samples rss now r) settings) r
