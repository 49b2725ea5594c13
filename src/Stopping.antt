-- ===== src/Stopping.antt =====
-- What the daemon asks of a language server's process and of the clients that watch it, as values:
-- the order of these requests is part of what the loops of the daemon do.
use lspee.Base.{ℕ, Bool, List, [], ◌∷◌, if◌then◌else◌}
use lspee.Protocol.{StreamErrorPayload}

pub data Effect : Type 0 where
  publish : ℕ → StreamErrorPayload → Effect
  shutdown : ℕ → Effect
  force_stop : ℕ → Effect

-- `if let Err(error) = runtime.shutdown().await { … runtime.force_stop().await … }`, where
-- `fails p` says that the graceful shutdown of `p` fails.
unfoldable pub stop_runtime : (ℕ → Bool) → ℕ → List Effect
stop_runtime fails p = if fails p then shutdown p ∷ force_stop p ∷ [] else shutdown p ∷ []
