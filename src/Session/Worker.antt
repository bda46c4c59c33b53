-- ===== src/Session/Worker.antt =====
-- The handle of a session: `WorkerHandle` of crates/moonlight-core/src/host.rs, and
-- `MoonlightSession` of session.rs apart from its thread.
use tempest_addon_moonlight.Base.{Bool, true, false}
use tempest_addon_moonlight.Session.Doc.{MoonlightConnectDoc}
use tempest_addon_moonlight.Session.Input.{InputState}

-- The stop flag, which the thread shares, and whether a thread's handle is held. Nothing panics
-- under the lock of the handle.
pub record WorkerHandle : Type 0 where
  pub stop : Bool
  pub handle : Bool

abbrev pub default_handle : WorkerHandle
default_handle = record { stop = false; handle = false }

abbrev pub set : WorkerHandle → WorkerHandle
set w = record w { handle = true }

abbrev pub stop_worker : WorkerHandle → WorkerHandle
stop_worker w = record w { stop = true; handle = false }

pub record MoonlightSession : Type 0 where
  pub worker : WorkerHandle
  pub input_state : InputState

set_spawned : Bool → WorkerHandle → WorkerHandle
set_spawned true w = set w
set_spawned false w = w

-- `connect_with_doc`; the flag says whether the thread could be spawned.
unfoldable pub connect_with_doc : Bool → MoonlightConnectDoc → MoonlightSession
unfolding set_spawned
connect_with_doc spawned doc = record {
  worker = set_spawned spawned default_handle;
  input_state = record { ref_width = doc.width; ref_height = doc.height; last_buttons = 0 };
}
