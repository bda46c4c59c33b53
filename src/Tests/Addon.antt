-- ===== src/Tests/Addon.antt =====
-- The sidecar at concrete inputs.
use tempest_addon_moonlight.Base.{
  ℕ, zero, suc, ◌≡◌, true, none, some, List, [], ◌∷◌, ◌++◌, Text, bytes, arith, Result, ok, err,
  le_bytes,
}
use tempest_addon_moonlight.Proto.Messages.{HostMsg, fill_defaults}
use tempest_addon_moonlight.Proto.Framing.{Sink}
use tempest_addon_moonlight.Proto.Framing.RoundTrip.{reader, message}
use tempest_addon_moonlight.Session.Doc.{new_doc, restore_identity}
use tempest_addon_moonlight.Addon.Convert.{to_core_doc, host_only, to_core_doc-fill_defaults}
use tempest_addon_moonlight.Addon.Output.Wire.{healthy}
use tempest_addon_moonlight.Addon.Run.{Env, Addon, handle_msg, run, no_sessions}
use tempest_addon_moonlight.Addon.Run.Serve.{WellFormed, handle_msg-WellFormed}
use tempest_addon_moonlight.Addon.Run.Exit.{IsClosed, none_started, run-IsClosed}

to_core_doc-fill_defaults_example :
    (to_core_doc (fill_defaults (host_only (bytes "h"))) ≡ new_doc (bytes "h"))
    × (restore_identity (to_core_doc (fill_defaults (host_only (bytes "h")))) ≡ none)
to_core_doc-fill_defaults_example = to_core_doc-fill_defaults (bytes "h")

-- The messages of the host by their first byte.
abbrev from_slice : List ℕ → Result Text HostMsg
from_slice [] = err (bytes "empty")
from_slice (zero ∷ t) = ok (HostMsg.hello 1 [])
from_slice (suc n ∷ t) = ok (HostMsg.connect n (fill_defaults (host_only (bytes "h"))))

abbrev env : Env
env = record {
  from_slice = from_slice;
  to_vec = λ m. ok (1 ∷ []);
  debug = λ m. [];
  addon_version = bytes "1";
  spawns = λ n. true;
}

-- A hello, the same connect twice, and a message that cannot be decoded.
abbrev input_bytes : List ℕ
input_bytes = message 1 (0 ∷ []) ++ (message 1 (5 ∷ []) ++ (message 1 (5 ∷ []) ++ message 1 []))

run-IsClosed_example :
    (a : Addon) × (s' : Sink) × (res : Result Text (Unit {0})) × (run 40 env
        (reader input_bytes none)
        (healthy (λ m. []) 0 [])
      ≡ some (a, s', res))
    × IsClosed a
unfolding le_bytes
run-IsClosed_example =
    run-IsClosed 40 env (reader input_bytes none) (healthy (λ m. []) 0 []) (omega arith)

handle_msg-WellFormed_example :
    WellFormed
      (handle_msg env (HostMsg.connect 4 (fill_defaults (host_only (bytes "h")))) no_sessions).0
handle_msg-WellFormed_example =
    handle_msg-WellFormed env (HostMsg.connect 4 (fill_defaults (host_only (bytes "h"))))
      no_sessions none_started
