-- ===== src/Tests/Stream.antt =====
-- The callbacks of a short connection.
use tempest_addon_moonlight.Base.{
  min, ◌≡◌, refl, Option, none, some, List, [], ◌∷◌, map, All, Text, bytes, ℤ, pos, negsuc,
}
use tempest_addon_moonlight.Proto.Framing.{healthy}
use tempest_addon_moonlight.Log.{stage_name}
use tempest_addon_moonlight.Log.Lines.{IsInline, is_inline, is_inline-IsInline, read_log}
use tempest_addon_moonlight.Session.State.{apply_all}
use tempest_addon_moonlight.Session.State.Queue.{IsAlone}
use tempest_addon_moonlight.Session.State.Callbacks.{steps_of, IsFine, IsEffect, call_all-apply_all}
use tempest_addon_moonlight.Stream.Callbacks.{LiCallback, Process, messages_of, call_all}
use tempest_addon_moonlight.Stream.Callbacks.Messages.{call_all-read_log}
use tempest_addon_moonlight.Tests.World.{globals, unit, initial}

-- Each stage that is not negative has a name.
abbrev names : ℤ → Option Text
names (pos n) = some (bytes "RTSP handshake")
names (negsuc n) = none

names-IsInline : (stage : ℤ) → All IsInline (stage_name names (λ t. t) stage)
unfolding stage_name is_inline bytes
names-IsInline (pos n) = is_inline-IsInline (bytes "RTSP handshake") refl
names-IsInline (negsuc n) = tt

abbrev calls : List LiCallback
calls =
    LiCallback.stage_starting (pos 4)
    ∷ LiCallback.stage_failed (pos 4) (negsuc 9)
    ∷ LiCallback.setup 256 (pos 1920) (pos 1080)
    ∷ LiCallback.audio_init
    ∷ LiCallback.submit_decode_unit (some unit)
    ∷ LiCallback.connection_terminated (negsuc 99)
    ∷ []

abbrev process : Process
process = record { globals = globals; stderr = healthy [] }

call_all-apply_all_example :
    (apply_all (steps_of calls) initial
      ≡ record initial { globals = (call_all names (λ t. t) calls process).0.globals })
    × All IsAlone (steps_of calls)
    × IsEffect calls globals (call_all names (λ t. t) calls process).0.globals
    × All IsFine (call_all names (λ t. t) calls process).1
call_all-apply_all_example = call_all-apply_all names (λ t. t) calls process initial refl

call_all-read_log_example :
    read_log (call_all names (λ t. t) calls process).0.stderr.written
    ≡ map (λ m. some (min m.0 3, m.1)) (messages_of names (λ t. t) calls)
call_all-read_log_example = call_all-read_log names (λ t. t) names-IsInline calls process refl
