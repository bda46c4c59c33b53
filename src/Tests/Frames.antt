-- ===== src/Tests/Frames.antt =====
-- The streaming loop with a host that sends a frame in every turn and is never stopped, and with a second
-- session.
use tempest_addon_moonlight.Base.{
  ◌+◌, ◌≤◌, ◌≡◌, refl, Bool, some, none, [], ◌∷◌, length, min, All, arith, ok,
}
use tempest_addon_moonlight.Session.State.{
  State, Deps, submit, other_start, still_running, apply_async, apply_all,
}
use tempest_addon_moonlight.Session.State.Queue.{IsAlone}
use tempest_addon_moonlight.Session.Engine.{observe, pump, finish}
use tempest_addon_moonlight.Session.Frames.{frames}
use tempest_addon_moonlight.Session.Frames.Loop.{Pumped, pump-frames, pump-Progress}
use tempest_addon_moonlight.Session.Frames.Takeover.{pump_replaced}
use tempest_addon_moonlight.Session.Lifecycle.Stop.{Stopped}
use tempest_addon_moonlight.Nvhttp.Net.{next}
use tempest_addon_moonlight.Stream.{Owner, to_unit, dr_submit, is_terminated}
use tempest_addon_moonlight.Tests.World.{globals, identity, unit, deps, initial, doc}

abbrev endless : Deps Bool Unit Unit
endless = record deps { tick = λ w. (w, submit (some unit) ∷ []) }

alone : (w : Bool) → All IsAlone (endless.tick w).1
alone w = (tt, tt)

-- One frame is queued when the loop begins.
abbrev streaming : State Bool
streaming = record initial {
  globals = record globals { video_sink = some Owner.ours; queue = to_unit 256 unit ∷ [] };
}

pump-frames_example : Pumped endless doc alone 2 streaming (pump endless 2 doc streaming).0
pump-frames_example = pump-frames endless doc alone 2 streaming refl

running : (pump endless 2 doc streaming).1 ≡ ok still_running
unfolding pump observe apply_all apply_async dr_submit is_terminated to_unit
running = refl

pump-Progress_example :
    length (frames initial.log) + min 2 (length streaming.globals.queue)
    ≤ length (frames (pump endless 2 doc streaming).0.log)
pump-Progress_example = pump-Progress endless doc alone 2 streaming refl running

-- A second session starts its stream while one unit is still queued for the first.
abbrev second : Deps Bool Unit Unit
second = record deps { tick = λ w. (w, other_start ∷ submit (some unit) ∷ []) }

abbrev replaced : State Bool
replaced = record initial {
  globals = record globals { video_sink = some Owner.theirs; queue = to_unit 256 unit ∷ [] };
}

pump_replaced_example :
    Stopped (next (pump second 2 doc replaced) (finish second identity doc))
    × ((next (pump second 2 doc replaced) (finish second identity doc)).0.globals.video_sink ≡ none)
pump_replaced_example =
    pump_replaced second (λ w. (tt, (tt, tt))) identity doc 2 1 replaced (omega arith)
      (record { theirs = refl; queued = refl })
