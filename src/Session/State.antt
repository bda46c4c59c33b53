-- ===== src/Session/State.antt =====
-- The state of the worker of crates/moonlight-core/src/session.rs and what it takes from outside.
-- What the C library, the network, OpenSSL and the other threads do is the world `W` of `Deps`;
-- what they do to shared state between two reads of the engine is a list of `Async` steps.
pub mod Queue
pub mod Format
pub mod Callbacks
use tempest_addon_moonlight.Base.{
  ℕ, suc, Bool, true, false, Option, some, List, [], ◌∷◌, Text, bytes, decimal, ℤ, pos, negsuc,
  Result, ok, err, Fail, error, panic,
}
use tempest_addon_moonlight.Identity.{Generator}
use tempest_addon_moonlight.Nvhttp.Net.{Net, M}
use tempest_addon_moonlight.Nvhttp.Pairing.{Crypto}
use tempest_addon_moonlight.Stream.{
  Owner, Globals, DecodeUnit, Connection, dr_submit, dr_setup, cl_connection_terminated, drop_sink,
}
use tempest_addon_moonlight.Transport.{FrameUpdate}

-- What other threads do: the stop flag is set, the C library calls back, another session of the
-- process starts or stops its stream.
pub data Async : Type 0 where
  stop_set : Async
  submit : Option DecodeUnit → Async
  setup : ℕ → Async
  terminate : Async
  other_start : Async
  other_stop : Async

-- What the engine does outwards, in the order of the calls. The calls of `launch`, `start_stream`
-- and `cancel` stand with whether they succeeded.
pub data Event : Type 0 where
  identity_learned : Text → Text → Text → Event
  service_message : Text → Event
  pair_prompt : Text → Text → Event
  pair_finished : Option Text → Event
  launched : Bool → Event
  stream_started : Bool → Event
  ready : Event
  frame : FrameUpdate → Event
  stream_stopped : Event
  cancelled : Bool → Event
  closed : Text → Event

-- The newest event is the head of the log.
pub record State (W : Type 0) : Type 0 where
  pub world : W
  pub stop : Bool
  pub globals : Globals
  pub log : List Event

pub record Deps (W Cert Key : Type 0) : Type 0 where
  pub net : Net W
  pub crypto : Crypto Cert Key
  pub generator : Generator W Key
  pub lossy : List ℕ → Text
  pub runtime : W → W × Option Text
  -- `LiStartConnection` and its code, `LiStopConnection`.
  pub li_start : Connection → W → W × ℤ
  pub li_stop : W → W
  pub tick : W → W × List Async

-- The loop ended, or the rounds that were asked for are over and it still runs.
pub data Ended : Type 0 where
  ended still_running : Ended

unfoldable pub apply_async : {W : Type 0} → Async → State W → State W
apply_async stop_set s = record s { stop = true }
apply_async (submit du) s = record s { globals = dr_submit du s.globals }
apply_async (setup f) s = record s { globals = dr_setup f s.globals }
apply_async terminate s = record s { globals = cl_connection_terminated s.globals }
apply_async other_start s = record s {
  globals = record (s.globals) { video_sink = some Owner.theirs; terminated = false };
}
apply_async other_stop s = record s { globals = drop_sink s.globals }

unfoldable pub apply_all : {W : Type 0} → List Async → State W → State W
apply_all [] s = s
apply_all (a ∷ as') s = apply_all as' (apply_async a s)

unfoldable pub emit : {W : Type 0} → Event → M (State W) (Unit {0})
emit e s = (record s { log = e ∷ s.log }, ok tt)

-- A computation over the world alone.
unfoldable pub outside : {W A : Type 0} → M W A → M (State W) A
outside m s = let (w, r) = m s.world in (record s { world = w }, r)

handle : {W A : Type 0} → M W A → W × Result Fail A → W × Result Fail A
handle n (w, ok a) = (w, ok a)
handle n (w, err (error t)) = n w
handle n (w, err (panic t)) = (w, err (panic t))

-- `m.or_else(|_| n)`; a panic is not caught.
unfoldable pub or_else : {W A : Type 0} → M W A → M W A → M W A
unfolding handle
or_else m n w = handle n (m w)

abbrev pub host_terminated : Text
host_terminated = bytes "host terminated the session"
