-- ===== src/Stream/Callbacks.antt =====
-- The callbacks that crates/moonlight-core/src/stream.rs hands to the C library: what each sets, logs and
-- answers.
pub mod Messages
use tempest_addon_moonlight.Base.{
  ℕ, zero, suc, ◌+◌, ◌/◌, ◌%◌, Option, none, some, List, [], ◌∷◌, ◌++◌, Text, bytes, ltb,
  if◌then◌else◌, ℤ, pos, signed,
}
use tempest_addon_moonlight.Nvhttp.Hex.{lower_digit}
use tempest_addon_moonlight.Proto.Framing.{Sink}
use tempest_addon_moonlight.Log.{stage_name}
use tempest_addon_moonlight.Log.Lines.{tlog_all}
use tempest_addon_moonlight.Stream.{
  Globals, DecodeUnit, dr_setup, dr_submit, cl_connection_terminated,
}

-- The fields of `DECODER_RENDERER_CALLBACKS`, `AUDIO_RENDERER_CALLBACKS` and
-- `CONNECTION_LISTENER_CALLBACKS` that are set, with the arguments that are read.
pub data LiCallback : Type 0 where
  setup : ℕ → ℤ → ℤ → LiCallback
  start : LiCallback
  stop : LiCallback
  cleanup : LiCallback
  submit_decode_unit : Option DecodeUnit → LiCallback
  audio_init : LiCallback
  audio_start : LiCallback
  audio_stop : LiCallback
  audio_cleanup : LiCallback
  decode_and_play_sample : LiCallback
  stage_starting : ℤ → LiCallback
  stage_complete : ℤ → LiCallback
  stage_failed : ℤ → ℤ → LiCallback
  connection_started : LiCallback
  connection_terminated : ℤ → LiCallback

-- The lower-case hex digits of `n` in front of `t`; `n` rounds of fuel are more than it has digits.
unfoldable pub hex_loop : ℕ → ℕ → Text → Text
hex_loop zero n t = lower_digit n ∷ t
hex_loop (suc f) n t =
    let more = hex_loop f (n / 16) (lower_digit (n % 16) ∷ t) in
    if ltb n 16 then lower_digit n ∷ t else more

-- The statics that the callbacks write, and standard error.
pub record Process : Type 0 where
  pub globals : Globals
  pub stderr : Sink

abbrev pub dr_ok : ℤ
dr_ok = pos 0

-- The handlers: what they set, and `none` for those that answer nothing.
unfoldable pub handler : LiCallback → Globals → Globals × Option ℤ
handler (LiCallback.setup video_format w h) g = (dr_setup video_format g, some dr_ok)
handler (LiCallback.submit_decode_unit du) g = (dr_submit du g, some dr_ok)
handler LiCallback.audio_init g = (g, some (pos 0))
handler (LiCallback.connection_terminated error_code) g = (cl_connection_terminated g, none)
handler _ g = (g, none)

module _ (li_get_stage_name : ℤ → Option Text) (lossy : Text → Text) where
  -- The message of a callback and its level.
  unfoldable pub message_of : LiCallback → List (ℕ × Text)
  unfolding stage_name hex_loop
  message_of (LiCallback.setup video_format w h) =
      (
        1,
        bytes "[moonlight] video setup: format=0x"
            ++ (hex_loop video_format video_format [] ++ (b' ' ∷ (signed w ++ (b'x' ∷ signed h)))),
      )
      ∷ []
  message_of LiCallback.start = (1, bytes "[moonlight] video start") ∷ []
  message_of LiCallback.stop = (1, bytes "[moonlight] video stop") ∷ []
  message_of LiCallback.cleanup = (1, bytes "[moonlight] video cleanup") ∷ []
  message_of (LiCallback.stage_starting stage) =
      (1, bytes "[moonlight] stage starting: " ++ stage_name li_get_stage_name lossy stage) ∷ []
  message_of (LiCallback.stage_complete stage) =
      (1, bytes "[moonlight] stage complete: " ++ stage_name li_get_stage_name lossy stage) ∷ []
  message_of (LiCallback.stage_failed stage error_code) =
      (
        3,
        bytes "[moonlight] stage FAILED: "
            ++ (stage_name li_get_stage_name lossy stage
                ++ (bytes " (error " ++ (signed error_code ++ (b')' ∷ [])))),
      )
      ∷ []
  message_of LiCallback.connection_started = (1, bytes "[moonlight] connection started") ∷ []
  message_of (LiCallback.connection_terminated error_code) =
      (2, bytes "[moonlight] connection terminated (error " ++ (signed error_code ++ (b')' ∷ [])))
      ∷ []
  message_of _ = []

  -- A call of the C library: the handler sets its static, then it logs.
  unfoldable pub call : LiCallback → Process → Process × Option ℤ
  unfolding message_of handler
  call c p =
      let (g, answer) = handler c p.globals in
      (record { globals = g; stderr = tlog_all (message_of c) p.stderr }, answer)

  -- The calls of all its threads, in their order, with the answers.
  unfoldable pub call_all : List LiCallback → Process → Process × List (Option ℤ)
  unfolding call
  call_all [] p = (p, [])
  call_all (c ∷ cs) p =
      let (p1, answer) = call c p in let (p2, answers) = call_all cs p1 in (p2, answer ∷ answers)

  -- The messages of the calls, in their order.
  unfoldable pub messages_of : List LiCallback → List (ℕ × Text)
  messages_of [] = []
  messages_of (c ∷ cs) = message_of c ++ messages_of cs
