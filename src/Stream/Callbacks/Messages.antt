-- ===== src/Stream/Callbacks/Messages.antt =====
-- The log lines of the callbacks of crates/moonlight-core/src/stream.rs, as the host reads them.
use tempest_addon_moonlight.Base.{
  ℕ, zero, suc, min, ◌/◌, ◌%◌, ◌≡◌, refl, sym, ap, ◌∙◌, inl, inr, true, Bool-cases, Option, some,
  List, [], ◌∷◌, ◌++◌, map, All, All-append, All-map, Text, bytes, ltb, arith, ℤ, pos, negsuc,
  signed, decimal,
}
use tempest_addon_moonlight.Proto.Framing.{healthy}
use tempest_addon_moonlight.Nvhttp.Hex.{lower_digit}
use tempest_addon_moonlight.Str.Number.{decimal-IsDigit}
use tempest_addon_moonlight.Log.{stage_name}
use tempest_addon_moonlight.Log.Lines.{
  IsInline, is_inline, is_inline-IsInline, tlog_all, tlog_all-append, read_log, read_log-tlog_all,
}
use tempest_addon_moonlight.Stream.Callbacks.{
  LiCallback, Process, hex_loop, message_of, messages_of, call, call_all,
}

decimal-IsInline : (n : ℕ) → All IsInline (decimal n)
decimal-IsInline n = All-map (λ c h. ground arith) (decimal n) (decimal-IsDigit n)

signed-IsInline : (n : ℤ) → All IsInline (signed n)
unfolding signed
signed-IsInline (pos n) = decimal-IsInline n
signed-IsInline (negsuc n) = (refl, decimal-IsInline (suc n))

lower_digit-IsInline : (d : ℕ) → IsInline (lower_digit d)
unfolding lower_digit
lower_digit-IsInline d = ground arith

hex_loop-IsInline : (f n : ℕ) (t : Text) → All IsInline t → All IsInline (hex_loop f n t)
unfolding hex_loop
hex_loop-IsInline zero n t h = (lower_digit-IsInline n, h)
hex_loop-IsInline (suc f) n t h =
    let more = hex_loop-IsInline f (n / 16) (_ ∷ t) (lower_digit-IsInline (n % 16), h) in
    elim (Bool-cases (ltb n 16)) [ inl e ↦ rw e (lower_digit-IsInline n, h) | inr e ↦ rw e more ]

-- A fixed text in front of another.
fixed : (t u : Text) → is_inline t ≡ true → All IsInline u → All IsInline (t ++ u)
fixed t u h k = All-append IsInline t u (is_inline-IsInline t h) k

abbrev bracketed : ℤ → Text
bracketed n = bytes " (error " ++ (signed n ++ (b')' ∷ []))

in_brackets : (n : ℤ) → All IsInline (bracketed n)
unfolding bytes is_inline
in_brackets n =
    fixed (bytes " (error ") _ refl
      (All-append IsInline (signed n) _ (signed-IsInline n) (refl, tt))

module _ (li_get_stage_name : ℤ → Option Text) (lossy : Text → Text)
    (named : (stage : ℤ) → All IsInline (stage_name li_get_stage_name lossy stage)) where
  abbrev IsMessage : ℕ × Text → Type 0
  IsMessage m = All IsInline m.1

  message_of-IsInline : (c : LiCallback) → All IsMessage (message_of li_get_stage_name lossy c)
  unfolding message_of bytes is_inline
  message_of-IsInline (LiCallback.setup f w h) = (
    fixed (bytes "[moonlight] video setup: format=0x") _ refl (
        All-append IsInline (hex_loop f f []) _ (hex_loop-IsInline f f [] tt)
          (refl, All-append IsInline (signed w) _ (signed-IsInline w) (refl, signed-IsInline h))),
    tt,
  )
  message_of-IsInline LiCallback.start =
      (is_inline-IsInline (bytes "[moonlight] video start") refl, tt)
  message_of-IsInline LiCallback.stop =
      (is_inline-IsInline (bytes "[moonlight] video stop") refl, tt)
  message_of-IsInline LiCallback.cleanup =
      (is_inline-IsInline (bytes "[moonlight] video cleanup") refl, tt)
  message_of-IsInline (LiCallback.submit_decode_unit du) = tt
  message_of-IsInline LiCallback.audio_init = tt
  message_of-IsInline LiCallback.audio_start = tt
  message_of-IsInline LiCallback.audio_stop = tt
  message_of-IsInline LiCallback.audio_cleanup = tt
  message_of-IsInline LiCallback.decode_and_play_sample = tt
  message_of-IsInline (LiCallback.stage_starting n) =
      (fixed (bytes "[moonlight] stage starting: ") _ refl (named n), tt)
  message_of-IsInline (LiCallback.stage_complete n) =
      (fixed (bytes "[moonlight] stage complete: ") _ refl (named n), tt)
  message_of-IsInline (LiCallback.stage_failed n e) = (
    fixed (bytes "[moonlight] stage FAILED: ") _ refl (
        All-append IsInline (stage_name li_get_stage_name lossy n) (bracketed e) (named n)
          (in_brackets e)),
    tt,
  )
  message_of-IsInline LiCallback.connection_started =
      (is_inline-IsInline (bytes "[moonlight] connection started") refl, tt)
  message_of-IsInline (LiCallback.connection_terminated e) = (
    fixed (bytes "[moonlight] connection terminated (error ") _ refl
        (All-append IsInline (signed e) (b')' ∷ []) (signed-IsInline e) (refl, tt)),
    tt,
  )

  messages_of-IsInline :
      (cs : List LiCallback) → All IsMessage (messages_of li_get_stage_name lossy cs)
  unfolding messages_of
  messages_of-IsInline [] = tt
  messages_of-IsInline (c ∷ cs) =
      All-append IsMessage (message_of li_get_stage_name lossy c) _ (message_of-IsInline c)
        (messages_of-IsInline cs)

  call_all-stderr :
      (cs : List LiCallback) (p : Process)
      → (call_all li_get_stage_name lossy cs p).0.stderr
        ≡ tlog_all (messages_of li_get_stage_name lossy cs) p.stderr
  unfolding call_all call messages_of tlog_all
  call_all-stderr [] p = refl
  call_all-stderr (c ∷ cs) p =
      call_all-stderr cs (call li_get_stage_name lossy c p).0
      ∙ sym (
          tlog_all-append (message_of li_get_stage_name lossy c)
            (messages_of li_get_stage_name lossy cs) p.stderr)

  -- When the C library's names of the stages have no line break in them, then whatever it calls, in
  -- whatever order, a host that reads a healthy standard error line by line gets the messages of the calls,
  -- one line each, in their order and with their levels.
  pub call_all-read_log :
      (cs : List LiCallback) (p : Process)
      → p.stderr ≡ healthy []
      → read_log (call_all li_get_stage_name lossy cs p).0.stderr.written
        ≡ map (λ m. some (min m.0 3, m.1)) (messages_of li_get_stage_name lossy cs)
  call_all-read_log cs p h =
      ap (λ s. read_log s.written)
        (call_all-stderr cs p ∙ ap (tlog_all (messages_of li_get_stage_name lossy cs)) h)
      ∙ read_log-tlog_all (messages_of li_get_stage_name lossy cs) (messages_of-IsInline cs)
