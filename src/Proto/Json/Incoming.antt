-- ===== src/Proto/Json/Incoming.antt =====
-- `Deserialize for HostMsg` of crates/moonlight-addon/src/proto.rs reads back what the host writes.
use tempest_addon_moonlight.Base.{
  ℕ, ◌<◌, ◌≡◌, refl, sym, ap, ◌∙◌, Bool, true, Option, none, some, [], ◌∷◌, Text, bytes, text_eq,
}
use tempest_addon_moonlight.Base.Options.{◌>>=◌}
use tempest_addon_moonlight.Proto.Messages.{Mods, InputMsg, HostMsg, DocFields, fill_defaults}
use tempest_addon_moonlight.Proto.Json.{
  number, mods, doc_fields, connect_doc, input_msg, host_msg, no_mods, decode_host,
}
use tempest_addon_moonlight.Proto.Value.{str, obj}
use tempest_addon_moonlight.Proto.Value.{
  found, lookup, required, defaulted, uint, present, once, flag, text, f32, text_or_null, u8, u16,
  u32,
}
use tempest_addon_moonlight.Transport.{F32}
use tempest_addon_moonlight.Proto.Json.Slots.{
  Slots, object, from_option, slot, absent, distinct, then_read, bind_assoc, read_slot, uint-number,
}
use tempest_addon_moonlight.Proto.Json.Host.{
  opt_flag, opt_text, all_fields, Fits, mods_slots, DocFits, InputFits, HostFits, real, opt_num,
  doc_slots, input_slots, connect_slots, host_slots, encode_host,
}

module _ (as_f32 : ℕ → F32) (as_uint : F32 → Option ℕ) where
  opt_num-present :
      (top : ℕ) (o : Option ℕ)
      → Fits top o
      → defaulted none (present (uint top)) (from_option (opt_num as_f32 as_uint o)) ≡ some o
  unfolding defaulted present from_option opt_num Fits
  opt_num-present top none h = refl
  opt_num-present top (some n) h = ap (λ r. r >>= (λ a. some (some a))) (uint-number as_f32 top n h)

  opt_flag-present :
      (o : Option Bool) → defaulted none (present flag) (from_option (opt_flag o)) ≡ some o
  unfolding defaulted present from_option opt_flag flag
  opt_flag-present none = refl
  opt_flag-present (some b) = refl

  opt_text-present :
      (o : Option Text) → defaulted none (present text) (from_option (opt_text o)) ≡ some o
  unfolding defaulted present from_option opt_text text
  opt_text-present none = refl
  opt_text-present (some t) = refl

  mods-slots : (m : Mods) → mods (obj (object (mods_slots m))) ≡ some m
  unfolding mods mods_slots object lookup once text_eq bytes defaulted flag
  mods-slots m = refl

  doc-distinct : (f : DocFields) → distinct (doc_slots as_f32 as_uint f) ≡ true
  unfolding distinct absent text_eq bytes doc_slots
  doc-distinct f = refl

  doc_number :
      (f : DocFields) (k : Text) (top : ℕ) (o : Option ℕ)
      → slot k (doc_slots as_f32 as_uint f) ≡ from_option (opt_num as_f32 as_uint o)
      → Fits top o
      → defaulted none (present (uint top)) (lookup k (object (doc_slots as_f32 as_uint f)))
        ≡ some o
  doc_number f k top o here h =
      read_slot (defaulted none (present (uint top))) k (doc_slots as_f32 as_uint f) _ o
        (doc-distinct f) here (opt_num-present top o h)

  doc_text :
      (f : DocFields) (k : Text) (o : Option Text)
      → slot k (doc_slots as_f32 as_uint f) ≡ from_option (opt_text o)
      → defaulted none (present text) (lookup k (object (doc_slots as_f32 as_uint f))) ≡ some o
  doc_text f k o here =
      read_slot (defaulted none (present text)) k (doc_slots as_f32 as_uint f) _ o (doc-distinct f)
        here (opt_text-present o)

  doc_fields-slots :
      (f : DocFields) → DocFits f → doc_fields (object (doc_slots as_f32 as_uint f)) ≡ some f
  unfolding DocFits doc_fields slot text_eq bytes doc_slots from_option required text
  doc_fields-slots f (http, https, w, h, fps, rate) =
      then_read _ f.host
        (read_slot (required text) (bytes "host") (doc_slots as_f32 as_uint f) _ _ (doc-distinct f)
          refl refl)
        (then_read _ f.http_port (doc_number f (bytes "httpPort") u16 f.http_port refl http) (
          then_read _ f.https_port (doc_number f (bytes "httpsPort") u16 f.https_port refl https) (
            then_read _ f.width (doc_number f (bytes "width") u16 f.width refl w) (
              then_read _ f.height (doc_number f (bytes "height") u16 f.height refl h) (
                then_read _ f.fps (doc_number f (bytes "fps") u16 f.fps refl fps) (
                  then_read _ f.bitrate_kbps
                    (doc_number f (bytes "bitrateKbps") u32 f.bitrate_kbps refl rate)
                    (then_read _ f.use_hevc
                      (read_slot (defaulted none (present flag)) (bytes "useHevc")
                        (doc_slots as_f32 as_uint f) _ _ (doc-distinct f) refl
                        (opt_flag-present f.use_hevc))
                      (then_read _ f.client_unique_id
                        (doc_text f (bytes "clientUniqueId") f.client_unique_id refl)
                        (then_read _ f.client_cert_pem
                          (doc_text f (bytes "clientCertPem") f.client_cert_pem refl)
                          (then_read _ f.client_key_pem
                            (doc_text f (bytes "clientKeyPem") f.client_key_pem refl) refl))))))))))

  need_number :
      (k : Text) (top n : ℕ) (ss : Slots)
      → distinct ss ≡ true
      → slot k ss ≡ found (number as_f32 n)
      → n < top
      → required (uint top) (lookup k (object ss)) ≡ some n
  unfolding required
  need_number k top n ss apart here h =
      read_slot (required (uint top)) k ss _ n apart here (uint-number as_f32 top n h)

  need_text :
      (k t : Text) (ss : Slots)
      → distinct ss ≡ true
      → slot k ss ≡ found (str t)
      → required text (lookup k (object ss)) ≡ some t
  unfolding required text
  need_text k t ss apart here = read_slot (required text) k ss _ t apart here refl

  -- A `connect` that sets only some of the doc's fields is read with the defaults in the place of the others.
  pub decode_host-connect :
      (session : ℕ) (f : DocFields)
      → session < u32
      → DocFits f
      → decode_host (obj (object (connect_slots as_f32 as_uint session f)))
        ≡ some (HostMsg.connect session (fill_defaults f))
  unfolding decode_host host_msg connect_slots text_eq bytes distinct absent slot from_option
      required connect_doc
  decode_host-connect session f h fits =
      let ss = connect_slots as_f32 as_uint session f in
      then_read _ (bytes "connect") (need_text (bytes "t") (bytes "connect") ss refl refl) (
        then_read _ session (need_number (bytes "session") u32 session ss refl refl h) (
          then_read _ (fill_defaults f)
            (read_slot (required connect_doc) (bytes "doc") ss _ _ refl refl
              (then_read _ f (doc_fields-slots f fits) refl))
            refl))

  abbrev input_message : ℕ → InputMsg → Slots
  input_message session i =
      (bytes "t", some (str (bytes "input")))
      ∷ (bytes "session", some (number as_f32 session))
      ∷ input_slots as_f32 as_uint i

  ch-slot : (ch : Option Text) → defaulted none text_or_null (from_option (opt_text ch)) ≡ some ch
  unfolding defaulted text_or_null from_option opt_text
  ch-slot none = refl
  ch-slot (some t) = refl

  input_msg-slots :
      (session : ℕ) (i : InputMsg)
      → InputFits i
      → (required text (lookup (bytes "kind") (object (input_message session i)))
          >>= (λ kind. input_msg kind (object (input_message session i))))
        ≡ some i
  unfolding input_msg InputFits input_slots text_eq bytes distinct absent slot from_option required
      defaulted flag f32 real opt_text
  input_msg-slots session (InputMsg.pointer x y buttons) (hx, hy, hb) =
      let ss = input_message session (InputMsg.pointer x y buttons) in
      then_read _ (bytes "pointer") (need_text (bytes "kind") (bytes "pointer") ss refl refl) (
        then_read _ x (need_number (bytes "x") u16 x ss refl refl hx) (
          then_read _ y (need_number (bytes "y") u16 y ss refl refl hy)
            (then_read _ buttons (need_number (bytes "buttons") u8 buttons ss refl refl hb) refl)))
  input_msg-slots session (InputMsg.wheel x y dx dy) (hx, hy) =
      let ss = input_message session (InputMsg.wheel x y dx dy) in
      then_read _ (bytes "wheel") (need_text (bytes "kind") (bytes "wheel") ss refl refl) (
        then_read _ x (need_number (bytes "x") u16 x ss refl refl hx) (
          then_read _ y (need_number (bytes "y") u16 y ss refl refl hy) (
            then_read _ dx (read_slot (required f32) (bytes "dx") ss _ _ refl refl refl)
              (then_read _ dy (read_slot (required f32) (bytes "dy") ss _ _ refl refl refl) refl))))
  input_msg-slots session (InputMsg.key down code ch m) tt =
      let ss = input_message session (InputMsg.key down code ch m) in
      then_read _ (bytes "key") (need_text (bytes "kind") (bytes "key") ss refl refl) (
        then_read _ down (read_slot (required flag) (bytes "down") ss _ _ refl refl refl) (
          then_read _ code (need_text (bytes "code") code ss refl refl) (
            then_read _ ch
              (read_slot (defaulted none text_or_null) (bytes "ch") ss _ _ refl refl (ch-slot ch))
              (then_read _ m
                (read_slot (defaulted no_mods mods) (bytes "mods") ss _ _ refl refl (mods-slots m))
                refl))))
  input_msg-slots session (InputMsg.clipboard t) tt =
      let ss = input_message session (InputMsg.clipboard t) in
      then_read _ (bytes "clipboard") (need_text (bytes "kind") (bytes "clipboard") ss refl refl)
        (then_read _ t (need_text (bytes "text") t ss refl refl) refl)

  input-distinct : (session : ℕ) (i : InputMsg) → distinct (input_message session i) ≡ true
  unfolding distinct absent text_eq bytes input_slots
  input-distinct session (InputMsg.pointer x y buttons) = refl
  input-distinct session (InputMsg.wheel x y dx dy) = refl
  input-distinct session (InputMsg.key down code ch m) = refl
  input-distinct session (InputMsg.clipboard t) = refl

  -- Every message the host writes as PROTOCOL.md says, its numbers within their types, is read back as it is.
  pub decode_host-encode_host :
      (m : HostMsg) → HostFits m → decode_host (encode_host as_f32 as_uint m) ≡ some m
  unfolding decode_host host_msg encode_host host_slots HostFits text_eq bytes distinct absent slot
      from_option required defaulted text fill_defaults all_fields
  decode_host-encode_host (HostMsg.hello abi version) h =
      let ss = host_slots as_f32 as_uint (HostMsg.hello abi version) in
      then_read _ (bytes "hello") (need_text (bytes "t") (bytes "hello") ss refl refl) (
        then_read _ abi (need_number (bytes "abi") u32 abi ss refl refl h) (
          then_read _ version
            (read_slot (defaulted [] text) (bytes "hostVersion") ss _ _ refl refl refl) refl))
  decode_host-encode_host (HostMsg.connect session doc) (h, fits) =
      decode_host-connect session (all_fields doc) h fits
  decode_host-encode_host (HostMsg.input session i) (h, fits) =
      let ss = input_message session i in
      then_read _ (bytes "input")
        (need_text (bytes "t") (bytes "input") ss (input-distinct session i) refl)
        (then_read _ session
          (need_number (bytes "session") u32 session ss (input-distinct session i) refl h)
          (sym (
              bind_assoc (required text (lookup (bytes "kind") (object ss)))
                (λ kind. input_msg kind (object ss)) (λ i. some (HostMsg.input session i)))
            ∙ ap (λ o. o >>= (λ i. some (HostMsg.input session i)))
                (input_msg-slots session i fits)))
  decode_host-encode_host (HostMsg.resize session w v) (h, hw, hv) =
      let ss = host_slots as_f32 as_uint (HostMsg.resize session w v) in
      then_read _ (bytes "resize") (need_text (bytes "t") (bytes "resize") ss refl refl) (
        then_read _ session (need_number (bytes "session") u32 session ss refl refl h) (
          then_read _ w (need_number (bytes "width") u16 w ss refl refl hw)
            (then_read _ v (need_number (bytes "height") u16 v ss refl refl hv) refl)))
  decode_host-encode_host (HostMsg.frame_ack session id) (h, hid) =
      let ss = host_slots as_f32 as_uint (HostMsg.frame_ack session id) in
      then_read _ (bytes "frameAck") (need_text (bytes "t") (bytes "frameAck") ss refl refl) (
        then_read _ session (need_number (bytes "session") u32 session ss refl refl h)
          (then_read _ id (need_number (bytes "frameId") u32 id ss refl refl hid) refl))
  decode_host-encode_host (HostMsg.close session) h =
      let ss = host_slots as_f32 as_uint (HostMsg.close session) in
      then_read _ (bytes "close") (need_text (bytes "t") (bytes "close") ss refl refl)
        (then_read _ session (need_number (bytes "session") u32 session ss refl refl h) refl)
  decode_host-encode_host HostMsg.shutdown tt =
      then_read _ (bytes "shutdown")
        (need_text (bytes "t") (bytes "shutdown") (host_slots as_f32 as_uint HostMsg.shutdown) refl
          refl)
        refl
