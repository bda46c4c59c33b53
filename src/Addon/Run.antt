-- ===== src/Addon/Run.antt =====
-- `run`, `read_control` and `lookup` of crates/moonlight-addon/src/main.rs. `serde_json` and the
-- derived `Debug` of a message are parameters. Only this thread uses the session map, so its mutex
-- is never poisoned. The map owns its sessions: what leaves it is dropped, and a drop closes it.
pub mod Read
pub mod Serve
pub mod Exit
pub mod Stream
use tempest_addon_moonlight.Base.{
  ℕ, zero, suc, ◌+◌, Bool, true, false, not, Option, none, some, List, [], ◌∷◌, ◌++◌, Text, bytes,
  decimal, ◌==◌, if◌then◌else◌, length, Result, ok, err,
}
use tempest_addon_moonlight.Proto.Messages.{ConnectDoc, InputMsg, HostMsg, AddonMsg}
use tempest_addon_moonlight.Proto.Framing.{
  IoError, unexpected_eof, invalid_data, other, Reader, read_message, Sink, kind_control, abi,
}
use tempest_addon_moonlight.Session.Doc.{MoonlightConnectDoc}
use tempest_addon_moonlight.Session.Input.{LiSend, InputState, send_input}
use tempest_addon_moonlight.Session.Worker.{
  WorkerHandle, MoonlightSession, connect_with_doc, stop_worker,
}
use tempest_addon_moonlight.Addon.Convert.{to_core_doc, to_core_input}
use tempest_addon_moonlight.Addon.Output.{send}

-- What this thread calls of the engine and of the C library.
pub data Call : Type 0 where
  start : ℕ → MoonlightConnectDoc → Call
  li_send : LiSend → Call
  stop_stream : Call

pub record Env : Type 0 where
  pub from_slice : List ℕ → Result Text HostMsg
  pub to_vec : AddonMsg → Result Text (List ℕ)
  pub debug : HostMsg → Text
  pub addon_version : Text
  -- Whether the thread of the n-th session can be spawned.
  pub spawns : ℕ → Bool

-- The session map, the sessions that were dropped, the number of sessions that were started, and
-- the calls, the newest first.
pub record Addon : Type 0 where
  pub sessions : List (ℕ × MoonlightSession)
  pub dropped : List MoonlightSession
  pub connects : ℕ
  pub calls : List Call

-- `HashMap::insert`, `get` and `remove`.
unfoldable pub insert :
    ℕ
    → MoonlightSession
    → List (ℕ × MoonlightSession)
    → List (ℕ × MoonlightSession) × Option MoonlightSession
insert k e [] = ((k, e) ∷ [], none)
insert k e ((k', e') ∷ m) =
    let (m', old) = insert k e m in if k == k' then ((k, e) ∷ m, some e') else ((k', e') ∷ m', old)

unfoldable pub get : ℕ → List (ℕ × MoonlightSession) → Option MoonlightSession
get k [] = none
get k ((k', e') ∷ m) = if k == k' then some e' else get k m

unfoldable pub remove :
    ℕ → List (ℕ × MoonlightSession) → List (ℕ × MoonlightSession) × Option MoonlightSession
remove k [] = ([], none)
remove k ((k', e') ∷ m) =
    let (m', old) = remove k m in if k == k' then (m, some e') else ((k', e') ∷ m', old)

-- `MoonlightSession::close`: the stream of the process is stopped, whoever owns it.
unfoldable pub close : MoonlightSession → List Call → MoonlightSession × List Call
close e calls = (record e { worker = stop_worker e.worker }, stop_stream ∷ calls)

-- The drop of a session that left the map.
unfoldable pub drop_session : MoonlightSession → Addon → Addon
drop_session e a =
    let (e', calls) = close e a.calls in record a { dropped = e' ∷ a.dropped; calls = calls }

drop_old : Option MoonlightSession → Addon → Addon
drop_old none a = a
drop_old (some e) a = drop_session e a

-- `engine.close()` on a session that left the map, and its drop.
close_old : Option MoonlightSession → Addon → Addon
close_old none a = a
close_old (some e) a =
    let (e', calls) = close e a.calls in drop_session e' (record a { calls = calls })

li_sends : List LiSend → List Call → List Call
li_sends [] calls = calls
li_sends (l ∷ ls) calls = li_sends ls (li_send l ∷ calls)

send_to : ℕ → InputMsg → Option MoonlightSession → Addon → Addon
send_to session input none a = a
send_to session input (some e) a =
    let (st, sends) = send_input e.input_state (to_core_input input) in
    record a {
      sessions = (insert session (record e { input_state = st }) a.sessions).0;
      calls = li_sends sends a.calls;
    }

-- One message of the loop, with whether the loop goes on.
unfoldable pub handle_msg : Env → HostMsg → Addon → Addon × Bool
unfolding drop_old close_old send_to li_sends
handle_msg env (HostMsg.hello v h) a = (a, true)
handle_msg env (HostMsg.connect session doc) a =
    let doc' = to_core_doc doc in
    let e = connect_with_doc (env.spawns a.connects) doc' in
    let (m, old) = insert session e a.sessions in
    (
      drop_old old (record a {
        sessions = m;
        connects = suc a.connects;
        calls = start session doc' ∷ a.calls;
      }),
      true,
    )
handle_msg env (HostMsg.input session input) a =
    (send_to session input (get session a.sessions) a, true)
handle_msg env (HostMsg.resize s w h) a = (a, true)
handle_msg env (HostMsg.frame_ack s f) a = (a, true)
handle_msg env (HostMsg.close session) a =
    let (m, old) = remove session a.sessions in (close_old old (record a { sessions = m }), true)
handle_msg env HostMsg.shutdown a = (a, false)

-- The end of `run`: every session is taken out of the map and closed.
drain : List (ℕ × MoonlightSession) → Addon → Addon
drain [] a = a
drain ((k, e) ∷ m) a = drain m (close_old (some e) a)

unfoldable pub close_all : Addon → Addon
unfolding close_old drain
close_all a = drain a.sessions (record a { sessions = [] })

-- An early return of `run`: the map is dropped.
drop_each : List (ℕ × MoonlightSession) → Addon → Addon
drop_each [] a = a
drop_each ((k, e) ∷ m) a = drop_each m (drop_session e a)

unfoldable pub drop_all : Addon → Addon
unfolding drop_each
drop_all a = drop_each a.sessions (record a { sessions = [] })

-- `io::Error` as text.
show_io : IoError → Text
show_io unexpected_eof = bytes "failed to fill whole buffer"
show_io (invalid_data t) = t
show_io (other t) = t

unfoldable pub decoded : Result Text HostMsg → Reader → Result Text (Option HostMsg × Reader)
decoded (ok msg) r = ok (some msg, r)
decoded (err e) r = err (bytes "undecodable control message: " ++ e)

-- `read_control` in at most so many rounds; `none` if they are not enough.
unfoldable pub read_control : ℕ → Env → Reader → Option (Result Text (Option HostMsg × Reader))
unfolding decoded show_io
read_control zero env r = none
read_control (suc f) env r = elim (read_message r) [
  | err e ↦ some (err (show_io e))
  | ok (none, r') ↦ some (ok (none, r'))
  | ok (some (kind, payload), r') ↦ elim (kind == kind_control) [
    | true ↦ some (decoded (env.from_slice payload) r')
    | false ↦ read_control f env r'
  ]
]

-- The loop and what follows it.
unfoldable pub serve : ℕ → Env → Reader → Addon → Option (Addon × Result Text (Unit {0}))
serve zero env r a = none
serve (suc f) env r a = elim (read_control (suc f) env r) [
  | none ↦ none
  | some (err e) ↦ some (drop_all a, err e)
  | some (ok (none, r')) ↦ some (close_all a, ok tt)
  | some (ok (some msg, r')) ↦
      let (a', goes_on) = handle_msg env msg a in
      elim goes_on [ true ↦ serve f env r' a' | false ↦ some (close_all a', ok tt) ]
]

abbrev pub no_sessions : Addon
no_sessions = record { sessions = []; dropped = []; connects = 0; calls = [] }

abi_mismatch : ℕ → Text
abi_mismatch v =
    bytes "ABI mismatch: host speaks "
    ++ (decimal v
        ++ (bytes ", this addon speaks "
            ++ (decimal abi
                ++ bytes ". The host is expected to refuse to load us before we get here.")))

-- `run`: the host says hello, the addon is ready, and the loop serves. The sink is what this thread
-- writes; the messages of the sessions come from their own threads.
unfoldable pub run : ℕ → Env → Reader → Sink → Option (Addon × Sink × Result Text (Unit {0}))
unfolding abi_mismatch
run f env r s = elim (read_control f env r) [
  | none ↦ none
  | some (err e) ↦ some (no_sessions, s, err e)
  | some (ok (none, r')) ↦ some (no_sessions, s, ok tt)
  | some (ok (some (HostMsg.hello v h), r')) ↦ elim (v == abi) [
    | false ↦ some (no_sessions, s, err (abi_mismatch v))
    | true ↦
        let s' = send env.to_vec s (AddonMsg.ready env.addon_version (bytes "moonlight" ∷ [])) in
        elim (serve f env r' no_sessions) [ none ↦ none | some (a, res) ↦ some (a, s', res) ]
  ]
  | some (ok (some msg, r')) ↦
      some (no_sessions, s, err (bytes "expected hello, got " ++ env.debug msg))
]

-- `main`: the exit code.
unfoldable pub exit_code : Result Text (Unit {0}) → ℕ
exit_code (ok done) = 0
exit_code (err e) = 1
