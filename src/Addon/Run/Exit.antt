-- ===== src/Addon/Run/Exit.antt =====
-- How `run` of crates/moonlight-addon/src/main.rs ends.
use tempest_addon_moonlight.Base.{
  ℕ, zero, suc, ◌+◌, ◌<◌, ◌≡◌, refl, some, List, [], ◌∷◌, All, length, Text, arith, Result, ok,
  Bool-cases, inl, inr, ◌==◌,
}
use tempest_addon_moonlight.Proto.Messages.{HostMsg}
use tempest_addon_moonlight.Proto.Framing.{Reader, Sink, abi}
use tempest_addon_moonlight.Session.Worker.{MoonlightSession}
use tempest_addon_moonlight.Addon.Run.{
  Env, Addon, handle_msg, drain, close_all, drop_each, drop_all, drop_session, close_old, close,
  read_control, serve, run, no_sessions,
}
use tempest_addon_moonlight.Addon.Run.Read.{failed, at_end, got, read_control-Reads}
use tempest_addon_moonlight.Addon.Run.Serve.{IsStopped, WellFormed, handle_msg-WellFormed}

-- No session is left, and each that was started was told to stop.
abbrev pub IsClosed : Addon → Type 0
IsClosed a = (a.sessions ≡ []) × All IsStopped a.dropped × (a.connects ≡ length a.dropped)

-- Sessions taken out of the map that are still to be closed.
record Draining (m : List (ℕ × MoonlightSession)) (a : Addon) : Type 0 where
  empty : a.sessions ≡ []
  gone : All IsStopped a.dropped
  count : a.connects ≡ length m + length a.dropped

draining : (a : Addon) → WellFormed a → Draining a.sessions (record a { sessions = [] })
draining a h = record { empty = refl; gone = h.gone; count = h.count }

drain-IsClosed : (m : List (ℕ × MoonlightSession)) (a : Addon) → Draining m a → IsClosed (drain m a)
unfolding drain close_old drop_session close
drain-IsClosed [] a h = (h.empty, h.gone, omega (arith, h.count))
drain-IsClosed ((k, e) ∷ m) a h =
    drain-IsClosed m _
      (record { empty = h.empty; gone = (refl, h.gone); count = omega (arith, h.count) })

drop_each-IsClosed :
    (m : List (ℕ × MoonlightSession)) (a : Addon) → Draining m a → IsClosed (drop_each m a)
unfolding drop_each drop_session close
drop_each-IsClosed [] a h = (h.empty, h.gone, omega (arith, h.count))
drop_each-IsClosed ((k, e) ∷ m) a h =
    drop_each-IsClosed m _
      (record { empty = h.empty; gone = (refl, h.gone); count = omega (arith, h.count) })

close_all-IsClosed : (a : Addon) → WellFormed a → IsClosed (close_all a)
unfolding close_all
close_all-IsClosed a h = drain-IsClosed a.sessions _ (draining a h)

drop_all-IsClosed : (a : Addon) → WellFormed a → IsClosed (drop_all a)
unfolding drop_all
drop_all-IsClosed a h = drop_each-IsClosed a.sessions _ (draining a h)

serve-IsClosed :
    (f : ℕ) (env : Env) (r : Reader) (a : Addon)
    → length r.rest < f
    → WellFormed a
    → (a' : Addon) × (res : Result Text (Unit {0})) × (serve f env r a ≡ some (a', res))
      × IsClosed a'
unfolding serve
serve-IsClosed zero env r a h w = absurd (omega arith)
serve-IsClosed (suc f) env r a h w = elim (read_control-Reads (suc f) env r h) [
  | failed e x ↦ rw (x, serve) (_, _, refl, drop_all-IsClosed a w)
  | at_end r' x ↦ rw (x, serve) (_, _, refl, close_all-IsClosed a w)
  | got msg r' x s ↦
      let w' = handle_msg-WellFormed env msg a w in
      elim (Bool-cases (handle_msg env msg a).1) [
        | inl g ↦
            rw (x, g, serve)
              (serve-IsClosed f env r' (handle_msg env msg a).0 (omega (arith, s)) w')
        | inr g ↦ rw (x, g, serve) (_, _, refl, close_all-IsClosed _ w')
      ]
]

pub none_started : WellFormed no_sessions
none_started = record { live = tt; unique = tt; gone = tt; count = refl }

nothing : IsClosed no_sessions
nothing = (refl, tt, refl)

abbrev Exits : ℕ → Env → Reader → Sink → Type 0
Exits f env r s =
    (a : Addon) × (s' : Sink) × (res : Result Text (Unit {0})) × (run f env r s ≡ some (a, s', res))
    × IsClosed a

-- What the host says first: only a hello of this version starts the loop.
greeted :
    (f : ℕ) (env : Env) (r : Reader) (s : Sink) (msg : HostMsg) (r' : Reader)
    → read_control f env r ≡ some (ok (some msg, r'))
    → length r'.rest < f
    → Exits f env r s
unfolding run
greeted f env r s (HostMsg.hello v t) r' x lt = elim (Bool-cases (v == abi)) [
  | inl e ↦
      let (a, res, served, closed) = serve-IsClosed f env r' no_sessions lt none_started in
      rw (x, run, e, served) (a, _, res, refl, closed)
  | inr e ↦ rw (x, run, e) (_, _, _, refl, nothing)
]
greeted f env r s (HostMsg.connect k doc) r' x lt = rw (x, run) (_, _, _, refl, nothing)
greeted f env r s (HostMsg.input k i) r' x lt = rw (x, run) (_, _, _, refl, nothing)
greeted f env r s (HostMsg.resize k w t) r' x lt = rw (x, run) (_, _, _, refl, nothing)
greeted f env r s (HostMsg.frame_ack k i) r' x lt = rw (x, run) (_, _, _, refl, nothing)
greeted f env r s (HostMsg.close k) r' x lt = rw (x, run) (_, _, _, refl, nothing)
greeted f env r s HostMsg.shutdown r' x lt = rw (x, run) (_, _, _, refl, nothing)

-- Whatever bytes the host sends, and however its pipe ends, `run` returns when it is given more rounds
-- than there are bytes, and on each of its exits (shutdown, the end of the pipe, a decoding or a reading
-- error, a refused hello) no session is left in the map and every session that was ever started was
-- told to stop.
pub run-IsClosed :
    (f : ℕ) (env : Env) (r : Reader) (s : Sink)
    → length r.rest < f
    → (a : Addon) × (s' : Sink) × (res : Result Text (Unit {0})) × (run f env r s
        ≡ some (a, s', res))
      × IsClosed a
unfolding run
run-IsClosed f env r s h = elim (read_control-Reads f env r h) [
  | failed e x ↦ rw (x, run) (_, _, _, refl, nothing)
  | at_end r' x ↦ rw (x, run) (_, _, _, refl, nothing)
  | got msg r' x sh ↦ greeted f env r s msg r' x (omega (arith, sh))
]
