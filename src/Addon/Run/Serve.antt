-- ===== src/Addon/Run/Serve.antt =====
-- The session map of crates/moonlight-addon/src/main.rs while the loop runs and when `run` returns.
use tempest_addon_moonlight.Base.{
  ℕ, suc, ◌+◌, ◌≡◌, refl, Bool, true, false, Option, none, some, List, [], ◌∷◌, All, length, arith,
  Bool-cases, Option-cases, inl, inr, ◌==◌,
}
use tempest_addon_moonlight.Proto.Messages.{HostMsg, InputMsg}
use tempest_addon_moonlight.Session.Worker.{MoonlightSession, connect_with_doc}
use tempest_addon_moonlight.Session.Doc.{MoonlightConnectDoc}
use tempest_addon_moonlight.Addon.Run.{
  Env, Addon, insert, get, remove, close, drop_session, drop_old, close_old, send_to, handle_msg,
}

abbrev pub IsLive : ℕ × MoonlightSession → Type 0
IsLive (k, e) = e.worker.stop ≡ false

abbrev pub IsStopped : MoonlightSession → Type 0
IsStopped e = e.worker.stop ≡ true

-- No id twice.
abbrev pub Unique : List (ℕ × MoonlightSession) → Type 0
Unique [] = Unit
Unique ((k, e) ∷ m) = (get k m ≡ none) × Unique m

-- The sessions of the map run, one for each id; the others were told to stop; none is lost.
pub record WellFormed (a : Addon) : Type 0 where
  pub live : All IsLive a.sessions
  pub unique : Unique a.sessions
  pub gone : All IsStopped a.dropped
  pub count : a.connects ≡ length a.sessions + length a.dropped

abbrev pub size : Option MoonlightSession → ℕ
size none = 0
size (some e) = 1

insert-IsLive :
    (k : ℕ) (e : MoonlightSession) (m : List (ℕ × MoonlightSession))
    → IsLive (k, e)
    → All IsLive m
    → All IsLive (insert k e m).0
unfolding insert
insert-IsLive k e [] h hs = (h, tt)
insert-IsLive k e ((k', e') ∷ m) h hs = ground (arith, insert-IsLive k e m h hs.1)

insert-absent :
    (k k' : ℕ) (e : MoonlightSession) (m : List (ℕ × MoonlightSession))
    → k' == k ≡ false
    → get k' m ≡ none
    → get k' (insert k e m).0 ≡ none
unfolding insert get
insert-absent k k' e [] ne h = ground arith
insert-absent k k' e ((k2, e2) ∷ m) ne h = ground (arith, insert-absent k k' e m ne)

insert-Unique :
    (k : ℕ) (e : MoonlightSession) (m : List (ℕ × MoonlightSession))
    → Unique m
    → Unique (insert k e m).0
unfolding insert get
insert-Unique k e [] u = (refl, tt)
insert-Unique k e ((k', e') ∷ m) u = elim (Bool-cases (k == k')) [
  | inl same ↦ ground arith
  | inr ne ↦ ground (arith, insert-Unique k e m u.1, insert-absent k k' e m)
]

insert-count :
    (k : ℕ) (e : MoonlightSession) (m : List (ℕ × MoonlightSession))
    → length (insert k e m).0 + size (insert k e m).1 ≡ suc (length m)
unfolding insert
insert-count k e [] = refl
insert-count k e ((k', e') ∷ m) = ground (arith, insert-count k e m)

remove-IsLive : (k : ℕ) (m : List (ℕ × MoonlightSession)) → All IsLive m → All IsLive (remove k m).0
unfolding remove
remove-IsLive k [] hs = tt
remove-IsLive k ((k', e') ∷ m) hs = ground (arith, remove-IsLive k m hs.1)

remove-absent :
    (k k' : ℕ) (m : List (ℕ × MoonlightSession)) → get k' m ≡ none → get k' (remove k m).0 ≡ none
unfolding remove get
remove-absent k k' [] h = refl
remove-absent k k' ((k2, e2) ∷ m) h = ground (arith, remove-absent k k' m)

remove-Unique : (k : ℕ) (m : List (ℕ × MoonlightSession)) → Unique m → Unique (remove k m).0
unfolding remove get
remove-Unique k [] u = tt
remove-Unique k ((k', e') ∷ m) u = ground (arith, remove-Unique k m u.1, remove-absent k k' m)

remove-count :
    (k : ℕ) (m : List (ℕ × MoonlightSession))
    → length (remove k m).0 + size (remove k m).1 ≡ length m
unfolding remove
remove-count k [] = refl
remove-count k ((k', e') ∷ m) = ground (arith, remove-count k m)

-- An id that is in the map is replaced, not added.
insert-old :
    (k : ℕ) (e x : MoonlightSession) (m : List (ℕ × MoonlightSession))
    → get k m ≡ some x
    → length (insert k e m).0 ≡ length m
unfolding insert get
insert-old k e x [] h = cc
insert-old k e x ((k', e') ∷ m) h = ground (arith, insert-old k e x m)

-- A session that left the map and is not dropped yet.
record Leaving (old : Option MoonlightSession) (a : Addon) : Type 0 where
  pub live : All IsLive a.sessions
  pub unique : Unique a.sessions
  pub gone : All IsStopped a.dropped
  pub count : a.connects ≡ length a.sessions + size old + length a.dropped

drop_session-WellFormed :
    (e : MoonlightSession) (a : Addon) → Leaving (some e) a → WellFormed (drop_session e a)
unfolding drop_session close
drop_session-WellFormed e a h = record {
  live = h.live;
  unique = h.unique;
  gone = (refl, h.gone);
  count = omega (arith, h.count);
}

drop_old-WellFormed :
    (old : Option MoonlightSession) (a : Addon) → Leaving old a → WellFormed (drop_old old a)
unfolding drop_old
drop_old-WellFormed none a h = record {
  live = h.live;
  unique = h.unique;
  gone = h.gone;
  count = omega (arith, h.count);
}
drop_old-WellFormed (some e) a h = drop_session-WellFormed e a h

close_old-WellFormed :
    (old : Option MoonlightSession) (a : Addon) → Leaving old a → WellFormed (close_old old a)
unfolding close_old close
close_old-WellFormed none a h = record {
  live = h.live;
  unique = h.unique;
  gone = h.gone;
  count = omega (arith, h.count);
}
close_old-WellFormed (some e) a h =
    drop_session-WellFormed _ _
      (record { live = h.live; unique = h.unique; gone = h.gone; count = h.count })

-- The input state of a session changes, its worker does not.
get_live :
    (k : ℕ) (e : MoonlightSession) (m : List (ℕ × MoonlightSession))
    → All IsLive m
    → get k m ≡ some e
    → e.worker.stop ≡ false
unfolding get
get_live k e [] hs h = cc
get_live k e ((k', e') ∷ m) hs h = ground (arith, get_live k e m hs.1)

send_to-WellFormed :
    (session : ℕ) (input : InputMsg) (a : Addon)
    → WellFormed a
    → WellFormed (send_to session input (get session a.sessions) a)
unfolding send_to
send_to-WellFormed session input a h = elim (Option-cases (get session a.sessions)) [
  | inl e ↦ rw (e, send_to) h
  | inr (x, e) ↦
      rw (e, send_to)
        (record {
          live = insert-IsLive session _ a.sessions (get_live session x a.sessions h.live e) h.live;
          unique = insert-Unique session _ a.sessions h.unique;
          gone = h.gone;
          count = rw (insert-old session _ x a.sessions e) h.count;
        })
]

connect_live : (b : Bool) (doc : MoonlightConnectDoc) → (connect_with_doc b doc).worker.stop ≡ false
unfolding connect_with_doc
connect_live true doc = refl
connect_live false doc = refl

-- Every message of the host keeps the map well formed: its sessions have distinct ids and run, those
-- that left it were told to stop, and none that was started is lost. A second `connect` under an id
-- thereby stops the session that had it.
pub handle_msg-WellFormed :
    (env : Env) (msg : HostMsg) (a : Addon) → WellFormed a → WellFormed (handle_msg env msg a).0
unfolding handle_msg
handle_msg-WellFormed env (HostMsg.hello v t) a h = h
handle_msg-WellFormed env (HostMsg.connect session doc) a h = drop_old-WellFormed _ _ (record {
  live = insert-IsLive session _ a.sessions (connect_live _ _) h.live;
  unique = insert-Unique session _ a.sessions h.unique;
  gone = h.gone;
  count = omega (arith, h.count, insert-count session _ a.sessions);
})
handle_msg-WellFormed env (HostMsg.input session input) a h = send_to-WellFormed session input a h
handle_msg-WellFormed env (HostMsg.resize s w t) a h = h
handle_msg-WellFormed env (HostMsg.frame_ack s f) a h = h
handle_msg-WellFormed env (HostMsg.close session) a h = close_old-WellFormed _ _ (record {
  live = remove-IsLive session a.sessions h.live;
  unique = remove-Unique session a.sessions h.unique;
  gone = h.gone;
  count = omega (arith, h.count, remove-count session a.sessions);
})
handle_msg-WellFormed env HostMsg.shutdown a h = h
