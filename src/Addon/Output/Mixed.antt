-- ===== src/Addon/Output/Mixed.antt =====
-- Several sessions that share the writer: the threads of crates/moonlight-core/src/session.rs behind the
-- mutex of crates/moonlight-addon/src/main.rs, in whatever order they take it.
use tempest_addon_moonlight.Base.{
  ℕ, suc, ◌<◌, ◌≡◌, refl, ap, ◌∙◌, inl, inr, Bool, true, false, Bool-cases, Option, none, some,
  List, [], ◌∷◌, ◌++◌, All, All-split, Text, append-nil, length, Result, ok, ◌==◌, ==_iff,
  if◌then◌else◌, u32_mod,
}
use tempest_addon_moonlight.Base.Options.{◌>>=◌}
use tempest_addon_moonlight.Proto.Messages.{AddonMsg}
use tempest_addon_moonlight.Proto.Framing.{Sink}
use tempest_addon_moonlight.Proto.Framing.RoundTrip.{
  reader, Fits, raw_all, read_all, read_all-raw_all,
}
use tempest_addon_moonlight.Proto.Value.{Json}
use tempest_addon_moonlight.Session.State.{Event}
use tempest_addon_moonlight.Addon.Output.{deliver}
use tempest_addon_moonlight.Addon.Output.Wire.{
  step_messages, healthy, deliver-raw_all, raw_all-append, raw_all-healthy,
}
use tempest_addon_moonlight.Addon.Output.Heard.{
  Heard, said, shown, hear_all, hear_all-append, hear_all-step, event_heard, heard, Arrives,
}
use tempest_addon_moonlight.Transport.{F32}

-- The steps of one session among those of all; as in a log, the newest is the head.
unfoldable pub of_session : ℕ → List (ℕ × Event) → List Event
of_session n [] = []
of_session n ((m, e) ∷ es) = let rest = of_session n es in if m == n then e ∷ rest else rest

-- Whether a message or a frame names the session.
unfoldable pub is_for : ℕ → Heard → Bool
is_for n (said (AddonMsg.ready v caps)) = false
is_for n (said (AddonMsg.session_ready m w h)) = m == n
is_for n (said (AddonMsg.session_closed m e)) = m == n
is_for n (said (AddonMsg.event m e)) = m == n
is_for n (shown h payload) = h.session == n

-- What the host passes on to the session.
unfoldable pub addressed : ℕ → List Heard → List Heard
unfolding is_for
addressed n [] = []
addressed n (x ∷ xs) = let rest = addressed n xs in if is_for n x then x ∷ rest else rest

addressed-append :
    (n : ℕ) (xs ys : List Heard) → addressed n (xs ++ ys) ≡ addressed n xs ++ addressed n ys
unfolding addressed
addressed-append n [] ys = refl
addressed-append n (x ∷ xs) ys = elim (Bool-cases (is_for n x)) [
  | inl e ↦ rw (e, addressed-append n xs ys) refl
  | inr e ↦ rw (e, addressed-append n xs ys) refl
]

addressed_one :
    (n : ℕ) (x : Heard) (b : Bool)
    → is_for n x ≡ b
    → addressed n (x ∷ []) ≡ (if b then x ∷ [] else [])
unfolding addressed
addressed_one n x true h = rw h refl
addressed_one n x false h = rw h refl

same_else {ℓ} : {A : Type ℓ} → (a : A) (b : Bool) → a ≡ (if b then a else a)
same_else a true = refl
same_else a false = refl

-- All that a step of a session lets the host hear names that session.
addressed-event_heard :
    (m n : ℕ) (e : Event) (b : Bool)
    → (m == n) ≡ b
    → addressed n (event_heard m e) ≡ (if b then event_heard m e else [])
unfolding addressed event_heard is_for
addressed-event_heard m n (Event.identity_learned u c k) b h = addressed_one n _ b h
addressed-event_heard m n (Event.service_message t) b h = addressed_one n _ b h
addressed-event_heard m n (Event.pair_prompt p u) b h = addressed_one n _ b h
addressed-event_heard m n (Event.pair_finished x) b h = addressed_one n _ b h
addressed-event_heard m n Event.ready b h = addressed_one n _ b h
addressed-event_heard m n (Event.frame u) b h = addressed_one n _ b h
addressed-event_heard m n (Event.closed t) b h = addressed_one n _ b h
addressed-event_heard m n (Event.launched x) b h = same_else [] b
addressed-event_heard m n (Event.stream_started x) b h = same_else [] b
addressed-event_heard m n Event.stream_stopped b h = same_else [] b
addressed-event_heard m n (Event.cancelled x) b h = same_else [] b

module _ (json : AddonMsg → List ℕ) where
  -- The messages of the steps of all sessions, the oldest first.
  unfoldable pub mixed_messages : List (ℕ × Event) → List (ℕ × List ℕ)
  mixed_messages [] = []
  mixed_messages ((m, e) ∷ es) = mixed_messages es ++ step_messages json m e

  -- Each step is delivered by its session's thread, in the order in which they take the lock.
  unfoldable pub deliver_mixed : List (ℕ × Event) → Sink → Sink
  deliver_mixed [] s = s
  deliver_mixed ((m, e) ∷ es) s = deliver (λ msg. ok (json msg)) m e (deliver_mixed es s)

  deliver_mixed-raw_all :
      (es : List (ℕ × Event)) (n : ℕ)
      → All Fits (mixed_messages es)
      → deliver_mixed es (healthy json n []) ≡ raw_all (healthy json n []) (mixed_messages es)
  unfolding deliver_mixed mixed_messages raw_all
  deliver_mixed-raw_all [] n h = refl
  deliver_mixed-raw_all ((m, e) ∷ es) n h =
      let now_too = step_messages json m e in
      let (before, now) = All-split Fits (mixed_messages es) now_too h in
      let (w, stays) = raw_all-healthy json n [] (mixed_messages es) before in
      rw
        (
          deliver_mixed-raw_all es n before,
          stays,
          deliver-raw_all json m w e now,
          raw_all-append json n (healthy json n []) (mixed_messages es) now_too,
          stays,
        )
        refl

-- What all sessions should let the host hear, the oldest step first.
unfoldable pub heard_mixed : List (ℕ × Event) → List Heard
heard_mixed [] = []
heard_mixed ((m, e) ∷ es) = heard_mixed es ++ event_heard m e

addressed-step :
    (n m : ℕ) (e : Event) (es : List (ℕ × Event)) (b : Bool)
    → (m == n) ≡ b
    → heard n (of_session n es) ++ addressed n (event_heard m e)
      ≡ heard n (let rest = of_session n es in if b then e ∷ rest else rest)
unfolding heard
addressed-step n m e es true h =
    let same : m ≡ n = (==_iff m n).0 h in rw (addressed-event_heard m n e true h, same) refl
addressed-step n m e es false h =
    ap (λ q. heard n (of_session n es) ++ q) (addressed-event_heard m n e false h)
    ∙ append-nil (heard n (of_session n es))

addressed-heard_mixed :
    (n : ℕ) (es : List (ℕ × Event)) → addressed n (heard_mixed es) ≡ heard n (of_session n es)
unfolding addressed heard_mixed of_session heard
addressed-heard_mixed n [] = refl
addressed-heard_mixed n ((m, e) ∷ es) =
    addressed-append n (heard_mixed es) (event_heard m e)
    ∙ ap (λ q. q ++ addressed n (event_heard m e)) (addressed-heard_mixed n es)
    ∙ addressed-step n m e es (m == n) refl

module _ (parse : List ℕ → Result Text Json) (json : AddonMsg → List ℕ) (as_f32 : ℕ → F32) where
  -- The session's id fits its field, and the message of the step arrives.
  abbrev pub Admissible : ℕ × Event → Type 0
  Admissible p = (p.0 < u32_mod) × Arrives parse json as_f32 p.0 p.1

  hear_all-mixed :
      (es : List (ℕ × Event))
      → All Admissible es
      → hear_all parse (mixed_messages json es) ≡ some (heard_mixed es)
  unfolding mixed_messages heard_mixed hear_all
  hear_all-mixed [] h = refl
  hear_all-mixed ((m, e) ∷ es) ((small, arrives), rest) =
      hear_all-append parse (mixed_messages json es) (step_messages json m e) _ _
        (hear_all-mixed es rest) (hear_all-step parse json as_f32 m e small arrives)

  -- What the host hears of a healthy pipe.
  abbrev pub hear_pipe : List (ℕ × Event) → Option (List Heard)
  hear_pipe es =
      read_all (suc (length (mixed_messages json es)))
        (reader (deliver_mixed json es (healthy json 0 [])).written none)
      >>= hear_all parse

  -- The threads of any number of sessions deliver their steps in any order, on a healthy pipe: if every
  -- message is below the limit, its text is parsed as the JSON that it stands for, and the numbers of each
  -- frame and the sessions' ids fit their fields, then a host that reads as PROTOCOL.md says hears all of
  -- them, and what it hears that names a session is what that session's own steps should let it hear, in
  -- their order, for every session.
  pub deliver_mixed-heard :
      (es : List (ℕ × Event))
      → All Fits (mixed_messages json es)
      → All Admissible es
      → (xs : List Heard) × (hear_pipe es ≡ some xs)
        × ((n : ℕ) → addressed n xs ≡ heard n (of_session n es))
  deliver_mixed-heard es fits arrive = (
    heard_mixed es,
    ap
          (λ s.
            read_all (suc (length (mixed_messages json es))) (reader s.written none)
            >>= hear_all parse)
          (deliver_mixed-raw_all json es 0 fits)
        ∙ ap (λ r. r >>= hear_all parse) (read_all-raw_all (mixed_messages json es) fits)
        ∙ hear_all-mixed es arrive,
    λ n. addressed-heard_mixed n es,
  )
