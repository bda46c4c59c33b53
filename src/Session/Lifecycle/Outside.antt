-- ===== src/Session/Lifecycle/Outside.antt =====
-- Steps outside the log: the world, other threads, and computations that do not panic.
use tempest_addon_moonlight.Base.{
  ℕ, ◌≡◌, refl, ◌∙◌, inl, inr, List, [], ◌∷◌, Text, Result, ok, err, Fail, error, panic,
  Option-cases, Bool-cases,
}
use tempest_addon_moonlight.Identity.{MoonlightIdentity}
use tempest_addon_moonlight.Nvhttp.Net.{Net, Reply, send_failed, read_failed, body, M, next}
use tempest_addon_moonlight.Nvhttp.Requests.{
  checked, bundle, https_client, https_get, new_uuid, cancel,
}
use tempest_addon_moonlight.Nvhttp.Xml.{is_status_200}
use tempest_addon_moonlight.Session.State.{
  Async, stop_set, submit, setup, terminate, other_start, other_stop, State, Deps, apply_async,
  apply_all, outside,
}
use tempest_addon_moonlight.Session.Engine.{observe}
use tempest_addon_moonlight.Session.Lifecycle.{Phase, phase_of, idle, After, done, failed_with, In}

module _ {W : Type 0} where
  apply_async-log : (a : Async) (s : State W) → (apply_async a s).log ≡ s.log
  unfolding apply_async
  apply_async-log stop_set s = refl
  apply_async-log (submit du) s = refl
  apply_async-log (setup f) s = refl
  apply_async-log terminate s = refl
  apply_async-log other_start s = refl
  apply_async-log other_stop s = refl

  pub apply_all-log : (as' : List Async) (s : State W) → (apply_all as' s).log ≡ s.log
  unfolding apply_all
  apply_all-log [] s = refl
  apply_all-log (a ∷ as') s = apply_all-log as' (apply_async a s) ∙ apply_async-log a s

  -- A bind: what holds after the first part is what the second may rely on.
  pub next-After :
      {A B : Type 0} {Q : A → Phase → Type 0} {R : B → Phase → Type 0} {p : State W × Result Fail A}
      {k : A → State W → State W × Result Fail B}
      → After Q p
      → ((a : A) (s : State W) → Q a (phase_of s.log) → After R (k a s))
      → After R (next p k)
  next-After {p = (s, r)} (done a e h) f = rw (e, next) (f a s h)
  next-After {p = (s, r)} (failed_with x e h) f = rw (e, next) (failed_with x refl h)

  idle-After :
      {A : Type 0} (s : State W) (r : Result Fail A)
      → phase_of s.log ≡ idle
      → After (In idle) (s, r)
  idle-After s (ok a) h = done a refl h
  idle-After s (err (error t)) h = failed_with (error t) refl (inl h)
  idle-After s (err (panic t)) h = failed_with (panic t) refl (inl h)

  -- What happens outside leaves the phase, whatever comes of it.
  pub outside-After :
      {A : Type 0} (m : M W A) (s : State W) → phase_of s.log ≡ idle → After (In idle) (outside m s)
  unfolding outside
  outside-After m s h = idle-After (record s { world = (m s.world).0 }) (m s.world).1 h

  pub phase-outside :
      {A : Type 0} (m : M W A) (s : State W) → phase_of (outside m s).0.log ≡ phase_of s.log
  unfolding outside
  phase-outside m s = refl

-- No panic.
pub data IsCalm {A : Type 0} (r : Result Fail A) : Type 0 where
  calm_ok : (a : A) → r ≡ ok a → IsCalm r
  calm_error : (t : Text) → r ≡ err (error t) → IsCalm r

module _ {W : Type 0} where
  next-IsCalm :
      {A B : Type 0} (p : W × Result Fail A) (k : A → W → W × Result Fail B)
      → IsCalm p.1
      → ((a : A) (w : W) → IsCalm (k a w).1)
      → IsCalm (next p k).1
  next-IsCalm (w, r) k (calm_ok a e) f = rw (e, next) (f a w)
  next-IsCalm (w, r) k (calm_error t e) f = rw (e, next) (calm_error t refl)

  checked-IsCalm : (name refused : Text) (p : W × Reply) → IsCalm (checked name refused p).1
  unfolding checked
  checked-IsCalm name refused (w, send_failed e) = calm_error _ refl
  checked-IsCalm name refused (w, read_failed e) = calm_error _ refl
  checked-IsCalm name refused (w, body b) = elim (Bool-cases (is_status_200 b)) [
    | inl e ↦ rw e (calm_ok b refl)
    | inr e ↦ rw e (calm_error _ refl)
  ]

module _ {W : Type 0} (net : Net W) where
  https_client-IsCalm : (id : MoonlightIdentity) → IsCalm (https_client net id)
  unfolding https_client
  https_client-IsCalm id = elim (Option-cases (net.bad_identity (bundle id))) [
    | inr (t, e) ↦ rw (e, https_client) (calm_error _ refl)
    | inl e ↦ elim (Option-cases (net.bad_build (bundle id))) [
      | inr (t, e') ↦ rw (e, e', https_client) (calm_error _ refl)
      | inl e' ↦ rw (e, e', https_client) (calm_ok _ refl)
    ]
  ]

  pub cancel-IsCalm :
      (id : MoonlightIdentity) (host : Text) (port : ℕ) (w : W)
      → IsCalm (cancel net id host port w).1
  unfolding cancel https_get
  cancel-IsCalm id host port w =
      next-IsCalm (new_uuid net w) _ (unfold new_uuid in calm_ok _ refl) (λ uuid w1.
        next-IsCalm _ _
          (next-IsCalm (w1, https_client net id) _ (https_client-IsCalm id)
            (λ c w2. checked-IsCalm _ _ _))
          (λ b w2. calm_ok _ refl))

module _ {W Cert Key : Type 0} (d : Deps W Cert Key) where
  pub phase-observe : (s : State W) → phase_of (observe d s).log ≡ phase_of s.log
  unfolding observe
  phase-observe s = rw (apply_all-log (d.tick s.world).1 _)
