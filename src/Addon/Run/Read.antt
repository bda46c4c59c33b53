-- ===== src/Addon/Run/Read.antt =====
-- How far `read_control` of crates/moonlight-addon/src/main.rs reads.
use tempest_addon_moonlight.Base.{
  ℕ, zero, suc, ◌<◌, ◌≡◌, refl, Option, none, some, List, ◌∷◌, ◌++◌, length, length-append, take,
  Text, arith, Result, ok, err, Result-cases, Bool-cases, inl, inr, ◌==◌,
}
use tempest_addon_moonlight.Proto.Messages.{HostMsg}
use tempest_addon_moonlight.Proto.Framing.{Reader, read_message, kind_control}
use tempest_addon_moonlight.Proto.Framing.Limits.{read_message-bounds}
use tempest_addon_moonlight.Addon.Run.{Env, read_control, decoded}

abbrev Shrinks : Reader → Result Text (Option HostMsg × Reader) → Type 0
Shrinks r (ok (some m, r')) = length r'.rest < length r.rest
Shrinks r (ok (none, r')) = Unit
Shrinks r (err e) = Unit

behind :
    (bs before payload after : List ℕ) (kind : ℕ)
    → bs ≡ before ++ (kind ∷ (payload ++ after))
    → length after < length bs
behind bs before payload after kind h = rw h (
    rw (length-append before (kind ∷ (payload ++ after)))
      (ground (arith, length-append payload after)))

Shrinks-weaken :
    (r r' : Reader) (x : Result Text (Option HostMsg × Reader))
    → length r'.rest < length r.rest
    → Shrinks r' x
    → Shrinks r x
Shrinks-weaken r r' (ok (some m, r'')) h s = omega arith
Shrinks-weaken r r' (ok (none, r'')) h s = tt
Shrinks-weaken r r' (err e) h s = tt

shorter :
    (r r' : Reader) (kind : ℕ) (payload : List ℕ)
    → read_message r ≡ ok (some (kind, payload), r')
    → length r'.rest < length r.rest
shorter r r' kind payload h =
    let (small, len, same, faults) = read_message-bounds r.rest r.fault kind payload r' h in
    behind r.rest (take 4 r.rest) payload r'.rest kind same

-- What is left after a control message is shorter than before.
read_control-Shrinks :
    (f : ℕ) (env : Env) (r : Reader)
    → length r.rest < f
    → (x : Result Text (Option HostMsg × Reader)) × (read_control f env r ≡ some x) × Shrinks r x
unfolding read_control decoded
read_control-Shrinks zero env r h = absurd (omega arith)
read_control-Shrinks (suc f) env r h = elim (Result-cases (read_message r)) [
  | inr (e, m) ↦ rw (m, read_control) (_, refl, tt)
  | inl ((none, r'), m) ↦ rw (m, read_control) (_, refl, tt)
  | inl ((some (kind, payload), r'), m) ↦ elim (Bool-cases (kind == kind_control)) [
    | inl k ↦ elim (Result-cases (env.from_slice payload)) [
      | inl (msg, j) ↦ rw (m, k, j, read_control) (_, refl, shorter r r' kind payload m)
      | inr (e, j) ↦ rw (m, k, j, read_control) (_, refl, tt)
    ]
    | inr k ↦
        rw (m, k, read_control)
          (let (x, e, s) =
              read_control-Shrinks f env r' (omega (arith, shorter r r' kind payload m)) in
            (x, e, Shrinks-weaken r r' x (shorter r r' kind payload m) s))
  ]
]

-- How a read ends when there are rounds enough for the bytes.
pub data Reads (f : ℕ) (env : Env) (r : Reader) : Type 0 where
  failed : (e : Text) → read_control f env r ≡ some (err e) → Reads f env r
  at_end : (r' : Reader) → read_control f env r ≡ some (ok (none, r')) → Reads f env r
  got :
      (msg : HostMsg) (r' : Reader)
      → read_control f env r ≡ some (ok (some msg, r'))
      → length r'.rest < length r.rest
      → Reads f env r

reads :
    (f : ℕ) (env : Env) (r : Reader) (x : Result Text (Option HostMsg × Reader))
    → read_control f env r ≡ some x
    → Shrinks r x
    → Reads f env r
reads f env r (err e) h s = failed e h
reads f env r (ok (none, r')) h s = at_end r' h
reads f env r (ok (some msg, r')) h s = got msg r' h s

pub read_control-Reads : (f : ℕ) (env : Env) (r : Reader) → length r.rest < f → Reads f env r
read_control-Reads f env r h = let (x, e, s) = read_control-Shrinks f env r h in reads f env r x e s
