-- ===== src/Log.antt =====
-- The log of crates/moonlight-core/src/lib.rs: `tlog!` and `stage_name`. Standard error is a pipe like the
-- others; the C library's names of the stages are a parameter.
pub mod Lines
use tempest_addon_moonlight.Base.{
  ℕ, zero, suc, Option, none, some, List, [], ◌∷◌, ◌++◌, Text, bytes, ℤ,
}
use tempest_addon_moonlight.Proto.Framing.{Sink, write_all}

unfoldable pub level_name : ℕ → Text
level_name zero = bytes "DEBUG"
level_name (suc zero) = bytes "INFO"
level_name (suc (suc zero)) = bytes "WARN"
level_name _ = bytes "ERROR"

abbrev pub newline : ℕ
newline = 10

-- `tlog!`: a write that fails is ignored.
unfoldable pub tlog : ℕ → Text → Sink → Sink
unfolding level_name
tlog level msg s = (write_all s (level_name level ++ (b' ' ∷ (msg ++ (newline ∷ []))))).0

-- `stage_name`: a null pointer is the empty name.
unfoldable pub stage_name : (ℤ → Option Text) → (Text → Text) → ℤ → Text
stage_name li_get_stage_name lossy stage = elim (li_get_stage_name stage) [
  | none ↦ []
  | some name ↦ lossy name
]
