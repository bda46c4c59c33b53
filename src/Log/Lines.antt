-- ===== src/Log/Lines.antt =====
-- The log lines of crates/moonlight-core/src/lib.rs as the host reads them: PROTOCOL.md's `LEVEL message`.
use tempest_addon_moonlight.Base.{
  ℕ, zero, suc, min, ◌≡◌, refl, sym, ap, ◌∙◌, Bool, true, false, not, ◌&&◌, Bool-cases, inl, inr,
  Option, none, some, List, [], ◌∷◌, ◌++◌, map, append_assoc, append-nil, All, Text, bytes, ◌==◌,
  if◌then◌else◌, arith,
}
use tempest_addon_moonlight.Proto.Framing.{Sink, healthy, write_all}
use tempest_addon_moonlight.Str.{strip_prefix}
use tempest_addon_moonlight.Log.{level_name, newline, tlog}

-- A byte that does not end a line.
abbrev pub IsInline : ℕ → Type 0
IsInline c = (c == newline) ≡ false

-- The test of a whole text.
unfoldable pub is_inline : Text → Bool
is_inline [] = true
is_inline (c ∷ cs) = not (c == newline) && is_inline cs

pub is_inline-IsInline : (t : Text) → is_inline t ≡ true → All IsInline t
unfolding is_inline
is_inline-IsInline [] h = tt
is_inline-IsInline (c ∷ cs) h = elim (Bool-cases (c == newline)) [
  | inl e ↦ absurd (ground arith)
  | inr e ↦ (e, is_inline-IsInline cs (cc))
]

abbrev put : ℕ → List Text → List Text
put c [] = (c ∷ []) ∷ []
put c (l ∷ ls) = (c ∷ l) ∷ ls

-- The lines of a text, each without its end.
unfoldable pub lines : Text → List Text
lines [] = []
lines (c ∷ cs) = let rest = lines cs in if c == newline then [] ∷ rest else put c rest

lines-append : (l rest : Text) → All IsInline l → lines (l ++ (newline ∷ rest)) ≡ l ∷ lines rest
unfolding lines
lines-append [] rest h = refl
lines-append (c ∷ l) rest (h, hs) = rw (h, lines-append l rest hs) refl

-- The first of these names that a line begins with, by its level.
unfoldable pub first_level : ℕ → List Text → Text → Option (ℕ × Text)
first_level n [] line = none
first_level n (p ∷ ps) line = elim (strip_prefix p line) [
  | some msg ↦ some (n, msg)
  | none ↦ first_level (suc n) ps line
]

unfoldable pub read_line : Text → Option (ℕ × Text)
unfolding first_level
read_line = first_level 0 (bytes "DEBUG " ∷ bytes "INFO " ∷ bytes "WARN " ∷ bytes "ERROR " ∷ [])

unfoldable pub read_log : Text → List (Option (ℕ × Text))
unfolding lines read_line
read_log t = map read_line (lines t)

abbrev record_of : ℕ → Text → Text
record_of level msg = level_name level ++ (b' ' ∷ msg)

read_line-record_of :
    (level : ℕ) (msg : Text) → read_line (record_of level msg) ≡ some (min level 3, msg)
unfolding read_line first_level strip_prefix level_name bytes
read_line-record_of zero msg = refl
read_line-record_of (suc zero) msg = refl
read_line-record_of (suc (suc zero)) msg = refl
read_line-record_of (suc (suc (suc n))) msg =
    let e : min (suc (suc (suc n))) 3 ≡ 3 = omega arith in rw e refl

record_of-IsInline :
    (level : ℕ) (msg : Text) → All IsInline msg → All IsInline (record_of level msg)
unfolding level_name bytes
record_of-IsInline zero msg h = (refl, (refl, (refl, (refl, (refl, (refl, h))))))
record_of-IsInline (suc zero) msg h = (refl, (refl, (refl, (refl, (refl, h)))))
record_of-IsInline (suc (suc zero)) msg h = (refl, (refl, (refl, (refl, (refl, h)))))
record_of-IsInline (suc (suc (suc n))) msg h = (refl, (refl, (refl, (refl, (refl, (refl, h))))))

-- The calls of `tlog!` of all threads, in the order in which they take standard error.
unfoldable pub tlog_all : List (ℕ × Text) → Sink → Sink
tlog_all [] s = s
tlog_all ((level, msg) ∷ ms) s = tlog_all ms (tlog level msg s)

pub tlog_all-append :
    (ms ns : List (ℕ × Text)) (s : Sink) → tlog_all (ms ++ ns) s ≡ tlog_all ns (tlog_all ms s)
unfolding tlog_all
tlog_all-append [] ns s = refl
tlog_all-append ((level, msg) ∷ ms) ns s = tlog_all-append ms ns (tlog level msg s)

unfoldable pub log_text : List (ℕ × Text) → Text
log_text [] = []
log_text ((level, msg) ∷ ms) = record_of level msg ++ (newline ∷ log_text ms)

-- A pipe that nothing breaks holds the records one after another.
pub tlog_all-log_text :
    (ms : List (ℕ × Text)) (w : Text) → tlog_all ms (healthy w) ≡ healthy (w ++ log_text ms)
unfolding tlog_all tlog write_all log_text
tlog_all-log_text [] w = ap healthy (sym (append-nil w))
tlog_all-log_text ((level, msg) ∷ ms) w =
    tlog_all-log_text ms (w ++ (level_name level ++ (b' ' ∷ (msg ++ (newline ∷ [])))))
    ∙ ap healthy (simp append_assoc)

lines-log_text :
    (ms : List (ℕ × Text))
    → All (λ m. All IsInline m.1) ms
    → read_log (log_text ms) ≡ map (λ m. some (min m.0 3, m.1)) ms
unfolding read_log lines log_text
lines-log_text [] h = refl
lines-log_text ((level, msg) ∷ ms) (h, hs) =
    ap (map read_line)
      (lines-append (record_of level msg) (log_text ms) (record_of-IsInline level msg h))
    ∙ (λ i. read_line-record_of level msg i ∷ lines-log_text ms hs i)

-- Whatever the threads log, in whatever order: when no message has a line break in it, a host that reads a
-- healthy standard error line by line, as `LEVEL message`, gets exactly the messages with their levels,
-- those above 3 as 3.
pub read_log-tlog_all :
    (ms : List (ℕ × Text))
    → All (λ m. All IsInline m.1) ms
    → read_log (tlog_all ms (healthy [])).written ≡ map (λ m. some (min m.0 3, m.1)) ms
read_log-tlog_all ms h =
    ap (λ s. read_log s.written) (tlog_all-log_text ms []) ∙ lines-log_text ms h
