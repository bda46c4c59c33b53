-- ===== src/Nvhttp/Xml/Tags.antt =====
-- `xml_tag` against its meaning: the text between the first opening tag and the next closing one.
use tempest_addon_moonlight.Base.{
  ℕ, zero, suc, ◌+◌, ◌-◌, ◌<◌, ◌≡◌, refl, sym, ap, ◌∙◌, ◌↔◌, inl, inr, false, some, [], ◌∷◌, ◌++◌,
  arith, Text, Option-cases, length, take, drop, take-append_length, drop-append_length,
}
use tempest_addon_moonlight.Str.{find, starts_with}
use tempest_addon_moonlight.Str.Find.{find_sound, find_first, find_complete}
use tempest_addon_moonlight.Nvhttp.Xml.{between, xml_tag, open_tag, close_tag, slice}

-- `pat` does not begin inside `pre` where `pre ++ post` is the text.
abbrev pub NotBefore : Text → Text → Text → Type 0
NotBefore pat pre post = (j : ℕ) → j < length pre → starts_with pat (drop j (pre ++ post)) ≡ false

drop-add : (i n : ℕ) (s : Text) → drop (i + n) s ≡ drop n (drop i s)
drop-add zero n s = let e : 0 + n ≡ n = omega arith in rw e
drop-add (suc i) zero [] = let e : suc i + 0 ≡ suc i = omega arith in rw e
drop-add (suc i) (suc n) [] = let e : suc i + suc n ≡ suc (i + suc n) = omega arith in rw e
drop-add (suc i) n (c ∷ s) = let e : suc i + n ≡ suc (i + n) = omega arith in rw e (drop-add i n s)

slice_length : (s : Text) (from j : ℕ) → slice s from (j + from) ≡ take j (drop from s)
slice_length s from j = let e : j + from - from ≡ j = omega arith in rw e

between_complete :
    (open' close' pre v post : Text)
    → NotBefore open' pre (open' ++ (v ++ (close' ++ post)))
    → NotBefore close' v (close' ++ post)
    → between open' close' (pre ++ (open' ++ (v ++ (close' ++ post)))) ≡ some v
unfolding between
between_complete open' close' pre v post h k =
    rw (find_complete open' pre (v ++ (close' ++ post)) h, between)
      (rw behind (
        rw (find_complete close' v post k) (
          ap some (
            slice_length _ (length pre + length open') (length v)
            ∙ rw behind (take-append_length (length v) v (close' ++ post) refl)))))
  where
    behind :
        drop (length pre + length open') (pre ++ (open' ++ (v ++ (close' ++ post))))
        ≡ v ++ (close' ++ post)
    behind =
        drop-add (length pre) (length open') _
        ∙ ap (drop (length open')) (drop-append_length (length pre) pre _ refl)
        ∙ drop-append_length (length open') open' _ refl

-- An element whose opening tag and whose closing tag are the first is found, whatever it holds.
xml_tag_complete :
    (tag pre v post : Text)
    → NotBefore (open_tag tag) pre (open_tag tag ++ (v ++ (close_tag tag ++ post)))
    → NotBefore (close_tag tag) v (close_tag tag ++ post)
    → xml_tag (pre ++ (open_tag tag ++ (v ++ (close_tag tag ++ post)))) tag ≡ some v
unfolding xml_tag
xml_tag_complete tag pre v post h k = between_complete (open_tag tag) (close_tag tag) pre v post h k

abbrev pub IsBetween : Text → Text → Text → Text → Type 0
IsBetween open' close' xml v =
    (pre : Text) × (post : Text) × (xml ≡ pre ++ (open' ++ (v ++ (close' ++ post))))
    × NotBefore open' pre (open' ++ (v ++ (close' ++ post)))
    × NotBefore close' v (close' ++ post)

at_occurrence :
    (pat s : Text) (i : ℕ)
    → find pat s ≡ some i
    → (s ≡ take i s ++ (pat ++ drop (length pat) (drop i s)))
      × NotBefore pat (take i s) (pat ++ drop (length pat) (drop i s))
at_occurrence pat s i e =
    let (same, len) = find_sound pat s i e in
    (same, λ j h. rw (← same) (find_first pat s i j e (omega arith)))

between_sound :
    (open' close' xml v : Text) → between open' close' xml ≡ some v → IsBetween open' close' xml v
unfolding between
between_sound open' close' xml v h = elim (Option-cases (find open' xml)) [
  | inl e ↦ absurd (ground arith)
  | inr (i, e) ↦ second i e (drop (length open') (drop i xml)) refl
]
  where
    found :
        (i : ℕ)
        → find open' xml ≡ some i
        → (r : Text) → drop (length open') (drop i xml) ≡ r
        → (j : ℕ) → find close' r ≡ some j
        → v ≡ take j r
        → IsBetween open' close' xml v
    found i e r er j e' ev =
        let (same, before) = at_occurrence open' xml i e in
        let (same', before') = at_occurrence close' r j e' in
        let tail = drop (length close') (drop j r) in
        let whole : v ++ (close' ++ tail) ≡ r = rw ev (sym same') in
        (take i xml, tail, rw (whole, ← er) same, rw (whole, ← er) before, rw ev before')

    second :
        (i : ℕ)
        → find open' xml ≡ some i
        → (r : Text) → drop (length open') (drop i xml) ≡ r
        → IsBetween open' close' xml v
    second i e r er = elim (Option-cases (find close' r)) [
      | inl e' ↦ absurd (ground (arith, drop-add i (length open') xml))
      | inr (j, e') ↦
          found i e r er j e'
            (ground (arith, drop-add i (length open') xml, slice_length xml (i + length open') j))
    ]

-- What is found stands between an opening tag and a closing one, which are the first: no opening tag
-- begins before it, and no closing tag inside it.
xml_tag_sound :
    (xml tag v : Text) → xml_tag xml tag ≡ some v → IsBetween (open_tag tag) (close_tag tag) xml v
unfolding xml_tag
xml_tag_sound xml tag v h = between_sound (open_tag tag) (close_tag tag) xml v h

-- `xml_tag` returns a text exactly when it stands between the first opening tag and the first closing tag
-- after it.
pub xml_tag_iff :
    (xml tag v : Text) → (xml_tag xml tag ≡ some v) ↔ IsBetween (open_tag tag) (close_tag tag) xml v
xml_tag_iff xml tag v = (
  xml_tag_sound xml tag v,
  λ (pre, post, same, before, inside).
      ap (λ x. xml_tag x tag) same ∙ xml_tag_complete tag pre v post before inside,
)
