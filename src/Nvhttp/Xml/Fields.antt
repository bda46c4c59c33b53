-- ===== src/Nvhttp/Xml/Fields.antt =====
-- A flat reply of a host, element after element, and what `xml_tag` and `parse_server_info` of
-- crates/moonlight-core/src/nvhttp.rs read of it.
use tempest_addon_moonlight.Base.{
  ℕ, ◌≡◌, refl, sym, ap, ◌∙◌, true, false, Bool-cases, inl, inr, Option, none, some, List, [], ◌∷◌,
  ◌++◌, append_assoc, append-nil, arith, Text, bytes, text_eq, text_eq→eq, ◌==◌, if◌then◌else◌, All,
  All-map, All-append,
}
use tempest_addon_moonlight.Str.{starts_with}
use tempest_addon_moonlight.Nvhttp.Xml.{open_tag, close_tag, between, xml_tag}
use tempest_addon_moonlight.Nvhttp.Xml.Clear.{
  clear, clear-append, IsFlat, clear-IsFlat, found, find-none,
}

-- A character of a tag's name.
abbrev pub IsNameChar : ℕ → Type 0
IsNameChar c = ((c == b'<') ≡ false) × ((c == b'>') ≡ false) × ((c == b'/') ≡ false)

abbrev pub IsName : Text → Type 0
IsName t = All IsNameChar t

starts_with_other :
    (a b s : Text)
    → IsName a
    → IsName b
    → text_eq b a ≡ false
    → starts_with (a ++ (b'>' ∷ [])) (b ++ (b'>' ∷ s)) ≡ false
unfolding starts_with text_eq
starts_with_other [] [] s h k ne = cc
starts_with_other [] (y ∷ b) s h k ne = let name = k.0.1 in ground arith
starts_with_other (x ∷ a) [] s h k ne = let name = h.0.1 in ground arith
starts_with_other (x ∷ a) (y ∷ b) s h k ne = ground (arith, starts_with_other a b s h.1 k.1)

name_IsFlat : (t : Text) → IsName t → IsFlat (t ++ (b'>' ∷ []))
name_IsFlat t h = All-append _ t (b'>' ∷ []) (All-map (λ c n. n.0) t h) (refl, tt)

-- An opening tag is no part of a closing one.
clear-close_tag :
    (tag t s : Text) → IsName tag → IsName t → clear (open_tag tag) (close_tag t) s ≡ true
unfolding clear starts_with
clear-close_tag [] t s h k =
    clear-IsFlat (b'>' ∷ []) (b'/' ∷ (t ++ (b'>' ∷ []))) s (refl, name_IsFlat t k)
clear-close_tag (c ∷ tag) t s h k =
    let other = h.0.2 in
    let rest =
      clear-IsFlat (c ∷ (tag ++ (b'>' ∷ []))) (b'/' ∷ (t ++ (b'>' ∷ []))) s
        (refl, name_IsFlat t k) in
    rw (other, rest) refl

abbrev element : Text → Text → Text
element t v = open_tag t ++ (v ++ close_tag t)

clear-open_tag :
    (tag t s : Text)
    → IsName tag
    → IsName t
    → text_eq t tag ≡ false
    → clear (open_tag tag) (open_tag t) s ≡ true
unfolding clear starts_with
clear-open_tag tag t s h k ne =
    let first : starts_with (tag ++ (b'>' ∷ [])) ((t ++ (b'>' ∷ [])) ++ s) ≡ false =
      ap (starts_with (tag ++ (b'>' ∷ []))) (append_assoc t (b'>' ∷ []) s)
      ∙ starts_with_other tag t s h k ne in
    let rest = clear-IsFlat (tag ++ (b'>' ∷ [])) (t ++ (b'>' ∷ [])) s (name_IsFlat t k) in
    rw (first, rest) refl

clear-element :
    (tag t v s : Text)
    → IsName tag
    → IsName t
    → IsFlat v
    → text_eq t tag ≡ false
    → clear (open_tag tag) (element t v) s ≡ true
clear-element tag t v s h k flat ne =
    clear-append (open_tag tag) (open_tag t) (v ++ close_tag t) s (clear-open_tag tag t _ h k ne) (
      clear-append (open_tag tag) v (close_tag t) s
        (clear-IsFlat (tag ++ (b'>' ∷ [])) v (close_tag t ++ s) flat) (clear-close_tag tag t s h k))

-- An element's tag and what it holds.
abbrev pub Field : Type 0
Field = Text × Text

pub record IsField (f : Field) : Type 0 where
  pub name : IsName f.0
  pub flat : IsFlat f.1

-- The elements, and the end of the document.
unfoldable pub render : List Field → Text
render [] = close_tag (bytes "root")
render ((t, v) ∷ fs) = open_tag t ++ (v ++ (close_tag t ++ render fs))

-- The first element with a tag.
unfoldable pub field : Text → List Field → Option Text
field tag [] = none
field tag ((t, v) ∷ fs) = let rest = field tag fs in if text_eq t tag then some v else rest

root_IsName : IsName (bytes "root")
unfolding bytes
root_IsName =
    ((refl, refl, refl), ((refl, refl, refl), ((refl, refl, refl), ((refl, refl, refl), tt))))

xml_tag-none :
    (tag pre : Text)
    → IsName tag
    → clear (open_tag tag) pre (close_tag (bytes "root")) ≡ true
    → xml_tag (pre ++ close_tag (bytes "root")) tag ≡ none
unfolding xml_tag between
xml_tag-none tag pre h clean =
    let root = close_tag (bytes "root") in
    let nowhere : clear (open_tag tag) (pre ++ root) [] ≡ true =
      clear-append (open_tag tag) pre root []
        (ap (clear (open_tag tag) pre) (append-nil root) ∙ clean)
        (clear-close_tag tag (bytes "root") [] h root_IsName) in
    rw (find-none b'<' (tag ++ (b'>' ∷ [])) (pre ++ root) nowhere, between) refl

assoc_element :
    (t v r : Text)
    → (open_tag t ++ (v ++ close_tag t)) ++ r ≡ open_tag t ++ (v ++ (close_tag t ++ r))
assoc_element t v r =
    append_assoc (open_tag t) (v ++ close_tag t) r
    ∙ ap (λ q. open_tag t ++ q) (append_assoc v (close_tag t) r)

-- `xml_tag` finds the first element with the tag, wherever it stands in the document.
pub xml_tag-render :
    (tag pre : Text) (fs : List Field)
    → IsName tag
    → All IsField fs
    → clear (open_tag tag) pre (render fs) ≡ true
    → xml_tag (pre ++ render fs) tag ≡ field tag fs
unfolding render field
xml_tag-render tag pre [] h k clean = xml_tag-none tag pre h clean
xml_tag-render tag pre ((t, v) ∷ fs) h (f, k) clean = elim (Bool-cases (text_eq t tag)) [
  | inl same ↦
      let eq : t ≡ tag = text_eq→eq t tag same in
      let here : Text → Text = λ x. open_tag x ++ (v ++ (close_tag x ++ render fs)) in
      rw same (
        ap (λ x. xml_tag (pre ++ here x) tag) eq
        ∙ found tag pre v (render fs) (ap (λ x. clear (open_tag tag) pre (here x)) (sym eq) ∙ clean)
            (clear-IsFlat (b'/' ∷ (tag ++ (b'>' ∷ []))) v (close_tag tag ++ render fs) f.flat))
  | inr other ↦
      let before = pre ++ element t v in
      rw other (
        ap (λ x. xml_tag x tag)
          (ap (λ q. pre ++ q) (sym (assoc_element t v (render fs)))
            ∙ sym (append_assoc pre (element t v) (render fs)))
        ∙ xml_tag-render tag before fs h k (
            clear-append (open_tag tag) pre (element t v) (render fs)
              (ap (clear (open_tag tag) pre) (assoc_element t v (render fs)) ∙ clean)
              (clear-element tag t v (render fs) h f.name f.flat other)))
]
