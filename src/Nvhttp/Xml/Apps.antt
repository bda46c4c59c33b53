-- ===== src/Nvhttp/Xml/Apps.antt =====
-- The list of apps of a host, as XML, and what `parse_app_list` of crates/moonlight-core/src/nvhttp.rs reads
-- of it.
use tempest_addon_moonlight.Base.{
  ℕ, zero, suc, ◌≤◌, ◌<◌, ◌≡◌, refl, sym, ap, ◌∙◌, true, some, List, [], ◌∷◌, ◌++◌, append_assoc,
  append-nil, arith, Text, bytes, decimal, All, All-map, length, length-append,
}
use tempest_addon_moonlight.Str.{starts_with}
use tempest_addon_moonlight.Str.Trim.{IsVisible, trim-visible}
use tempest_addon_moonlight.Str.Number.{parse_uint-decimal, decimal-IsDigit}
use tempest_addon_moonlight.Nvhttp.Xml.{
  HostApp, u32_max, open_tag, close_tag, xml_tag, split_loop, split, skip_one, filter_apps,
  parse_app, parse_app_list,
}
use tempest_addon_moonlight.Nvhttp.Xml.Clear.{
  decimal-IsFlat, clear, clear-append, IsFlat, clear-IsFlat, found, split_first, split_last,
  assoc_five,
}

-- An app that the document can hold: its id is a `u32`, and its title begins no element.
pub record IsApp (a : HostApp) : Type 0 where
  pub id : a.id ≤ u32_max
  pub title : IsFlat a.title

module _ (gap : Text) where
  -- What stands in an `<App>` in front of the number of its id, and all of it, with what follows.
  abbrev titled : HostApp → Text
  titled a =
      gap ++ (open_tag (bytes "AppTitle") ++ (a.title ++ (close_tag (bytes "AppTitle") ++ gap)))

  abbrev ending : Text → Text
  ending z = gap ++ (close_tag (bytes "App") ++ (gap ++ z))

  abbrev numbered : HostApp → Text → Text
  numbered a z = open_tag (bytes "ID") ++ (decimal a.id ++ (close_tag (bytes "ID") ++ ending z))

  chunk : HostApp → Text → Text
  chunk a z = titled a ++ numbered a z

  -- The apps, one element each, and the end of the document.
  render_all : List HostApp → Text
  unfolding chunk
  render_all [] = bytes "</root>"
  render_all (a ∷ as') = open_tag (bytes "App") ++ chunk a (render_all as')

  pub document : List HostApp → Text
  unfolding render_all
  document apps = bytes "<root status_code=\"200\">" ++ (gap ++ render_all apps)

  module _ (flat : IsFlat gap) where
    clear-titled :
        (p : Text) (a : HostApp) (s : Text)
        → IsFlat a.title
        → ((s' : Text) → clear (b'<' ∷ p) (open_tag (bytes "AppTitle")) s' ≡ true)
        → ((s' : Text) → clear (b'<' ∷ p) (close_tag (bytes "AppTitle")) s' ≡ true)
        → clear (b'<' ∷ p) (titled a) s ≡ true
    clear-titled p a s h opens closes =
        let pat = b'<' ∷ p in
        clear-append pat gap _ s (clear-IsFlat p gap _ flat) (
          clear-append pat (open_tag (bytes "AppTitle")) _ s (opens _) (
            clear-append pat a.title _ s (clear-IsFlat p a.title _ h) (
              clear-append pat (close_tag (bytes "AppTitle")) gap s (closes _)
                (clear-IsFlat p gap s flat))))

    title_of :
        (a : HostApp) (z : Text)
        → IsFlat a.title
        → xml_tag (chunk a z) (bytes "AppTitle") ≡ some a.title
    unfolding chunk
    title_of a z h =
        ap (λ x. xml_tag x (bytes "AppTitle"))
          (assoc_five gap (open_tag (bytes "AppTitle")) a.title (close_tag (bytes "AppTitle")) gap
            (numbered a z))
        ∙ found (bytes "AppTitle") gap a.title (gap ++ numbered a z)
            (clear-IsFlat (bytes "AppTitle" ++ (b'>' ∷ [])) gap
              (open_tag (bytes "AppTitle")
                ++ (a.title ++ (close_tag (bytes "AppTitle") ++ (gap ++ numbered a z))))
              flat)
            (clear-IsFlat (b'/' ∷ (bytes "AppTitle" ++ (b'>' ∷ []))) a.title
              (close_tag (bytes "AppTitle") ++ (gap ++ numbered a z)) h)

    id_of :
        (a : HostApp) (z : Text)
        → IsFlat a.title
        → xml_tag (chunk a z) (bytes "ID") ≡ some (decimal a.id)
    unfolding chunk clear starts_with bytes
    id_of a z h =
        found (bytes "ID") (titled a) (decimal a.id) (ending z)
          (clear-titled (bytes "ID" ++ (b'>' ∷ [])) a (numbered a z) h (λ s'. refl) (λ s'. refl))
          (clear-IsFlat (b'/' ∷ (bytes "ID" ++ (b'>' ∷ []))) (decimal a.id)
            (close_tag (bytes "ID") ++ ending z) (decimal-IsFlat a.id))

    parse_app-chunk : (a : HostApp) (z : Text) → IsApp a → parse_app (chunk a z) ≡ some a
    unfolding parse_app
    parse_app-chunk a z h =
        let visible : All IsVisible (decimal a.id) =
          All-map (λ c h. (omega arith, omega arith)) (decimal a.id) (decimal-IsDigit a.id) in
        rw
          (
            title_of a z h.title,
            id_of a z h.title,
            trim-visible (decimal a.id) visible,
            parse_uint-decimal u32_max a.id h.id,
            parse_app,
          )
          refl

    chunk-append : (a : HostApp) (z : Text) → chunk a z ≡ chunk a [] ++ z
    unfolding chunk
    chunk-append a z = simp (append_assoc, append-nil)

    clear-chunk :
        (a : HostApp) (s : Text) → IsApp a → clear (open_tag (bytes "App")) (chunk a []) s ≡ true
    unfolding chunk clear starts_with bytes
    clear-chunk a s h =
        let pat = open_tag (bytes "App") in
        let p = bytes "App" ++ (b'>' ∷ []) in
        let id = decimal a.id in
        let gap_ending = gap ++ [] in
        clear-append pat (titled a) (numbered a []) s
          (clear-titled p a (numbered a [] ++ s) h.title (λ s'. refl) (λ s'. refl))
          (clear-append pat (open_tag (bytes "ID")) (id ++ (close_tag (bytes "ID") ++ ending [])) s
            refl
            (clear-append pat id (close_tag (bytes "ID") ++ ending []) s
              (clear-IsFlat p id ((close_tag (bytes "ID") ++ ending []) ++ s) (decimal-IsFlat a.id))
              (clear-append pat (close_tag (bytes "ID")) (ending []) s refl (
                clear-append pat gap (close_tag (bytes "App") ++ gap_ending) s
                  (clear-IsFlat p gap ((close_tag (bytes "App") ++ gap_ending) ++ s) flat)
                  (clear-append pat (close_tag (bytes "App")) gap_ending s refl
                    (clear-append pat gap [] s (clear-IsFlat p gap s flat) refl))))))

    last_chunk :
        (a : HostApp)
        → IsApp a
        → clear (open_tag (bytes "App")) (chunk a (bytes "</root>")) [] ≡ true
    unfolding clear starts_with bytes
    last_chunk a h =
        let pat = open_tag (bytes "App") in
        rw (chunk-append a (bytes "</root>")) (
          clear-append pat (chunk a []) (bytes "</root>") []
            (clear-chunk a (bytes "</root>" ++ []) h) refl)

    split_apps :
        (f : ℕ) (a : HostApp) (as' : List HostApp)
        → IsApp a
        → All IsApp as'
        → length as' < f
        → filter_apps (split_loop f (open_tag (bytes "App")) (chunk a (render_all as'))) ≡ a ∷ as'
    unfolding filter_apps render_all
    split_apps zero a as' h hs lt = absurd (omega arith)
    split_apps (suc f) a [] h hs lt =
        rw
          (split_last b'<' (bytes "App" ++ (b'>' ∷ [])) (chunk a (bytes "</root>")) f
            (last_chunk a h))
          (rw (parse_app-chunk a (bytes "</root>") h, filter_apps) refl)
    split_apps (suc f) a (b ∷ as') h (hb, hs) lt =
        let pat = open_tag (bytes "App") in
        let more = chunk b (render_all as') in
        let others = split_apps f b as' hb hs (omega arith) in
        ap (λ t. filter_apps (split_loop (suc f) pat t)) (chunk-append a (pat ++ more))
        ∙ ap filter_apps (split_first pat (chunk a []) more f (clear-chunk a (pat ++ more) h))
        ∙ rw (parse_app-chunk a [] h, others, filter_apps) refl

    length-render_all : (apps : List HostApp) → length apps ≤ length (render_all apps)
    unfolding render_all
    length-render_all [] = omega arith
    length-render_all (a ∷ as') =
        let z = render_all as' in
        let shorter = length-render_all as' in
        let first = length-append (open_tag (bytes "App")) (chunk a z) in
        let second = ap length (chunk-append a z) ∙ length-append (chunk a []) z in
        omega (arith, shorter, first, second, length-append (bytes "App") (b'>' ∷ []))

    abbrev opening : Text
    opening = bytes "<root status_code=\"200\">"

    length-document : (apps : List HostApp) → length (render_all apps) ≤ length (document apps)
    unfolding document
    length-document apps =
        let r = render_all apps in
        omega (arith, length-append opening (gap ++ r), length-append gap r)

    -- The text in front of the apps is dropped.
    split_document :
        (a : HostApp) (as' : List HostApp) (f : ℕ)
        → skip_one (split_loop (suc f) (open_tag (bytes "App")) (document (a ∷ as')))
          ≡ split_loop f (open_tag (bytes "App")) (chunk a (render_all as'))
    unfolding document render_all clear starts_with bytes skip_one
    split_document a as' f =
        let pat = open_tag (bytes "App") in
        let more = chunk a (render_all as') in
        ap (λ t. skip_one (split_loop (suc f) pat t)) (sym (append_assoc opening gap (pat ++ more)))
        ∙ ap skip_one (
            split_first pat (opening ++ gap) more f (
              clear-append pat opening gap (pat ++ more) refl
                (clear-IsFlat (bytes "App" ++ (b'>' ∷ [])) gap (pat ++ more) flat)))

    no_apps : (f : ℕ) → skip_one (split_loop (suc f) (open_tag (bytes "App")) (document [])) ≡ []
    unfolding document render_all clear starts_with bytes skip_one
    no_apps f =
        let p = bytes "App" ++ (b'>' ∷ []) in
        let pat = open_tag (bytes "App") in
        ap skip_one (
          split_last b'<' p (document []) f (
            clear-append pat opening (gap ++ bytes "</root>") [] refl (
              clear-append pat gap (bytes "</root>") []
                (clear-IsFlat p gap (bytes "</root>" ++ []) flat) refl)))

    -- A list of apps whose ids are `u32`s and whose titles begin no element, written as a host writes it, with
    -- any text that begins no element between the elements, is read as exactly these apps in their order.
    pub parse_app_list-document :
        (apps : List HostApp) → All IsApp apps → parse_app_list (document apps) ≡ apps
    unfolding parse_app_list split filter_apps bytes
    parse_app_list-document [] h = ap filter_apps (no_apps (length (document [])))
    parse_app_list-document (a ∷ as') (h, hs) =
        let enough : length as' < length (document (a ∷ as')) =
          omega (arith, length-render_all (a ∷ as'), length-document (a ∷ as')) in
        ap filter_apps (split_document a as' (length (document (a ∷ as'))))
        ∙ split_apps (length (document (a ∷ as'))) a as' h hs enough
