-- ===== src/Banner/Fields.antt =====
-- What `parse_banner` changes and what it leaves alone.
use stm32f429_adbd.Common.{ℕ, ◌≡◌, refl, ◌∙◌, List, [], ◌∷◌, arith}
use stm32f429_adbd.Engine.{Transport}
use stm32f429_adbd.Banner.{set_property, set_properties, parse_banner}

online-set_properties :
    (ps : List (List ℕ)) (t : Transport) → (set_properties ps t).online ≡ t.online
unfolding set_properties
online-set_properties [] t = refl
online-set_properties (p ∷ ps) t = online-set_properties ps (set_property p t) ∙ kept
  where
    kept : (set_property p t).online ≡ t.online
    kept = ground arith

-- A banner does not bring a transport online.
pub online-parse_banner :
    (banner : List ℕ) (t : Transport) → (parse_banner banner t).online ≡ t.online
unfolding parse_banner
online-parse_banner banner t = grind (arith, online-set_properties)

disconnects-set_properties :
    (ps : List (List ℕ)) (t : Transport) → (set_properties ps t).disconnects ≡ t.disconnects
unfolding set_properties
disconnects-set_properties [] t = refl
disconnects-set_properties (p ∷ ps) t = disconnects-set_properties ps (set_property p t) ∙ kept
  where
    kept : (set_property p t).disconnects ≡ t.disconnects
    kept = ground arith

-- Nor does it change the callbacks that are linked to it.
pub disconnects-parse_banner :
    (banner : List ℕ) (t : Transport) → (parse_banner banner t).disconnects ≡ t.disconnects
unfolding parse_banner
disconnects-parse_banner banner t = grind (arith, disconnects-set_properties)
