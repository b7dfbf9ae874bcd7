-- ===== src/Portal/Settings/Tests.antt =====
-- All settings off but one.
use mini_internet_extention.Prelude.{
  ◌≡◌, refl, [], ◌∷◌, map, Text, codes, ◌==◌, Eq_text, if◌then◌else◌,
}
use mini_internet_extention.Portal.Settings.{Setting, setting_names, config_general}

abbrev setting : Text → Text → Setting
setting name value = record { name = name; value = value }

one_on :
    config_general
      (codes "enable_Connections" ∷ [])
      (map (λ n. setting n (codes "1")) setting_names)
    ≡ map
        (λ n. setting n (if n == codes "enable_Connections" then codes "1" else codes "0"))
        setting_names
unfolding config_general
one_on = refl

row_missing :
    config_general [] (setting (codes "other") (codes "1") ∷ [])
    ≡ setting (codes "other") (codes "1") ∷ []
unfolding config_general
row_missing = refl
