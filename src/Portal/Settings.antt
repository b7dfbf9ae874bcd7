-- ===== src/Portal/Settings.antt =====
-- `config_general` of the admin server: the POST sets the six rows of the table settings.
pub mod Tests
use mini_internet_extention.Prelude.{
  Bool, Option, none, some, List, [], ◌∷◌, if◌then◌else◌, ◌==◌, Eq_text, elem, Text, codes,
}

pub record Setting : Type 0 where
  pub name : Text
  pub value : Text

-- `query(Settings).filter(Settings.name==name).first()` with its new value; `none` if it is None,
-- whose attribute is set.
set_value : Text → Text → List Setting → Option (List Setting)
set_value name value [] = none
set_value name value (s ∷ ss) =
    let rest = set_value name value ss in
    if s.name == name
    then some (record s { value = value } ∷ ss)
    else elim rest [ none ↦ none | some more ↦ some (s ∷ more) ]

-- `1 if name in form_args else 0`, as the text that the column holds
abbrev flag : Text → List Text → Text
flag name form_args = if elem name form_args then codes "1" else codes "0"

set_values : List Text → List Text → List Setting → Option (List Setting)
unfolding set_value
set_values [] form_args settings = some settings
set_values (name ∷ names) form_args settings =
    elim (set_value name (flag name form_args) settings) [
      | none ↦ none
      | some changed ↦ set_values names form_args changed
    ]

abbrev pub setting_names : List Text
setting_names =
    codes "enable_GaoRexford"
    ∷ codes "allow_InactiveASLogin"
    ∷ codes "enable_LookingGlass"
    ∷ codes "enable_Connections"
    ∷ codes "enable_ChangePassword"
    ∷ codes "enable_Rendezvous"
    ∷ []

-- With a row missing the changes are rolled back.
unfoldable pub config_general : List Text → List Setting → List Setting
unfolding set_values
config_general form_args settings = elim (set_values setting_names form_args settings) [
  | none ↦ settings
  | some changed ↦ changed
]
