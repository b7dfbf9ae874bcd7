-- ===== src/Policy/Config/Tests.antt =====
-- Loading a configuration of two ASes.
use mini_internet_extention.Prelude.{ℕ, String, ◌≡◌, refl, List, [], ◌∷◌, some, ok, length}
use mini_internet_extention.Policy.Config.{
  customer, provider, plain, Side, Config, insert_ases, as_type_of, role_of, load_config,
}
use mini_internet_extention.Policy.Config.WellFormed.{IsWellFormed, load_config-IsWellFormed}

abbrev two_ases : List (ℕ × String)
two_ases = (1, "AS") ∷ (2, "AS") ∷ []

abbrev side : ℕ → String → Side
side asn role = record { asn = asn; router = some "ZURI"; role = role }

abbrev loaded : Config
loaded = record {
  as_config = (1, plain) ∷ (2, plain) ∷ [];
  links =
      record {
        f_as = 1;
        f_loc = some "ZURI";
        f_role = customer;
        t_as = 2;
        t_loc = some "ZURI";
        t_role = provider;
      }
      ∷ [];
}

load_two : load_config two_ases ((side 1 "Customer", side 2 "Provider") ∷ []) ≡ ok loaded
unfolding load_config
load_two = refl

insert_two : insert_ases two_ases ≡ ok ((1, plain) ∷ (2, plain) ∷ [])
unfolding insert_ases as_type_of
insert_two = refl

is_provider : role_of "Provider" ≡ some provider
unfolding role_of
is_provider = refl

load_config-IsWellFormed_example : IsWellFormed loaded × (length loaded.links ≡ 1)
load_config-IsWellFormed_example =
    load_config-IsWellFormed two_ases ((side 1 "Customer", side 2 "Provider") ∷ []) loaded load_two
