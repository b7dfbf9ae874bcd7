-- ===== src/Policy/Log/Tests.antt =====
-- A log with one message for AS 2, twice.
use mini_internet_extention.Prelude.{◌≡◌, refl, List, [], ◌∷◌, Eq_text, codes, distinct}
use mini_internet_extention.Policy.Log.{
  error, non_local, simple, Entry, log_nr, leaks_to_provider, message_text, get_simple_as_log,
}

abbrev logged : List Entry
logged =
    log_nr (simple error) 2 (leaks_to_provider (codes "5.0.0.0/8"))
    ∷ log_nr (simple non_local) 2 (leaks_to_provider (codes "6.0.0.0/8"))
    ∷ log_nr (simple error) 3 (leaks_to_provider (codes "7.0.0.0/8"))
    ∷ log_nr (simple error) 2 (leaks_to_provider (codes "5.0.0.0/8"))
    ∷ []

once : get_simple_as_log logged 2 ≡ message_text (leaks_to_provider (codes "5.0.0.0/8")) ∷ []
unfolding get_simple_as_log message_text distinct
once = refl
