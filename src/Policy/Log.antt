-- ===== src/Policy/Log.antt =====
-- The table `logs`: its entries, the texts of their messages, and the two queries on them.
pub mod Queries
pub mod Tests
use mini_internet_extention.Prelude.{
  ℕ, String, Bool, true, false, ◌&&◌, Option, none, some, List, [], ◌∷◌, ◌++◌, map, if◌then◌else◌,
  ◌==◌, Eq_nat, Eq_text, Text, codes, str, filter, distinct, join,
}
use mini_internet_extention.Policy.Config.{Role, customer, provider, peer}
use mini_internet_extention.Policy.Relations.{Relationship}

-- `simple level` is the level with "-SIMPLE" behind it.
pub data Level : Type 0 where
  error non_local as_path exp ebgp_ip_leak ixp_ip_leak : Level
  simple : Level → Level

-- One constructor for each format string of the analysis, with what is put in.
pub data Message : Type 0 where
  internal_route : ℕ → Text → Text → Message
  ebgp_leak ixp_leak unexpected_prefix : Text → ℕ → Message
  no_known_link : Text → Text → Text → Text → Message
  should_not_export : Text → Text → Relationship → Message
  bad_route : ℕ → Text → Text → Relationship → Text → Text → Message
  missing_announcement : ℕ → ℕ → ℕ → Message
  bestpath_unchecked : ℕ → Text → Message
  better_route : ℕ → ℕ → Text → Relationship → Relationship → ℕ → Message
  nexthop_mismatch : ℕ → Text → Text → Text → Message
  leaks_to_customer leaks_to_provider : Text → Message
  ixp_peer_route : ℕ → Text → Text → Message

-- `asnr` is an INTEGER column, so it holds the number also where a text of digits is inserted.
pub record Entry : Type 0 where
  pub level : Level
  pub asnr : Option ℕ
  pub message : Message

abbrev pub log_nr : Level → ℕ → Message → Entry
log_nr level nr message = record { level = level; asnr = some nr; message = message }

abbrev pub log : Level → Message → Entry
log level message = record { level = level; asnr = none; message = message }

level_text : Level → Text
level_text error = codes "ERROR"
level_text non_local = codes "NON-LOCAL"
level_text as_path = codes "AS-PATH"
level_text exp = codes "EXP"
level_text ebgp_ip_leak = codes "EBGP-IP-LEAK"
level_text ixp_ip_leak = codes "IXP-IP-LEAK"
level_text (simple l) = level_text l ++ codes "-SIMPLE"

role_text : Role → Text
role_text customer = codes "Customer"
role_text provider = codes "Provider"
role_text peer = codes "Peer"

relationship_text : Relationship → Text
unfolding role_text
relationship_text r = role_text r.from ++ b'-' ∷ role_text r.to

-- The texts of a list, one after the other.
abbrev concat : List Text → Text
concat [] = []
concat (t ∷ ts) = t ++ concat ts

pub prefix_of : ℕ → Text
prefix_of asn = str asn ++ codes ".0.0.0/8"

pub message_text : Message → Text
unfolding relationship_text prefix_of
message_text (internal_route number prefix path) =
    concat (codes "AS " ∷ str number ∷ codes " goes to " ∷ prefix ∷ codes " via AS " ∷ path ∷ [])
message_text (ebgp_leak prefix number) =
    concat (codes "eBGP IP prefix " ∷ prefix ∷ codes " found at AS " ∷ str number ∷ [])
message_text (ixp_leak prefix number) =
    concat (codes "IXP IP prefix " ∷ prefix ∷ codes " found at AS " ∷ str number ∷ [])
message_text (unexpected_prefix prefix number) =
    concat (codes "encountered unexpected prefix " ∷ prefix ∷ codes " at AS " ∷ str number ∷ [])
message_text (no_known_link prefix path f t) = concat (
    codes "route to "
    ∷ prefix
    ∷ codes " via path "
    ∷ path
    ∷ codes ": No known link between "
    ∷ f
    ∷ codes " and "
    ∷ t
    ∷ [])
message_text (should_not_export prefix from_as link) = concat (
    codes "You should not export "
    ∷ prefix
    ∷ codes " to AS "
    ∷ from_as
    ∷ codes " (because it is a "
    ∷ relationship_text link
    ∷ codes " link)"
    ∷ [])
message_text (bad_route number prefix path link f t) = concat (
    codes "AS "
    ∷ str number
    ∷ codes " has route to "
    ∷ prefix
    ∷ codes " with path "
    ∷ path
    ∷ codes " contains "
    ∷ relationship_text link
    ∷ codes " link "
    ∷ f
    ∷ codes " to "
    ∷ t
    ∷ [])
message_text (missing_announcement number asn via) = concat (
    codes "AS "
    ∷ str number
    ∷ codes " should have an announcement for "
    ∷ prefix_of asn
    ∷ codes " from AS "
    ∷ str via
    ∷ [])
message_text (bestpath_unchecked number prefix) = concat (
    codes "Not checking bestpath from "
    ∷ str number
    ∷ codes " to "
    ∷ prefix
    ∷ codes " due to bad AS path"
    ∷ [])
message_text (better_route number nextas prefix relationship better via) = concat (
    codes "AS "
    ∷ str number
    ∷ codes " is using "
    ∷ str nextas
    ∷ codes " to reach prefix "
    ∷ prefix
    ∷ codes " via a "
    ∷ relationship_text relationship
    ∷ codes " relationship although there is a "
    ∷ relationship_text better
    ∷ codes " route via "
    ∷ str via
    ∷ [])
message_text (nexthop_mismatch asnumber prefix path nexthop) = concat (
    codes "AS "
    ∷ str asnumber
    ∷ codes " receives a route to "
    ∷ prefix
    ∷ codes " with path "
    ∷ path
    ∷ codes " and nexthop "
    ∷ nexthop
    ∷ codes " (expected the last octet of the nexthop to be idential to the first AS path entry)"
    ∷ [])
message_text (leaks_to_customer prefix) =
    concat (codes "You advertise a route to " ∷ prefix ∷ codes " via an IXP to a customer" ∷ [])
message_text (leaks_to_provider prefix) =
    concat (codes "You advertise a route to " ∷ prefix ∷ codes " via an IXP to a provider" ∷ [])
message_text (ixp_peer_route asnumber prefix nextas) = concat (
    codes "AS "
    ∷ str asnumber
    ∷ codes " receives route to "
    ∷ prefix
    ∷ codes " as a peer route from AS "
    ∷ nextas
    ∷ codes " via an IXP"
    ∷ [])

as_text : Option ℕ → Text
as_text none = []
as_text (some nr) = concat (codes "AS " ∷ str nr ∷ codes ": " ∷ [])

unfoldable pub entry_text : Entry → Text
unfolding level_text as_text message_text
entry_text e =
    concat (level_text e.level ∷ codes ": " ∷ as_text e.asnr ∷ message_text e.message ∷ [])

unfoldable pub get_log : List Entry → List Text
get_log logs = distinct (map entry_text logs)

abbrev pub is_error_simple : Level → Bool
is_error_simple (simple error) = true
is_error_simple _ = false

abbrev pub is_for : ℕ → Option ℕ → Bool
is_for asn none = false
is_for asn (some nr) = nr == asn

-- WHERE level = 'ERROR-SIMPLE' AND asnr = ?
abbrev pub is_simple_for : ℕ → Entry → Bool
is_simple_for asn e = is_error_simple e.level && is_for asn e.asnr

unfoldable pub get_simple_as_log : List Entry → ℕ → List Text
get_simple_as_log logs asn =
    distinct (map (λ e. message_text e.message) (filter (is_simple_for asn) logs))
