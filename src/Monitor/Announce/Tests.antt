-- ===== src/Monitor/Announce/Tests.antt =====
-- Two prefixes announced over AS 3, with a path and without one, as ExaBGP writes them.
use mini_internet_extention.Prelude.{◌≡◌, refl, List, [], ◌∷◌, some, none, Text, codes, str, String}
use mini_internet_extention.Monitor.Values.{
  Json, Items, text, number, list, dict, no_items, item, no_fields, field,
}
use mini_internet_extention.Monitor.{message_parser, main_loop}
use mini_internet_extention.Monitor.Announce.{one, nlris}

abbrev show_atoms : Json → Text
show_atoms (text s) = s
show_atoms (number s) = s
show_atoms _ = codes "..."

abbrev num : String → Json
num s = number (codes s)

abbrev word : String → Json
word s = text (codes s)

abbrev two_prefixes : List Json
two_prefixes = word "4.0.0.0/8" ∷ word "5.0.0.0/8" ∷ []

abbrev two_hops : Items
two_hops = item (num "3") (item (num "4") no_items)

abbrev segment : Items → Json
segment path =
    dict
      (field (codes "element") (word "as-sequence") (field (codes "value") (list path) no_fields))

abbrev attribute : Items → Json
attribute path = dict (
    field (codes "origin") (word "igp")
      (field (codes "as-path") (one (codes "0") (segment path)) no_fields))

abbrev origin : List Json → Json
origin prefixes = one (codes "3.0.0.1") (list (nlris prefixes))

abbrev update : Items → List Json → Json
update path prefixes = dict (
    field (codes "attribute") (attribute path)
      (field (codes "announce") (one (codes "ipv4 unicast") (origin prefixes)) no_fields))

abbrev asn : Json
asn = dict (field (codes "local") (num "65000") (field (codes "peer") (num "3") no_fields))

abbrev address : Json
address =
    dict (field (codes "local") (word "3.0.0.2") (field (codes "peer") (word "3.0.0.1") no_fields))

abbrev neighbor : Items → List Json → Json
neighbor path prefixes = dict (
    field (codes "address") address (
      field (codes "asn") asn (
        field (codes "direction") (word "receive")
          (field (codes "message") (one (codes "update") (update path prefixes)) no_fields))))

abbrev message : Items → List Json → Json
message path prefixes = dict (
    field (codes "exabgp") (word "4.0.1") (
      field (codes "time") (num "7") (
        field (codes "host") (word "monitor") (
          field (codes "type") (word "update")
            (field (codes "neighbor") (neighbor path prefixes) no_fields)))))

one_line :
    message_parser show_atoms (some (message two_hops (word "4.0.0.0/8" ∷ [])))
    ≡ some (codes "4.0.0.0/8|4|3|3 4 |exabgp|3|A|...|7" ∷ [])
unfolding message_parser str
one_line = refl

no_hops_none : main_loop show_atoms (some (message no_items two_prefixes) ∷ []) [] ≡ none
unfolding main_loop str
no_hops_none = refl
