-- ===== src/Monitor/Announce.antt =====
-- What the parser makes of an announcement of IPv4 prefixes with one AS path.
pub mod Tests
use mini_internet_extention.Prelude.{
  ℕ, ◌≡◌, false, Option, some, List, [], ◌∷◌, ◌++◌, Eq_text, Text, codes, join,
}
use mini_internet_extention.Monitor.Values.{
  Json, Items, Fields, text, list, dict, no_items, item, no_fields, field, items, get, has, size,
  first_value,
}
use mini_internet_extention.Monitor.{then_also, path_text, format, has_path}

abbrev one : Text → Json → Json
one k v = dict (field k v no_fields)

abbrev pub nlris : List Json → Items
nlris [] = no_items
nlris (p ∷ ps) = item (one (codes "nlri") p) (nlris ps)

-- The fields that the parser reads of an update which announces IPv4 prefixes, and no IPv6 ones,
-- with one as-sequence. There may be any others.
module _ (message update_msg time peer : Json) (path : Items) (ps : List Json) where
  pub record IsAnnouncement : Type 0 where
    pub neighbor : Json
    pub asn : Json
    pub inner : Json
    pub attribute : Json
    pub as_paths : Json
    pub segment : Json
    pub announce : Json
    pub origin : Json
    pub has_type : get (codes "type") message ≡ some (text (codes "update"))
    pub has_time : get (codes "time") message ≡ some time
    pub has_neighbor : get (codes "neighbor") message ≡ some neighbor
    pub has_asn : get (codes "asn") neighbor ≡ some asn
    pub has_peer : get (codes "peer") asn ≡ some peer
    pub has_inner : get (codes "message") neighbor ≡ some inner
    pub has_update : get (codes "update") inner ≡ some update_msg
    pub has_attribute : get (codes "attribute") update_msg ≡ some attribute
    pub has_as_paths : get (codes "as-path") attribute ≡ some as_paths
    pub one_path : size as_paths ≡ some 1
    pub has_segment : get (codes "0") as_paths ≡ some segment
    pub is_sequence : get (codes "element") segment ≡ some (text (codes "as-sequence"))
    pub has_path : get (codes "value") segment ≡ some (list path)
    pub has_announce : get (codes "announce") update_msg ≡ some announce
    pub has_origin : get (codes "ipv4 unicast") announce ≡ some origin
    pub no_ipv6 : has (codes "ipv6 unicast") announce ≡ some false
    pub has_prefixes : first_value origin ≡ some (list (nlris ps))

-- The line of a prefix, for a path that ends at `origin`.
abbrev pub line : (Json → Text) → Json → Json → Json → Items → Json → Json → Text
line show update_msg time peer path origin p = join b'|' (
    show p
    ∷ show origin
    ∷ show peer
    ∷ path_text show (items path)
    ∷ codes "exabgp"
    ∷ show peer
    ∷ codes "A"
    ∷ show update_msg
    ∷ show time
    ∷ [])
