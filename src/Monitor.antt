-- ===== src/Monitor.antt =====
-- exabgp_monitor/parser/parser.py: `message_parser` turns an update of ExaBGP, a line of JSON, into
-- lines of output.csv. A JSON number is its text.
pub mod Values
pub mod Announce
use mini_internet_extention.Prelude.{
  ℕ, zero, suc, Bool, true, false, ◌&&◌, Option, none, some, List, [], ◌∷◌, ◌++◌, map,
  if◌then◌else◌, ◌==◌, Eq_text, Text, codes, str, join,
}
use mini_internet_extention.Monitor.Values.{
  Json, null, list, no_items, ◌>>=◌, get, has, first_value, iterate, size, last, is_text,
}

pub data Message : Type 0 where
  announced : (timestamp peer_asn path prefix : Json) → Message
  withdrawn : (timestamp peer_asn prefix : Json) → Message

-- What a loop has appended, and whether it came to its end without an exception.
abbrev pub Appended : Type 0
Appended = List Message × Bool

-- The next iteration runs unless this one raised an exception.
abbrev pub then_also : Appended → Appended → Appended
then_also (ms, true) (more, b) = (ms ++ more, b)
then_also (ms, false) rest = (ms, false)

-- `messages.append(...)`, whose dict may raise an exception first
abbrev append : Option Message → Appended
append none = ([], false)
append (some m) = (m ∷ [], true)

-- The loop on `path_num`: the value of the last as-sequence.
path_loop : ℕ → ℕ → Json → Json → Option Json
unfolding str
path_loop zero path_num as_paths as_path = some as_path
path_loop (suc left) path_num as_paths as_path = do
  path ← get (str path_num) as_paths
  element ← get (codes "element") path
  value ← if is_text (codes "as-sequence") element then get (codes "value") path else some as_path
  path_loop left (suc path_num) as_paths value

-- None is taken for an empty path.
abbrev or_empty : Json → Json
or_empty null = list no_items
or_empty path = path

peer_of : Json → Option Json
peer_of message = do
  neighbor ← get (codes "neighbor") message
  asn ← get (codes "asn") neighbor
  get (codes "peer") asn

announce_message : Json → Json → Json → Option Message
unfolding path_loop peer_of
announce_message message update_msg prefix = do
  attribute ← get (codes "attribute") update_msg
  as_paths ← get (codes "as-path") attribute
  n ← size as_paths
  as_path ← path_loop n 0 as_paths null
  time ← get (codes "time") message
  peer ← peer_of message
  p ← first_value prefix
  some (announced time peer (or_empty as_path) p)

withdraw_message : Json → Json → Option Message
unfolding peer_of
withdraw_message message prefix = do
  time ← get (codes "time") message
  peer ← peer_of message
  p ← first_value prefix
  some (withdrawn time peer p)

-- `'as-path' in update_msg['attribute']`
has_path : Json → Option Bool
has_path update_msg = get (codes "attribute") update_msg >>= has (codes "as-path")

-- The body of the loop on prefixes.
announce_prefix : Json → Json → Json → Appended
unfolding has_path announce_message
announce_prefix message update_msg prefix = elim (has_path update_msg) [
  | none ↦ ([], false)
  | some false ↦ ([], true)
  | some true ↦ append (announce_message message update_msg prefix)
]

withdraw_prefix : Json → Json → Appended
unfolding withdraw_message
withdraw_prefix message prefix = append (withdraw_message message prefix)

each : (Json → Appended) → List Json → Appended
each f [] = ([], true)
each f (j ∷ rest) = then_also (f j) (each f rest)

-- `for prefix in list(origin.values())[0]`
each_prefix : (Json → Appended) → Json → Appended
unfolding each
each_prefix f origin = elim (first_value origin >>= iterate) [
  | none ↦ ([], false)
  | some prefixes ↦ each f prefixes
]

-- The two `if`s that fill `origins`.
origins : Json → Option (List Json)
origins msg = do
  has4 ← has (codes "ipv4 unicast") msg
  v4 ← if has4 then (get (codes "ipv4 unicast") msg >>= λ o. some (o ∷ [])) else some []
  has6 ← has (codes "ipv6 unicast") msg
  v6 ← if has6 then (get (codes "ipv6 unicast") msg >>= λ o. some (o ∷ [])) else some []
  some (v4 ++ v6)

family : Json → Text → (Json → Appended) → List Message
unfolding origins each_prefix
family update_msg key f = elim (get key update_msg >>= origins) [
  | none ↦ []
  | some os ↦ (each (each_prefix f) os).0
]

-- The messages that the first try block appends; it stops without an exception of its own.
messages : Json → Json → List Message
unfolding family announce_prefix withdraw_prefix
messages message update_msg = elim (has (codes "announce") update_msg) [
  | none ↦ []
  | some true ↦ family update_msg (codes "announce") (announce_prefix message update_msg)
  | some false ↦ elim (has (codes "withdraw") update_msg) [
    | some true ↦ family update_msg (codes "withdraw") (withdraw_prefix message)
    | _ ↦ []
  ]
]

update_of : Json → Option Json
update_of message = do
  neighbor ← get (codes "neighbor") message
  m ← get (codes "message") neighbor
  get (codes "update") m

-- The texts of values, as str() gives them, are a parameter.
module _ (show : Json → Text) where
  -- `path_str += str(asn) + ' '`
  unfoldable pub path_text : List Json → Text
  path_text [] = []
  path_text (asn ∷ rest) = show asn ++ b' ' ∷ path_text rest

  -- The line of a message, or nothing where an exception is raised.
  format : Json → Message → Option Text
  unfolding path_text join
  format update_msg (announced time peer path prefix) = do
    asns ← iterate path
    origin ← last path
    some (
        join b'|' (
          show prefix
          ∷ show origin
          ∷ show peer
          ∷ path_text asns
          ∷ codes "exabgp"
          ∷ show peer
          ∷ codes "A"
          ∷ show update_msg
          ∷ show time
          ∷ []))
  format update_msg (withdrawn time peer prefix) = some (
      join b'|' (
        show prefix
        ∷ []
        ∷ show peer
        ∷ []
        ∷ codes "exabgp"
        ∷ show peer
        ∷ codes "W"
        ∷ show update_msg
        ∷ show time
        ∷ []))

  format_all : Json → List Message → Option (List Text)
  unfolding format
  format_all update_msg [] = some []
  format_all update_msg (m ∷ ms) = do
    line ← format update_msg m
    rest ← format_all update_msg ms
    some (line ∷ rest)

  -- None is Python's None; a line that is no JSON, or no update, gives no lines.
  unfoldable pub message_parser : Option Json → Option (List Text)
  unfolding messages update_of format_all
  message_parser none = some []
  message_parser (some message) = elim (get (codes "type") message) [
    | none ↦ some []
    | some type ↦
        if is_text (codes "update") type
        then elim (update_of message) [
          | none ↦ none
          | some update_msg ↦ format_all update_msg (messages message update_msg)
        ]
        else some []
  ]

-- The main loop: what is in output.csv after some lines, or nothing once it has raised the
-- TypeError of an iteration over None.
lines_of : List Text → Text
lines_of [] = []
lines_of (l ∷ ls) = l ++ 10 ∷ lines_of ls

unfoldable pub main_loop : (Json → Text) → List (Option Json) → Text → Option Text
unfolding message_parser lines_of
main_loop show [] csv = some csv
main_loop show (line ∷ rest) csv =
    message_parser show line >>= λ ls. main_loop show rest (csv ++ lines_of ls)
