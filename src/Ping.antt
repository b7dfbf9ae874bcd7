-- ===== src/Ping.antt =====
-- docker_images/matrix/ping.py: the pings between the ASes, the table co_dic of their results, and
-- the file that the web server reads. The pings, the shuffled orders and the clock are parameters.
pub mod Rounds
pub mod File
pub mod Tests
use mini_internet_extention.Prelude.{
  ℕ, zero, suc, ◌/◌, ◌%◌, String, Bool, true, false, not, ◌&&◌, ◌||◌, Option, none, some, List, [],
  ◌∷◌, ◌++◌, filter, map, if◌then◌else◌, ◌==◌, Eq_nat, ltb, leb, Text, codes, str, split, is_empty,
  contains, get_elem?, Result, ok, err, ◌>>=◌,
}
use mini_internet_extention.Files.Sort.{sorted}
use mini_internet_extention.Dict.{Dict, put}
use mini_internet_extention.Files.Clean.{
  Error, value_error, index_error, newline, lines, item, parse_int,
}

-- `line.rstrip('\n')`
unfoldable pub rstrip_newline : Text → Text
rstrip_newline [] = []
rstrip_newline (c ∷ s) =
    let rest = rstrip_newline s in if c == newline && is_empty rest then [] else c ∷ rest

destinations_loop : List Text → Dict Text → Result Error (Dict Text)
unfolding rstrip_newline put
destinations_loop [] as_list = ok as_list
destinations_loop (line ∷ rest) as_list = do
  asn_text ← item 0 (split b' ' (rstrip_newline line))
  asn ← parse_int asn_text
  dest_ip ← item 1 (split b' ' (rstrip_newline line))
  destinations_loop rest (put asn dest_ip as_list)

-- The file destination_ips.txt.
unfoldable pub read_destinations : Text → Result Error (Dict Text)
unfolding lines destinations_loop
read_destinations file = destinations_loop (lines file) []

-- `sorted(as_list.keys())`
unfoldable pub sorted_keys : List ℕ → List ℕ
unfolding sorted
sorted_keys keys = sorted (λ k. (k, 0)) keys

-- `"0"+str(n)` below ten
abbrev two_digits : ℕ → Text
two_digits n = if ltb n 10 then b'0' ∷ str n else str n

-- `mac_dic[asn]`
unfoldable pub mac : ℕ → Text
unfolding str
mac asn = codes "aa:11:11:11:" ++ (two_digits (asn / 100) ++ b':' ∷ two_digits (asn % 100))

-- `co_dic[from_g][to_g]`, whose keys are those of as_list.
abbrev pub Matrix : Type 0
Matrix = ℕ → ℕ → Bool

abbrev pub no_connection : Matrix
no_connection from_g to_g = false

unfoldable pub set : ℕ → ℕ → Bool → Matrix → Matrix
set from_g to_g status co x y = if x == from_g && y == to_g then status else co x y

-- `"RCVD" in output_tmp and 'ICMP' not in output_tmp`, of the fourth line
unfoldable pub is_reached : Text → Result Error Bool
unfolding contains
is_reached output = item 3 (split newline output) >>= λ output_tmp.
    ok (contains (codes "RCVD") output_tmp && not (contains (codes "ICMP") output_tmp))

-- `time.sleep((113-from_g)*0.001)` refuses a negative time; the loop sleeps after each ping it
-- starts.
abbrev pub start_pings : ℕ → List ℕ → Result Error (List ℕ)
start_pings from_g order =
    let targets = filter (λ to_g. leb from_g to_g) order in
    if ltb 113 from_g && not (is_empty targets) then err value_error else ok targets

module _ (output : ℕ → ℕ → Text) where
  -- `for to_g in proc_dic[from_g]`
  pub collect : ℕ → List ℕ → Matrix → Result Error Matrix
  unfolding is_reached set
  collect from_g [] co = ok co
  collect from_g (to_g ∷ rest) co = is_reached (output from_g to_g) >>= λ status.
      collect from_g rest (set to_g from_g status (set from_g to_g status co))

  -- `for from_g in sorted(as_list.keys())`, with the order that shuffle gives the targets.
  unfoldable pub rounds : (ℕ → List ℕ) → List ℕ → Matrix → Result Error Matrix
  unfolding collect
  rounds shuffled [] co = ok co
  rounds shuffled (from_g ∷ rest) co = do
    targets ← start_pings from_g (shuffled from_g)
    after ← collect from_g targets co
    rounds shuffled rest after

abbrev pub status_text : Bool → Text
status_text true = codes "True"
status_text false = codes "False"

-- `for from_g in co_dic: for to_g in co_dic`
abbrev pub pairs : List ℕ → List ℕ → List (ℕ × ℕ)
pairs [] keys = []
pairs (from_g ∷ rest) keys = map (λ to_g. (from_g, to_g)) keys ++ pairs rest keys

abbrev pub connectivity_row : Matrix → ℕ × ℕ → List Text
connectivity_row co (from_g, to_g) = str from_g ∷ str to_g ∷ status_text (co from_g to_g) ∷ []

-- The lines of connectivity.txt.
unfoldable pub connectivity_rows : List ℕ → Matrix → List (List Text)
unfolding str
connectivity_rows keys co = map (connectivity_row co) (pairs keys keys)
