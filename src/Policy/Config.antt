-- ===== src/Policy/Config.antt =====
-- The configuration tables of analyzer_helpers.py: `load_config` with the constraints that its
-- tables declare, and the views `asnumbers` and `all_links`.
pub mod WellFormed
pub mod Accepts
pub mod Tests
use mini_internet_extention.Prelude.{
  ℕ, String, ◌≡◌, ◌↔◌, Bool, true, false, ◌&&◌, ◌||◌, Option, none, some, List, [], ◌∷◌, ◌++◌, map,
  arith, if◌then◌else◌, Eq, ◌==◌, Eq_nat, Eq_string, Result, ok, err, ◌>>=◌, ◌>>◌, filter, any,
  elem,
}

-- The exceptions that the analysis can raise; `out_of_fuel` is the model's own, for its loops.
pub data Error : Type 0 where
  integrity_error as_path_error assertion_error value_error index_error out_of_fuel : Error

pub data Role : Type 0 where
  customer provider peer : Role

abbrev pub role_eq : Role → Role → Bool
role_eq customer customer = true
role_eq provider provider = true
role_eq peer peer = true
role_eq _ _ = false

pub role_eq_iff : (a b : Role) → (role_eq a b ≡ true) ↔ (a ≡ b)
role_eq_iff a b = ground arith

instance abbrev pub Eq_role : Eq Role
Eq_role = record { beq = role_eq; beq_iff = role_eq_iff }

-- The texts that the tables' CHECK constraints admit.
pub role_of : String → Option Role
role_of s =
    if s == "Customer"
    then some customer
    else if s == "Provider"
    then some provider
    else if s == "Peer"
    then some peer
    else none

pub data AsType : Type 0 where
  plain ixp : AsType

abbrev pub as_type_eq : AsType → AsType → Bool
as_type_eq plain plain = true
as_type_eq ixp ixp = true
as_type_eq _ _ = false

pub as_type_of : String → Option AsType
as_type_of s = if s == "AS" then some plain else if s == "IXP" then some ixp else none

pub record Link : Type 0 where
  pub f_as : ℕ
  pub f_loc : Option String
  pub f_role : Role
  pub t_as : ℕ
  pub t_loc : Option String
  pub t_role : Role

pub record Config : Type 0 where
  pub as_config : List (ℕ × AsType)
  pub links : List Link

-- One side of a parsed connection.
pub record Side : Type 0 where
  pub asn : ℕ
  pub router : Option String
  pub role : String

-- The CHECK of the table `links`.
abbrev pub check_roles : Role → Role → Bool
check_roles customer provider = true
check_roles provider customer = true
check_roles peer peer = true
check_roles _ _ = false

-- INSERT INTO as_config: the CHECK on the type.
pub insert_ases : List (ℕ × String) → Result Error (List (ℕ × AsType))
insert_ases [] = ok []
insert_ases ((asn, t) ∷ rest) = elim (as_type_of t) [
  | none ↦ err integrity_error
  | some k ↦ insert_ases rest >>= λ more. ok ((asn, k) ∷ more)
]

-- The REFERENCES constraint: the number is a key of as_config.
abbrev pub declared : List (ℕ × AsType) → ℕ → Bool
declared ases n = elem n (map (λ a. a.0) ases)

make_link : Side → Side → Role → Role → Link
make_link a b r s = record {
  f_as = a.asn;
  f_loc = a.router;
  f_role = r;
  t_as = b.asn;
  t_loc = b.router;
  t_role = s;
}

-- INSERT INTO links of one connection: the CHECK on the roles and the two foreign keys.
insert_link : List (ℕ × AsType) → Side → Side → Result Error Link
unfolding make_link
insert_link ases a b = elim (role_of a.role) [
  | none ↦ err integrity_error
  | some r ↦ elim (role_of b.role) [
    | none ↦ err integrity_error
    | some s ↦
        if check_roles r s && declared ases a.asn && declared ases b.asn
        then ok (make_link a b r s)
        else err integrity_error
  ]
]

insert_links : List (ℕ × AsType) → List (Side × Side) → Result Error (List Link)
insert_links ases [] = ok []
insert_links ases ((a, b) ∷ rest) = do
  l ← insert_link ases a b
  more ← insert_links ases rest
  ok (l ∷ more)

unfoldable pub load_config : List (ℕ × String) → List (Side × Side) → Result Error Config
unfolding insert_ases insert_links insert_link as_type_of role_of
load_config as_data connection_data = do
  ases ← insert_ases as_data
  ls ← insert_links ases connection_data
  ok (record { as_config = ases; links = ls })

abbrev pub flip : Link → Link
flip l = record {
  f_as = l.t_as;
  f_loc = l.t_loc;
  f_role = l.t_role;
  t_as = l.f_as;
  t_loc = l.f_loc;
  t_role = l.f_role;
}

-- The view `all_links`. Its UNION drops repeated rows; every query on it asks for DISTINCT values,
-- IN or a first row, so the model keeps them.
unfoldable pub all_links : Config → List Link
all_links c = c.links ++ map flip c.links

abbrev pub is_type : AsType → ℕ × AsType → Bool
is_type t a = as_type_eq a.1 t

-- The view `asnumbers`.
unfoldable pub asnumbers : Config → List ℕ
asnumbers c = map (λ a. a.0) (filter (is_type plain) c.as_config)

-- SELECT as_number FROM as_config WHERE as_type = 'IXP'
unfoldable pub ixps : Config → List ℕ
ixps c = map (λ a. a.0) (filter (is_type ixp) c.as_config)
