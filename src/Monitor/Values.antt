-- ===== src/Monitor/Values.antt =====
-- The JSON values that the parser of the monitor takes apart. `none` is an exception.
use mini_internet_extention.Prelude.{
  ℕ, Bool, false, Option, none, some, List, [], ◌∷◌, map, any, length, if◌then◌else◌, ◌==◌, Eq_text,
  Text, contains,
}

mutual
  pub data Json : Type 0 where
    null : Json
    boolean : Bool → Json
    number : Text → Json
    text : Text → Json
    list : Items → Json
    dict : Fields → Json

  pub data Items : Type 0 where
    no_items : Items
    item : Json → Items → Items

  pub data Fields : Type 0 where
    no_fields : Fields
    field : Text → Json → Fields → Fields

abbrev pub items : Items → List Json
items no_items = []
items (item j rest) = j ∷ items rest

abbrev pub fields : Fields → List (Text × Json)
fields no_fields = []
fields (field k j rest) = (k, j) ∷ fields rest

infixl 5 ◌>>=◌
abbrev pub ◌>>=◌ : {A B : Type 0} → Option A → (A → Option B) → Option B
none >>= f = none
some a >>= f = f a

abbrev pub is_text : Text → Json → Bool
is_text t (text s) = s == t
is_text t _ = false

abbrev pub value_of : Text → List (Text × Json) → Option Json
value_of k [] = none
value_of k ((j, v) ∷ rest) = if j == k then some v else value_of k rest

-- `j[k]`
abbrev pub get : Text → Json → Option Json
get k (dict fs) = value_of k (fields fs)
get k _ = none

-- `k in j`
abbrev pub has : Text → Json → Option Bool
has k (dict fs) = some (any (λ f. f.0 == k) (fields fs))
has k (list js) = some (any (is_text k) (items js))
has k (text s) = some (contains k s)
has k _ = none

-- `list(j.values())[0]`
abbrev pub first_value : Json → Option Json
first_value (dict (field k v rest)) = some v
first_value _ = none

-- What `for x in j` goes through.
abbrev pub iterate : Json → Option (List Json)
iterate (list js) = some (items js)
iterate (dict fs) = some (map (λ f. text f.0) (fields fs))
iterate (text s) = some (map (λ c. text (c ∷ [])) s)
iterate _ = none

-- `len(j)`
abbrev pub size : Json → Option ℕ
size (list js) = some (length (items js))
size (dict fs) = some (length (fields fs))
size (text s) = some (length s)
size _ = none

abbrev pub last_of : {A : Type 0} → List A → Option A
last_of [] = none
last_of (x ∷ []) = some x
last_of (x ∷ y ∷ rest) = last_of (y ∷ rest)

-- `j[-1]`
abbrev pub last : Json → Option Json
last (list js) = last_of (items js)
last (text s) = last_of (map (λ c. text (c ∷ [])) s)
last _ = none
