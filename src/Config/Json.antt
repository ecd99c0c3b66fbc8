-- ===== src/Config/Json.antt =====
-- JSON values as Python's json module gives them, and dictionaries in their order of insertion. A
-- number is the text that json.dumps gives it: numbers that read differently compare as different.
use evoblue_video_mcp.Prelude.{
  ℕ, suc, ◌==◌, Bool, true, false, ◌&&◌, ◌||◌, not, Option, none, some, List, [], ◌∷◌, String,
  str_eq, if◌then◌else◌,
}

mutual
  pub data Json : Type 0 where
    null : Json
    boolean : Bool → Json
    number : String → Json
    text : String → Json
    array : Jsons → Json
    object : Fields → Json

  pub data Jsons : Type 0 where
    end : Jsons
    item : Json → Jsons → Jsons

  pub data Fields : Type 0 where
    empty : Fields
    field : String → Json → Fields → Fields

-- `key in d`
unfoldable pub has : String → Fields → Bool
has key empty = false
has key (field k v rest) = str_eq k key || has key rest

-- `d.get(key)`, none if the key is missing
unfoldable pub get : String → Fields → Option Json
get key empty = none
get key (field k v rest) = let found = get key rest in if str_eq k key then some v else found

-- `d[key] = value`
unfoldable pub put : String → Json → Fields → Fields
put key value empty = field key value empty
put key value (field k v rest) =
    let later = put key value rest in if str_eq k key then field k value rest else field k v later

-- `d.pop(key, None)`
unfoldable pub remove : String → Fields → Fields
remove key empty = empty
remove key (field k v rest) =
    let later = remove key rest in if str_eq k key then later else field k v later

-- `list(d)`
unfoldable pub keys : Fields → List String
keys empty = []
keys (field k v rest) = k ∷ keys rest

unfoldable pub count : Fields → ℕ
count empty = 0
count (field k v rest) = suc (count rest)

-- a test of a value that has to be there
abbrev pub holds_of : (Json → Bool) → Option Json → Bool
holds_of p none = false
holds_of p (some v) = p v

-- `a == b`; the order of a dictionary does not count
unfoldable mutual
  unfolding get count

  pub json_eq : Json → Json → Bool
  json_eq null null = true
  json_eq (boolean a) (boolean b) = if a then b else not b
  json_eq (number a) (number b) = str_eq a b
  json_eq (text a) (text b) = str_eq a b
  json_eq (array a) (array b) = array_eq a b
  json_eq (object a) (object b) = count a == count b && is_within a b
  json_eq _ _ = false

  pub array_eq : Jsons → Jsons → Bool
  array_eq end end = true
  array_eq (item a as_) (item b bs) = json_eq a b && array_eq as_ bs
  array_eq _ _ = false

  pub is_within : Fields → Fields → Bool
  is_within empty b = true
  is_within (field k v rest) b = holds_of (json_eq v) (get k b) && is_within rest b

-- `_reject_duplicates` lets the value pass, at every depth
unfoldable mutual
  unfolding has

  pub accepts_pairs : Json → Bool
  accepts_pairs (array a) = accepts_items a
  accepts_pairs (object a) = accepts_fields a
  accepts_pairs _ = true

  pub accepts_items : Jsons → Bool
  accepts_items end = true
  accepts_items (item a rest) = accepts_pairs a && accepts_items rest

  pub accepts_fields : Fields → Bool
  accepts_fields empty = true
  accepts_fields (field k v rest) = not (has k rest) && (accepts_pairs v && accepts_fields rest)
