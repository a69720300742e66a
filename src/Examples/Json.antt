-- ===== src/Examples/Json.antt =====
-- A model of the json values, with the laws.
use ash_coin.Base.{
  ℕ, ◌≡◌, refl, sym, ◌∙◌, Bool, true, false, Option, none, some, List, [], ◌∷◌, ◌++◌, foldl, Text,
  txt, text_eq, is_some, if◌then◌else◌, append_assoc, append-nil, ap,
}
use ash_coin.External.{JsonOps, object, array, last_value_from, IsJson}

-- An object holds its assignments, the last one outermost, and an array its values.
pub data JsonValue : Type 0 where
  null : JsonValue
  num : ℕ → JsonValue
  dbl : ℕ → JsonValue
  str : Text → JsonValue
  field : JsonValue → Text → JsonValue → JsonValue
  item : JsonValue → JsonValue → JsonValue

abbrev get_field : JsonValue → Text → Option JsonValue
get_field null k = none
get_field (num n) k = none
get_field (dbl d) k = none
get_field (str s) k = none
get_field (field j k' v) k = if text_eq k' k then some v else get_field j k
get_field (item j v) k = none

abbrev items_of : JsonValue → List JsonValue
items_of null = []
items_of (num n) = num n ∷ []
items_of (dbl d) = dbl d ∷ []
items_of (str s) = str s ∷ []
items_of (field j k v) = items_of j ++ (v ∷ [])
items_of (item j v) = items_of j ++ (v ∷ [])

abbrev is_item : JsonValue → Bool
is_item null = false
is_item (num n) = false
is_item (dbl d) = false
is_item (str s) = false
is_item (field j k v) = false
is_item (item j v) = true

abbrev is_num : JsonValue → Bool
is_num null = false
is_num (num n) = true
is_num (dbl d) = true
is_num (str s) = false
is_num (field j k v) = false
is_num (item j v) = false

abbrev nat_of : JsonValue → Option ℕ
nat_of null = none
nat_of (num n) = some n
nat_of (dbl d) = none
nat_of (str s) = none
nat_of (field j k v) = none
nat_of (item j v) = none

abbrev double_of : JsonValue → Option ℕ
double_of null = none
double_of (num n) = none
double_of (dbl d) = some d
double_of (str s) = none
double_of (field j k v) = none
double_of (item j v) = none

abbrev text_of : JsonValue → Option Text
text_of null = none
text_of (num n) = none
text_of (dbl d) = none
text_of (str s) = some s
text_of (field j k v) = none
text_of (item j v) = none

-- `parse` reads a text as the request with that message.
abbrev pub json_ops : JsonOps JsonValue
json_ops = record {
  null = null;
  of_nat = num;
  of_bool = λ b. num (if b then 1 else 0);
  of_double = dbl;
  of_text = str;
  set = field;
  get = get_field;
  contains = λ j k. is_some (get_field j k);
  push_back = item;
  items = items_of;
  is_array = is_item;
  is_number = is_num;
  to_nat = nat_of;
  to_double = double_of;
  to_text = text_of;
  dump = λ j. [];
  dump_indent = λ n j. [];
  parse = λ s.
      some (field (field null (txt "message") (str s)) (txt "message-type") (str (txt "request")));
}

get-foldl :
    (kvs : List (Text × JsonValue)) (k : Text) (j : JsonValue)
    → get_field (foldl (λ j kv. field j kv.0 kv.1) j kvs) k ≡ last_value_from k (get_field j k) kvs
get-foldl [] k j = refl
get-foldl ((k', v) ∷ kvs) k j = get-foldl kvs k (field j k' v)

items-foldl : (vs : List JsonValue) (j : JsonValue) → items_of (foldl item j vs) ≡ items_of j ++ vs
items-foldl [] j = sym (append-nil (items_of j))
items-foldl (v ∷ vs) j = items-foldl vs (item j v) ∙ append_assoc (items_of j) (v ∷ []) vs

is_item-foldl : (vs : List JsonValue) (j v : JsonValue) → is_item (foldl item (item j v) vs) ≡ true
is_item-foldl [] j v = refl
is_item-foldl (w ∷ vs) j v = is_item-foldl vs (item j v) w

pub json_ops-IsJson : IsJson json_ops
unfolding object array
json_ops-IsJson = record {
  get-object = λ kvs k. get-foldl kvs k null;
  contains-object = λ kvs k. ap is_some (get-foldl kvs k null);
  is_array-array = λ v vs. is_item-foldl vs null v;
  items-array = λ vs. items-foldl vs null;
  to_nat-of_nat = λ n h. refl;
  to_double-of_double = λ d. refl;
  to_text-of_text = λ s. refl;
}
