-- ===== src/External/Json.antt =====
-- The interface of `nl::json` as far as the program calls it, and the documented laws.
use ash_coin.Base.{
  ℕ, ◌<◌, ◌^◌, ◌≡◌, Bool, true, Option, none, some, List, [], ◌∷◌, foldl, Text, text_eq, is_some, ℤ,
  if◌then◌else◌,
}

-- `set j k v` is `j[k] = v` at a null or an object, `push_back` that of a null or an array; `get j k`
-- is `j[k]` at a constant value, with `none` for a key that is not there; `items` iterates over the
-- values, none of them at a null. The `to_` functions are `get<T>()`, with `none` for an exception.
-- `dump_indent n` is `dump(n)`.
pub record JsonOps (J : Type 0) : Type 0 where
  pub null : J
  pub of_nat : ℕ → J
  pub of_bool : Bool → J
  pub of_double : ℕ → J
  pub of_text : Text → J
  pub set : J → Text → J → J
  pub get : J → Text → Option J
  pub contains : J → Text → Bool
  pub push_back : J → J → J
  pub items : J → List J
  pub is_array : J → Bool
  pub is_number : J → Bool
  pub to_nat : J → Option ℕ
  pub to_double : J → Option ℕ
  pub to_text : J → Option Text
  pub dump : J → Text
  pub dump_indent : ℤ → J → Text
  pub parse : Text → Option J

-- The assignments `j[k] = v` one after the other, on a value that began as null.
unfoldable pub object : {J : Type 0} → JsonOps J → List (Text × J) → J
object o kvs = foldl (λ j kv. o.set j kv.0 kv.1) o.null kvs

-- The calls of `push_back` one after the other, on a value that began as null.
unfoldable pub array : {J : Type 0} → JsonOps J → List J → J
array o vs = foldl o.push_back o.null vs

-- The last value that was assigned to a key.
abbrev pub last_value_from : {J : Type 0} → Text → Option J → List (Text × J) → Option J
last_value_from k acc [] = acc
last_value_from k acc ((k', v) ∷ kvs) = last_value_from k (if text_eq k' k then some v else acc) kvs

abbrev pub last_value : {J : Type 0} → Text → List (Text × J) → Option J
last_value k kvs = last_value_from k none kvs

-- What nlohmann documents of these calls: an object holds what was assigned last, an array iterates
-- in the order of its `push_back` calls, and a value comes back as it was stored.
pub record IsJson {J : Type 0} (o : JsonOps J) : Type 0 where
  pub get-object : (kvs : List (Text × J)) (k : Text) → o.get (object o kvs) k ≡ last_value k kvs
  pub contains-object :
      (kvs : List (Text × J)) (k : Text) → o.contains (object o kvs) k ≡ is_some (last_value k kvs)
  pub is_array-array : (v : J) (vs : List J) → o.is_array (array o (v ∷ vs)) ≡ true
  pub items-array : (vs : List J) → o.items (array o vs) ≡ vs
  pub to_nat-of_nat : (n : ℕ) → n < 2 ^ 64 → o.to_nat (o.of_nat n) ≡ some n
  pub to_double-of_double : (d : ℕ) → o.to_double (o.of_double d) ≡ some d
  pub to_text-of_text : (s : Text) → o.to_text (o.of_text s) ≡ some s
