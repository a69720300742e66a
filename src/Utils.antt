-- ===== src/Utils.antt =====
-- src/AshUtils.cpp, but for the folders of the system, the browser, and the Boolean texts, which stand
-- with the settings. `replace_all` is Boost's.
pub mod Words
use ash_coin.Base.{
  ℕ, Bool, true, false, not, ◌&&◌, List, [], ◌∷◌, ◌++◌, Text, txt, text_eq, ltb, ◌==◌, is_digit,
  if◌then◌else◌,
}
use ash_coin.Tx.{is_empty}

-- `std::find_if` for a byte that is no digit.
unfoldable pub all_digits : Text → Bool
all_digits [] = true
all_digits (c ∷ s) = if not (is_digit c) then false else all_digits s

unfoldable pub is_numeric : Text → Bool
unfolding all_digits
is_numeric s = not (is_empty s) && all_digits s

-- The order of `std::string`.
unfoldable pub text_lt : Text → Text → Bool
text_lt [] [] = false
text_lt [] (d ∷ t) = true
text_lt (c ∷ s) [] = false
text_lt (c ∷ s) (d ∷ t) = if c == d then text_lt s t else ltb c d

-- A `std::map` from texts to texts, in the order of its keys.
abbrev pub Dictionary : Type 0
Dictionary = List (Text × Text)

-- `dict[key] = value`
unfoldable pub put_word : (key value : Text) → Dictionary → Dictionary
unfolding text_lt
put_word k v [] = (k, v) ∷ []
put_word k v ((k', w) ∷ d) =
    if text_eq k k'
    then (k, v) ∷ d
    else if text_lt k k'
    then (k, v) ∷ ((k', w) ∷ d)
    else (k', w) ∷ put_word k v d

-- `DoDictionary`: each word is replaced, in the order of the words.
unfoldable pub do_dictionary : (Text → Text → Text → Text) → Text → Dictionary → Text
do_dictionary replace_all source [] = source
do_dictionary replace_all source ((k, v) ∷ d) = do_dictionary replace_all (replace_all source k v) d

-- The default files, below the folder of the user and that of the data.
unfoldable pub default_config_file : Text → Text
default_config_file user_folder = user_folder ++ (txt "/" ++ txt ".ash_config")

unfoldable pub default_database_folder : Text → Text
default_database_folder data_folder = data_folder ++ (txt "/" ++ txt "AshChain")

unfoldable pub default_peers_file : Text → Text
unfolding default_database_folder
default_peers_file data_folder = default_database_folder data_folder ++ (txt "/" ++ txt "peers.txt")
