-- ===== src/App/Rest.antt =====
-- What the handlers of `initRestService` of src/MinerApp.cpp share: a node with its mining thread, and
-- what is written to a response. `none` is an exception, a failed assertion or `std::terminate`.
pub mod Control
pub mod Create
pub mod Views
pub mod Serve
use ash_coin.Base.{
  ℕ, Bool, Option, none, some, List, [], ◌∷◌, Text, txt, ℤ, pos, negsuc, from_chars_int, invalid,
  out_of_range, scanned,
}
use ash_coin.App.{App}

-- `joinable` says that `_mineThread` has a thread, running or ended, that was not joined, and
-- `keep_trying` is the flag of the miner.
pub record Node : Type 0 where
  pub app : App
  pub joinable : Bool
  pub keep_trying : Bool

-- One call of `response->write`.
pub record Written : Type 0 where
  pub status : ℕ
  pub body : Text

-- What a handler writes, one call after the other, and the node behind it.
abbrev pub Reply : Type 0
Reply = Option (List Written × Node)

abbrev pub ok : Text → Written
ok s = record { status = 200; body = s }

abbrev pub status_only : ℕ → Written
status_only n = record { status = n; body = [] }

abbrev pub bad_request : Written
bad_request = status_only 400

abbrev pub not_found : Written
not_found = status_only 404

-- A handler that writes once.
abbrev pub reply : Written → Node → Reply
reply w n = some (w ∷ [], n)

-- `GetIndent` for the value of `indent` in the query, if there is one.
unfoldable pub get_indent : Option Text → ℤ
get_indent none = negsuc 0
get_indent (some s) = elim (from_chars_int s) [
  | invalid ↦ negsuc 0
  | out_of_range ↦ pos 0
  | scanned n ↦ n
]
