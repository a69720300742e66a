-- ===== src/Tx/Result.antt =====
-- `TxResult` and `TxResultValue` of src/Transactions.h.
use ash_coin.Base.{
  ◌>>=◌, ◌≡◌, ◌↔◌, ◌⊎◌, inl, inr, refl, arith, Option, none, some, Text, txt, text_eq,
  if◌then◌else◌,
}

pub data TxResult : Type 0 where
  success insufficient_funds txouts_empty noop_transaction : TxResult

-- `none` is the exception "unknown TxResult".
unfoldable pub to_string : TxResult → Option Text
to_string success = some (txt "success")
to_string insufficient_funds = some (txt "insufficient_fund")
to_string txouts_empty = some (txt "txouts_empty")
to_string noop_transaction = none

unfoldable pub from_string : Text → Option TxResult
from_string s =
    if text_eq s (txt "success")
    then some success
    else if text_eq s (txt "insufficient_funds")
    then some insufficient_funds
    else if text_eq s (txt "txouts_empty")
    then some txouts_empty
    else none

-- Of the four codes, success and the lack of outputs come back from their text as they were, and the
-- other two do not.
pub from_string-to_string :
    (v : TxResult) → ((to_string v >>= from_string) ≡ some v) ↔ ((v ≡ success) ⊎ (v ≡ txouts_empty))
unfolding to_string from_string
from_string-to_string success = (λ _. inl refl, λ _. refl)
from_string-to_string insufficient_funds = ground arith
from_string-to_string txouts_empty = (λ _. inr refl, λ _. refl)
from_string-to_string noop_transaction = ground arith
