-- ===== src/App/Rest/Create.antt =====
-- `/rest/createtx` and `/rest/createWallet` of src/MinerApp.cpp.
pub mod Answers
use ash_coin.Base.{
  ℕ, true, not, ◌||◌, Bool, Option, none, some, [], ◌∷◌, ◌++◌, Text, txt, ◌>>=◌, if◌then◌else◌, pos,
}
use ash_coin.External.{External, object}
use ash_coin.CryptoUtils.{get_public_key, get_address_from_private_key}
use ash_coin.Problem.{ProblemDetail, problem_to_json}
use ash_coin.Tx.{Transaction}
use ash_coin.Tx.Json.{text_at, double_at}
use ash_coin.Tx.Result.{
  TxResult, success, insufficient_funds, txouts_empty, noop_transaction, to_string,
}
use ash_coin.Chain.Create.{create_transaction}
use ash_coin.Chain.Queue.{queue_transaction}
use ash_coin.App.Rest.{Node, Reply, Written, ok, bad_request, status_only, reply}

abbrev pub with_queued : Transaction → Node → Node
with_queued tx n = record n { app = record (n.app) { chain = queue_transaction tx n.app.chain } }

module _ {J : Type 0} (x : External J) where
  open x.json use {of_text, get, contains, is_number, dump, dump_indent, parse}

  -- What says why a transaction was not made.
  abbrev pub problem : (path title : Text) → ProblemDetail
  problem path title = record {
    kind = txt "/createx/" ++ title;
    title = title;
    status = 500;
    detail = [];
    instance_path = path;
  }

  abbrev pub refused : Text → Text → Written
  refused path title = record {
    status = 500;
    body = dump (problem_to_json x.json (problem path title));
  }

  abbrev pub answer_created : Text → TxResult × Transaction → Node → Reply
  answer_created path (success, tx) n = reply (status_only 201) (with_queued tx n)
  answer_created path (insufficient_funds, tx) n =
      to_string insufficient_funds >>= λ title. reply (refused path title) n
  answer_created path (txouts_empty, tx) n =
      to_string txouts_empty >>= λ title. reply (refused path title) n
  answer_created path (noop_transaction, tx) n =
      to_string noop_transaction >>= λ title. reply (refused path title) n

  -- The amount is looked at only where the key is there.
  unfoldable pub is_malformed : J → Option Bool
  is_malformed j =
      if not (contains j (txt "toaddress"))
        || (not (contains j (txt "privatekey")) || not (contains j (txt "amount")))
      then some true
      else (get j (txt "amount") >>= λ v. some (not (is_number v)))

  unfoldable pub create_from : (path toaddress private_key : Text) → ℕ → Node → Reply
  unfolding to_string
  create_from path toaddress private_key amount n =
      create_transaction x n.app.chain private_key toaddress amount >>= λ r. answer_created path r n

  -- `/rest/createtx`
  unfoldable pub rest_create_tx : (path content : Text) → Node → Reply
  unfolding is_malformed create_from
  rest_create_tx path content n = elim (parse content) [
    | none ↦ reply bad_request n
    | some j ↦ is_malformed j >>= λ malformed. if malformed then reply bad_request n else (do
      toaddress ← text_at x.json j (txt "toaddress")
      private_key ← text_at x.json j (txt "privatekey")
      amount ← double_at x.json j (txt "amount")
      create_from path toaddress private_key amount n)
  ]

  -- The json value of a new wallet, here and in `main`.
  unfoldable pub wallet_json : Text → J
  wallet_json private_key = object x.json (
      (txt "private-key", of_text private_key)
      ∷ (txt "public-key", of_text (get_public_key x.crypto private_key))
      ∷ (txt "address", of_text (get_address_from_private_key x.crypto private_key))
      ∷ [])

  -- `/rest/createWallet`, where `private_key` is what `GeneratePrivateKey` draws.
  unfoldable pub rest_create_wallet : Text → Node → Reply
  unfolding wallet_json
  rest_create_wallet private_key n = reply (ok (dump_indent (pos 4) (wallet_json private_key))) n
