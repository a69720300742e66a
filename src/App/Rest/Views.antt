-- ===== src/App/Rest/Views.antt =====
-- The handlers of `initRestService` of src/MinerApp.cpp that look things up. `indent` is the value of
-- `indent` in the query, and the texts are what the patterns of the paths match.
pub mod Range
use ash_coin.Base.{
  ℕ, zero, suc, ◌+◌, ◌-◌, not, Option, none, some, List, [], ◌∷◌, ◌++◌, Text, txt, decimal, ltb,
  leb, ◌==◌, ◌>>=◌, if◌then◌else◌, get_elem?, last?, u64_of_int, pos, negsuc, from_chars,
  from_chars_int, invalid, out_of_range, scanned,
}
use ash_coin.External.{External, object}
use ash_coin.Tx.Json.{transaction_to_json, unspent_to_json}
use ash_coin.Block.{Block}
use ash_coin.Block.Json.{block_to_json}
use ash_coin.Chain.{Chain, size, cum_difficulty}
use ash_coin.Chain.Json.{ledger_to_json}
use ash_coin.Chain.Unspent.{get_unspent_tx_outs}
use ash_coin.Chain.Lookup.{find_transaction, get_block_details, get_address_ledger}
use ash_coin.App.Messages.{blocks_json, range_json}
use ash_coin.App.Rest.{Node, Reply, ok, bad_request, not_found, reply, get_indent}

-- The loop over the indices from `idx` on.
unfoldable pub blocks_between : (rounds idx : ℕ) → Chain → Option (List Block)
blocks_between zero idx c = some []
blocks_between (suc rounds) idx c = do
  b ← get_elem? c.blocks idx
  bs ← blocks_between rounds (idx + 1) c
  some (b ∷ bs)

module _ {J : Type 0} (x : External J) where
  open x.json use {of_nat, of_bool, set, dump, dump_indent}

  -- The links to the blocks beside a block.
  abbrev pub links : ℕ → Chain → Text
  links i c =
      (if ltb 0 i
        then txt "<a href='/block-idx/" ++ (decimal (i - 1) ++ txt "'>prev</a>&nbsp;")
        else [])
      ++ (txt "current: "
          ++ (decimal i
              ++ (if ltb i (size c)
                  then txt "&nbsp;<a href='/block-idx/"
                    ++ (decimal (i + 1) ++ txt "'>next</a>&nbsp;")
                  else [])))

  abbrev pub invalid_block : Text
  invalid_block = txt "<html><body><h2 stye=\"color:red\">Invalid Block</h2></body></html>"

  -- A negative index is beyond the size once it is made unsigned.
  abbrev pub indexed_block : ℕ → Node → Reply
  indexed_block i n =
      if leb (size n.app.chain) i
      then reply (ok invalid_block) n
      else (get_elem? n.app.chain.blocks i >>= λ b.
          reply
            (ok (
              txt "<pre>"
              ++ (dump_indent (pos 4) (block_to_json x.json b)
                  ++ (txt "</pre><br/>" ++ links i n.app.chain))))
            n)

  -- `/block-idx/`
  unfoldable pub rest_block_idx : Text → Node → Reply
  rest_block_idx s n = elim (from_chars_int s) [
    | invalid ↦ reply (ok invalid_block) n
    | out_of_range ↦ reply (ok invalid_block) n
    | scanned (pos i) ↦ indexed_block i n
    | scanned (negsuc i) ↦ reply (ok invalid_block) n
  ]

  unfoldable pub last_blocks : ℕ → Node → Reply
  unfolding blocks_between
  last_blocks k n =
      let count = size n.app.chain in
      let start = if leb count k then 0 else count - k in
      blocks_between (count - start) start n.app.chain >>= λ bs.
      reply (ok (dump (range_json x bs))) n

  -- `/blocks/last/`: a number that is too large leaves the 0.
  unfoldable pub rest_blocks_last : Text → Node → Reply
  unfolding last_blocks
  rest_blocks_last s n = elim (from_chars s) [
    | invalid ↦ reply bad_request n
    | out_of_range ↦ last_blocks 0 n
    | scanned k ↦ last_blocks k n
  ]

  -- `/rest/summary`
  unfoldable pub rest_summary : Node → Reply
  rest_summary n = do
    last ← last? n.app.chain.blocks
    cumdiff ← cum_difficulty n.app.chain
    reply
        (ok (
          dump (
            object x.json (
              (txt "blocks", blocks_json x (last ∷ []))
              ∷ (txt "cumdiff", of_nat cumdiff)
              ∷ (txt "difficulty", of_nat n.app.difficulty)
              ∷ (txt "mining", of_bool (not n.app.mining_done))
              ∷ []))))
        n

  unfoldable pub block_details : ℕ → Option Text → Node → Reply
  unfolding get_indent
  block_details i indent n =
      if leb (size n.app.chain) i
      then reply bad_request n
      else (get_block_details n.app.chain i >>= λ b.
          if b.index == i
          then reply (ok (dump_indent (get_indent indent) (block_to_json x.json b))) n
          else none)

  -- `/rest/block/`: a number that is too large leaves the 0.
  unfoldable pub rest_block : Text → Option Text → Node → Reply
  unfolding block_details
  rest_block s indent n = elim (from_chars s) [
    | invalid ↦ reply bad_request n
    | out_of_range ↦ block_details 0 indent n
    | scanned i ↦ block_details i indent n
  ]

  -- `/rest/unspent`, of an address or, for the empty text, of all.
  unfoldable pub rest_unspent : Text → Option Text → Node → Reply
  unfolding get_indent
  rest_unspent address indent n = get_unspent_tx_outs x n.app.chain address >>= λ outs.
      reply (ok (dump_indent (get_indent indent) (unspent_to_json x.json outs))) n

  -- `/rest/address/`
  unfoldable pub rest_address : Text → Option Text → Node → Reply
  unfolding get_indent
  rest_address address indent n = get_address_ledger x n.app.chain address >>= λ ledger.
      reply (ok (dump_indent (get_indent indent) (ledger_to_json x.json ledger))) n

  -- `/rest/tx/`: what is written for a transaction that is found is followed by the 404.
  unfoldable pub rest_tx : Text → Option Text → Node → Reply
  unfolding get_indent
  rest_tx id indent n = elim (find_transaction n.app.chain id) [
    | none ↦ reply not_found n
    | some (bi, ti) ↦ do
      b ← get_block_details n.app.chain bi
      tx ← get_elem? b.txs ti
      let placed = set (transaction_to_json x.json tx) (txt "blockindex") (of_nat b.index)
      let timed = set placed (txt "time") (of_nat (u64_of_int b.time))
      some (ok (dump_indent (get_indent indent) timed) ∷ not_found ∷ [], n)
  ]
