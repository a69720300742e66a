-- ===== src/Examples/SettledRuns.antt =====
-- A payment out of two rewards, which is mined into the third block of a chain.
use ash_coin.Base.{refl, txt, [], ◌∷◌, some, All, pos, decimal, decimal_ℤ, true}
use ash_coin.CryptoUtils.{letter, get_address_from_private_key}
use ash_coin.Tx.{
  TxIn, TxOutPoint, is_coinbase, calculate_id, get_transaction_id, create_coinbase_transaction,
}
use ash_coin.Block.{
  Block, new_block, set_mined_data, hash_of, valid_hash, calculate_block_hash, sha256_text,
  has_zeros, extra_of,
}
use ash_coin.Miner.{Schedule, mine_block, hash_at}
use ash_coin.Chain.{push_block, add_new_block}
use ash_coin.Chain.Queue.{create_unmined_block, queue_transaction}
use ash_coin.Chain.Unspent.{get_unspent_tx_outs}
use ash_coin.Chain.Unspent.Spent.{IsGone}
use ash_coin.Chain.Create.{create_transaction}
use ash_coin.Chain.Create.Settled.{create_transaction-IsGone}
use ash_coin.Examples.{small, two_blocks}
use ash_coin.Examples.PaymentRuns.{paying_150, whole-IsCompared}

-- Nobody stops the miner.
abbrev unstopped : Schedule
unstopped = record {
  start = pos 0;
  clock = λ n. pos n;
  keep_trying = λ n. true;
  keep_trying_after = true;
  keep_going = λ n i. true;
}

abbrev begun : Block
begun =
    new_block small (pos 0) 2 (txt "9")
      (create_coinbase_transaction small 2 (txt "w") ∷ (calculate_id small paying_150 2 ∷ []))

abbrev mined : Block
mined = set_mined_data 0 0 (pos 0) (hash_at small 0 begun 0 (pos 0)) begun

-- What is left over of the rewards.
abbrev change : TxOutPoint
change = record {
  block_index = 2;
  tx_index = 1;
  tx_out_index = 1;
  address = some (txt "16D");
  amount = some 50;
}

create_transaction-IsGone_example :
    All (λ (i : TxIn). IsGone i.tx_out_pt (change ∷ [])) paying_150.tx_ins
unfolding create_transaction get_unspent_tx_outs is_coinbase get_address_from_private_key decimal
    decimal_ℤ letter create_unmined_block queue_transaction new_block calculate_id
    get_transaction_id create_coinbase_transaction mine_block set_mined_data hash_of
    calculate_block_hash valid_hash sha256_text has_zeros extra_of add_new_block
create_transaction-IsGone_example =
    create_transaction-IsGone small two_blocks two_blocks (push_block mined two_blocks) (txt "k")
      (txt "r") 150 paying_150 (pos 0) (txt "w") begun mined 1 unstopped 0 (txt "16D") (change ∷ [])
      whole-IsCompared (refl, (refl, tt)) refl refl refl refl refl
