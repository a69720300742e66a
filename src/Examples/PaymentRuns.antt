-- ===== src/Examples/PaymentRuns.antt =====
-- Runs of the search for unspent outputs and of the payments that are made of them.
use ash_coin.Base.{
  decimal, ℕ, arith, All, ◌≡◌, refl, txt, [], ◌∷◌, some, List, get_elem?, All-get_elem?,
  get_elem?-lt, length, ◌≤◌, inl, true,
}
use ash_coin.Chain.Unspent.{get_unspent_tx_outs, new_point, hash_point, same_point}
use ash_coin.Chain.Unspent.Kept.{IsNamed, Leaves, Tells, get_unspent_tx_outs-IsNamed}
use ash_coin.Chain.Unspent.Sound.{get_unspent_tx_outs-IsOutput, IsOutput}
use ash_coin.Chain.Create.{create_transaction, payment, spend}
use ash_coin.Chain.Create.Spends.{create_transaction-IsAnswer, IsCompared, IsAnswer}
use ash_coin.Chain.Create.Filled.{IsBacked, create_transaction-IsBacked}
use ash_coin.CryptoUtils.{letter, get_address_from_private_key}
use ash_coin.Tx.{TxOut, TxOutPoint, Transaction, is_coinbase}
use ash_coin.Tx.Result.{success}
use ash_coin.Chain.Unspent.Spent.{IsGone}
use ash_coin.Chain.Unspent.Spent.Loops.{get_unspent_tx_outs-IsGone}
use ash_coin.Tx.{new_tx_in}
use ash_coin.Block.{Block}
use ash_coin.Chain.{Chain}
use ash_coin.Examples.{block_at, genesis, second, whole, small_crypto, small, two_blocks, reward}

-- The output of a reward.
abbrev reward_point : ℕ → TxOutPoint
reward_point n = record {
  block_index = n;
  tx_index = 0;
  tx_out_index = 0;
  address = some (txt "16D");
  amount = some 100;
}

abbrev rewards : List TxOutPoint
rewards = reward_point 0 ∷ reward_point 1 ∷ []

unspent_rewards : get_unspent_tx_outs small two_blocks (txt "16D") ≡ some rewards
unfolding get_unspent_tx_outs is_coinbase
unspent_rewards = refl

get_unspent_tx_outs-IsOutput_example : All (IsOutput two_blocks (txt "16D")) rewards
get_unspent_tx_outs-IsOutput_example =
    get_unspent_tx_outs-IsOutput small two_blocks (txt "16D") rewards unspent_rewards

pub whole-IsCompared : IsCompared whole
whole-IsCompared = record { not_lt = λ a b h. ground arith }

-- A payment of 150 out of the two rewards, with 50 left over.
abbrev pub paying_150 : Transaction
paying_150 = record {
  id = [];
  tx_ins = spend (reward_point 0) ∷ spend (reward_point 1) ∷ [];
  tx_outs = payment small (txt "16D") (txt "r") 150 50;
}

create_transaction-IsAnswer_example :
    IsAnswer small
      (get_address_from_private_key small_crypto (txt "k"))
      (txt "r")
      150
      rewards
      (success, paying_150)
unfolding create_transaction get_unspent_tx_outs is_coinbase get_address_from_private_key decimal
    letter
create_transaction-IsAnswer_example =
    create_transaction-IsAnswer small two_blocks (txt "k") (txt "r") 150 rewards
      (success, paying_150) whole-IsCompared refl refl

create_transaction-IsBacked_example :
    (tx' : Transaction) × IsBacked small two_blocks
      (get_address_from_private_key small_crypto (txt "k"))
      150
      paying_150
      tx'
unfolding create_transaction get_unspent_tx_outs is_coinbase get_address_from_private_key decimal
    letter
create_transaction-IsBacked_example =
    create_transaction-IsBacked small two_blocks (txt "k") (txt "r") 150 paying_150 whole-IsCompared
      (refl, (refl, tt)) refl

-- A third block, in which the first reward is spent.
abbrev spent_once : Transaction
spent_once = record {
  id = txt "s";
  tx_ins = new_tx_in 0 0 0 (txt "signature") ∷ [];
  tx_outs = (record { address = txt "r"; amount = 100 }) ∷ [];
}

abbrev third : Block
third = block_at 2 0 (txt "9") (txt "3") (spent_once ∷ [])

abbrev three_blocks : Chain
three_blocks = record { blocks = genesis ∷ (second ∷ (third ∷ [])); tx_queue = [] }

get_unspent_tx_outs-IsGone_example :
    IsGone ((new_tx_in 0 0 0 (txt "signature")).tx_out_pt) (reward_point 1 ∷ [])
unfolding get_unspent_tx_outs is_coinbase
get_unspent_tx_outs-IsGone_example =
    get_unspent_tx_outs-IsGone small (txt "16D") three_blocks 2 0 0 third spent_once
      (new_tx_in 0 0 0 (txt "signature")) (reward_point 1 ∷ []) (refl, (refl, (refl, tt))) refl refl
      refl refl (omega arith) refl

-- Both transactions are rewards, and the output of the second one is told from that of the first.
rewards_leave :
    (k m : ℕ) (b : Block) (tx : Transaction)
    → get_elem? two_blocks.blocks k ≡ some b
    → get_elem? b.txs m ≡ some tx
    → Leaves small (txt "16D") (reward_point 1) tx
unfolding is_coinbase
rewards_leave k m b tx at_k at_m =
    let of_block =
      All-get_elem? (λ (c : Block). All (λ (t : Transaction). is_coinbase t ≡ some true) c.txs)
        two_blocks.blocks k ((refl, tt), ((refl, tt), tt)) at_k in
    inl (All-get_elem? (λ (t : Transaction). is_coinbase t ≡ some true) b.txs m of_block at_m)

abbrev IsSmall : Block → Type 0
IsSmall c = (length c.txs ≤ 1) × All (λ (t : Transaction). length t.tx_outs ≤ 1) c.txs

rewards_tell :
    (k m i : ℕ) (b : Block) (tx : Transaction) (o : TxOut)
    → get_elem? two_blocks.blocks k ≡ some b
    → get_elem? b.txs m ≡ some tx
    → get_elem? tx.tx_outs i ≡ some o
    → Tells small (reward_point 1) (new_point b.index m i o)
unfolding hash_point same_point
rewards_tell k m i b tx o at_k at_m at_i =
    let (few_txs, few_outs) = All-get_elem? IsSmall two_blocks.blocks k (one, (two, tt)) at_k in
    let outs = All-get_elem? (λ (t : Transaction). length t.tx_outs ≤ 1) b.txs m few_outs at_m in
    let m_zero : m ≡ 0 = omega (arith, get_elem?-lt b.txs m at_m, few_txs) in
    let i_zero : i ≡ 0 = omega (arith, get_elem?-lt tx.tx_outs i at_i, outs) in ground arith
  where
    one : IsSmall genesis
    one = (omega arith, (omega arith, tt))

    two : IsSmall second
    two = (omega arith, (omega arith, tt))

get_unspent_tx_outs-IsNamed_example : IsNamed (reward_point 1) rewards
get_unspent_tx_outs-IsNamed_example =
    get_unspent_tx_outs-IsNamed small two_blocks (txt "16D") 1 0 0 (reward_point 1) rewards
      (record {
        block = second;
        tx = reward 1;
        out = record { address = txt "16D"; amount = 100 };
        block_at = refl;
        tx_at = refl;
        out_at = refl;
        point = refl;
        asked_for = refl;
      })
      rewards_leave rewards_tell unspent_rewards
