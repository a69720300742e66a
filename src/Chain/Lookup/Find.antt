-- ===== src/Chain/Lookup/Find.antt =====
-- What `FindTransaction` finds.
use ash_coin.Base.{
  ℕ, suc, ◌+◌, ◌≡◌, refl, ◌≢◌, Option, none, some, List, [], ◌∷◌, Text, text_eq, text_eq_iff,
  get_elem?, All, take, Bool-cases, inl, inr, arith,
}
use ash_coin.Tx.{Transaction}
use ash_coin.Block.{Block}
use ash_coin.Chain.{Chain}
use ash_coin.Chain.Lookup.{find_in, find_from, find_transaction}

-- No transaction of the list has the id.
abbrev Lacks : Text → List Transaction → Type 0
Lacks txid txs = All (λ (tx : Transaction). tx.id ≢ txid) txs

-- The first transaction of the list with the id is `t` places on.
pub record IsFirst (txid : Text) (txs : List Transaction) (t : ℕ) : Type 0 where
  pub tx : Transaction
  pub tx_at : get_elem? txs t ≡ some tx
  pub id_right : tx.id ≡ txid
  pub none_before : Lacks txid (take t txs)

-- The first transaction with the id in some blocks is in the block `place` places on.
pub record IsFirstIn (txid : Text) (bs : List Block) (index t : ℕ) : Type 0 where
  pub place : ℕ
  pub block : Block
  pub block_at : get_elem? bs place ≡ some block
  pub index_right : index ≡ block.index
  pub first : IsFirst txid block.txs t
  pub none_before : All (λ (b : Block). Lacks txid b.txs) (take place bs)

-- Where a transaction was found, or that there is none.
abbrev IsFoundIn : Text → ℕ → ℕ → List Transaction → Option (ℕ × ℕ) → Type 0
IsFoundIn txid index i txs none = Lacks txid txs
IsFoundIn txid index i txs (some (j, t)) =
    (j ≡ index) × ((k : ℕ) × (t ≡ i + k) × IsFirst txid txs k)

abbrev pub IsFound : Text → List Block → Option (ℕ × ℕ) → Type 0
IsFound txid bs none = All (λ (b : Block). Lacks txid b.txs) bs
IsFound txid bs (some (index, t)) = IsFirstIn txid bs index t

find_in-IsFoundIn :
    (txid : Text) (index i : ℕ) (txs : List Transaction)
    → IsFoundIn txid index i txs (find_in txid index i txs)
unfolding find_in
find_in-IsFoundIn txid index i [] = tt
find_in-IsFoundIn txid index i (tx ∷ txs) = elim (Bool-cases (text_eq tx.id txid)) [
  | inl e ↦
      let here : IsFirst txid (tx ∷ txs) 0 = record {
        tx = tx;
        tx_at = refl;
        id_right = (text_eq_iff tx.id txid).0 e;
        none_before = tt;
      } in
      rw e (refl, (0, omega arith, here))
  | inr e ↦ rw e (
      later (find_in txid index (i + 1) txs) (find_in-IsFoundIn txid index (i + 1) txs)
        (λ q. ground (arith, text_eq_iff tx.id txid)))
]
  where
    later :
        (o : Option (ℕ × ℕ))
        → IsFoundIn txid index (i + 1) txs o
        → tx.id ≢ txid
        → IsFoundIn txid index i (tx ∷ txs) o
    later none l n = (n, l)
    later (some (j, t)) (e, (k, p, f)) n =
        let after : IsFirst txid (tx ∷ txs) (suc k) = record {
          tx = f.tx;
          tx_at = f.tx_at;
          id_right = f.id_right;
          none_before = (n, f.none_before);
        } in
        (e, (suc k, omega arith, after))

find_from-IsFound : (txid : Text) (bs : List Block) → IsFound txid bs (find_from txid bs)
unfolding find_from
find_from-IsFound txid [] = tt
find_from-IsFound txid (b ∷ bs) =
    go (find_in txid b.index 0 b.txs) (find_in-IsFoundIn txid b.index 0 b.txs) (find_from txid bs)
      (find_from-IsFound txid bs)
  where
    go :
        (o : Option (ℕ × ℕ))
        → IsFoundIn txid b.index 0 b.txs o
        → (rest : Option (ℕ × ℕ)) → IsFound txid bs rest
        → IsFound txid (b ∷ bs) (elim o [ some p ↦ some p | none ↦ rest ])
    go none l none m = (l, m)
    go none l (some (j, t)) m = record {
      place = suc (m.place);
      block = m.block;
      block_at = m.block_at;
      index_right = m.index_right;
      first = m.first;
      none_before = (l, m.none_before);
    }
    go (some (j, t)) (e, (k, p, f)) rest m =
        let same : k ≡ t = omega arith in
        record {
          place = 0;
          block = b;
          block_at = refl;
          index_right = e;
          first = rw same at f;
          none_before = tt;
        }

-- `FindTransaction` gives the index of the block and the place in it of the first transaction of the
-- chain that has the id, and nothing only where no transaction of the chain has it.
pub find_transaction-IsFound :
    (c : Chain) (txid : Text) → IsFound txid c.blocks (find_transaction c txid)
unfolding find_transaction
find_transaction-IsFound c txid = find_from-IsFound txid c.blocks
