-- ===== src/Chain/Create/Filled.antt =====
-- What the details of a payment of `CreateTransaction` say, once its inputs are looked up as
-- `GetBlockDetails` does.
use ash_coin.Base.{
  ℕ, zero, suc, ◌+◌, ◌<◌, ◌≡◌, refl, ap, ◌∙◌, false, some, List, [], ◌∷◌, ◌++◌, map, Text, txt,
  text_eq, text_eq_iff, get_elem?, All, All-map, Bool-cases, Option-cases, inl, inr, arith, ◌>>=◌,
}
use mathlib.Core.Option.{some-injective, none-ne-some}
use ash_coin.External.{External, Boost}
use ash_coin.CryptoUtils.{get_address_from_private_key}
use ash_coin.Tx.{TxOutPoint, TxIn, Transaction}
use ash_coin.Tx.Result.{success}
use ash_coin.Block.{Block}
use ash_coin.Chain.{Chain}
use ash_coin.Chain.Numbered.{IsNumbered}
use ash_coin.Chain.Lookup.{output_at, fill_in, for_each, fill_transaction, sum_ins}
use ash_coin.Chain.Unspent.{get_unspent_tx_outs, hash_point}
use ash_coin.Chain.Unspent.Sorted.{IsRising, get_unspent_tx_outs-IsRising}
use ash_coin.Chain.Unspent.Sound.{IsOutput, get_unspent_tx_outs-IsOutput}
use ash_coin.Chain.Create.{create_transaction, spend, payment}
use ash_coin.Chain.Create.Spends.{sum_points, IsCompared, create_transaction-IsAnswer}

-- An input that spends a point, with the details of the point.
abbrev filled : TxOutPoint → TxIn
filled p = record { tx_out_pt = p; signature = txt "signature" }

pub IsNumbered-get_elem? :
    (k : ℕ) (bs : List Block) (i : ℕ) {b : Block}
    → IsNumbered k bs
    → get_elem? bs i ≡ some b
    → b.index ≡ k + i
IsNumbered-get_elem? k [] i n e = absurd (none-ne-some _ e)
IsNumbered-get_elem? k (b ∷ bs) zero (n, ns) e =
    let same = ap (λ (c : Block). c.index) (some-injective _ _ e) in omega (arith, same, n)
IsNumbered-get_elem? k (b ∷ bs) (suc i) (n, ns) e =
    omega (arith, IsNumbered-get_elem? (suc k) bs i ns e)

module _ (c : Chain) where
  fill_in-spend :
      (wanted : Text) (p : TxOutPoint)
      → IsNumbered 0 c.blocks
      → IsOutput c wanted p
      → fill_in c (spend p) ≡ some (filled p)
  unfolding fill_in output_at
  fill_in-spend wanted p n o =
      let at_place : p.block_index ≡ o.place =
        omega (arith, o.index_right, IsNumbered-get_elem? 0 c.blocks o.place n o.block_at) in
      rw
        (
          fill_in,
          output_at,
          at_place,
          o.block_at,
          ◌>>=◌,
          o.tx_at,
          o.out_at,
          ← o.address_right,
          ← o.amount_right,
        )
        refl

  for_each-fill_in :
      (wanted : Text) (ps : List TxOutPoint)
      → IsNumbered 0 c.blocks
      → All (IsOutput c wanted) ps
      → for_each (fill_in c) (map spend ps) ≡ some (map filled ps)
  for_each-fill_in wanted [] n _ = refl
  for_each-fill_in wanted (p ∷ ps) n (o, os) =
      rw (fill_in-spend wanted p n o, for_each-fill_in wanted ps n os) refl

IsOutput-address :
    (c : Chain) (wanted : Text) (p : TxOutPoint)
    → text_eq wanted [] ≡ false
    → IsOutput c wanted p
    → p.address ≡ some wanted
IsOutput-address c wanted p filled_in o =
    o.address_right
    ∙ ap some ((text_eq_iff o.out.address wanted).0 (ground (arith, o.asked_for, filled_in)))

All-before : {A : Type 0} (P : A → Type 0) (xs ys : List A) → All P (xs ++ ys) → All P xs
All-before P [] ys _ = tt
All-before P (x ∷ xs) ys (p, ps) = (p, All-before P xs ys ps)

IsRising-before :
    (boost : Boost) (ps qs : List TxOutPoint) → IsRising boost (ps ++ qs) → IsRising boost ps
IsRising-before boost [] qs _ = tt
IsRising-before boost (p ∷ ps) qs (h, hs) = (All-before _ ps qs h, IsRising-before boost ps qs hs)

IsRising-spend :
    (boost : Boost) (ps : List TxOutPoint)
    → IsRising boost ps
    → IsRising boost (map (λ (i : TxIn). i.tx_out_pt) (map spend ps))
unfolding hash_point
IsRising-spend boost [] _ = tt
IsRising-spend boost (p ∷ ps) (h, hs) = (go ps h, IsRising-spend boost ps hs)
  where
    go :
        (qs : List TxOutPoint)
        → All (λ q. hash_point boost p < hash_point boost q) qs
        → All
            (λ q. hash_point boost ((spend p).tx_out_pt) < hash_point boost q)
            (map (λ (i : TxIn). i.tx_out_pt) (map spend qs))
    go [] _ = tt
    go (q ∷ qs) (k, ks) = (k, go qs ks)

All-filled :
    (wanted : Text) (ps : List TxOutPoint)
    → All (λ (p : TxOutPoint). p.address ≡ some wanted) ps
    → All (λ (i : TxIn). i.tx_out_pt.address ≡ some wanted) (map filled ps)
All-filled wanted [] _ = tt
All-filled wanted (p ∷ ps) (h, hs) = (h, All-filled wanted ps hs)

module _ {J : Type 0} (x : External J) where
  sum_ins-filled :
      (ps : List TxOutPoint) (acc : ℕ) → sum_ins x (map filled ps) acc ≡ sum_points x.double acc ps
  unfolding sum_ins
  sum_ins-filled [] acc = refl
  sum_ins-filled (p ∷ ps) acc = elim (Option-cases p.amount) [
    | inl e ↦ rw (sum_ins, sum_points, e) refl
    | inr (a, e) ↦ rw (sum_ins, sum_points, e) (sum_ins-filled ps (x.double.add acc a))
  ]

  -- The details of a payment: the inputs name different outputs of the chain, all of them to the
  -- sender, and their sum is not below the amount.
  pub record IsBacked (c : Chain) (sender : Text) (amount : ℕ) (tx tx' : Transaction) : Type 0 where
    pub found : fill_transaction c tx ≡ some tx'
    pub same_outs : tx'.tx_outs ≡ tx.tx_outs
    pub different : IsRising x.boost (map (λ (i : TxIn). i.tx_out_pt) tx.tx_ins)
    pub to_sender : All (λ (i : TxIn). i.tx_out_pt.address ≡ some sender) tx'.tx_ins
    pub total : ℕ
    pub summed : sum_ins x tx'.tx_ins 0 ≡ some total
    pub enough : x.double.lt total amount ≡ false

  unspent_of_payment :
      (c : Chain) (pk receiver : Text) (amount : ℕ) (tx : Transaction)
      → create_transaction x c pk receiver amount ≡ some (success, tx)
      → (ps : List TxOutPoint) × (get_unspent_tx_outs x c (get_address_from_private_key x.crypto pk)
          ≡ some ps)
  unfolding create_transaction
  unspent_of_payment c pk receiver amount tx e =
      let sender = get_address_from_private_key x.crypto pk in
      elim (Option-cases (get_unspent_tx_outs x c sender)) [
        | inr found ↦ found
        | inl lost ↦ elim (Bool-cases (x.boost.iequals receiver sender)) [
          | inl self ↦ absurd (ground (arith, rw (create_transaction, self) at e))
          | inr other ↦ absurd (none-ne-some _ (rw (create_transaction, other, lost, ◌>>=◌) at e))
        ]
      ]

  -- What a payment was gathered from: outputs of the chain to the sender, each once.
  pub record IsFunded (c : Chain) (sender receiver : Text) (amount : ℕ) (tx : Transaction)
      : Type 0 where
    pub points : List TxOutPoint
    pub leftover : ℕ
    pub total : ℕ
    pub ins : tx.tx_ins ≡ map spend points
    pub outs : tx.tx_outs ≡ payment x sender receiver amount leftover
    pub summed : sum_points x.double 0 points ≡ some total
    pub enough : x.double.lt total amount ≡ false
    pub sound : All (IsOutput c sender) points
    pub rising : IsRising x.boost points

  pub create_transaction-IsFunded :
      (c : Chain) (pk receiver : Text) (amount : ℕ) (tx : Transaction)
      → IsCompared x.double
      → create_transaction x c pk receiver amount ≡ some (success, tx)
      → IsFunded c (get_address_from_private_key x.crypto pk) receiver amount tx
  create_transaction-IsFunded c pk receiver amount tx laws e =
      let sender = get_address_from_private_key x.crypto pk in
      let (ps, u) = unspent_of_payment c pk receiver amount tx e in
      let (g, h, fits, ins, outs) =
        create_transaction-IsAnswer x c pk receiver amount ps (success, tx) laws u e in
      record {
        points = g.included;
        leftover = g.leftover;
        total = g.current;
        ins = ins;
        outs = outs;
        summed = h.summed;
        enough = fits;
        sound =
            All-before (IsOutput c sender) g.included h.unused
              (rw h.split at (get_unspent_tx_outs-IsOutput x c sender ps u));
        rising =
            IsRising-before x.boost g.included h.unused
              (rw h.split at (get_unspent_tx_outs-IsRising x c sender ps u));
      }

  address_not_empty : (pk : Text) → text_eq (get_address_from_private_key x.crypto pk) [] ≡ false
  unfolding get_address_from_private_key
  address_not_empty pk = refl

  -- On a chain whose blocks have their places as indices, where `CreateTransaction` succeeds, each
  -- input of the payment is found in the chain as `GetBlockDetails` looks it up: it is an output to
  -- the sender, no output is named twice, and the outputs named are not below the amount in sum.
  pub create_transaction-IsBacked :
      (c : Chain) (pk receiver : Text) (amount : ℕ) (tx : Transaction)
      → IsCompared x.double
      → IsNumbered 0 c.blocks
      → create_transaction x c pk receiver amount ≡ some (success, tx)
      → (tx' : Transaction) × IsBacked c (get_address_from_private_key x.crypto pk) amount tx tx'
  unfolding fill_transaction
  create_transaction-IsBacked c pk receiver amount tx laws n e =
      let sender = get_address_from_private_key x.crypto pk in
      let h = create_transaction-IsFunded c pk receiver amount tx laws e in
      let own =
        All-map (λ p o. IsOutput-address c sender p (address_not_empty pk) o) h.points h.sound in
      let tx' : Transaction = record tx { tx_ins = map filled h.points } in
      (
        tx',
        record {
          found = rw (h.ins, for_each-fill_in c sender h.points n h.sound) refl;
          same_outs = refl;
          different = rw h.ins (IsRising-spend x.boost h.points h.rising);
          to_sender = All-filled sender h.points own;
          total = h.total;
          summed = sum_ins-filled h.points 0 ∙ h.summed;
          enough = h.enough;
        },
      )
