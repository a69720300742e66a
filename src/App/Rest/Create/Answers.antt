-- ===== src/App/Rest/Create/Answers.antt =====
-- The answers of `/rest/createtx` of src/MinerApp.cpp.
use ash_coin.Base.{
  Bool-cases, ℕ, ◌≡◌, ◌≢◌, refl, true, false, Option, none, some, List, [], ◌∷◌, Text, txt, ◌>>=◌,
  inl, inr, ◌⊎◌, Option-cases, Holds, arith,
}
use mathlib.Core.Bool.{false≢true}
use mathlib.Core.Option.{some-injective, none-ne-some}
use ash_coin.External.{External}
use ash_coin.CryptoUtils.{get_address_from_private_key}
use ash_coin.Tx.{Transaction}
use ash_coin.Tx.Json.{text_at, double_at}
use ash_coin.Tx.Result.{
  TxResult, success, insufficient_funds, txouts_empty, noop_transaction, to_string,
}
use ash_coin.Chain.Create.{create_transaction}
use ash_coin.App.Rest.{Node, Written, bad_request, status_only}
use ash_coin.App.Rest.Create.{
  with_queued, refused, answer_created, is_malformed, create_from, rest_create_tx,
}

module _ {J : Type 0} (x : External J) where
  -- The content is no json value, or one of the three members is not there, or the amount is no number.
  abbrev pub IsNoPayment : Text → Type 0
  IsNoPayment content =
      (x.json.parse content ≡ none)
      ⊎ ((j : J) × (x.json.parse content ≡ some j)
          × ((x.json.contains j (txt "toaddress") ≡ false)
              ⊎ ((x.json.contains j (txt "privatekey") ≡ false)
                  ⊎ ((x.json.contains j (txt "amount") ≡ false)
                      ⊎ ((v : J) × (x.json.get j (txt "amount") ≡ some v)
                          × (x.json.is_number v ≡ false))))))

  -- The content asks for a payment of the amount with the key to the address.
  pub record AsksFor (content to key : Text) (amount : ℕ) : Type 0 where
    pub value : J
    pub parsed : x.json.parse content ≡ some value
    pub to_right : text_at x.json value (txt "toaddress") ≡ some to
    pub key_right : text_at x.json value (txt "privatekey") ≡ some key
    pub amount_right : double_at x.json value (txt "amount") ≡ some amount

  -- The transaction that was asked for is queued, and 201 is written.
  abbrev pub WasQueued : Text → Node → List Written × Node → Type 0
  WasQueued content n (ws, n') =
      (to : Text) × (key : Text) × (amount : ℕ) × (tx : Transaction) × AsksFor content to key amount
      × (create_transaction x n.app.chain key to amount ≡ some (success, tx))
      × (ws ≡ status_only 201 ∷ [])
      × (n' ≡ with_queued tx n)

  -- No transaction was made, and 500 is written with the text of the result.
  abbrev pub WasRefused : Text → Text → Node → List Written × Node → Type 0
  WasRefused path content n (ws, n') =
      (to : Text) × (key : Text) × (amount : ℕ) × (r : TxResult) × (tx : Transaction)
      × (title : Text) × AsksFor content to key amount
      × (create_transaction x n.app.chain key to amount ≡ some (r, tx))
      × (r ≢ success)
      × (to_string r ≡ some title)
      × (ws ≡ refused x path title ∷ [])
      × (n' ≡ n)

  abbrev pub WasMalformed : Text → Node → List Written × Node → Type 0
  WasMalformed content n (ws, n') = IsNoPayment content × (ws ≡ bad_request ∷ []) × (n' ≡ n)

  abbrev pub IsAnswered : Text → Text → Node → List Written × Node → Type 0
  IsAnswered path content n r =
      WasMalformed content n r ⊎ (WasQueued content n r ⊎ WasRefused path content n r)

  create_from-IsAnswered :
      (path content to key : Text) (amount : ℕ) (n : Node)
      → AsksFor content to key amount
      → Holds (IsAnswered path content n) (create_from x path to key amount n)
  unfolding create_from to_string
  create_from-IsAnswered path content to key amount n asked =
      go (create_transaction x n.app.chain key to amount) refl
    where
      go :
          (o : Option (TxResult × Transaction))
          → create_transaction x n.app.chain key to amount ≡ o
          → Holds (IsAnswered path content n) (o >>= λ r. answer_created x path r n)
      go none e = tt
      go (some (success, tx)) e = inr (inl (to, key, amount, tx, asked, e, refl, refl))
      go (some (insufficient_funds, tx)) e = inr (
          inr
            (to, key, amount, insufficient_funds, tx, _, asked, e, ground arith, refl, refl, refl))
      go (some (txouts_empty, tx)) e =
          inr (inr (to, key, amount, txouts_empty, tx, _, asked, e, ground arith, refl, refl, refl))
      go (some (noop_transaction, tx)) e = tt

  is_malformed-IsNoPayment :
      (content : Text) (j : J)
      → x.json.parse content ≡ some j
      → is_malformed x j ≡ some true
      → IsNoPayment content
  unfolding is_malformed
  is_malformed-IsNoPayment content j p e = elim (Bool-cases (x.json.contains j (txt "toaddress"))) [
    | inr a ↦ inr (j, p, inl a)
    | inl a ↦ elim (Bool-cases (x.json.contains j (txt "privatekey"))) [
      | inr k ↦ inr (j, p, inr (inl k))
      | inl k ↦ elim (Bool-cases (x.json.contains j (txt "amount"))) [
        | inr m ↦ inr (j, p, inr (inr (inl m)))
        | inl m ↦ elim (Option-cases (x.json.get j (txt "amount"))) [
          | inl g ↦ absurd (none-ne-some _ (rw (is_malformed, a, k, m, g, ◌>>=◌) at e))
          | inr (v, g) ↦ elim (Bool-cases (x.json.is_number v)) [
            | inr w ↦ inr (j, p, inr (inr (inr (v, g, w))))
            | inl w ↦
                absurd
                  (false≢true (some-injective _ _ (rw (is_malformed, a, k, m, g, ◌>>=◌, w) at e)))
          ]
        ]
      ]
    ]
  ]

  read_payment-IsAnswered :
      (path content : Text) (j : J) (n : Node)
      → x.json.parse content ≡ some j
      → Holds (IsAnswered path content n) (do
        toaddress ← text_at x.json j (txt "toaddress")
        private_key ← text_at x.json j (txt "privatekey")
        amount ← double_at x.json j (txt "amount")
        create_from x path toaddress private_key amount n)
  read_payment-IsAnswered path content j n p =
      elim (Option-cases (text_at x.json j (txt "toaddress"))) [
        | inl a ↦ rw (a, ◌>>=◌) tt
        | inr (to, a) ↦ elim (Option-cases (text_at x.json j (txt "privatekey"))) [
          | inl k ↦ rw (a, ◌>>=◌, k, ◌>>=◌) tt
          | inr (key, k) ↦ elim (Option-cases (double_at x.json j (txt "amount"))) [
            | inl m ↦ rw (a, ◌>>=◌, k, ◌>>=◌, m, ◌>>=◌) tt
            | inr (amount, m) ↦
                rw (a, ◌>>=◌, k, ◌>>=◌, m, ◌>>=◌)
                  (create_from-IsAnswered path content to key amount n (record {
                    value = j;
                    parsed = p;
                    to_right = a;
                    key_right = k;
                    amount_right = m;
                  }))
          ]
        ]
      ]

  -- `/rest/createtx`, if it is answered, answers in one of three ways. The content is no json value or
  -- lacks an address, a key or an amount, or the amount is no number, and 400 is written; or the
  -- transaction that CreateTransaction makes for the address, the key and the amount of the content
  -- is queued as it is, and 201 is written; or CreateTransaction gives another result for them, and
  -- 500 is written with its text. In the first and the last case the node is as it was.
  pub rest_create_tx-IsAnswered :
      (path content : Text) (n : Node)
      → Holds (IsAnswered path content n) (rest_create_tx x path content n)
  unfolding rest_create_tx
  rest_create_tx-IsAnswered path content n = elim (Option-cases (x.json.parse content)) [
    | inl e ↦ rw (rest_create_tx, e) (inl (inl e, refl, refl))
    | inr (j, e) ↦
        rw (rest_create_tx, e)
          (elim (Option-cases (is_malformed x j)) [
            | inl f ↦ rw (f, ◌>>=◌) tt
            | inr (true, f) ↦
                rw (f, ◌>>=◌) (inl (is_malformed-IsNoPayment content j e f, refl, refl))
            | inr (false, f) ↦ rw (f, ◌>>=◌) (read_payment-IsAnswered path content j n e)
          ])
  ]

  -- A payment to the address of the key that pays is not answered: an exception ends the handler.
  pub rest_create_tx_to_self :
      (path content to key : Text) (amount : ℕ) (j : J) (n : Node)
      → x.json.parse content ≡ some j
      → is_malformed x j ≡ some false
      → text_at x.json j (txt "toaddress") ≡ some to
      → text_at x.json j (txt "privatekey") ≡ some key
      → double_at x.json j (txt "amount") ≡ some amount
      → x.boost.iequals to (get_address_from_private_key x.crypto key) ≡ true
      → rest_create_tx x path content n ≡ none
  unfolding rest_create_tx create_from create_transaction to_string
  rest_create_tx_to_self path content to key amount j n ep em et ek ea same =
      rw
        (
          rest_create_tx, ep, em, ◌>>=◌, et, ◌>>=◌, ek, ◌>>=◌, ea, ◌>>=◌, create_from,
          create_transaction, same,
        )
        refl
