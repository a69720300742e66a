-- ===== src/App/Messages/Whole.antt =====
-- What messages from other nodes can do to the state of the node.
use ash_coin.Base.{
  ◌+◌, ◌-◌, ◌%◌, ◌^◌, ◌≡◌, refl, Bool, not, ◌&&◌, ◌||◌, Option, some, List, Text, text_eq,
  text_eq_iff, inl, inr, ◌⊎◌, Bool-cases, Option-cases, Holds, Holds-bind, Holds-then, Holds-if,
  ltb, leb, ◌==◌, ◌>>=◌, if◌then◌else◌, head?, last?, get_elem?, arith, head?-IsNonEmpty,
}
use ash_coin.External.{External}
use ash_coin.Block.{Block}
use ash_coin.Chain.{Chain, size, is_valid_chain}
use ash_coin.App.{App}
use ash_coin.App.InStep.{IsWhole, sync_blockchain-cases}
use ash_coin.App.Messages.{
  Sent, handle_chain_response, then_sync, handle_chain, handle_response, on_chain_message,
}

-- Where the blocks of a chain belong in another: it begins at block 0, or its first block names the
-- hash of the block that is there before it.
abbrev pub Fits : Chain → Chain → Type 0
Fits t c =
    (f : Block) × (head? t.blocks ≡ some f)
    × ((f.index ≡ 0)
        ⊎ ((p : Block) × (get_elem? c.blocks (f.index - 1) ≡ some p) × (f.prev ≡ p.hash)))

module _ {J : Type 0} (x : External J) where
  -- What `handleChainResponse` leaves.
  abbrev pub IsTaken : Chain → App → List (Sent J) × App → Type 0
  IsTaken t app (sent, app') =
      (app' ≡ app) ⊎ ((app' ≡ record app { temp = some t }) × Fits t app.chain)

  -- `handleChainResponse` changes nothing but the temporary chain, and puts a chain there only if the
  -- chain begins at block 0 or its first block names the hash of the block before its place.
  pub handle_chain_response-IsTaken :
      (t : Chain) (app : App) → Holds (IsTaken t app) (handle_chain_response x t app)
  unfolding handle_chain_response
  handle_chain_response-IsTaken t app = elim (Option-cases (head? t.blocks)) [
    | inl e ↦ rw (e, ◌>>=◌) tt
    | inr (f, ef) ↦ elim (Option-cases (last? t.blocks)) [
      | inl e ↦ rw (ef, ◌>>=◌, e) tt
      | inr (z, ez) ↦
          rw (ef, ez, ◌>>=◌)
            (elim (Bool-cases (f.index == 0)) [
              | inl e ↦ rw e (inr (refl, (f, ef, inl (ground arith))))
              | inr e ↦ elim (Option-cases (last? app.chain.blocks)) [
                | inl el ↦ rw (e, el, ◌>>=◌) tt
                | inr (l, el) ↦
                    rw (e, el, ◌>>=◌)
                      (elim (Bool-cases (ltb ((l.index + 1) % 2 ^ 64) f.index)) [
                        | inl e' ↦ rw e' (inl refl)
                        | inr e' ↦
                            rw e'
                              (elim (Bool-cases
                                (ltb (f.index - 1) (size app.chain) && ltb 0 (f.index - 1))) [
                                  | inr off ↦ rw off tt
                                  | inl on ↦
                                      rw on
                                        (elim (Option-cases
                                          (get_elem? app.chain.blocks (f.index - 1))) [
                                            | inl ep ↦ rw (ep, ◌>>=◌) tt
                                            | inr (p, ep) ↦
                                                rw (ep, ◌>>=◌)
                                                  (elim (Bool-cases (text_eq f.prev p.hash)) [
                                                    | inl q ↦ rw q (
                                                        inr (
                                                          refl,
                                                          (
                                                            f,
                                                            ef,
                                                            inr (
                                                            p,
                                                            ep,
                                                            (text_eq_iff f.prev p.hash).0 q,
                                                            ),
                                                          ),
                                                        ))
                                                    | inr q ↦ rw q (inl refl)
                                                  ])
                                          ])
                                ])
                      ])
              ]
            ])
    ]
  ]

  then_sync-IsWhole :
      (blank : Block) (sent : List (Sent J)) (app : App)
      → IsWhole app
      → Holds (λ (_, app'). IsWhole app') (then_sync x blank sent app)
  then_sync-IsWhole blank sent app w = elim (Bool-cases app.mining_done) [
    | inr e ↦ rw e w
    | inl e ↦ elim (sync_blockchain-cases x blank app w) [
      | inl stop ↦ simp e (rw (stop, ◌>>=◌) tt)
      | inr (r, app', q, w', t) ↦ simp e (rw (q, ◌>>=◌) w')
    ]
  ]

  taken-IsWhole :
      (t : Chain) (app : App) (sent : List (Sent J)) (app' : App)
      → IsWhole app
      → IsTaken t app (sent, app')
      → IsWhole app'
  taken-IsWhole t app sent app' w (inl e) = rw e w
  taken-IsWhole t app sent app' (n, m, h) (inr (e, (f, ef, _))) =
      rw e (n, head?-IsNonEmpty t.blocks ef, h)

  handle_chain-IsWhole :
      (blank : Block) (t : Chain) (app : App)
      → IsWhole app
      → Holds (λ (_, app'). IsWhole app') (handle_chain x blank t app)
  unfolding handle_chain
  handle_chain-IsWhole blank t app w = elim (Option-cases (is_valid_chain x t)) [
    | inl e ↦ rw (e, ◌>>=◌) tt
    | inr (v, e) ↦
        rw (e, ◌>>=◌)
          (elim (Bool-cases (leb (size t) 0 || not v)) [
            | inl q ↦ rw q w
            | inr q ↦ rw q (
                Holds-bind (IsTaken t app) (λ (_, app'). IsWhole app')
                  (handle_chain_response x t app) (λ (sent, app'). then_sync x blank sent app')
                  (handle_chain_response-IsTaken t app)
                  (λ (sent, app') k.
                    then_sync-IsWhole blank sent app' (taken-IsWhole t app sent app' w k)))
          ])
  ]

  -- The state is whole behind it, if it returns.
  abbrev Safe : Option (List (Sent J) × App) → Type 0
  Safe = Holds (λ (_, app'). IsWhole app')

  Safe-then :
      {A : Type 0} (o : Option A) (f : A → Option (List (Sent J) × App))
      → ((a : A) → Safe (f a))
      → Safe (o >>= f)
  Safe-then = Holds-then (λ (_, app'). IsWhole app')

  Safe-if :
      (b : Bool) (o p : Option (List (Sent J) × App)) → Safe o → Safe p → Safe (if b then o else p)
  Safe-if = Holds-if (λ (_, app'). IsWhole app')

  handle_response-IsWhole :
      (blank : Block) (reset_enabled : Bool) (j : J) (app : App)
      → IsWhole app
      → Safe (handle_response x blank reset_enabled j app)
  unfolding handle_response
  handle_response-IsWhole blank reset_enabled j app w =
      search (Safe-then, Safe-if, then_sync-IsWhole, handle_chain-IsWhole) depth 12

  -- A message of another node, whatever its text is, leaves a node whole that is whole, if no
  -- exception or assertion ends it: the chain has a block, a temporary chain has one, and the file
  -- holds the blocks of the chain.
  pub on_chain_message-IsWhole :
      (blank : Block) (reset_enabled : Bool) (raw : Text) (app : App)
      → IsWhole app
      → Holds (λ (_, app'). IsWhole app') (on_chain_message x blank reset_enabled raw app)
  unfolding on_chain_message
  on_chain_message-IsWhole blank reset_enabled raw app w = elim (Option-cases (x.json.parse raw)) [
    | inl e ↦ rw (on_chain_message, e) w
    | inr (j, e) ↦
        rw (on_chain_message, e) (search (Safe-then, Safe-if, handle_response-IsWhole) depth 12)
  ]
