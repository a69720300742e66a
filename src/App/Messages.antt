-- ===== src/App/Messages.antt =====
-- The messages between nodes of src/MinerApp.cpp: what a node answers, and what it does with answers.
pub mod Answers
pub mod Whole
pub mod Chained
pub mod CatchUp
pub mod Wire
use ash_coin.Base.{
  ℕ, suc, ◌+◌, ◌-◌, ◌%◌, ◌^◌, Bool, true, false, not, ◌&&◌, ◌||◌, Option, none, some, List, [], ◌∷◌,
  ◌++◌, map, Text, txt, text_eq, ltb, leb, ◌==◌, ◌>>=◌, if◌then◌else◌, head?, last?, length,
  get_elem?,
}
use ash_coin.External.{External, object, array}
use ash_coin.Tx.Json.{nat_at, text_at}
use ash_coin.Block.{Block, same_block}
use ash_coin.Block.Json.{block_to_json, block_of_json}
use ash_coin.Chain.{Chain, size, cum_difficulty, is_valid_chain}
use ash_coin.Chain.Json.{chain_to_json, chain_of_json}
use ash_coin.App.{App, sync_blockchain}

-- What is sent on the connection: a request with its range of blocks, a response with its content,
-- or an error.
pub data Sent (J : Type 0) : Type 0 where
  request : Text → Sent J
  request_range : ℕ → ℕ → Sent J
  response : Text → J → Sent J
  error : Text → Sent J

-- The blocks from the first one with index `id1` on.
unfoldable pub blocks_from : ℕ → List Block → List Block
blocks_from id1 [] = []
blocks_from id1 (b ∷ bs) = if b.index == id1 then b ∷ bs else blocks_from id1 bs

-- The blocks up to the first one with an index above `id2`.
unfoldable pub blocks_to : ℕ → List Block → List Block
blocks_to id2 [] = []
blocks_to id2 (b ∷ bs) = if leb b.index id2 then b ∷ blocks_to id2 bs else []

module _ {J : Type 0} (x : External J) where
  open x.json use {null, of_nat, of_text, get, contains, items, is_array, is_number}

  abbrev pub blocks_json : List Block → J
  blocks_json bs = array x.json (map (block_to_json x.json) bs)

  abbrev error_json : Text → J
  error_json s = object x.json ((txt "error", of_text s) ∷ [])

  -- An assignment is needed for the key to be there: without a block there is none.
  abbrev pub range_json : List Block → J
  range_json [] = null
  range_json (b ∷ bs) = object x.json ((txt "blocks", blocks_json (b ∷ bs)) ∷ [])

  unfoldable pub answer_summary : App → Option J
  answer_summary app = do
    first ← head? app.chain.blocks
    last ← last? app.chain.blocks
    cumdiff ← cum_difficulty app.chain
    some (
        object x.json
          ((txt "blocks", blocks_json (first ∷ last ∷ [])) ∷ (txt "cumdiff", of_nat cumdiff) ∷ []))

  unfoldable pub answer_range : ℕ → ℕ → App → J
  unfolding blocks_from blocks_to
  answer_range id1 id2 app = elim (blocks_from id1 app.chain.blocks) [
    | [] ↦ error_json (txt "could not find id1 in chain")
    | b ∷ bs ↦ range_json (blocks_to id2 (b ∷ bs))
  ]

  unfoldable pub answer_chain : J → App → Option J
  unfolding answer_range
  answer_chain j app =
      if not (contains j (txt "id1")) && not (contains j (txt "id2"))
      then some (object x.json ((txt "blocks", chain_to_json x.json app.chain) ∷ []))
      else (do
        v1 ← get j (txt "id1")
        (if not (is_number v1) then some (error_json (txt "invalid 'id1' value")) else (do
          v2 ← get j (txt "id2")
          (if not (is_number v2) then some (error_json (txt "invalid 'id2' value")) else (do
            id1 ← nat_at x.json j (txt "id1")
            id2 ← nat_at x.json j (txt "id2")
            some (answer_range id1 id2 app))))))

  -- The node is told of a new block: whether it asks for a summary.
  unfoldable pub wants_summary : J → App → Option Bool
  wants_summary j app = do
    newblock ← get j (txt "block") >>= block_of_json x.json
    remote ← nat_at x.json j (txt "cumdiff")
    local ← cum_difficulty app.chain
    last ← last? app.chain.blocks
    some (ltb local remote || (remote == local && ltb last.index newblock.index))

  unfoldable pub answer_create : J → J
  answer_create j =
      if not (contains j (txt "privatekey"))
        || (not (contains j (txt "toaddress")) || not (contains j (txt "amount")))
      then error_json (txt "invalid transaction")
      else null

  -- `MinerApp::dispatchRequest`, with what is sent. The state stays as it is.
  unfoldable pub dispatch_request : J → App → Option (List (Sent J))
  unfolding answer_summary answer_chain wants_summary answer_create
  dispatch_request j app = text_at x.json j (txt "message") >>= λ message.
      if text_eq message (txt "summary")
      then (answer_summary app >>= λ r. some (response message r ∷ []))
      else if text_eq message (txt "chain")
      then (answer_chain j app >>= λ r. some (response message r ∷ []))
      else if text_eq message (txt "newblock")
      then (wants_summary j app >>= λ ask.
          some ((if ask then request (txt "summary") else response message null) ∷ []))
      else if text_eq message (txt "createtx")
      then some (response message (answer_create j) ∷ [])
      else some []

  -- `MinerApp::handleChainResponse`
  unfoldable pub handle_chain_response : Chain → App → Option (List (Sent J) × App)
  handle_chain_response t app = do
    first ← head? t.blocks
    end ← last? t.blocks
    elim (first.index == 0) [
      | true ↦ some ([], record app { temp = some t })
      | false ↦ last? app.chain.blocks >>= λ last.
          elim (ltb ((last.index + 1) % 2 ^ 64) first.index) [
            | true ↦ some (request_range ((last.index + 1) % 2 ^ 64) end.index ∷ [], app)
            | false ↦
                let before = first.index - 1 in
                elim (ltb before (size app.chain) && ltb 0 before) [
                  | false ↦ none
                  | true ↦ get_elem? app.chain.blocks before >>= λ p.
                      if text_eq first.prev p.hash
                      then some ([], record app { temp = some t })
                      else some (request_range before end.index ∷ [], app)
                ]
          ]
    ]

  abbrev is_summary : J → Option Bool
  is_summary j =
      if contains j (txt "blocks")
      then (get j (txt "blocks") >>= λ bs.
          some (is_array bs && (length (items bs) == 2 && contains j (txt "cumdiff"))))
      else some false

  -- The chain that a summary is compared with.
  abbrev pub newest : App → Chain
  newest app = elim app.temp [ none ↦ app.chain | some t ↦ t ]

  -- A well-formed summary: the first and the last block of the other node, and its difficulty.
  unfoldable pub compare_summary : Bool → Block → Block → ℕ → App → Option (List (Sent J))
  compare_summary reset_enabled remote_gen remote_last remote app = do
    local ← cum_difficulty app.chain
    genesis ← head? (newest app).blocks
    last ← last? (newest app).blocks
    (if not (same_block genesis remote_gen)
        then some (if reset_enabled then request (txt "chain") ∷ [] else [])
        else if ltb local remote
        then some (request_range ((last.index + 1) % 2 ^ 64) remote_last.index ∷ [])
        else some [])

  unfoldable pub handle_summary : Bool → J → App → Option (List (Sent J))
  unfolding compare_summary
  handle_summary reset_enabled j app = do
    bs ← get j (txt "blocks")
    gen ← get_elem? (items bs) 0 >>= block_of_json x.json
    end ← get_elem? (items bs) 1 >>= block_of_json x.json
    remote ← nat_at x.json j (txt "cumdiff")
    compare_summary reset_enabled gen end remote app

  -- What follows a response that was handled: a node that does not mine takes the temporary chain.
  abbrev then_sync : Block → List (Sent J) → App → Option (List (Sent J) × App)
  then_sync blank sent app =
      if app.mining_done
      then (sync_blockchain x blank app >>= λ (_, app'). some (sent, app'))
      else some (sent, app)

  -- A chain that came with a response.
  unfoldable pub handle_chain : Block → Chain → App → Option (List (Sent J) × App)
  unfolding handle_chain_response
  handle_chain blank t app = is_valid_chain x t >>= λ valid.
      if leb (size t) 0 || not valid
      then some ([], app)
      else (handle_chain_response t app >>= λ (sent, app'). then_sync blank sent app')

  -- `MinerApp::handleResponse`; `reset_enabled` is the setting `chain.reset.enable`.
  unfoldable pub handle_response : Block → Bool → J → App → Option (List (Sent J) × App)
  unfolding handle_summary handle_chain
  handle_response blank reset_enabled j app = text_at x.json j (txt "message") >>= λ message.
      if text_eq message (txt "summary")
      then (is_summary j >>= λ well_formed.
          if well_formed
          then (handle_summary reset_enabled j app >>= λ sent. then_sync blank sent app)
          else some ([], app))
      else if text_eq message (txt "chain")
      then (get j (txt "blocks") >>= λ v. chain_of_json x.json v >>= λ t. handle_chain blank t app)
      else then_sync blank [] app

  -- The callback of `initWebSocket` for a message. `MinerApp::handleError` only logs.
  unfoldable pub on_chain_message : Block → Bool → Text → App → Option (List (Sent J) × App)
  unfolding dispatch_request handle_response
  on_chain_message blank reset_enabled raw app =
      let malformed : Option (List (Sent J) × App) =
        some (error (txt "the recieved message was malformed") ∷ [], app) in
      elim (x.json.parse raw) [
        | none ↦ malformed
        | some j ↦
            if not (contains j (txt "message")) || not (contains j (txt "message-type"))
            then malformed
            else (do
              message ← text_at x.json j (txt "message")
              kind ← text_at x.json j (txt "message-type")
              (if text_eq kind (txt "request")
                  then (dispatch_request j app >>= λ sent. some (sent, app))
                  else if text_eq kind (txt "response")
                  then handle_response blank reset_enabled j app
                  else if text_eq kind (txt "error")
                  then some ([], app)
                  else some (
                    error (txt "the received message-type was unknown '" ++ (kind ++ txt "'")) ∷ [],
                    app,
                  )))
      ]
