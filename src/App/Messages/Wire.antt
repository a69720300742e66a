-- ===== src/App/Messages/Wire.antt =====
-- What is sent between nodes, as the proxy of src/PeerManager.h turns it into a text and the callback
-- of `initWebSocket` of src/MinerApp.cpp reads it.
use ash_coin.Base.{
  ℕ, ◌≡◌, refl, false, Bool, Option, some, List, [], ◌∷◌, ◌++◌, All, Text, txt, text_eq, decimal,
  ◌>>=◌,
}
use ash_coin.External.{External, IsJson, object}
use ash_coin.Tx.Json.RoundTrip.{all_of_json-map}
use ash_coin.Block.{Block}
use ash_coin.Block.Json.{IsBlock, block_to_json, block_of_json, block_of_json-block_to_json}
use ash_coin.Chain.Json.{chain_of_json}
use ash_coin.Peers.Proxy.{
  send_message, send_request, send_request_fmt, send_response_data, send_error,
}
use ash_coin.App.{App}
use ash_coin.App.Messages.{
  Sent, request, request_range, response, error, blocks_json, range_json, handle_chain,
  handle_response, on_chain_message,
}
use ash_coin.App.Messages.CatchUp.{sent_chain}

-- The content of a request for a range.
abbrev pub range_text : ℕ → ℕ → Text
range_text id1 id2 =
    txt "{ \"id1\":" ++ (decimal id1 ++ (txt ",\"id2\":" ++ (decimal id2 ++ txt " }")))

module _ {J : Type 0} (x : External J) where
  open x.json use {of_text, set, get, dump, parse}

  -- The text that goes out for what a node sends.
  unfoldable pub wire : Sent J → Option Text
  unfolding send_request send_request_fmt send_response_data send_error
  wire (request msg) = send_request x.json msg
  wire (request_range id1 id2) = send_request_fmt x.json (txt "chain") (range_text id1 id2)
  wire (response msg j) = send_response_data x.json msg (dump j)
  wire (error s) = send_error x.json s

  -- A message, with its kind.
  abbrev pub tagged : J → (msg kind : Text) → J
  tagged j msg kind = set (set j (txt "message") (of_text msg)) (txt "message-type") (of_text kind)

  -- The text of a json value is not empty and is parsed to the value.
  pub record Travels (j : J) : Type 0 where
    pub has_text : text_eq (dump j) [] ≡ false
    pub parses : parse (dump j) ≡ some j

  module _ (laws : IsJson x.json) where
    open laws use {get-object, contains-object, items-array, to_text-of_text}

    chain_back :
        (bs : List Block)
        → All IsBlock bs
        → chain_of_json x.json (blocks_json x bs) ≡ some (sent_chain bs)
    unfolding chain_of_json
    chain_back bs h =
        rw
          (
            items-array,
            all_of_json-map IsBlock (block_to_json x.json) (block_of_json x.json)
                (block_of_json-block_to_json x.json laws) bs h,
            ◌>>=◌,
          )
          refl

    abbrev response_json : J → J
    response_json v = object x.json (
        (txt "blocks", v)
        ∷ (txt "message", of_text (txt "chain"))
        ∷ (txt "message-type", of_text (txt "response"))
        ∷ [])

    on_chain_message_response :
        (blank : Block) (v : J) (raw : Text) (reset_enabled : Bool) (app : App)
        → parse raw ≡ some (response_json v)
        → on_chain_message x blank reset_enabled raw app
          ≡ (chain_of_json x.json v >>= λ t. handle_chain x blank t app)
    unfolding on_chain_message handle_response
    on_chain_message_response blank v raw reset_enabled app e =
        rw (on_chain_message, e) (simp (contains-object, get-object, to_text-of_text))

    -- A response with blocks, whose numbers are in range, goes out as a text, if the json values have
    -- texts that are parsed back to them, and the node that receives the text handles exactly the
    -- chain of these blocks.
    pub on_chain_message-wire :
        (blank b : Block) (bs : List Block) (reset_enabled : Bool) (app : App)
        → All IsBlock (b ∷ bs)
        → Travels (range_json x (b ∷ bs))
        → Travels (tagged (range_json x (b ∷ bs)) (txt "chain") (txt "response"))
        → (wire (response (txt "chain") (range_json x (b ∷ bs))) >>= λ raw.
            on_chain_message x blank reset_enabled raw app)
          ≡ handle_chain x blank (sent_chain (b ∷ bs)) app
    unfolding wire send_response_data send_message object
    on_chain_message-wire blank b bs reset_enabled app h t t' =
        let j = tagged (range_json x (b ∷ bs)) (txt "chain") (txt "response") in
        let sent : wire (response (txt "chain") (range_json x (b ∷ bs))) ≡ some (dump j) =
          rw (t.has_text, t.parses) refl in
        rw
          (
            sent,
            ◌>>=◌,
            on_chain_message_response blank (blocks_json x (b ∷ bs)) (dump j) reset_enabled app
                t'.parses,
            chain_back (b ∷ bs) h,
            ◌>>=◌,
          )
          refl
