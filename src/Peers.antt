-- ===== src/Peers.antt =====
-- src/PeerManager.h and src/PeerManager.cpp: the peers of the node and the states of their
-- connections, as the callbacks change them. A connection is a number, and `none` is a failed assertion
-- or a null pointer.
pub mod Live
pub mod Proxy
pub mod Reconnect
pub mod Threads
use ash_coin.Base.{
  ℕ, ◌≡◌, Bool, true, false, Option, none, some, List, [], ◌∷◌, map, Text, text_eq, lookup, assign,
  ◌>>=◌, if◌then◌else◌,
}

-- `PeerData::State`
pub data State : Type 0 where
  offline connecting connected : State

-- `PeerData`, where `client` says that there is one.
pub record PeerData : Type 0 where
  pub client : Bool
  pub connection : Option ℕ
  pub state : State

abbrev pub Peers : Type 0
Peers = List (Text × PeerData)

abbrev pub new_peer : PeerData
new_peer = record { client = false; connection = none; state = offline }

-- The loop of `loadPeers` over the lines of the file; `trim` is Boost's.
unfoldable pub load_peers : (Text → Text) → List Text → Peers → Peers
load_peers trim [] peers = peers
load_peers trim (line ∷ lines) peers =
    load_peers trim lines (if text_eq line [] then peers else assign (trim line) new_peer peers)

-- What `createClient` makes of the data of a peer that is there.
unfoldable pub create_client : PeerData → PeerData
create_client d = record d { client = true; state = connecting }

-- `connectAll`
unfoldable pub connect_all : Peers → Peers
unfolding create_client
connect_all peers = map (λ (kv : Text × PeerData). (kv.0, create_client kv.1)) peers

unfoldable pub reconnected : PeerData → PeerData
unfolding create_client
reconnected d = elim d.state [ offline ↦ create_client d | connecting ↦ d | connected ↦ d ]

-- The callback of the timer, which takes up the peers that are offline.
unfoldable pub reconnect : Peers → Peers
unfolding reconnected
reconnect peers = map (λ (kv : Text × PeerData). (kv.0, reconnected kv.1)) peers

unfoldable pub on_open : Text → ℕ → Peers → Option Peers
on_open peer connection peers = lookup peer peers >>= λ d.
    some (assign peer (record d { connection = some connection; state = connected }) peers)

-- `on_error` and `on_close` do the same.
unfoldable pub on_close : Text → Peers → Option Peers
on_close peer peers = lookup peer peers >>= λ d.
    if d.client then some (assign peer (record d { state = offline }) peers) else none

-- `broadcast`: the connections that are sent the message.
unfoldable pub broadcast : Peers → Option (List ℕ)
broadcast [] = some []
broadcast ((peer, d) ∷ peers) =
    let rest = broadcast peers in
    elim d.state [
      | offline ↦ rest
      | connecting ↦ rest
      | connected ↦ d.connection >>= λ c. rest >>= λ cs. some (c ∷ cs)
    ]

-- What happens to the peers, one callback at a time.
pub data Step : Peers → Peers → Type 0 where
  connects : {peers : Peers} → Step peers (connect_all peers)
  reconnects : {peers : Peers} → Step peers (reconnect peers)
  opens :
      {peers peers' : Peers} (peer : Text) (connection : ℕ)
      → on_open peer connection peers ≡ some peers'
      → Step peers peers'
  closes :
      {peers peers' : Peers} (peer : Text) → on_close peer peers ≡ some peers' → Step peers peers'

-- What the peers of a file can become.
pub data Reaches (trim : Text → Text) (lines : List Text) : Peers → Type 0 where
  loads : Reaches trim lines (load_peers trim lines [])
  steps :
      {peers peers' : Peers}
      → Reaches trim lines peers
      → Step peers peers'
      → Reaches trim lines peers'
