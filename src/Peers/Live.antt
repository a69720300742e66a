-- ===== src/Peers/Live.antt =====
-- What holds of the peers after any sequence of callbacks.
use ash_coin.Base.{
  ℕ, ◌≡◌, ◌≢◌, refl, true, none, some, List, [], ◌∷◌, Text, text_eq, lookup, ◌>>=◌, All, All-assign,
  Bool-cases, Option-cases, ◌⊎◌, inl, inr, is_some, arith,
}
use mathlib.Core.Bool.{false≢true}
use mathlib.Core.Option.{some-injective, none-ne-some}
use ash_coin.Peers.{
  State, offline, connecting, connected, PeerData, Peers, new_peer, load_peers, create_client,
  connect_all, reconnected, reconnect, on_open, on_close, broadcast, Step, connects, reconnects,
  opens, closes, Reaches, loads, steps,
}

-- A peer that is connected has a connection.
abbrev pub IsLive : PeerData → Type 0
IsLive d = elim d.state [
  | offline ↦ Unit
  | connecting ↦ Unit
  | connected ↦ is_some d.connection ≡ true
]

abbrev pub AllLive : Peers → Type 0
AllLive peers = All (λ (kv : Text × PeerData). IsLive kv.1) peers

load_peers-AllLive :
    (trim : Text → Text) (lines : List Text) (peers : Peers)
    → AllLive peers
    → AllLive (load_peers trim lines peers)
unfolding load_peers
load_peers-AllLive trim [] peers h = h
load_peers-AllLive trim (line ∷ lines) peers h = elim (Bool-cases (text_eq line [])) [
  | inl e ↦ rw e (load_peers-AllLive trim lines peers h)
  | inr e ↦
      rw e (load_peers-AllLive trim lines _ (All-assign IsLive (trim line) new_peer peers tt h))
]

State-cases : (s : State) → (s ≡ offline) ⊎ ((s ≡ connecting) ⊎ (s ≡ connected))
State-cases offline = inl refl
State-cases connecting = inr (inl refl)
State-cases connected = inr (inr refl)

reconnected-IsLive : (d : PeerData) → IsLive d → IsLive (reconnected d)
unfolding reconnected create_client
reconnected-IsLive d h = elim (State-cases d.state) [
  | inl e ↦ simp (reconnected, e) tt
  | inr (inl e) ↦ simp (reconnected, e) h
  | inr (inr e) ↦ simp (reconnected, e) h
]

connect_all-AllLive : (peers : Peers) → AllLive (connect_all peers)
unfolding connect_all create_client
connect_all-AllLive [] = tt
connect_all-AllLive ((peer, d) ∷ peers) = (tt, connect_all-AllLive peers)

reconnect-AllLive : (peers : Peers) → AllLive peers → AllLive (reconnect peers)
unfolding reconnect
reconnect-AllLive [] h = tt
reconnect-AllLive ((peer, d) ∷ peers) (h, hs) = (reconnected-IsLive d h, reconnect-AllLive peers hs)

on_open-AllLive :
    (peer : Text) (connection : ℕ) (peers peers' : Peers)
    → AllLive peers
    → on_open peer connection peers ≡ some peers'
    → AllLive peers'
unfolding on_open
on_open-AllLive peer connection peers peers' h e = elim (Option-cases (lookup peer peers)) [
  | inl q ↦ absurd (none-ne-some _ (rw (on_open, q, ◌>>=◌) at e))
  | inr (d, q) ↦
      let opened : PeerData = record d { connection = some connection; state = connected } in
      rw (← some-injective _ _ (rw (on_open, q, ◌>>=◌) at e))
        (All-assign IsLive peer opened peers refl h)
]

on_close-AllLive :
    (peer : Text) (peers peers' : Peers)
    → AllLive peers
    → on_close peer peers ≡ some peers'
    → AllLive peers'
unfolding on_close
on_close-AllLive peer peers peers' h e = elim (Option-cases (lookup peer peers)) [
  | inl q ↦ absurd (none-ne-some _ (rw (on_close, q, ◌>>=◌) at e))
  | inr (d, q) ↦ elim (Bool-cases d.client) [
    | inr f ↦ absurd (none-ne-some _ (simp (on_close, q, ◌>>=◌, f) at e))
    | inl f ↦ rw (← some-injective _ _ (simp (on_close, q, ◌>>=◌, f) at e)) (
        All-assign IsLive peer
          (record { client = true; connection = d.connection; state = offline }) peers tt h)
  ]
]

Step-AllLive : {peers peers' : Peers} → AllLive peers → Step peers peers' → AllLive peers'
Step-AllLive {peers} h connects = connect_all-AllLive peers
Step-AllLive {peers} h reconnects = reconnect-AllLive peers h
Step-AllLive {peers} {peers'} h (opens peer connection e) =
    on_open-AllLive peer connection peers peers' h e
Step-AllLive {peers} {peers'} h (closes peer e) = on_close-AllLive peer peers peers' h e

Reaches-AllLive :
    (trim : Text → Text) (lines : List Text) {peers : Peers}
    → Reaches trim lines peers
    → AllLive peers
Reaches-AllLive trim lines loads = load_peers-AllLive trim lines [] tt
Reaches-AllLive trim lines (steps r s) = Step-AllLive (Reaches-AllLive trim lines r) s

-- The connections of the peers that are connected, each with its own.
abbrev pub connections : Peers → List ℕ
connections [] = []
connections ((peer, d) ∷ peers) = elim d.state [
  | offline ↦ connections peers
  | connecting ↦ connections peers
  | connected ↦ elim d.connection [ none ↦ connections peers | some c ↦ c ∷ connections peers ]
]

broadcast-eq-connections :
    (peers : Peers) → AllLive peers → broadcast peers ≡ some (connections peers)
unfolding broadcast
broadcast-eq-connections [] h = refl
broadcast-eq-connections ((peer, d) ∷ peers) (h, hs) = elim (State-cases d.state) [
  | inl e ↦ rw e (broadcast-eq-connections peers hs)
  | inr (inl e) ↦ rw e (broadcast-eq-connections peers hs)
  | inr (inr e) ↦ elim (Option-cases d.connection) [
    | inl q ↦ absurd (false≢true (rw (IsLive, e, q) at h))
    | inr (c, q) ↦ rw (e, q, ◌>>=◌, broadcast-eq-connections peers hs) refl
  ]
]

-- After any sequence of callbacks on the peers of a file, a peer that is connected has a connection,
-- so that the assertion of `broadcast` holds: it sends the message to the connections of the peers
-- that are connected, and to no others.
pub broadcast-Reaches :
    (trim : Text → Text) (lines : List Text) (peers : Peers)
    → Reaches trim lines peers
    → broadcast peers ≡ some (connections peers)
broadcast-Reaches trim lines peers r = broadcast-eq-connections peers (Reaches-AllLive trim lines r)

reconnected_online : (d : PeerData) → (reconnected d).state ≢ offline
unfolding reconnected create_client
reconnected_online d = elim (State-cases d.state) [
  | inl e ↦ simp (reconnected, e) (λ q. ground arith)
  | inr (inl e) ↦ simp (reconnected, e) (λ q. ground arith)
  | inr (inr e) ↦ simp (reconnected, e) (λ q. ground arith)
]

-- After the timer no peer is offline.
pub reconnect-none_offline :
    (peers : Peers) → All (λ (kv : Text × PeerData). kv.1.state ≢ offline) (reconnect peers)
unfolding reconnect
reconnect-none_offline [] = tt
reconnect-none_offline ((peer, d) ∷ peers) = (reconnected_online d, reconnect-none_offline peers)
