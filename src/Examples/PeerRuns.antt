-- ===== src/Examples/PeerRuns.antt =====
-- Runs of the peers.
use ash_coin.Base.{
  ◌+◌, ◌*◌, ◌≤◌, ◌-ℤ◌, none, false, List, arith, lookup, assign, ◌≡◌, refl, true, some, txt, [],
  ◌∷◌,
}
use ash_coin.Peers.{
  Peers, connected, broadcast, Reaches, loads, steps, connects, opens, on_open, load_peers,
  connect_all, create_client,
}
use ash_coin.Peers.Threads.{
  Threads, no_threads, destroy, Managed, begins, loads, connects, reconnects, serves, start_workers,
  load_threads, load_workers, forget_worker, connect_threads, reconnect_threads,
  init_web_socket_server,
}
use ash_coin.Peers.Threads.Joined.{occurrences, started, occurrences-destroy}
use ash_coin.Peers.Reconnect.{
  run_worker, run_from, private_run, run_worker-period, millisecond, Firing, delays,
}
use ash_coin.Peers.Live.{broadcast-Reaches, connections}

-- One peer, which is taken up and opens connection 4.
abbrev opened : Peers
opened = (txt "p", record { client = true; connection = some 4; state = connected }) ∷ []

opened-Reaches : Reaches (λ s. s) (txt "p" ∷ []) opened
unfolding load_peers connect_all create_client on_open lookup assign
opened-Reaches = steps (steps loads connects) (
    opens {peers = connect_all (load_peers (λ s. s) (txt "p" ∷ []) [])} {peers' = opened} (txt "p")
      4 refl)

broadcast-Reaches_example : broadcast opened ≡ some (connections opened)
broadcast-Reaches_example = broadcast-Reaches (λ s. s) (txt "p" ∷ []) opened opened-Reaches

-- The threads of a node with one peer, which was taken up again.
abbrev one_peer : Threads
one_peer = record {
  next = 4;
  workers = (txt "p", some 3) ∷ [];
  reconnector = some 2;
  server = some 0;
  joined = 1 ∷ [];
}

one_peer-Managed : Managed one_peer
unfolding init_web_socket_server load_threads load_workers forget_worker connect_threads
    reconnect_threads start_workers lookup assign
one_peer-Managed =
    let served : Threads = record no_threads { next = 1; server = some 0 } in
    let loaded : Threads = record served { workers = (txt "p", none) ∷ [] } in
    let connected_once : Threads = record loaded {
      next = 3;
      workers = (txt "p", some 1) ∷ [];
      reconnector = some 2;
    } in
    reconnects {t = connected_once} (λ peer. true)
      (connects {t = loaded} {t' = connected_once}
        (loads {t = served} {t' = loaded} (λ s. s) (txt "p" ∷ []) (serves begins refl) refl) refl)

occurrences-destroy_example : occurrences 3 ((destroy one_peer).joined) ≡ started 3 4
occurrences-destroy_example = occurrences-destroy one_peer-Managed 3

-- A timeout of ten seconds, and a callback that takes 300 microseconds; the timer comes 5 and 7
-- microseconds late.
abbrev firings : List Firing
firings =
    record { late = 5000; has_error = false; is_shut_down = false; elapsed = 300000; overhead = 0 }
    ∷ (record { late = 7000; has_error = false; is_shut_down = false; elapsed = 0; overhead = 0 }
        ∷ [])

run_worker-period_example :
    (19999312000 ≤ (1 + 1) * (10000 * millisecond) + delays 1 firings)
    × ((1 + 1) * (10000 * millisecond) + delays 1 firings ≤ 19999312000 + 1 * millisecond)
unfolding run_worker run_from private_run ◌-ℤ◌
run_worker-period_example = run_worker-period 10000 firings 1 (omega arith, (omega arith, tt)) refl
