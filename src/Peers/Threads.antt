-- ===== src/Peers/Threads.antt =====
-- The threads of `PeerManager` of src/PeerManager.cpp: the worker of each peer, the thread of the timer
-- and that of the server for web sockets. A thread is the number that it was started as. `none` is
-- `std::terminate`, where a thread that was not joined is assigned to.
pub mod Joined
use mathlib.Core.Option.{some-injective, none-ne-some}
use ash_coin.Base.{
  ℕ, zero, suc, ◌+◌, ◌≡◌, refl, sym, ap, ◌∙◌, Bool, true, false, Option, none, some, List, [], ◌∷◌,
  ◌++◌, map, Text, text_eq, lookup, assign, lookup-assign, ltb, ◌==◌, ◌>>=◌, if◌then◌else◌, is_some,
  All, All-assign, All-lookup, Bool-cases, Option-cases, inl, inr, arith,
}

-- `workers` has the field `worker` of each `PeerData` of the map. A thread that was joined is `none`.
pub record Threads : Type 0 where
  pub next : ℕ
  pub workers : List (Text × Option ℕ)
  pub reconnector : Option ℕ
  pub server : Option ℕ
  pub joined : List ℕ

abbrev pub no_threads : Threads
no_threads = record { next = 0; workers = []; reconnector = none; server = none; joined = [] }

abbrev pub join_thread : Option ℕ → List ℕ → List ℕ
join_thread none joined = joined
join_thread (some t) joined = t ∷ joined

-- `insert_or_assign` of a peer without a worker.
unfoldable pub forget_worker : Text → List (Text × Option ℕ) → Option (List (Text × Option ℕ))
unfolding lookup assign
forget_worker peer workers = elim (lookup peer workers) [
  | none ↦ some (assign peer none workers)
  | some none ↦ some (assign peer none workers)
  | some (some _) ↦ none
]

-- The loop of `loadPeers`.
unfoldable pub load_workers :
    (Text → Text) → List Text → List (Text × Option ℕ) → Option (List (Text × Option ℕ))
unfolding forget_worker
load_workers trim [] workers = some workers
load_workers trim (line ∷ lines) workers =
    (if text_eq line [] then some workers else forget_worker (trim line) workers) >>= λ workers'.
    load_workers trim lines workers'

-- `createClient` for each of the peers that are due: it joins the old worker and starts another.
unfoldable pub start_workers :
    (Text → Bool) → List (Text × Option ℕ) → ℕ → List ℕ → List (Text × Option ℕ) × ℕ × List ℕ
start_workers due [] next joined = ([], next, joined)
start_workers due ((peer, w) ∷ workers) next joined =
    let now = due peer in
    let (workers', next', joined') =
      start_workers due workers (if now then suc next else next)
        (if now then join_thread w joined else joined) in
    ((peer, if now then some next else w) ∷ workers', next', joined')

-- `loadPeers`
unfoldable pub load_threads : (Text → Text) → List Text → Threads → Option Threads
unfolding load_workers
load_threads trim lines t =
    load_workers trim lines t.workers >>= λ workers. some (record t { workers = workers })

-- `connectAll`
unfoldable pub connect_threads : Threads → Option Threads
unfolding start_workers
connect_threads t =
    let (workers, next, joined) = start_workers (λ peer. true) t.workers t.next t.joined in
    if is_some t.reconnector
    then none
    else some (record {
      next = suc next;
      workers = workers;
      reconnector = some next;
      server = t.server;
      joined = joined;
    })

-- The callback of the timer, for the peers that are offline.
unfoldable pub reconnect_threads : (Text → Bool) → Threads → Threads
unfolding start_workers
reconnect_threads offline t =
    let (workers, next, joined) = start_workers offline t.workers t.next t.joined in
    record t { next = next; workers = workers; joined = joined }

-- `initWebSocketServer`
unfoldable pub init_web_socket_server : Threads → Option Threads
init_web_socket_server t =
    if is_some t.server then none else some (record t { next = suc t.next; server = some t.next })

abbrev pub join_all : List (Text × Option ℕ) → List ℕ → List ℕ
join_all [] joined = joined
join_all ((peer, w) ∷ workers) joined = join_all workers (join_thread w joined)

-- The destructor.
unfoldable pub destroy : Threads → Threads
destroy t = record t {
  workers = map (λ (kv : Text × Option ℕ). (kv.0, none)) t.workers;
  reconnector = none;
  server = none;
  joined = join_thread t.server (join_all t.workers (join_thread t.reconnector t.joined));
}

-- How `MinerApp::run` begins: the server is started, then the peers of the file are loaded and
-- connected.
unfoldable pub start_threads : (Text → Text) → List Text → Option Threads
unfolding init_web_socket_server load_threads connect_threads
start_threads trim lines = init_web_socket_server no_threads >>= λ t.
    load_threads trim lines t >>= λ t'. connect_threads t'

-- What calls that end make of the threads of a new manager.
pub data Managed : Threads → Type 0 where
  begins : Managed no_threads
  loads :
      {t t' : Threads} (trim : Text → Text) (lines : List Text)
      → Managed t
      → load_threads trim lines t ≡ some t'
      → Managed t'
  connects : {t t' : Threads} → Managed t → connect_threads t ≡ some t' → Managed t'
  reconnects :
      {t : Threads} (offline : Text → Bool) → Managed t → Managed (reconnect_threads offline t)
  serves : {t t' : Threads} → Managed t → init_web_socket_server t ≡ some t' → Managed t'
