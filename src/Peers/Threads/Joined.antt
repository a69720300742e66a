-- ===== src/Peers/Threads/Joined.antt =====
-- Which threads of `PeerManager` of src/PeerManager.cpp its destructor joins, and that the start of the
-- node starts them.
use mathlib.Core.Option.{some-injective, none-ne-some}
use ash_coin.Base.{
  ℕ, suc, ◌+◌, ◌≡◌, refl, sym, ap, ◌∙◌, Bool, true, Option, none, some, List, [], ◌∷◌, Text,
  text_eq, lookup, assign, ltb, ◌==◌, if◌then◌else◌, All, All-assign, All-lookup, Bool-cases,
  Option-cases, inl, inr, arith,
}
use ash_coin.Peers.Threads.{
  Threads, no_threads, join_thread, join_all, forget_worker, load_workers, start_workers,
  load_threads, connect_threads, reconnect_threads, init_web_socket_server, destroy, start_threads,
  Managed, begins, loads, connects, reconnects, serves,
}

-- How often a thread is in a list, and whether it is the thread that is held.
abbrev pub occurrences : ℕ → List ℕ → ℕ
occurrences id [] = 0
occurrences id (t ∷ ts) = (if id == t then 1 else 0) + occurrences id ts

abbrev held : ℕ → Option ℕ → ℕ
held id none = 0
held id (some t) = if id == t then 1 else 0

abbrev held_by : ℕ → List (Text × Option ℕ) → ℕ
held_by id [] = 0
held_by id ((peer, w) ∷ workers) = held id w + held_by id workers

-- The threads that were started.
abbrev pub started : ℕ → ℕ → ℕ
started id next = if ltb id next then 1 else 0

occurrences-join_thread :
    (id : ℕ) (w : Option ℕ) (joined : List ℕ)
    → occurrences id (join_thread w joined) ≡ held id w + occurrences id joined
occurrences-join_thread id none joined = omega arith
occurrences-join_thread id (some t) joined = refl

occurrences-join_all :
    (id : ℕ) (workers : List (Text × Option ℕ)) (joined : List ℕ)
    → occurrences id (join_all workers joined) ≡ held_by id workers + occurrences id joined
occurrences-join_all id [] joined = omega arith
occurrences-join_all id ((peer, w) ∷ workers) joined = omega (
  arith,
  occurrences-join_all id workers (join_thread w joined),
  occurrences-join_thread id w joined,
)

started-suc :
    (id next : ℕ) → started id (suc next) ≡ (if id == next then 1 else 0) + started id next
started-suc id next = ground arith

held_by-start_workers :
    (id : ℕ) (due : Text → Bool) (workers : List (Text × Option ℕ)) (next : ℕ) (joined : List ℕ)
    → let r = start_workers due workers next joined in
      held_by id r.0 + occurrences id r.2 + started id next
      ≡ held_by id workers + occurrences id joined + started id r.1
unfolding start_workers
held_by-start_workers id due [] next joined = refl
held_by-start_workers id due ((peer, w) ∷ workers) next joined = elim (Bool-cases (due peer)) [
  | inl e ↦ rw e (
      omega (
        arith,
        held_by-start_workers id due workers (suc next) (join_thread w joined),
        occurrences-join_thread id w joined,
        started-suc id next,
      ))
  | inr e ↦ rw e (omega (arith, held_by-start_workers id due workers next joined))
]

abbrev held_at : ℕ → Option (Option ℕ) → ℕ
held_at id none = 0
held_at id (some w) = held id w

held_by-assign :
    (id : ℕ) (peer : Text) (workers : List (Text × Option ℕ))
    → held_at id (lookup peer workers) ≡ 0
    → held_by id (assign peer none workers) ≡ held_by id workers
unfolding lookup assign
held_by-assign id peer [] h = refl
held_by-assign id peer ((peer', w) ∷ workers) h = elim (Bool-cases (text_eq peer' peer)) [
  | inl e ↦ let free : held id w ≡ 0 = rw e at h in rw e (omega (arith, free))
  | inr e ↦ let kept = held_by-assign id peer workers (rw e at h) in rw e (omega (arith, kept))
]

held_by-forget_worker :
    (id : ℕ) (peer : Text) (workers workers' : List (Text × Option ℕ))
    → forget_worker peer workers ≡ some workers'
    → held_by id workers' ≡ held_by id workers
unfolding forget_worker
held_by-forget_worker id peer workers workers' e = elim (Option-cases (lookup peer workers)) [
  | inl q ↦
      rw (← some-injective _ _ (rw (forget_worker, q) at e))
        (held_by-assign id peer workers (rw q refl))
  | inr (none, q) ↦
      rw (← some-injective _ _ (rw (forget_worker, q) at e))
        (held_by-assign id peer workers (rw q refl))
  | inr (some t, q) ↦ absurd (none-ne-some _ (rw (forget_worker, q) at e))
]

held_by-load_workers :
    (id : ℕ) (trim : Text → Text) (lines : List Text) (workers workers' : List (Text × Option ℕ))
    → load_workers trim lines workers ≡ some workers'
    → held_by id workers' ≡ held_by id workers
unfolding load_workers
held_by-load_workers id trim [] workers workers' e = rw (some-injective _ _ e) refl
held_by-load_workers id trim (line ∷ lines) workers workers' e =
    elim (Bool-cases (text_eq line [])) [
      | inl b ↦ held_by-load_workers id trim lines workers workers' (rw (load_workers, b) at e)
      | inr b ↦ elim (Option-cases (forget_worker (trim line) workers)) [
        | inl q ↦ absurd (none-ne-some _ (rw (load_workers, b, q) at e))
        | inr (w, q) ↦
            held_by-load_workers id trim lines w workers' (rw (load_workers, b, q) at e)
            ∙ held_by-forget_worker id (trim line) workers w q
      ]
    ]

-- Each thread that was started is held once or was joined once, and no other is.
abbrev pub IsAccounted : ℕ → Threads → Type 0
IsAccounted id t =
    held_by id t.workers + held id t.reconnector + held id t.server + occurrences id t.joined
    ≡ started id t.next

Managed-IsAccounted : {t : Threads} → Managed t → (id : ℕ) → IsAccounted id t
unfolding load_threads connect_threads reconnect_threads init_web_socket_server
Managed-IsAccounted begins id = ground arith
Managed-IsAccounted (loads {t} {t'} trim lines s e) id =
    elim (Option-cases (load_workers trim lines t.workers)) [
      | inl q ↦ absurd (none-ne-some _ (rw (load_threads, q) at e))
      | inr (workers, q) ↦ rw (← some-injective _ _ (rw (load_threads, q) at e)) (
          omega (
            arith,
            Managed-IsAccounted s id,
            held_by-load_workers id trim lines t.workers workers q,
          ))
    ]
Managed-IsAccounted (connects {t} {t'} s e) id = elim (Option-cases t.reconnector) [
  | inl q ↦
      let r = start_workers (λ peer. true) t.workers t.next t.joined in
      rw (← some-injective _ _ (rw (connect_threads, q) at e)) (
        omega (
          arith,
          Managed-IsAccounted s id,
          ap (held id) q,
          started-suc id r.1,
          held_by-start_workers id (λ peer. true) t.workers t.next t.joined,
        ))
  | inr (old, q) ↦ absurd (none-ne-some _ (rw (connect_threads, q) at e))
]
Managed-IsAccounted (reconnects {t} offline s) id =
    omega
      (arith, Managed-IsAccounted s id, held_by-start_workers id offline t.workers t.next t.joined)
Managed-IsAccounted (serves {t} {t'} s e) id = elim (Option-cases t.server) [
  | inl q ↦
      rw (← some-injective _ _ (rw (init_web_socket_server, q) at e))
        (omega (arith, Managed-IsAccounted s id, ap (held id) q, started-suc id t.next))
  | inr (old, q) ↦ absurd (none-ne-some _ (rw (init_web_socket_server, q) at e))
]

-- Whatever calls of the manager ended before, its destructor leaves each thread that they started
-- joined, and joined once, and has joined no others.
pub occurrences-destroy :
    {t : Threads} → Managed t → (id : ℕ) → occurrences id ((destroy t).joined) ≡ started id t.next
unfolding destroy
occurrences-destroy {t} s id = omega (
  arith,
  Managed-IsAccounted s id,
  occurrences-join_thread id t.server (join_all t.workers (join_thread t.reconnector t.joined)),
  occurrences-join_all id t.workers (join_thread t.reconnector t.joined),
  occurrences-join_thread id t.reconnector t.joined,
)

load_workers_returns :
    (trim : Text → Text) (lines : List Text) (workers : List (Text × Option ℕ))
    → All (λ (kv : Text × Option ℕ). kv.1 ≡ none) workers
    → (workers' : List (Text × Option ℕ)) × (load_workers trim lines workers ≡ some workers')
unfolding load_workers forget_worker
load_workers_returns trim [] workers free = (workers, refl)
load_workers_returns trim (line ∷ lines) workers free = elim (Bool-cases (text_eq line [])) [
  | inl b ↦ rw b (load_workers_returns trim lines workers free)
  | inr b ↦
      let free' = All-assign (λ (w : Option ℕ). w ≡ none) (trim line) none workers refl free in
      let rest = load_workers_returns trim lines (assign (trim line) none workers) free' in
      elim (Option-cases (lookup (trim line) workers)) [
        | inl q ↦ rw (b, forget_worker, q) rest
        | inr (none, q) ↦ rw (b, forget_worker, q) rest
        | inr (some t, q) ↦ absurd (
            none-ne-some _
              (sym (All-lookup (λ (w : Option ℕ). w ≡ none) (trim line) workers free q)))
      ]
]

-- Whatever the file of the peers holds, the start of the node assigns to no thread that is not joined,
-- so that it starts the threads of the server, of the peers and of the timer.
pub start_threads-Managed :
    (trim : Text → Text) (lines : List Text)
    → (t : Threads) × (start_threads trim lines ≡ some t) × Managed t
unfolding start_threads init_web_socket_server load_threads connect_threads
start_threads-Managed trim lines =
    let (workers, e) = load_workers_returns trim lines [] tt in
    let served : Threads = record no_threads { next = 1; server = some 0 } in
    let loaded : Threads = record served { workers = workers } in
    let (workers', next, joined) = start_workers (λ peer. true) workers 1 [] in
    let t : Threads = record {
      next = suc next;
      workers = workers';
      reconnector = some next;
      server = some 0;
      joined = joined;
    } in
    (
      t,
      rw e refl,
      connects {t = loaded} (loads {t = served} trim lines (serves begins refl) (rw e refl)) refl,
    )
