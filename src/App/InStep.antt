-- ===== src/App/InStep.antt =====
-- The file of the node and its chain, and what `syncBlockchain` of src/MinerApp.cpp does to them.
use ash_coin.Base.{
  Holds, Holds-bind, Holds-Gives, All, All-get_elem?, get_elem?, head?, last?, is_some,
  Option-cases, sym, ◌∙◌, ◌||◌, zero, suc, take, replicate, length, ◌-◌, ◌<◌, arith, Gives,
  IsNonEmpty, IsNonEmpty-head?, IsNonEmpty-last?, IsNonEmpty-snoc, ℕ, ◌≡◌, refl, Bool, true, false,
  Option, none, some, List, [], ◌∷◌, ◌++◌, inl, inr, ◌⊎◌, ◌==◌, leb, ◌>>=◌, Bool-cases, append-nil,
  ◌+◌, ◌%◌, ◌^◌,
}
use ash_coin.External.{External}
use ash_coin.Block.{Block}
use ash_coin.Chain.{Chain, size, push_block, resized, resize, add_new_block}
use mathlib.Core.Bool.{false≢true}
use ash_coin.Chain.Add.{add_new_block_iff, add_new_block-cases}
use ash_coin.Database.Load.{File, content, write, write_blocks, write_chain, reset}
use ash_coin.Database.Load.Reload.{write_blocks-append}
use ash_coin.App.{App, append_blocks, add_blocks, overlap, extend, sync_with, sync_blockchain}

-- The file holds the blocks of the chain one after the other.
abbrev pub Agree : Chain → File → Type 0
Agree c file = content file ≡ write_blocks c.blocks

abbrev pub InStep : App → Type 0
InStep app = Agree app.chain app.file

pub write-Agree :
    (b : Block) (c : Chain) (file : File) → Agree c file → Agree (push_block b c) (write b file)
unfolding write write_blocks
write-Agree b c file h = rw (h, write_blocks-append c.blocks (b ∷ []), append-nil)

rewritten-Agree : (c : Chain) (file : File) → Agree c (write_chain c (reset file))
unfolding write_chain reset
rewritten-Agree c file = refl

-- The chain has a block, and a temporary chain that waits has one, and the file holds the blocks of
-- the chain.
abbrev pub IsWhole : App → Type 0
IsWhole app =
    IsNonEmpty app.chain.blocks
    × elim app.temp [ none ↦ Unit | some t ↦ IsNonEmpty t.blocks ]
    × InStep app

IsNonEmpty-resized :
    (blank : Block) (k : ℕ) (c : Chain)
    → IsNonEmpty c.blocks
    → 0 < k
    → IsNonEmpty (resized blank k c).blocks
unfolding resized
IsNonEmpty-resized blank k c n p = go k c.blocks n p
  where
    go :
        (j : ℕ) (bs : List Block)
        → IsNonEmpty bs
        → 0 < j
        → IsNonEmpty (take j bs ++ replicate (k - length c.blocks) blank)
    go zero bs m q = absurd (omega arith)
    go (suc j) [] m q = absurd m
    go (suc j) (b ∷ bs) m q = tt

head-at : (bs : List Block) {b : Block} → head? bs ≡ some b → get_elem? bs 0 ≡ some b
head-at [] e = e
head-at (b ∷ bs) e = e

module _ {J : Type 0} (x : External J) where
  append_blocks-Holds :
      (bs : List Block) (c : Chain) (file : File)
      → IsNonEmpty c.blocks
      → Agree c file
      → Holds (λ (c', file'). IsNonEmpty c'.blocks × Agree c' file') (append_blocks x bs c file)
  unfolding append_blocks
  append_blocks-Holds [] c file n h = (n, h)
  append_blocks-Holds (b ∷ bs) c file n h =
      let (l, e) = IsNonEmpty-last? c.blocks n in
      elim (add_new_block-cases x b l c e) [
        | inl thrown ↦ rw thrown tt
        | inr (inl taken) ↦ rw taken (
            append_blocks-Holds bs (push_block b c) (write b file) (IsNonEmpty-snoc c.blocks b)
              (write-Agree b c file h))
        | inr (inr refused) ↦ rw refused (append_blocks-Holds bs c file n h)
      ]

  add_blocks-Holds :
      (bs : List Block) (c : Chain)
      → IsNonEmpty c.blocks
      → Holds (λ c'. IsNonEmpty c'.blocks) (add_blocks x bs c)
  unfolding add_blocks
  add_blocks-Holds [] c n = n
  add_blocks-Holds (b ∷ bs) c n =
      let (l, e) = IsNonEmpty-last? c.blocks n in
      elim (add_new_block-cases x b l c e) [
        | inl thrown ↦ rw thrown tt
        | inr (inl taken) ↦
            rw taken (add_blocks-Holds bs (push_block b c) (IsNonEmpty-snoc c.blocks b))
        | inr (inr refused) ↦ rw refused (add_blocks-Holds bs c n)
      ]

  -- What `syncBlockchain` may do to a node.
  abbrev pub IsSynced : App → Bool × App → Type 0
  IsSynced app (r, app') =
      IsNonEmpty app'.chain.blocks
      × InStep app'
      × ((r ≡ true) ⊎ ((app'.chain ≡ app.chain) × (app'.file ≡ app.file)))

  overlap-Holds :
      (blank : Block) (start : ℕ) (t : Chain) (app : App)
      → IsNonEmpty app.chain.blocks
      → 0 < start
      → Holds (IsSynced app) (overlap x blank start t app)
  unfolding overlap resize
  overlap-Holds blank start t app n p =
      let cut : Chain = resized blank start app.chain in
      elim (Bool-cases (leb start (size app.chain) || x.blocks_fit start)) [
        | inr huge ↦ rw (overlap, resize, huge) tt
        | inl fits ↦
            rw (overlap, resize, fits)
              (Holds-bind (λ (c : Chain). IsNonEmpty c.blocks) (IsSynced app)
                (add_blocks x t.blocks cut)
                (λ c. some (true, record app { chain = c; file = write_chain c (reset app.file) }))
                (add_blocks-Holds t.blocks cut (IsNonEmpty-resized blank start app.chain n p))
                (λ c m. (m, rewritten-Agree c app.file, inl refl)))
      ]

  extend-Holds :
      (t : Chain) (app : App)
      → IsNonEmpty app.chain.blocks
      → InStep app
      → Holds (IsSynced app) (extend x t app)
  unfolding extend
  extend-Holds t app n h =
      Holds-bind (λ ((c, file) : Chain × File). IsNonEmpty c.blocks × Agree c file) (IsSynced app)
        (append_blocks x t.blocks app.chain app.file)
        (λ (c, file). some (true, record app { chain = c; file = file }))
        (append_blocks-Holds t.blocks app.chain app.file n h) (λ _ (m, a). (m, a, inl refl))

  sync_with-Holds :
      (blank : Block) (t : Chain) (app : App)
      → IsNonEmpty t.blocks
      → IsNonEmpty app.chain.blocks
      → InStep app
      → Holds (IsSynced app) (sync_with x blank t app)
  unfolding sync_with
  sync_with-Holds blank t app m n h =
      let (first, ef) = IsNonEmpty-head? t.blocks m in
      let (last, el) = IsNonEmpty-last? app.chain.blocks n in
      rw (ef, ◌>>=◌)
        (elim (Bool-cases (first.index == 0)) [
          | inl z ↦ rw z (m, rewritten-Agree t app.file, inl refl)
          | inr z ↦
              rw (z, el, ◌>>=◌)
                (elim (Bool-cases (leb first.index last.index)) [
                  | inl o ↦ rw o (overlap-Holds blank first.index t app n (ground arith))
                  | inr o ↦ rw o (elim (Bool-cases (first.index == (last.index + 1) % 2 ^ 64)) [
                    | inl w ↦ rw w (extend-Holds t app n h)
                    | inr w ↦ rw w (n, h, inr (refl, refl))
                  ])
                ])
        ])

  pub sync_blockchain-Holds :
      (blank : Block) (app : App)
      → IsWhole app
      → Holds
          (λ (r, app'). IsSynced app (r, app') × (app'.temp ≡ none))
          (sync_blockchain x blank app)
  unfolding sync_blockchain
  sync_blockchain-Holds blank app (n, m, h) = go app.temp refl
    where
      go :
          (o : Option Chain)
          → app.temp ≡ o
          → Holds
              (λ (r, app'). IsSynced app (r, app') × (app'.temp ≡ none))
              (elim o [
                | none ↦ some (false, app)
                | some t ↦
                    sync_with x blank t app >>= λ (r, app'). some (r, record app' { temp = none })
              ])
      go none e = ((n, h, inr (refl, refl)), e)
      go (some t) e =
          Holds-bind (IsSynced app)
            (λ ((r, app') : Bool × App). IsSynced app (r, app') × (app'.temp ≡ none))
            (sync_with x blank t app) (λ (r, app'). some (r, record app' { temp = none }))
            (sync_with-Holds blank t app (rw e at m) n h) (λ _ s. (s, refl))

  -- A string can have the difficulty of the block as its size, and a vector its index.
  abbrev pub IsFitting : Block → Type 0
  IsFitting b = (x.string_fits b.difficulty ≡ true) × (x.blocks_fit b.index ≡ true)

  -- The blocks of a temporary chain that waits.
  abbrev pub WaitsFitting : Option Chain → Type 0
  WaitsFitting none = Unit
  WaitsFitting (some t) = All IsFitting t.blocks

  -- What is known of `syncBlockchain` behind an equation.
  pub sync_blockchain-cases :
      (blank : Block) (app : App)
      → IsWhole app
      → (sync_blockchain x blank app ≡ none)
        ⊎ ((r : Bool) × (app' : App) × (sync_blockchain x blank app ≡ some (r, app'))
            × IsWhole app'
            × (app'.temp ≡ none))
  sync_blockchain-cases blank app w =
      go (sync_blockchain x blank app) refl (sync_blockchain-Holds blank app w)
    where
      go :
          (o : Option (Bool × App))
          → sync_blockchain x blank app ≡ o
          → Holds (λ (r, app'). IsSynced app (r, app') × (app'.temp ≡ none)) o
          → (sync_blockchain x blank app ≡ none)
            ⊎ ((r : Bool) × (app' : App) × (sync_blockchain x blank app ≡ some (r, app'))
                × IsWhole app'
                × (app'.temp ≡ none))
      go none e _ = inl e
      go (some (r, app')) e ((n, h, _), t) = inr (r, app', e, (n, rw t tt, h), t)

  add_new_block_returns :
      (b l : Block) (c : Chain)
      → last? c.blocks ≡ some l
      → IsFitting b
      → (add_new_block x b c ≡ some (true, push_block b c))
        ⊎ (add_new_block x b c ≡ some (false, c))
  add_new_block_returns b l c e (f, _) = elim (add_new_block-cases x b l c e) [
    | inr returned ↦ returned
    | inl thrown ↦ absurd (false≢true (sym (((add_new_block_iff x b l c e).0.0 thrown).1) ∙ f))
  ]

  append_blocks_returns :
      (bs : List Block) (c : Chain) (file : File)
      → IsNonEmpty c.blocks
      → All IsFitting bs
      → is_some (append_blocks x bs c file) ≡ true
  unfolding append_blocks
  append_blocks_returns [] c file n _ = refl
  append_blocks_returns (b ∷ bs) c file n (f, fs) =
      let (l, e) = IsNonEmpty-last? c.blocks n in
      elim (add_new_block_returns b l c e f) [
        | inl taken ↦ rw taken (
            append_blocks_returns bs (push_block b c) (write b file) (IsNonEmpty-snoc c.blocks b)
              fs)
        | inr refused ↦ rw refused (append_blocks_returns bs c file n fs)
      ]

  add_blocks_returns :
      (bs : List Block) (c : Chain)
      → IsNonEmpty c.blocks
      → All IsFitting bs
      → is_some (add_blocks x bs c) ≡ true
  unfolding add_blocks
  add_blocks_returns [] c n _ = refl
  add_blocks_returns (b ∷ bs) c n (f, fs) =
      let (l, e) = IsNonEmpty-last? c.blocks n in
      elim (add_new_block_returns b l c e f) [
        | inl taken ↦
            rw taken (add_blocks_returns bs (push_block b c) (IsNonEmpty-snoc c.blocks b) fs)
        | inr refused ↦ rw refused (add_blocks_returns bs c n fs)
      ]

  then_returns :
      {A B : Type 0} (o : Option A) (f : A → B)
      → is_some o ≡ true
      → is_some (o >>= λ a. some (f a)) ≡ true
  then_returns none f e = e
  then_returns (some a) f e = refl

  overlap_returns :
      (blank : Block) (start : ℕ) (t : Chain) (app : App)
      → IsNonEmpty app.chain.blocks
      → 0 < start
      → x.blocks_fit start ≡ true
      → All IsFitting t.blocks
      → is_some (overlap x blank start t app) ≡ true
  unfolding overlap resize
  overlap_returns blank start t app n p w fs =
      let cut : Chain = resized blank start app.chain in
      let fits : (leb start (size app.chain) || x.blocks_fit start) ≡ true = ground (arith, w) in
      rw (overlap, resize, fits)
        (then_returns (add_blocks x t.blocks cut)
          (λ c. (true, record app { chain = c; file = write_chain c (reset app.file) }))
          (add_blocks_returns t.blocks cut (IsNonEmpty-resized blank start app.chain n p) fs))

  sync_with_returns :
      (blank : Block) (t : Chain) (app : App)
      → IsNonEmpty t.blocks
      → IsNonEmpty app.chain.blocks
      → All IsFitting t.blocks
      → is_some (sync_with x blank t app) ≡ true
  unfolding sync_with extend
  sync_with_returns blank t app m n fs =
      let (first, ef) = IsNonEmpty-head? t.blocks m in
      let (last, el) = IsNonEmpty-last? app.chain.blocks n in
      let (_, w) = All-get_elem? IsFitting t.blocks 0 fs (head-at t.blocks ef) in
      rw (ef, ◌>>=◌)
        (elim (Bool-cases (first.index == 0)) [
          | inl z ↦ rw z refl
          | inr z ↦
              rw (z, el, ◌>>=◌)
                (elim (Bool-cases (leb first.index last.index)) [
                  | inl o ↦ rw o (overlap_returns blank first.index t app n (ground arith) w fs)
                  | inr o ↦ rw o (elim (Bool-cases (first.index == (last.index + 1) % 2 ^ 64)) [
                    | inl v ↦
                        rw (v, extend)
                          (then_returns (append_blocks x t.blocks app.chain app.file)
                            (λ (c, file). (true, record app { chain = c; file = file }))
                            (append_blocks_returns t.blocks app.chain app.file n fs))
                    | inr v ↦ rw v refl
                  ])
                ])
        ])

  sync_blockchain_returns :
      (blank : Block) (app : App)
      → IsWhole app
      → WaitsFitting app.temp
      → is_some (sync_blockchain x blank app) ≡ true
  unfolding sync_blockchain
  sync_blockchain_returns blank app (n, m, h) fs = elim (Option-cases app.temp) [
    | inl e ↦ rw (sync_blockchain, e) refl
    | inr (t, e) ↦
        rw (sync_blockchain, e)
          (then_returns (sync_with x blank t app) (λ (r, app'). (r, record app' { temp = none }))
            (sync_with_returns blank t app (rw e at m) n (rw e at fs)))
  ]

  -- `syncBlockchain` returns on a node whose chain has a block, as has the temporary one, if any, and
  -- whose file holds the blocks of its chain, where the difficulties of the blocks that wait can be
  -- the sizes of strings, and their indices those of vectors of blocks. Afterwards the chain has a
  -- block, the file holds the blocks of the chain again, no temporary chain waits, and where it says
  -- no, the chain and the file are as they were.
  pub sync_blockchain-Gives :
      (blank : Block) (app : App)
      → IsWhole app
      → WaitsFitting app.temp
      → Gives
          (λ (r, app'). IsSynced app (r, app') × (app'.temp ≡ none))
          (sync_blockchain x blank app)
  sync_blockchain-Gives blank app w fs =
      Holds-Gives (λ ((r, app') : Bool × App). IsSynced app (r, app') × (app'.temp ≡ none))
        (sync_blockchain x blank app) (sync_blockchain-Holds blank app w)
        (sync_blockchain_returns blank app w fs)
