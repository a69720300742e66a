-- ===== src/App/Chained.antt =====
-- What messages and rounds of mining of src/MinerApp.cpp do to the links between the blocks.
use ash_coin.Base.{
  ◌||◌, ℕ, ◌-◌, ◌+◌, ◌%◌, ◌^◌, ◌≤◌, ◌≡◌, refl, Bool, true, false, Option, none, some, List, [], ◌∷◌,
  inl, inr, ◌⊎◌, Bool-cases, Option-cases, Holds, Holds-bind, Holds-map, leb, ◌==◌, ◌>>=◌,
  if◌then◌else◌, last?, get_elem?, get_elem?-lt, arith,
}
use ash_coin.External.{External}
use ash_coin.Block.{Block}
use ash_coin.Chain.{Chain, size, resize, resized, add_new_block}
use ash_coin.Chain.Valid.{IsLinked}
use ash_coin.Chain.Chained.{
  IsChained, IsLinked-IsChained, IsChained-resized, IsAdded, add_new_block-IsChained,
}
use ash_coin.Database.Load.{File, write, write_chain, reset}
use ash_coin.App.{App, add_blocks, append_blocks, overlap, extend, sync_with, sync_blockchain}
use ash_coin.App.Messages.Whole.{Fits}

module _ {J : Type 0} (x : External J) where
  -- A chain that waits is valid, and belongs where its first block says.
  abbrev pub IsWaiting : Option Chain → Chain → Type 0
  IsWaiting none c = Unit
  IsWaiting (some t) c = IsLinked x t.blocks × Fits t c

  -- The chain is chained, and so is a chain that waits, behind its place in it.
  abbrev pub IsSound : App → Type 0
  IsSound app = IsChained x app.chain.blocks × IsWaiting app.temp app.chain

  add_blocks-IsChained :
      (bs : List Block) (c : Chain)
      → IsChained x c.blocks
      → Holds (λ c'. IsChained x c'.blocks) (add_blocks x bs c)
  unfolding add_blocks
  add_blocks-IsChained [] c n = n
  add_blocks-IsChained (b ∷ bs) c n =
      Holds-bind (IsAdded x b c) (λ (c' : Chain). IsChained x c'.blocks) (add_new_block x b c)
        (λ (_, c'). add_blocks x bs c') (add_new_block-IsChained x b c n)
        (λ (_, c') (m, _). add_blocks-IsChained bs c' m)

  append_blocks-IsChained :
      (bs : List Block) (c : Chain) (file : File)
      → IsChained x c.blocks
      → Holds (λ (c', _). IsChained x c'.blocks) (append_blocks x bs c file)
  unfolding append_blocks
  append_blocks-IsChained [] c file n = n
  append_blocks-IsChained (b ∷ bs) c file n =
      Holds-bind (IsAdded x b c) (λ ((c', _) : Chain × File). IsChained x c'.blocks)
        (add_new_block x b c)
        (λ (done, c'). append_blocks x bs c' (if done then write b file else file))
        (add_new_block-IsChained x b c n) (λ (done, c') (m, _). append_blocks-IsChained bs c' _ m)

  abbrev KeepsLinks : Option (Bool × App) → Type 0
  KeepsLinks = Holds (λ (_, app'). IsChained x app'.chain.blocks)

  overlap-KeepsLinks :
      (blank : Block) (start : ℕ) (t : Chain) (app : App)
      → IsChained x app.chain.blocks
      → start ≤ size app.chain
      → KeepsLinks (overlap x blank start t app)
  unfolding overlap resize
  overlap-KeepsLinks blank start t app n h =
      let cut : Chain = resized blank start app.chain in
      let fits : (leb start (size app.chain) || x.blocks_fit start) ≡ true = ground (arith, h) in
      rw (overlap, resize, fits)
        (Holds-bind (λ (c : Chain). IsChained x c.blocks)
          (λ ((_, app') : Bool × App). IsChained x app'.chain.blocks) (add_blocks x t.blocks cut)
          (λ c. some (true, record app { chain = c; file = write_chain c (reset app.file) }))
          (add_blocks-IsChained t.blocks cut (IsChained-resized x blank start app.chain h n))
          (λ c m. m))

  extend-KeepsLinks :
      (t : Chain) (app : App) → IsChained x app.chain.blocks → KeepsLinks (extend x t app)
  unfolding extend
  extend-KeepsLinks t app n =
      Holds-bind (λ ((c, _) : Chain × File). IsChained x c.blocks)
        (λ ((_, app') : Bool × App). IsChained x app'.chain.blocks)
        (append_blocks x t.blocks app.chain app.file)
        (λ (c, file). some (true, record app { chain = c; file = file }))
        (append_blocks-IsChained t.blocks app.chain app.file n) (λ _ m. m)

  -- A chain that waits begins at most one place behind the last block.
  inside :
      (f : Block) (c : Chain)
      → (f.index == 0) ≡ false
      → (f.index ≡ 0)
        ⊎ ((p : Block) × (get_elem? c.blocks (f.index - 1) ≡ some p) × (f.prev ≡ p.hash))
      → f.index ≤ size c
  inside f c z (inl e) = ground arith
  inside f c z (inr (p, e, _)) = omega (arith, get_elem?-lt c.blocks (f.index - 1) e)

  sync_with-KeepsLinks :
      (blank : Block) (t : Chain) (app : App)
      → IsChained x app.chain.blocks
      → IsLinked x t.blocks
      → Fits t app.chain
      → KeepsLinks (sync_with x blank t app)
  unfolding sync_with
  sync_with-KeepsLinks blank t app n m (f, ef, place) =
      rw (ef, ◌>>=◌)
        (elim (Bool-cases (f.index == 0)) [
          | inl z ↦ rw z (IsLinked-IsChained x t.blocks m)
          | inr z ↦ elim (Option-cases (last? app.chain.blocks)) [
            | inl e ↦ rw (z, e, ◌>>=◌) tt
            | inr (last, e) ↦
                rw (z, e, ◌>>=◌)
                  (elim (Bool-cases (leb f.index last.index)) [
                    | inl o ↦
                        rw o (overlap-KeepsLinks blank f.index t app n (inside f app.chain z place))
                    | inr o ↦ rw o (elim (Bool-cases (f.index == (last.index + 1) % 2 ^ 64)) [
                      | inl w ↦ rw w (extend-KeepsLinks t app n)
                      | inr w ↦ rw w n
                    ])
                  ])
          ]
        ])

  -- Behind `syncBlockchain` the chain is chained, and no chain waits.
  pub sync_blockchain-IsChained :
      (blank : Block) (app : App)
      → IsSound app
      → Holds
          (λ (_, app'). IsChained x app'.chain.blocks × (app'.temp ≡ none))
          (sync_blockchain x blank app)
  unfolding sync_blockchain
  sync_blockchain-IsChained blank app (n, m) = go app.temp refl
    where
      go :
          (o : Option Chain)
          → app.temp ≡ o
          → Holds {A = Bool × App}
              (λ (_, app'). IsChained x app'.chain.blocks × (app'.temp ≡ none))
              (elim o [
                | none ↦ some (false, app)
                | some t ↦
                    sync_with x blank t app >>= λ (r, app'). some (r, record app' { temp = none })
              ])
      go none e = (n, e)
      go (some t) e =
          let (linked, fits) = rw e at m in
          Holds-bind (λ ((_, app') : Bool × App). IsChained x app'.chain.blocks)
            (λ ((_, app') : Bool × App). IsChained x app'.chain.blocks × (app'.temp ≡ none))
            (sync_with x blank t app) (λ (r, app'). some (r, record app' { temp = none }))
            (sync_with-KeepsLinks blank t app n linked fits) (λ _ k. (k, refl))

  abbrev pub IsSoundResult : {A : Type 0} → A × App → Type 0
  IsSoundResult (_, app) = IsSound app

  -- Behind `syncBlockchain` a node is sound.
  pub synced-IsSound :
      (blank : Block) (app : App)
      → IsSound app
      → Holds (IsSoundResult {A = Bool}) (sync_blockchain x blank app)
  synced-IsSound blank app w =
      Holds-map (λ ((_, app') : Bool × App). IsChained x app'.chain.blocks × (app'.temp ≡ none))
        (IsSoundResult {A = Bool}) (sync_blockchain x blank app) (λ (_, app') (n, t). (n, rw t tt))
        (sync_blockchain-IsChained blank app w)
