-- ===== src/Broker/Worker/Ltp/Mirror.antt =====
-- The cache of sent prices mirrors the keys, and the keys follow the ticks.
use mathlib.Core.Path.{subst}
use ln_trading_app.Prelude.{
  Bool, Bool-cases, List, Option, [], ap, arith, false, if◌then◌else◌, inl, inr, none, refl, some,
  sym, true, ℕ, ◌++◌, ◌+◌, ◌<◌, ◌==◌, ◌∙◌, ◌∷◌, ◌≡◌,
}
use ln_trading_app.Broker.Depth.{Depth}
use ln_trading_app.Broker.Worker.Ltp.{
  Command, FfiTick, Prices, Quote, depth_commands, execute, needs_set, publish, published, put,
  queue_ltp, reset_s, set_depth, set_ltp, updated,
}

abbrev pub Agrees : Option Quote → Option Quote → Type 0
Agrees none key = Unit
Agrees (some quote) key = key ≡ some quote

-- What the cache says was set is what the key holds.
abbrev pub Mirrors : Prices → Prices → Type 0
Mirrors cache keys = (stock : ℕ) → Agrees (cache stock) (keys stock)

-- The price of the last tick of a stock in a batch
abbrev pub last_or : Option ℕ → Option ℕ → Option ℕ
last_or none first = first
last_or (some price) first = some price

unfoldable pub last_price : ℕ → List FfiTick → Option ℕ
last_price stock [] = none
last_price stock (tick ∷ batch) =
    last_or (last_price stock batch)
      (if stock == tick.tick_stock then some tick.tick_price else none)

-- The key holds the price, and was set less than `reset_s` ago.
abbrev pub Shows : ℕ → ℕ → Option Quote → Type 0
Shows now price none = ⊥
Shows now price (some (shown, at)) = (shown ≡ price) × (now < at + reset_s)

pub execute-++ :
    (now : ℕ) (a b : List Command) (keys : Prices)
    → execute now (a ++ b) keys ≡ execute now b (execute now a keys)
unfolding execute
execute-++ now [] b keys = refl
execute-++ now (set_ltp stock price ∷ a) b keys = execute-++ now a b (put stock (price, now) keys)
execute-++ now (publish token tick ∷ a) b keys = execute-++ now a b keys
execute-++ now (set_depth stock token book ts ∷ a) b keys = execute-++ now a b keys

execute-published :
    (token_of : ℕ → Option ℕ) (watched : Option (ℕ → Bool)) (now : ℕ) (tick : FfiTick)
    (keys : Prices)
    → execute now (published token_of watched tick) keys ≡ keys
unfolding execute published
execute-published token_of watched now tick keys = ground arith

pub execute-depth :
    (token_of : ℕ → Option ℕ) (now : ℕ) (books : List (ℕ × (Depth × ℕ))) (keys : Prices)
    → execute now (depth_commands token_of books) keys ≡ keys
unfolding execute depth_commands
execute-depth token_of now [] keys = refl
execute-depth token_of now ((stock, (book, ts)) ∷ books) keys =
    let rest = execute-depth token_of now books keys in ground arith

put-Mirrors :
    (stock : ℕ) (quote : Quote) (pending cache keys : Prices)
    → Mirrors (updated pending cache) keys
    → Mirrors (updated (put stock quote pending) cache) (put stock quote keys)
put-Mirrors stock quote pending cache keys h other_stock =
    let before = h other_stock in
    elim (Bool-cases (other_stock == stock)) [
      | inl same ↦ rw same refl
      | inr different ↦ rw different before
    ]

-- A tick that needs no set is already shown.
unneeded-Shows :
    (now price : ℕ) (cached key : Option Quote)
    → needs_set now price cached ≡ false
    → Agrees cached key
    → Shows now price key
unfolding needs_set
unneeded-Shows now price none key h agrees = ground arith
unneeded-Shows now price (some (last, at)) key h agrees =
    subst (Shows now price) (sym agrees) (ground arith)

abbrev pub Seen : ℕ → Option ℕ → Option Quote → Option Quote → Type 0
Seen now none before final = final ≡ before
Seen now (some price) before final = Shows now price final

-- What a batch leaves: the cache mirrors the keys, the keys of stocks without a tick are as before,
-- and the others show the price of the last tick.
abbrev pub Followed : ℕ → Prices → Prices → Prices → Prices → List FfiTick → Type 0
Followed now cache keys final pending batch =
    Mirrors (updated pending cache) final
    × ((stock : ℕ) → Seen now (last_price stock batch) (keys stock) (final stock))

Seen-step :
    (now : ℕ) (o : Option ℕ) (same : Bool) (price : ℕ) (before mid final : Option Quote)
    → Seen now o mid final
    → (same ≡ true → Shows now price mid)
    → (same ≡ false → mid ≡ before)
    → Seen now (last_or o (if same then some price else none)) before final
Seen-step now (some p) same price before mid final h shows kept = h
Seen-step now none true price before mid final h shows kept =
    subst (Shows now price) (sym h) (shows refl)
Seen-step now none false price before mid final h shows kept = h ∙ kept refl

Followed-step :
    (now : ℕ) (cache : Prices) (tick : FfiTick) (batch : List FfiTick)
    (keys mid final pending : Prices)
    → Shows now tick.tick_price (mid tick.tick_stock)
    → ((stock : ℕ) → (stock == tick.tick_stock) ≡ false → mid stock ≡ keys stock)
    → Followed now cache mid final pending batch
    → Followed now cache keys final pending (tick ∷ batch)
unfolding last_price
Followed-step now cache tick batch keys mid final pending shows kept (mirrors, seen) = (
  mirrors,
  λ stock.
      Seen-step now (last_price stock batch) (stock == tick.tick_stock) tick.tick_price (keys stock)
        (mid stock) (final stock) (seen stock)
        (λ same. subst (λ x. Shows now tick.tick_price (mid x)) (sym (equal _ _ same)) shows)
        (kept stock),
)
  where
    equal : (a b : ℕ) → (a == b) ≡ true → a ≡ b
    equal a b h = ground arith

module _ (token_of : ℕ → Option ℕ) (watched : Option (ℕ → Bool)) (now : ℕ) (cache : Prices) where
  abbrev after : Prices → List FfiTick → Prices → Prices
  after pending batch keys = execute now (queue_ltp token_of watched now cache pending batch).1 keys

  abbrev left_pending : Prices → List FfiTick → Prices
  left_pending pending batch = (queue_ltp token_of watched now cache pending batch).0

  abbrev pub queue : Prices → List FfiTick → Prices × List Command
  queue pending batch = queue_ltp token_of watched now cache pending batch

  pub set_step :
      (tick : FfiTick) (batch : List FfiTick) (pending : Prices)
      → needs_set now tick.tick_price (updated pending cache tick.tick_stock) ≡ true
      → queue pending (tick ∷ batch) ≡ (
        (queue (put tick.tick_stock (tick.tick_price, now) pending) batch).0,
        set_ltp tick.tick_stock tick.tick_price ∷ published token_of watched tick
            ++ (queue (put tick.tick_stock (tick.tick_price, now) pending) batch).1,
      )
  unfolding queue_ltp
  set_step tick batch pending h = rw h refl

  pub keep_step :
      (tick : FfiTick) (batch : List FfiTick) (pending : Prices)
      → needs_set now tick.tick_price (updated pending cache tick.tick_stock) ≡ false
      → queue pending (tick ∷ batch)
        ≡ ((queue pending batch).0, published token_of watched tick ++ (queue pending batch).1)
  unfolding queue_ltp
  keep_step tick batch pending h = rw h refl

  abbrev pub Left : Prices → Prices × List Command → List FfiTick → Type 0
  Left keys (pending, commands) batch =
      Followed now cache keys (execute now commands keys) pending batch

  pub queue-Left :
      (batch : List FfiTick) (pending keys : Prices)
      → Mirrors (updated pending cache) keys
      → Left keys (queue pending batch) batch
  unfolding queue_ltp last_price execute
  queue-Left [] pending keys h = (h, λ stock. refl)
  queue-Left (tick ∷ batch) pending keys h =
      let stock : ℕ = tick.tick_stock in
      let quote : Quote = (tick.tick_price, now) in
      let message : List Command = published token_of watched tick in
      elim (Bool-cases (needs_set now tick.tick_price (updated pending cache stock))) [
        | inl needed ↦
            let set_keys : Prices = put stock quote keys in
            let out : Prices × List Command = queue (put stock quote pending) batch in
            subst (λ q. Left keys q (tick ∷ batch)) (sym (set_step tick batch pending needed))
              (Followed-step now cache tick batch keys set_keys _ out.0
                (rw (same_stock stock) (refl, omega arith)) (λ x different. rw different refl)
                (subst (λ final. Followed now cache set_keys final out.0 batch)
                  (sym (
                    execute-++ now message out.1 set_keys
                    ∙ ap (execute now out.1)
                        (execute-published token_of watched now tick set_keys)))
                  (queue-Left batch (put stock quote pending) set_keys
                    (put-Mirrors stock quote pending cache keys h))))
        | inr unneeded ↦
            let out : Prices × List Command = queue pending batch in
            subst (λ q. Left keys q (tick ∷ batch)) (sym (keep_step tick batch pending unneeded))
              (Followed-step now cache tick batch keys keys _ out.0
                (unneeded-Shows now tick.tick_price _ (keys stock) unneeded (h stock))
                (λ x different. refl)
                (subst (λ final. Followed now cache keys final out.0 batch)
                  (sym (
                    execute-++ now message out.1 keys
                    ∙ ap (execute now out.1) (execute-published token_of watched now tick keys)))
                  (queue-Left batch pending keys h)))
      ]
    where
      same_stock : (a : ℕ) → (a == a) ≡ true
      same_stock a = ground arith
