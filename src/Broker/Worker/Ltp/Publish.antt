-- ===== src/Broker/Worker/Ltp/Publish.antt =====
-- One call of _publish_ltp, whether redis fails or not.
use mathlib.Core.Path.{subst}
use ln_trading_app.Prelude.{
  Bool, Bool-cases, List, Option, [], ap, arith, false, inl, inr, none, refl, some, sym, true, ℕ,
  ◌++◌, ◌∙◌, ◌∷◌, ◌≡◌,
}
use ln_trading_app.Broker.Worker.Ltp.{
  Command, FfiTick, LtpState, Prices, depth_commands, execute, is_empty, needs_set, no_prices,
  publish_ltp, published, queue_ltp, updated,
}
use ln_trading_app.Broker.Worker.Ltp.Mirror.{
  Followed, Mirrors, Seen, execute-++, execute-depth, keep_step, last_price, queue, queue-Left,
  set_step,
}

is_empty-++ : (a b : List Command) → is_empty (a ++ b) ≡ true → (a ≡ []) × (is_empty b ≡ true)
is_empty-++ [] b h = (refl, h)
is_empty-++ (c ∷ a) b h = ground arith

is_empty-[] : (a : List Command) → is_empty a ≡ true → a ≡ []
is_empty-[] [] h = refl
is_empty-[] (c ∷ a) h = ground arith

module _ (token_of : ℕ → Option ℕ) (watched : Option (ℕ → Bool)) (now : ℕ) where
  -- Without a command nothing is pending.
  quiet-queue :
      (cache pending : Prices) (batch : List FfiTick)
      → is_empty (queue token_of watched now cache pending batch).1 ≡ true
      → (queue token_of watched now cache pending batch).0 ≡ pending
  unfolding queue_ltp
  quiet-queue cache pending [] h = refl
  quiet-queue cache pending (tick ∷ batch) h =
      elim (Bool-cases (needs_set now tick.tick_price (updated pending cache tick.tick_stock))) [
        | inl needed ↦ absurd (
            subst IsLoud
              (ap (λ q. is_empty q.1)
                  (sym (set_step token_of watched now cache tick batch pending needed))
                ∙ h)
              tt)
        | inr unneeded ↦
            let step = keep_step token_of watched now cache tick batch pending unneeded in
            ap (λ q. q.0) step
            ∙ quiet-queue cache pending batch (
                (is_empty-++ (published token_of watched tick) _
                  (ap (λ q. is_empty q.1) (sym step) ∙ h)).1)
      ]
    where
      IsLoud : Bool → Type 0
      IsLoud true = ⊥
      IsLoud false = Unit

  abbrev commands_of : List FfiTick → LtpState → List Command
  commands_of batch s =
      (queue token_of watched now s.ltp_cache no_prices batch).1
      ++ depth_commands token_of s.pending_depth

  -- What a call makes of the keys and the cache
  abbrev pub Kept : List FfiTick → LtpState → LtpState → Type 0
  Kept batch s s' =
      Mirrors s'.ltp_cache s'.ltp_keys
      × ((stock : ℕ) → Seen now (last_price stock batch) (s.ltp_keys stock) (s'.ltp_keys stock))

  quiet-Kept :
      (failed : Option Prices) (batch : List FfiTick) (s : LtpState)
      → is_empty (commands_of batch s) ≡ true
      → Mirrors s.ltp_cache s.ltp_keys
      → Kept batch s (publish_ltp token_of watched now failed batch s).0
  unfolding publish_ltp execute
  quiet-Kept failed batch s quiet h =
      let q : Prices × List Command = queue token_of watched now s.ltp_cache no_prices batch in
      let (nothing, more) = is_empty-++ q.1 (depth_commands token_of s.pending_depth) quiet in
      rw quiet (
        subst
          (λ commands.
            Followed now s.ltp_cache s.ltp_keys (execute now commands s.ltp_keys) no_prices batch)
          nothing
          (subst
            (λ pending.
              Followed now s.ltp_cache s.ltp_keys (execute now q.1 s.ltp_keys) pending batch)
            (quiet-queue s.ltp_cache no_prices batch (ap is_empty nothing))
            (queue-Left token_of watched now s.ltp_cache batch no_prices s.ltp_keys h)))

  loud-Kept :
      (batch : List FfiTick) (s : LtpState)
      → is_empty (commands_of batch s) ≡ false
      → Mirrors s.ltp_cache s.ltp_keys
      → Kept batch s (publish_ltp token_of watched now none batch s).0
  unfolding publish_ltp
  loud-Kept batch s loud h =
      let q : Prices × List Command = queue token_of watched now s.ltp_cache no_prices batch in
      rw loud (
        subst (λ keys. Followed now s.ltp_cache s.ltp_keys keys q.0 batch)
          (sym (
            execute-++ now q.1 (depth_commands token_of s.pending_depth) s.ltp_keys
            ∙ execute-depth token_of now s.pending_depth (execute now q.1 s.ltp_keys)))
          (queue-Left token_of watched now s.ltp_cache batch no_prices s.ltp_keys h))

  -- After a call that works, with a cache that mirrors the keys before it, every stock with a tick in
  -- the batch has a key that holds the price of its last tick and was set less than ten seconds ago;
  -- the keys of the other stocks are as before. Skipping the sets of unchanged prices loses nothing.
  pub publish_ltp_lem :
      (batch : List FfiTick) (s : LtpState)
      → Mirrors s.ltp_cache s.ltp_keys
      → Kept batch s (publish_ltp token_of watched now none batch s).0
  publish_ltp_lem batch s h = elim (Bool-cases (is_empty (commands_of batch s))) [
    | inl quiet ↦ quiet-Kept none batch s quiet h
    | inr loud ↦ loud-Kept batch s loud h
  ]

  -- Whether the pipeline works or raises, and whatever it leaves of the keys when it raises, the cache
  -- never claims a price that the key does not hold.
  pub publish_ltp-Mirrors :
      (failed : Option Prices) (batch : List FfiTick) (s : LtpState)
      → Mirrors s.ltp_cache s.ltp_keys
      → Mirrors
          (publish_ltp token_of watched now failed batch s).0.ltp_cache
          (publish_ltp token_of watched now failed batch s).0.ltp_keys
  unfolding publish_ltp
  publish_ltp-Mirrors none batch s h = (publish_ltp_lem batch s h).0
  publish_ltp-Mirrors (some left) batch s h = elim (Bool-cases (is_empty (commands_of batch s))) [
    | inl quiet ↦ (quiet-Kept (some left) batch s quiet h).0
    | inr loud ↦ rw loud (λ stock. tt)
  ]
