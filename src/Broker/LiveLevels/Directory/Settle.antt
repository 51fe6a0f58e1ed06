-- ===== src/Broker/LiveLevels/Directory/Settle.antt =====
-- After a cycle of refresh and application the engine holds the levels of the moment.
use mathlib.Core.Path.{subst}
use ln_trading_app.Prelude.{
  All, Bool, Bool-cases, List, Option, Option-cases, [], ap, arith, false, inl, inr, refl, sym,
  true, ℕ, ◌==◌, ◌||◌, ◌∙◌, ◌∷◌, ◌≡◌, ◌⊎◌,
}
use ln_trading_app.Broker.LiveLevels.{
  Level, LevelSettings, LevelSignal, levels_or_empty, signal_levels,
}
use ln_trading_app.Broker.LiveLevels.Directory.{
  LevelState, StockLevels, apply_levels, changes, extend, has_stock, is_done, mark_sent,
  merge_signals, refresh, set_levels,
}
use ln_trading_app.Broker.LiveLevels.Directory.Changes.{
  HasOnce, Wanted, changes-All, changes-covers, equal, neither, wanted,
}
use ln_trading_app.Broker.LiveLevels.Directory.Cycle.{IsSynced, apply_levels-IsSynced}

extend-absent :
    (key sid : ℕ) (more : List Level) (dict : StockLevels)
    → (sid == key) ≡ false
    → has_stock key dict ≡ false
    → has_stock key (extend sid more dict) ≡ false
unfolding extend
extend-absent key sid more [] h absent = rw h refl
extend-absent key sid more ((k, own) ∷ dict) h absent =
    let (here, there) = neither (k == key) (has_stock key dict) absent in
    let rest = extend-absent key sid more dict h there in
    elim (Bool-cases (k == sid)) [
      | inl same ↦ rw (same, here) there
      | inr different ↦ rw (different, here) rest
    ]

extend-HasOnce :
    (sid : ℕ) (more : List Level) (dict : StockLevels)
    → HasOnce dict
    → HasOnce (extend sid more dict)
unfolding extend
extend-HasOnce sid more [] once = (refl, tt)
extend-HasOnce sid more ((key, own) ∷ dict) (absent, once) = elim (Bool-cases (key == sid)) [
  | inl same ↦ rw same (absent, once)
  | inr different ↦ rw different (
    extend-absent key sid more dict (apart key different) absent,
    extend-HasOnce sid more dict once,
  )
]
  where
    apart : (key : ℕ) → (key == sid) ≡ false → (sid == key) ≡ false
    apart key h = ground arith

-- The loop over the signals keeps one entry for each stock.
merge_signals-HasOnce :
    (settings : LevelSettings) (sr : ℕ → ℕ → Option (List Level)) (sigs : List LevelSignal)
    (done : List (ℕ × ℕ)) (joined : StockLevels)
    → HasOnce joined
    → HasOnce (merge_signals settings sr sigs done joined)
unfolding merge_signals
merge_signals-HasOnce settings sr [] done joined once = once
merge_signals-HasOnce settings sr (sig ∷ sigs) done joined once =
    let own : StockLevels = extend sig.live_stock (signal_levels settings sig).0 joined in
    let own_once : HasOnce own = extend-HasOnce sig.live_stock _ joined once in
    let key : ℕ × ℕ = (sig.live_stock, sig.live_timeframe) in
    let zones : List Level = levels_or_empty (sr sig.live_stock sig.live_timeframe) in
    elim (Bool-cases (is_done sig.live_stock sig.live_timeframe done)) [
      | inl before ↦
          rw (merge_signals, before) (merge_signals-HasOnce settings sr sigs done own own_once)
      | inr first ↦ elim (Option-cases (sr sig.live_stock sig.live_timeframe)) [
        | inl failed ↦
            rw (merge_signals, first, failed)
              (merge_signals-HasOnce settings sr sigs (key ∷ done) own own_once)
        | inr (loaded, found) ↦
            rw (merge_signals, first, found)
              (merge_signals-HasOnce settings sr sigs (key ∷ done) (extend sig.live_stock zones own)
                (extend-HasOnce sig.live_stock zones own own_once))
      ]
    ]

-- Each stock is right, or the engine refuses what it should have, or its turn is still to come.
abbrev AreDue : (ℕ → List Level → Bool) → StockLevels → List (ℕ × List Level) → LevelState → Type 0
AreDue accepts joined payload s =
    (sid : ℕ)
    → (s.engine sid ≡ wanted joined sid)
      ⊎ ((accepts sid (wanted joined sid) ≡ false) ⊎ (has_stock sid payload ≡ true))

-- The entry at the head was applied to a stock.
due-same :
    (joined : StockLevels) (key sid : ℕ) (levels : List Level)
    → levels ≡ wanted joined key
    → (key == sid) ≡ true
    → levels ≡ wanted joined sid
due-same joined key sid levels right same = right ∙ ap (wanted joined) (equal key sid same)

due-other :
    {A B : Type 0} (key_is has : Bool)
    → key_is ≡ false
    → A ⊎ (B ⊎ ((key_is || has) ≡ true))
    → A ⊎ (B ⊎ (has ≡ true))
due-other key_is has different (inl a) = inl a
due-other key_is has different (inr (inl b)) = inr (inl b)
due-other key_is has different (inr (inr later)) = inr (inr (ground arith))

-- After any payload of what is wanted that covers what is not yet there
apply_levels-settles :
    (accepts : ℕ → List Level → Bool) (joined : StockLevels) (payload : List (ℕ × List Level))
    (s : LevelState)
    → All (Wanted joined) payload
    → AreDue accepts joined payload s
    → AreDue accepts joined [] (apply_levels accepts payload s)
unfolding apply_levels
apply_levels-settles accepts joined [] s all due = due
apply_levels-settles accepts joined ((key, levels) ∷ payload) s (right, all) due =
    elim (Bool-cases (accepts key levels)) [
      | inl fits ↦
          let next : LevelState = record {
            engine = set_levels key levels s.engine;
            last_sent = mark_sent key levels s.last_sent;
          } in
          rw (apply_levels, fits)
            (apply_levels-settles accepts joined payload next all (λ sid. due_fits sid))
      | inr refused ↦
          rw (apply_levels, refused)
            (apply_levels-settles accepts joined payload s all (λ sid. due_refused refused sid))
    ]
  where
    due_fits :
        (sid : ℕ)
        → (set_levels key levels s.engine sid ≡ wanted joined sid)
          ⊎ ((accepts sid (wanted joined sid) ≡ false) ⊎ (has_stock sid payload ≡ true))
    due_fits sid = elim (Bool-cases (key == sid)) [
      | inl same ↦ rw same (inl (due-same joined key sid levels right same))
      | inr different ↦
          rw different (due-other (key == sid) (has_stock sid payload) different (due sid))
    ]

    due_refused :
        accepts key levels ≡ false
        → (sid : ℕ)
        → (s.engine sid ≡ wanted joined sid)
          ⊎ ((accepts sid (wanted joined sid) ≡ false) ⊎ (has_stock sid payload ≡ true))
    due_refused refused sid = elim (Bool-cases (key == sid)) [
      | inl same ↦ inr (
          inl (
            subst (λ k. accepts k (wanted joined k) ≡ false) (equal key sid same)
              (subst (λ l. accepts key l ≡ false) right refused)))
      | inr different ↦ due-other (key == sid) (has_stock sid payload) different (due sid)
    ]

-- When what the engine holds is what was acknowledged, and the static levels have one entry for each
-- stock, a refresh whose changes are all applied leaves every stock with its static levels and those
-- of its active signals, and with none when it has neither any more, unless the engine rejects
-- exactly these; and what was acknowledged is still what the engine holds.
pub refresh_settles :
    (settings : LevelSettings) (sr : ℕ → ℕ → Option (List Level)) (sigs : List LevelSignal)
    (static_levels : StockLevels) (accepts : ℕ → List Level → Bool) (s : LevelState)
    → HasOnce static_levels
    → IsSynced s
    → let s' = apply_levels accepts (refresh settings sr sigs static_levels s.last_sent) s in
      let joined = merge_signals settings sr sigs [] static_levels in
      IsSynced s'
      × ((sid : ℕ)
          → (s'.engine sid ≡ wanted joined sid) ⊎ (accepts sid (wanted joined sid) ≡ false))
unfolding refresh
refresh_settles settings sr sigs static_levels accepts s once synced =
    let joined : StockLevels = merge_signals settings sr sigs [] static_levels in
    let payload : List (ℕ × List Level) = changes joined s.last_sent in
    (
      apply_levels-IsSynced accepts payload s synced,
      λ sid. settled (
          apply_levels-settles accepts joined payload s
            (changes-All joined s.last_sent
              (merge_signals-HasOnce settings sr sigs [] static_levels once))
            (λ stock. due (synced stock) (changes-covers joined s.last_sent stock)) sid),
    )
  where
    settled : {A B : Type 0} → A ⊎ (B ⊎ (false ≡ true)) → A ⊎ B
    settled (inl a) = inl a
    settled (inr (inl b)) = inr b
    settled (inr (inr e)) = ground arith

    due :
        {sent held target : List Level} {B C : Type 0}
        → sent ≡ held
        → (sent ≡ target) ⊎ C
        → (held ≡ target) ⊎ (B ⊎ C)
    due e (inl right) = inl (sym e ∙ right)
    due e (inr later) = inr (inr later)
