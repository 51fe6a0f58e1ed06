-- ===== src/Signals/Calendar/Validity.antt =====
-- What the validity of a signal comes to.
use ln_trading_app.Prelude.{
  Bool, arith, if◌then◌else◌, ltb, some, suc, ℕ, ◌%◌, ◌*◌, ◌+◌, ◌-◌, ◌<◌, ◌≡◌,
}
use ln_trading_app.Clock.{day, utc_date}
use ln_trading_app.Money.{Classification, intraday, investment, other, positional, scalp, swing}
use ln_trading_app.Signals.Calendar.{
  add_trading_days, compute_validity_until, validity_offset_days, validity_trading_days,
}
use ln_trading_app.Signals.Calendar.Walk.{add_trading_days_later}

offset_restores :
    (created_at e : ℕ)
    → utc_date created_at < e
    → (0 < utc_date (e * day + created_at % day) - utc_date created_at)
      × (created_at + (utc_date (e * day + created_at % day) - utc_date created_at) * day
          ≡ e * day + created_at % day)
offset_restores created_at e h = (omega arith, omega arith)

some_inj : {a b : ℕ} → some a ≡ some b → a ≡ b
some_inj e = ground arith

offset_of :
    (holiday : ℕ → Bool) (c : Classification) (created_at n offset target : ℕ)
    → validity_trading_days c ≡ some (suc n)
    → add_trading_days holiday created_at (suc n) ≡ some target
    → validity_offset_days holiday c created_at ≡ some offset
    → utc_date target - utc_date created_at ≡ offset
unfolding validity_offset_days
offset_of holiday c created_at n offset target h found k =
    some_inj (rw (validity_offset_days, h, found) at k)

until_target :
    (created_at offset spare target : ℕ)
    → 0 < offset
    → created_at + offset * day ≡ target
    → some (created_at + (if ltb 0 offset then offset else spare) * day) ≡ some target
until_target created_at offset spare target h e = ground arith

-- A swing signal is valid for exactly five trading days and a positional one for thirty, to the
-- same time of day: the offset in calendar days loses nothing of the date that the calendar found.
pub validity_is_trading_days :
    (holiday : ℕ → Bool) (c : Classification) (created_at n offset : ℕ)
    → validity_trading_days c ≡ some (suc n)
    → validity_offset_days holiday c created_at ≡ some offset
    → compute_validity_until c created_at offset ≡ add_trading_days holiday created_at (suc n)
unfolding compute_validity_until
validity_is_trading_days holiday swing created_at n offset h k =
    let (e, after, found) = add_trading_days_later holiday created_at n in
    let same = offset_of holiday swing created_at n offset _ h found k in
    let (ahead_of, restored) = offset_restores created_at e after in
    rw found (until_target created_at offset 7 _ (rw same at ahead_of) (rw same at restored))
validity_is_trading_days holiday positional created_at n offset h k =
    let (e, after, found) = add_trading_days_later holiday created_at n in
    let same = offset_of holiday positional created_at n offset _ h found k in
    let (ahead_of, restored) = offset_restores created_at e after in
    rw found (until_target created_at offset 42 _ (rw same at ahead_of) (rw same at restored))
validity_is_trading_days holiday scalp created_at n offset h k = ground arith
validity_is_trading_days holiday intraday created_at n offset h k = ground arith
validity_is_trading_days holiday investment created_at n offset h k = ground arith
validity_is_trading_days holiday other created_at n offset h k = ground arith
