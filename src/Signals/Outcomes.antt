-- ===== src/Signals/Outcomes.antt =====
-- What became of a signal (backend/app/services/signal_outcomes.py): a row for each signal, moved
-- by touch alerts that may come late, twice or out of order, and by the expiry sweep. An UPDATE or
-- INSERT is a function on the row or the table; `updated_at` and the copied columns of the signal
-- other than its validity are left out.
pub mod Settled
pub mod Sweep
pub mod Ladder
use ln_trading_app.Prelude.{
  Bool, List, Option, [], any, false, if◌then◌else◌, keep, leb, length, none, not, some, true, ℕ,
  ◌&&◌, ◌*◌, ◌==◌, ◌∷◌,
}
use ln_trading_app.Clock.{second}

-- `status`; `still_open` is "open".
pub data Status : Type 0 where
  still_open entry_touched sl_first tp_first expired_untouched expired_open : Status

-- `source`; `other_source` is any other string.
pub data TouchSource : Type 0 where
  entry_zone sl_touch tp_touch other_source : TouchSource

pub record Outcome : Type 0 where
  pub of_signal : ℕ
  pub validity_until : ℕ
  pub status : Status
  pub entry_touched_at : Option ℕ
  pub entry_touch_price : Option ℕ
  pub sl_touched_at : Option ℕ
  pub sl_touch_price : Option ℕ
  pub tp_touched_at : Option ℕ
  pub tp_touch_price : Option ℕ
  pub resolved_at : Option ℕ

-- 2026-07-19T00:00Z
abbrev pub outcome_epoch : ℕ
outcome_epoch = 1_784_419_200 * second

abbrev pub coalesce : Option ℕ → ℕ → Option ℕ
coalesce none x = some x
coalesce (some y) x = some y

unfoldable pub seed : ℕ → ℕ → Outcome
seed signal validity = record {
  of_signal = signal;
  validity_until = validity;
  status = still_open;
  entry_touched_at = none;
  entry_touch_price = none;
  sl_touched_at = none;
  sl_touch_price = none;
  tp_touched_at = none;
  tp_touch_price = none;
  resolved_at = none;
}

-- The two status updates of an entry touch, one after the other
abbrev pub entered : Bool → Status → Status
entered true still_open = entry_touched
entered true expired_untouched = expired_open
entered in_time s = s

abbrev pub at_or_after : ℕ → Option ℕ → Bool
at_or_after ts none = false
at_or_after ts (some entry) = leb entry ts

abbrev pub is_entered : Status → Option ℕ → Bool
is_entered entry_touched entry = true
is_entered expired_open (some t) = true
is_entered _ entry = false

-- Only after the entry touch, only inside validity, and only once
abbrev pub can_resolve : ℕ → Outcome → Bool
can_resolve ts r =
    is_entered r.status r.entry_touched_at
    && (leb ts r.validity_until && at_or_after ts r.entry_touched_at)

unfoldable pub resolve : Status → ℕ → Outcome → Outcome
resolve resolved ts r =
    if can_resolve ts r then record r { status = resolved; resolved_at = some ts } else r

abbrev pub stamp_sl : ℕ → ℕ → Outcome → Outcome
stamp_sl ts price r = record r {
  sl_touched_at = coalesce r.sl_touched_at ts;
  sl_touch_price = coalesce r.sl_touch_price price;
}

abbrev pub stamp_tp : ℕ → ℕ → Outcome → Outcome
stamp_tp ts price r = record r {
  tp_touched_at = coalesce r.tp_touched_at ts;
  tp_touch_price = coalesce r.tp_touch_price price;
}

unfoldable pub touch_row : TouchSource → ℕ → ℕ → Outcome → Outcome
unfolding resolve
touch_row entry_zone ts price r = record r {
  entry_touched_at = coalesce r.entry_touched_at ts;
  entry_touch_price = coalesce r.entry_touch_price price;
  status = entered (leb ts r.validity_until) r.status;
}
touch_row sl_touch ts price r = resolve sl_first ts (stamp_sl ts price r)
touch_row tp_touch ts price r = resolve tp_first ts (stamp_tp ts price r)
touch_row other_source ts price r = r

abbrev pub has_signal : ℕ → Outcome → Bool
has_signal signal r = r.of_signal == signal

abbrev pub change : (Outcome → Bool) → (Outcome → Outcome) → List Outcome → List Outcome
change test f [] = []
change test f (r ∷ rs) = (if test r then f r else r) ∷ change test f rs

unfoldable pub apply_touch : ℕ → TouchSource → ℕ → ℕ → List Outcome → List Outcome
unfolding touch_row
apply_touch signal source ts price rows =
    change (has_signal signal) (touch_row source ts price) rows

-- The new table, and whether the signal has a row in it. `validity` looks the signal up.
unfoldable pub ensure_outcome_row : (ℕ → Option ℕ) → ℕ → List Outcome → List Outcome × Bool
unfolding seed
ensure_outcome_row validity signal rows =
    if any (has_signal signal) rows then (rows, true) else elim (validity signal) [
      | none ↦ (rows, false)
      | some until ↦ (seed signal until ∷ rows, true)
    ]

-- `status IN ('open', 'entry_touched') AND validity_until <= :now`
abbrev pub lapses : Status → ℕ → ℕ → Bool
lapses still_open until now = leb until now
lapses entry_touched until now = leb until now
lapses _ until now = false

abbrev pub is_lapsed : ℕ → Outcome → Bool
is_lapsed now r = lapses r.status r.validity_until now

abbrev pub expired : Status → Status
expired still_open = expired_untouched
expired _ = expired_open

unfoldable pub finalize_row : ℕ → Outcome → Outcome
finalize_row now r = record r { status = expired r.status; resolved_at = some now }

-- Signals past validity, and not before the recorder's epoch, that have no row get one.
unfoldable pub seed_missing : ℕ → List (ℕ × ℕ) → List Outcome → List Outcome
unfolding seed
seed_missing now [] rows = rows
seed_missing now ((signal, until) ∷ signals) rows =
    let rest = seed_missing now signals rows in
    if leb until now && (leb outcome_epoch until && not (any (has_signal signal) rows))
    then seed signal until ∷ rest
    else rest

-- The new table, and the number of rows that were moved
unfoldable pub finalize_expired_outcomes : ℕ → List (ℕ × ℕ) → List Outcome → List Outcome × ℕ
unfolding seed_missing finalize_row
finalize_expired_outcomes now signals rows =
    let seeded : List Outcome = seed_missing now signals rows in
    (change (is_lapsed now) (finalize_row now) seeded, length (keep (is_lapsed now) seeded))
