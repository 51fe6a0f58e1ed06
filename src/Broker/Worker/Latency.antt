-- ===== src/Broker/Worker/Latency.antt =====
-- The histogram of latencies (LatencyHistogram of backend/app/broker/live_worker.py), in
-- microseconds where the code has milliseconds. A quantile is a fraction, and `seen >= q * n` is
-- compared without a rounding. Of the summary, the two quantiles and `n` are kept.
pub mod Quantiles
use ln_trading_app.Prelude.{List, [], if◌then◌else◌, leb, ltb, map, suc, ℕ, ◌*◌, ◌+◌, ◌==◌, ◌∷◌}

abbrev pub bounds_us : List ℕ
bounds_us = 1_000 ∷ 2_000 ∷ 5_000 ∷ 7_500 ∷ 10_000 ∷ 15_000 ∷ 20_000 ∷ 50_000 ∷ 100_000 ∷ []

pub record LatencyHistogram : Type 0 where
  pub counts : List ℕ
  pub observed : ℕ
  pub max_us : ℕ

abbrev pub new_histogram : LatencyHistogram
new_histogram = record { counts = 0 ∷ map (λ bound. 0) bounds_us; observed = 0; max_us = 0 }

-- `counts[-1] += 1`
abbrev pub bump_last : List ℕ → List ℕ
bump_last [] = []
bump_last (c ∷ []) = suc c ∷ []
bump_last (c ∷ d ∷ cs) = c ∷ bump_last (d ∷ cs)

-- The loop over the bounds
unfoldable pub bump : ℕ → List ℕ → List ℕ → List ℕ
bump us [] cs = bump_last cs
bump us (bound ∷ bounds) [] = []
bump us (bound ∷ bounds) (c ∷ cs) =
    let rest = bump us bounds cs in if leb us bound then suc c ∷ cs else c ∷ rest

unfoldable pub observe : ℕ → LatencyHistogram → LatencyHistogram
unfolding bump
observe us h = record {
  counts = bump us bounds_us h.counts;
  observed = suc h.observed;
  max_us = if ltb h.max_us us then us else h.max_us;
}

-- The first bound at which `seen` reaches the target
unfoldable pub reach : ℕ → ℕ → ℕ → ℕ → List ℕ → List ℕ → ℕ
reach target den seen otherwise [] cs = otherwise
reach target den seen otherwise (bound ∷ bounds) [] = otherwise
reach target den seen otherwise (bound ∷ bounds) (c ∷ cs) =
    let rest = reach target den (seen + c) otherwise bounds cs in
    if leb target ((seen + c) * den) then bound else rest

-- `quantile_bound(num / den)`
unfoldable pub quantile_bound : ℕ → ℕ → LatencyHistogram → ℕ
unfolding reach
quantile_bound num den h =
    if h.observed == 0 then 0 else reach (num * h.observed) den 0 h.max_us bounds_us h.counts

unfoldable pub summary : LatencyHistogram → ℕ × (ℕ × ℕ)
unfolding quantile_bound
summary h = (h.observed, (quantile_bound 50 100 h, quantile_bound 99 100 h))
