-- ===== src/Broker/Worker/Queues/Accounted.antt =====
-- Every committed candle is handed to the writer or counted as dropped.
use ln_trading_app.Prelude.{
  Bool-cases, List, Option, [], arith, false, if◌then◌else◌, inl, inr, length, none, refl, some,
  suc, zero, ℕ, ◌++◌, ◌+◌, ◌∷◌, ◌≡◌,
}
use ln_trading_app.Broker.Worker.Queues.{
  BookEvent, Handover, Turn, committed_of, enqueue_committed, hand_over, no_candles, queue_full,
  room, writer_dead,
}
use ln_trading_app.Broker.Worker.Writer.{Minted}

abbrev pub total_of : List (List Minted) → ℕ
total_of [] = 0
total_of (burst ∷ bursts) = length burst + total_of bursts

total_of-++ :
    (q : List (List Minted)) (burst : List Minted)
    → total_of (q ++ burst ∷ []) ≡ total_of q + length burst
total_of-++ [] burst = omega arith
total_of-++ (b ∷ q) burst = let rest = total_of-++ q burst in omega arith

-- The counts agree, `writer_q` holding every burst that was put since the start, and nothing is
-- dropped without the stop event.
abbrev pub IsAccounted : Handover → Type 0
IsAccounted s =
    (s.committed_count ≡ total_of s.writer_q + s.dropped_committed)
    × (s.stop_set ≡ false → s.dropped_committed ≡ 0)

-- Whatever the turns find
abbrev pub Handed : Option Handover → Type 0
Handed none = Unit
Handed (some s) = IsAccounted s

hand_over-Handed :
    (burst : List Minted) (turns : List Turn) (s : Handover)
    → s.committed_count ≡ (total_of s.writer_q + s.dropped_committed) + length burst
    → (s.stop_set ≡ false → s.dropped_committed ≡ 0)
    → Handed (hand_over burst turns s)
unfolding hand_over
hand_over-Handed burst [] s h quiet = tt
hand_over-Handed burst (writer_dead ∷ turns) s h quiet = (omega arith, λ e. ground arith)
hand_over-Handed burst (queue_full ∷ turns) s h quiet = hand_over-Handed burst turns s h quiet
hand_over-Handed burst (room ∷ turns) s h quiet =
    (omega (arith, h, total_of-++ s.writer_q burst), quiet)

-- Over any events and turns, a call that returns keeps the books: each committed candle was put in a
-- burst or counted as dropped, and the first drop sets the stop event.
pub enqueue_committed-Handed :
    (events : List BookEvent) (turns : List Turn) (s : Handover)
    → IsAccounted s
    → Handed (enqueue_committed events turns s)
unfolding enqueue_committed
enqueue_committed-Handed events turns s (count, quiet) =
    elim (Bool-cases (no_candles (committed_of events))) [
      | inl none_there ↦ rw none_there (count, quiet)
      | inr some_there ↦ rw some_there (
          hand_over-Handed (committed_of events) turns
            (record s { committed_count = s.committed_count + length (committed_of events) })
            (omega arith) quiet)
    ]

-- Turns that find the queue full, before others
abbrev pub waiting : ℕ → List Turn → List Turn
waiting zero turns = turns
waiting (suc waits) turns = queue_full ∷ waiting waits turns

hand_over_waits :
    (waits : ℕ) (later : List Turn) (burst : List Minted) (s : Handover)
    → hand_over burst (waiting waits (room ∷ later)) s
      ≡ some (record s { writer_q = s.writer_q ++ burst ∷ [] })
unfolding hand_over
hand_over_waits zero later burst s = refl
hand_over_waits (suc waits) later burst s = hand_over_waits waits later burst s

-- As long as the writer lives, a full queue only delays: after any number of full turns and one with
-- room the burst is in the queue, whole and last, and nothing is dropped.
pub enqueue_committed_ends :
    (waits : ℕ) (later : List Turn) (events : List BookEvent) (s : Handover)
    → enqueue_committed events (waiting waits (room ∷ later)) s
      ≡ some (
          if no_candles (committed_of events) then s else record s {
            committed_count = s.committed_count + length (committed_of events);
            writer_q = s.writer_q ++ committed_of events ∷ [];
          })
unfolding enqueue_committed
enqueue_committed_ends waits later events s = elim (Bool-cases (no_candles (committed_of events))) [
  | inl none_there ↦ rw none_there refl
  | inr some_there ↦ rw some_there (
      hand_over_waits waits later (committed_of events)
        (record s { committed_count = s.committed_count + length (committed_of events) }))
]
