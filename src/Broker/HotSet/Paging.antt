-- ===== src/Broker/HotSet/Paging.antt =====
-- Reading the stream of alerts page by page.
use ln_trading_app.Prelude.{
  All, Bool, Bool-cases, List, Option, [], ap, arith, drop, false, inl, inr, keep, length, ltb,
  none, not, refl, some, suc, sym, take, true, zero, ℕ, ◌*◌, ◌++◌, ◌+◌, ◌<◌, ◌∙◌, ◌∷◌, ◌≡◌, ◌≤◌,
}
use ln_trading_app.Broker.HotSet.{
  StreamEntry, alert_entries_since, oldest_ts, page_size, ts_or_zero,
}

abbrev pub is_fresh : ℕ → StreamEntry → Bool
is_fresh cutoff e = not (ltb (ts_or_zero e) cutoff)

-- Newest first, by time
abbrev pub IsDescending : List StreamEntry → Type 0
IsDescending [] = Unit
IsDescending (e ∷ stream) = All (λ f. ts_or_zero f ≤ ts_or_zero e) stream × IsDescending stream

All-fresh_none :
    (cutoff : ℕ) (stream : List StreamEntry) (bound : ℕ)
    → bound < cutoff
    → All (λ f. ts_or_zero f ≤ bound) stream
    → keep (is_fresh cutoff) stream ≡ []
All-fresh_none cutoff [] bound h all = refl
All-fresh_none cutoff (e ∷ stream) bound h (low, all) =
    rw (stale_entry (ts_or_zero e) low) (All-fresh_none cutoff stream bound h all)
  where
    stale_entry : (ts : ℕ) → ts ≤ bound → not (ltb ts cutoff) ≡ false
    stale_entry ts low = ground arith

-- Nothing after a stale page is fresh.
after_page :
    (cutoff n : ℕ) (stream : List StreamEntry)
    → IsDescending stream
    → ltb (length (take (suc n) stream)) (suc n) ≡ false
    → ltb (oldest_ts (take (suc n) stream)) cutoff ≡ true
    → keep (is_fresh cutoff) (drop (suc n) stream) ≡ []
after_page cutoff n [] down full old = refl
after_page cutoff zero (e ∷ stream) (low, down) full old =
    All-fresh_none cutoff stream (ts_or_zero e) (ground arith) low
after_page cutoff (suc n) (e ∷ []) down full old = refl
after_page cutoff (suc n) (e ∷ f ∷ stream) (low, down) full old =
    after_page cutoff n (f ∷ stream) down (ground arith) old

drop-IsDescending :
    (n : ℕ) (stream : List StreamEntry) → IsDescending stream → IsDescending (drop n stream)
drop-IsDescending zero stream down = down
drop-IsDescending (suc n) [] down = tt
drop-IsDescending (suc n) (e ∷ stream) (low, down) = drop-IsDescending n stream down

keep-page :
    (cutoff n : ℕ) (stream entries : List StreamEntry)
    → keep (is_fresh cutoff) entries ≡ keep (is_fresh cutoff) (drop n stream)
    → keep (is_fresh cutoff) (take n stream ++ entries) ≡ keep (is_fresh cutoff) stream
keep-page cutoff zero stream entries h = h
keep-page cutoff (suc n) [] entries h = h
keep-page cutoff (suc n) (e ∷ stream) entries h =
    let rest = keep-page cutoff n stream entries h in
    elim (Bool-cases (is_fresh cutoff e)) [
      | inl fresh_one ↦ rw fresh_one (ap (λ xs. e ∷ xs) rest)
      | inr old ↦ rw old rest
    ]

-- The entries were read, and all fresh ones are among them, in their order.
abbrev pub Complete : ℕ → List StreamEntry → Option (List StreamEntry) → Type 0
Complete cutoff stream none = ⊥
Complete cutoff stream (some entries) =
    keep (is_fresh cutoff) entries ≡ keep (is_fresh cutoff) stream

one_more :
    (cutoff : ℕ) (stream : List StreamEntry) (more : Option (List StreamEntry))
    → Complete cutoff (drop page_size stream) more
    → Complete cutoff stream
        (elim more [ none ↦ none | some entries ↦ some (take page_size stream ++ entries) ])
one_more cutoff stream none h = absurd h
one_more cutoff stream (some entries) h = keep-page cutoff page_size stream entries h

short-page :
    (n : ℕ) (stream : List StreamEntry) → ltb (length (take n stream)) n ≡ true → drop n stream ≡ []
short-page zero stream h = ground arith
short-page (suc n) [] h = refl
short-page (suc n) (e ∷ stream) h = short-page n stream (ground arith)

length-drop_page :
    (n m : ℕ) (stream : List StreamEntry)
    → length stream < n + m
    → ltb (length (take n stream)) n ≡ false
    → length (drop n stream) < m
length-drop_page zero m stream h full = omega arith
length-drop_page (suc n) m [] h full = ground arith
length-drop_page (suc n) m (e ∷ stream) h full =
    length-drop_page n m stream (omega arith) (ground arith)

++-[] : (xs : List StreamEntry) → xs ++ [] ≡ xs
++-[] [] = refl
++-[] (x ∷ xs) = ap (λ ys. x ∷ ys) (++-[] xs)

-- On a stream whose times do not rise from one entry to the next, read newest first, the loop ends
-- within one page more than the stream fills, and what it has read holds every entry inside the
-- window: stopping at a page that reaches back beyond the cutoff loses none.
pub alert_entries_since-Complete :
    (fuel cutoff : ℕ) (stream : List StreamEntry)
    → length stream < page_size * fuel
    → IsDescending stream
    → Complete cutoff stream (alert_entries_since fuel cutoff stream)
unfolding alert_entries_since
alert_entries_since-Complete zero cutoff stream few down = omega arith
alert_entries_since-Complete (suc fuel) cutoff stream few down =
    elim (Bool-cases (ltb (length (take page_size stream)) page_size)) [
      | inl last_page ↦ rw last_page (
          ap (keep (is_fresh cutoff)) (sym (++-[] (take page_size stream)))
          ∙ keep-page cutoff page_size stream []
              (ap (keep (is_fresh cutoff)) (sym (short-page page_size stream last_page))))
      | inr full ↦ elim (Bool-cases (ltb (oldest_ts (take page_size stream)) cutoff)) [
        | inl old ↦
            rw (full, old)
              (ap (keep (is_fresh cutoff)) (sym (++-[] (take page_size stream)))
                ∙ keep-page cutoff page_size stream []
                    (sym (after_page cutoff 499 stream down full old)))
        | inr recent ↦
            rw (full, recent)
              (one_more cutoff stream (alert_entries_since fuel cutoff (drop page_size stream)) (
                alert_entries_since-Complete fuel cutoff (drop page_size stream)
                  (length-drop_page page_size (page_size * fuel) stream (omega arith) full)
                  (drop-IsDescending page_size stream down)))
      ]
    ]
