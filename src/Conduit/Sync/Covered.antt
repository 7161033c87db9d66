-- ===== src/Conduit/Sync/Covered.antt =====
-- sync.go: what the backfill asks the other relays for, and what it does with the answers.
use conduit_relay.Base.{
  ℕ, zero, suc, ◌+◌, ◌-◌, ◌≤◌, ◌<◌, ◌≡◌, sym, ap, ◌∙◌, ◌⊎◌, inl, inr, Bool, false, ◌&&◌, Option, [],
  ◌∷◌, ◌++◌, arith, ltb, Bool-cases, nat_eq, list_eq, ℤ, pos, pos_part, ◌-ℤ◌, ◌≤ℤ◌, leb_ℤ, int_eq,
  Text,
}
use conduit_relay.Conduit.Sync.{
  sync_defaults, Host, SyncConfig, Syncer, WindowLine, min_backfill_window, unix, fetch_window,
  advance_state, handle_all,
}
use conduit_relay.Conduit.Sync.Ends.{step_outcomes}
use conduit_relay.Conduit.Sync.Backfill.{
  next_end, fetch_and_log, was_full, smaller_window, BackfillEnd, completed, stopped, unwritten,
  out_of_fuel, backfill_loop, backfill, initial_backfill_start,
}

past : (start end u : ℕ) → end ≤ start → unix start ≤ u → u < unix end → ⊥
past start end u h low high = omega (arith, h, low, high)

-- A window of at most a second from whose start to before whose end the second `u` lies.
one_second :
    (start next u : ℕ)
    → ltb min_backfill_window (next - start) ≡ false
    → unix start ≤ u
    → u < unix next
    → (pos (unix start) ≡ pos u) × (pos (unix next) -ℤ pos 1 ≡ pos u)
unfolding ◌-ℤ◌
one_second start next u h low high = (ground (arith, h, low, high), ground (arith, h, low, high))

before_end : (next u : ℕ) → u < unix next → pos u ≤ℤ pos (unix next) -ℤ pos 1
unfolding ◌-ℤ◌
before_end next u h = ground (arith, h)

module _ {S : Type 0} (h : Host S) (says_duplicate : Text → Bool) (cfg : SyncConfig) where
  -- The syncer after the pool is asked for the events from `since` to `until`, and each that it sends is handled.
  abbrev pub answered : ℤ → ℤ → Syncer S → Syncer S
  answered since until s =
      handle_all h says_duplicate cfg (h.fetch_many s.host since until cfg.fetch_limit) s

  -- The steps of a backfill: a request with its answer, a line of the log, and a move of the watermark.
  pub data Run : Syncer S → Syncer S → Type 0 where
    here : {s : Syncer S} → Run s s
    asked : {s t : Syncer S} (since until : ℤ) → Run (answered since until s) t → Run s t
    logged :
        {s t : Syncer S} (line : WindowLine)
        → Run (record s { lines = s.lines ++ line ∷ [] }) t
        → Run s t
    moved : {s t : Syncer S} (ts : ℕ) → Run (advance_state h ts s).0 t → Run s t

  -- Between the syncers `s` and `t` the pool was asked for events over a time with the second `u`, and what it
  -- sent was handled; then either less than the limit was imported, or that second alone was asked for.
  pub record Fetched (u : ℕ) (s t : Syncer S) : Type 0 where
    pub at : Syncer S
    pub since : ℤ
    pub until : ℤ
    pub before : Run s at
    pub after : Run (answered since until at) t
    pub not_after_second : since ≤ℤ pos u
    pub not_before_second : pos u ≤ℤ until
    pub settled :
        (leb_ℤ cfg.fetch_limit
            (pos (answered since until at).stats.imported -ℤ pos at.stats.imported)
          ≡ false)
        ⊎ ((since ≡ pos u) × (until ≡ pos u))

  window_line : ℕ → ℕ → Syncer S → WindowLine
  window_line start next s = record {
    window_start = start;
    window_end = next;
    full = was_full h says_duplicate cfg start next s;
  }

  round-Run :
      (start next : ℕ) (s t : Syncer S)
      → Run (fetch_and_log h says_duplicate cfg start next s) t
      → Run s t
  unfolding fetch_and_log fetch_window window_line
  round-Run start next s t r =
      asked (pos (unix start)) (pos (unix next) -ℤ pos 1) (logged (window_line start next s) r)

  backfill_loop-Run :
      (n end start window : ℕ) (s : Syncer S)
      → Run s (backfill_loop h says_duplicate cfg n end start window s).1
  unfolding backfill_loop
  backfill_loop-Run zero end start window s = elim (Bool-cases (ltb start end)) [
    | inl e ↦ rw (e, backfill_loop) here
    | inr e ↦ rw (e, backfill_loop) here
  ]
  backfill_loop-Run (suc n) end start window s =
      let next = next_end start end window in
      let log = fetch_and_log h says_duplicate cfg start next s in
      elim (step_outcomes h says_duplicate cfg n end start window s) [
        | inl (e, r) ↦ rw r here
        | inr (inl r) ↦ rw r here
        | inr (inr (inl r)) ↦ rw r (round-Run start next s _ (moved next here))
        | inr (inr (inr (inl (e, f, r)))) ↦
            rw r
              (round-Run start next s _ (backfill_loop-Run n end start (smaller_window window) log))
        | inr (inr (inr (inr (e, f, r)))) ↦ rw r (
            round-Run start next s _
              (moved next (backfill_loop-Run n end next window (advance_state h next log).0)))
      ]

  -- A fetch of a window that is not split again.
  window-Fetched :
      (start next u : ℕ) (s t : Syncer S)
      → (was_full h says_duplicate cfg start next s && ltb min_backfill_window (next - start))
        ≡ false
      → unix start ≤ u
      → u < unix next
      → Run (fetch_and_log h says_duplicate cfg start next s) t
      → Fetched u s t
  unfolding fetch_and_log fetch_window window_line
  window-Fetched start next u s t f low high r = record {
    at = s;
    since = pos (unix start);
    until = pos (unix next) -ℤ pos 1;
    before = here;
    after = logged (window_line start next s) r;
    not_after_second = ground (arith, low);
    not_before_second = before_end next u high;
    settled = elim (Bool-cases (was_full h says_duplicate cfg start next s)) [
      | inr few ↦ inl few
      | inl many ↦ inr (one_second start next u (rw many at f) low high)
    ];
  }

  later-Fetched :
      (u start next : ℕ) (s t : Syncer S)
      → Fetched u (fetch_and_log h says_duplicate cfg start next s) t
      → Fetched u s t
  later-Fetched u start next s t f = record {
    at = f.at;
    since = f.since;
    until = f.until;
    before = round-Run start next s f.at f.before;
    after = f.after;
    not_after_second = f.not_after_second;
    not_before_second = f.not_before_second;
    settled = f.settled;
  }

  moved-Fetched : (u ts : ℕ) (s t : Syncer S) → Fetched u (advance_state h ts s).0 t → Fetched u s t
  moved-Fetched u ts s t f = record {
    at = f.at;
    since = f.since;
    until = f.until;
    before = moved ts f.before;
    after = f.after;
    not_after_second = f.not_after_second;
    not_before_second = f.not_before_second;
    settled = f.settled;
  }

  backfill_loop-Fetched :
      (n end start window u : ℕ) (s : Syncer S)
      → (backfill_loop h says_duplicate cfg n end start window s).0 ≡ completed
      → unix start ≤ u
      → u < unix end
      → Fetched u s (backfill_loop h says_duplicate cfg n end start window s).1
  unfolding backfill_loop
  backfill_loop-Fetched zero end start window u s done low high =
      elim (Bool-cases (ltb start end)) [
        | inl e ↦ let f : out_of_fuel ≡ completed = rw e at done in absurd cc
        | inr e ↦ absurd (past start end u (ground (arith, e)) low high)
      ]
  backfill_loop-Fetched (suc n) end start window u s done low high =
      let next = next_end start end window in
      let log = fetch_and_log h says_duplicate cfg start next s in
      let later = (advance_state h next log).0 in
      let ended : (result : BackfillEnd × Syncer S)
          → backfill_loop h says_duplicate cfg (suc n) end start window s ≡ result
          → result.0 ≡ completed =
        λ result r. sym (ap (λ (x : BackfillEnd × Syncer S). x.0) r) ∙ done in
      elim (step_outcomes h says_duplicate cfg n end start window s) [
        | inl (e, r) ↦ absurd (past start end u (ground (arith, e)) low high)
        | inr (inl r) ↦ let f : stopped ≡ completed = ended _ r in absurd cc
        | inr (inr (inl r)) ↦ let f : unwritten ≡ completed = ended _ r in absurd cc
        | inr (inr (inr (inl (e, f, r)))) ↦ rw r (
            later-Fetched u start next s _ (
              backfill_loop-Fetched n end start (smaller_window window) u log (ended _ r) low high))
        | inr (inr (inr (inr (e, f, r)))) ↦ elim (Bool-cases (ltb u (unix next))) [
          | inl g ↦ rw r (
              window-Fetched start next u s _ f low (ground (arith, g))
                (moved next (backfill_loop-Run n end next window later)))
          | inr g ↦ rw r (
              later-Fetched u start next s _ (
                moved-Fetched u next log _ (
                  backfill_loop-Fetched n end next window u later (ended _ r) (ground (arith, g))
                    high)))
        ]
      ]

-- If the backfill completes, then for every second from its start to before the present the pool was asked
-- for events over a time with that second, and all that it sent was handled; and either less than the limit
-- was imported by that request, or it was for that second alone.
pub backfill-Fetched :
    {S : Type 0} (h : Host S) (says_duplicate : Text → Bool) (raw : SyncConfig) (since : Option ℕ)
    (now u : ℕ) (s : Syncer S)
    → (backfill h says_duplicate raw since now s).0 ≡ completed
    → unix (initial_backfill_start since now s.synced_until) ≤ u
    → u < unix now
    → Fetched h says_duplicate (sync_defaults raw) u s (backfill h says_duplicate raw since now s).1
unfolding backfill
backfill-Fetched h says_duplicate raw since now u s done low high =
    let start = initial_backfill_start since now s.synced_until in
    let window = pos_part (sync_defaults raw).backfill_window in
    elim (Bool-cases (ltb start now)) [
      | inl e ↦
          rw (e, backfill)
            (backfill_loop-Fetched h says_duplicate (sync_defaults raw) ((now - start) + window) now
              start window u s (rw e at done) low high)
      | inr e ↦ absurd (past start now u (ground (arith, e)) low high)
    ]
