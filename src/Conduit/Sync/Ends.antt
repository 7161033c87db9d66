-- ===== src/Conduit/Sync/Ends.antt =====
-- sync.go: whether the backfill comes to an end.
use conduit_relay.Base.{
  ℕ, zero, suc, ◌+◌, ◌-◌, ◌*◌, ◌≤◌, ◌<◌, ◌≡◌, refl, ◌≢◌, ◌⊎◌, inl, inr, Bool, true, false, ◌&&◌,
  Option, arith, ltb, Bool-cases, nat_eq, list_eq, ℤ, pos, pos_part, ◌<ℤ◌, int_eq, Text,
}
use conduit_relay.Conduit.Sync.{
  or_else_ℤ, sync_defaults, Host, SyncConfig, Syncer, second, min_backfill_window, advance_state,
}
use conduit_relay.Conduit.Sync.Backfill.{
  next_end, fetch_and_log, was_full, smaller_window, BackfillEnd, completed, stopped, unwritten,
  out_of_fuel, backfill_loop, backfill, initial_backfill_start,
}

next_end-after :
    (start end window : ℕ)
    → start < end
    → 0 < window
    → (start < next_end start end window)
      × (next_end start end window ≤ end)
      × (next_end start end window ≤ start + window)
next_end-after start end window h w = ground arith

smaller-less :
    (start end window : ℕ)
    → ltb min_backfill_window (next_end start end window - start) ≡ true
    → (0 < smaller_window window) × (smaller_window window < window)
smaller-less start end window h = ground arith

module _ {S : Type 0} (h : Host S) (says_duplicate : Text → Bool) (cfg : SyncConfig) where
  -- What a round that begins with the syncer `s` leads to.
  abbrev pub Round : ℕ → ℕ → ℕ → ℕ → Syncer S → BackfillEnd × Syncer S → Type 0
  Round n end start window s result =
      let next = next_end start end window in
      let after = fetch_and_log h says_duplicate cfg start next s in
      let shrink =
        was_full h says_duplicate cfg start next s && ltb min_backfill_window (next - start) in
      ((ltb start end ≡ false) × (result ≡ (completed, s)))
      ⊎ ((result ≡ (stopped, s))
          ⊎ ((result ≡ (unwritten, (advance_state h next after).0))
              ⊎ (((ltb start end ≡ true)
                    × (shrink ≡ true)
                    × (result
                        ≡ backfill_loop h says_duplicate cfg n end start (smaller_window window)
                            after))
                  ⊎ ((ltb start end ≡ true)
                      × (shrink ≡ false)
                      × (result
                          ≡ backfill_loop h says_duplicate cfg n end next window
                              (advance_state h next after).0)))))

  pub step_outcomes :
      (n end start window : ℕ) (s : Syncer S)
      → Round n end start window s (backfill_loop h says_duplicate cfg (suc n) end start window s)
  unfolding backfill_loop
  step_outcomes n end start window s =
      let next = next_end start end window in
      let after = fetch_and_log h says_duplicate cfg start next s in
      let full = was_full h says_duplicate cfg start next s in
      elim (Bool-cases (ltb start end)) [
        | inr e ↦ inl (e, rw (e, backfill_loop) refl)
        | inl e ↦ elim (Bool-cases (h.cancelled s.host)) [
          | inl c ↦ inr (inl (rw (e, c, backfill_loop) refl))
          | inr c ↦ elim (Bool-cases (full && ltb min_backfill_window (next - start))) [
            | inl f ↦ inr (inr (inr (inl (e, f, rw (e, c, f, backfill_loop) refl))))
            | inr f ↦ elim (Bool-cases ((advance_state h next after).1)) [
              | inr g ↦ inr (inr (inl (rw (e, c, f, g, backfill_loop) refl)))
              | inl g ↦ inr (inr (inr (inr (e, f, rw (e, c, f, g, backfill_loop) refl))))
            ]
          ]
        ]
      ]

  -- The loop ends for one of its reasons when its rounds are as many as the nanoseconds of the time that is left
  -- and of the window together.
  pub backfill_loop-ends :
      (n end start window : ℕ) (s : Syncer S)
      → 0 < window
      → (end - start) + window ≤ n
      → (backfill_loop h says_duplicate cfg n end start window s).0 ≢ out_of_fuel
  backfill_loop-ends zero end start window s w b = absurd (omega (arith, w, b))
  backfill_loop-ends (suc n) end start window s w b =
      let next = next_end start end window in
      let after = fetch_and_log h says_duplicate cfg start next s in
      elim (step_outcomes n end start window s) [
        | inl (e, r) ↦ rw r (λ f. cc)
        | inr (inl r) ↦ rw r (λ f. cc)
        | inr (inr (inl r)) ↦ rw r (λ f. cc)
        | inr (inr (inr (inl (e, f, r)))) ↦
            let (some_left, less) = smaller-less start end window (ground (arith, f)) in
            rw r (
              backfill_loop-ends n end start (smaller_window window) after some_left
                (omega (arith, b, less)))
        | inr (inr (inr (inr (e, f, r)))) ↦
            let (m, p, q) = next_end-after start end window (ground (arith, e)) w in
            rw r (
              backfill_loop-ends n end next window (advance_state h next after).0 w
                (omega (arith, b, m, p)))
      ]

or_else-positive : (n d : ℤ) → pos 0 <ℤ d → 0 < pos_part (or_else_ℤ n d)
or_else-positive n d h = ground arith

-- The backfill comes to an end: it completes, or it is cancelled, or the state cannot be written.
pub backfill-ends :
    {S : Type 0} (h : Host S) (says_duplicate : Text → Bool) (raw : SyncConfig) (since : Option ℕ)
    (now : ℕ) (s : Syncer S)
    → (backfill h says_duplicate raw since now s).0 ≢ out_of_fuel
unfolding backfill sync_defaults
backfill-ends h says_duplicate raw since now s =
    let start = initial_backfill_start since now s.synced_until in
    elim (Bool-cases (ltb start now)) [
      | inl e ↦
          rw (e, backfill)
            (backfill_loop-ends h says_duplicate (sync_defaults raw)
              ((now - start) + pos_part (sync_defaults raw).backfill_window) now start
              (pos_part (sync_defaults raw).backfill_window) s
              (or_else-positive raw.backfill_window (pos (7 * 24 * 3600 * second)) (omega arith))
              (omega arith))
      | inr e ↦ rw (e, backfill) (λ f. cc)
    ]
