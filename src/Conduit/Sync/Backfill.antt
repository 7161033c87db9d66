-- ===== src/Conduit/Sync/Backfill.antt =====
-- sync.go: `backfill`, which imports the past window by window, and the live subscription's start.
use conduit_relay.Base.{
  ℕ, zero, suc, ◌+◌, ◌-◌, ◌*◌, ◌/◌, Bool, true, false, ◌&&◌, Option, none, some, [], ◌∷◌, ◌++◌, ltb,
  if◌then◌else◌, nat_eq, list_eq, ℤ, pos, pos_part, ◌-ℤ◌, ltb_ℤ, leb_ℤ, int_eq, Text,
}
use conduit_relay.Conduit.Sync.{
  Host, SyncConfig, Syncer, second, sync_defaults, min_backfill_window, fetch_window, advance_state,
}

abbrev pub next_end : ℕ → ℕ → ℕ → ℕ
next_end start end window = if ltb end (start + window) then end else start + window

abbrev pub smaller_window : ℕ → ℕ
smaller_window window =
    if ltb (window / 2) min_backfill_window then min_backfill_window else window / 2

pub data BackfillEnd : Type 0 where
  completed stopped unwritten out_of_fuel : BackfillEnd

module _ {S : Type 0} (h : Host S) (says_duplicate : Text → Bool) (cfg : SyncConfig) where
  -- `fetchWindow` and the line of the log about it, which says whether as much as the limit was imported.
  unfoldable pub fetch_and_log : ℕ → ℕ → Syncer S → Syncer S
  fetch_and_log start next s =
      let after = fetch_window h says_duplicate cfg start next s in
      let full = leb_ℤ cfg.fetch_limit (pos after.stats.imported -ℤ pos s.stats.imported) in
      record after {
        lines =
            after.lines ++ (record { window_start = start; window_end = next; full = full }) ∷ [];
      }

  abbrev pub was_full : ℕ → ℕ → Syncer S → Bool
  was_full start next s =
      leb_ℤ cfg.fetch_limit (
        pos (fetch_window h says_duplicate cfg start next s).stats.imported -ℤ pos s.stats.imported)

  -- The loop of `backfill`, with its reason to end.
  unfoldable pub backfill_loop : ℕ → ℕ → ℕ → ℕ → Syncer S → BackfillEnd × Syncer S
  backfill_loop zero end start window s = if ltb start end then (out_of_fuel, s) else (completed, s)
  backfill_loop (suc n) end start window s = elim (ltb start end) [
    | false ↦ (completed, s)
    | true ↦ elim (h.cancelled s.host) [
      | true ↦ (stopped, s)
      | false ↦
          let next = next_end start end window in
          let after = fetch_and_log start next s in
          elim (was_full start next s && ltb min_backfill_window (next - start)) [
            | true ↦ backfill_loop n end start (smaller_window window) after
            | false ↦ elim ((advance_state h next after).1) [
              | false ↦ (unwritten, (advance_state h next after).0)
              | true ↦ backfill_loop n end next window (advance_state h next after).0
            ]
          ]
    ]
  ]

abbrev default_backfill_since : ℕ
default_backfill_since = 365 * 24 * 3600 * second

-- `initialBackfillStart` at the time `now`; `since` is the configured start, if it is not the zero time.
unfoldable pub initial_backfill_start : Option ℕ → ℕ → ℤ → ℕ
initial_backfill_start since now synced =
    let configured : ℕ = elim since [ none ↦ now - default_backfill_since | some t ↦ t ] in
    let persisted = pos_part synced * second in
    if leb_ℤ synced (pos 0)
    then configured
    else if ltb persisted configured
    then configured
    else persisted

-- The start of the subscription of `streamLive`, in nanoseconds, which may lie before 1970.
unfoldable pub live_since : SyncConfig → ℕ → ℤ → ℤ
live_since raw now synced =
    let cfg = sync_defaults raw in
    let since = pos now -ℤ cfg.live_lookback in
    let candidate = pos (pos_part synced * second) -ℤ cfg.live_lookback in
    if leb_ℤ synced (pos 0) then since else if ltb_ℤ since candidate then candidate else since

-- `backfill`, with rounds for every nanosecond of the time and of the first window.
unfoldable pub backfill :
    {S : Type 0}
    → Host S
    → (Text → Bool)
    → SyncConfig
    → Option ℕ
    → ℕ
    → Syncer S
    → BackfillEnd × Syncer S
backfill h says_duplicate raw since now s =
    let cfg = sync_defaults raw in
    let start = initial_backfill_start since now s.synced_until in
    let window = pos_part cfg.backfill_window in
    if ltb start now
    then backfill_loop h says_duplicate cfg ((now - start) + window) now start window s
    else (completed, s)
