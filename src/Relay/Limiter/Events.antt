-- ===== src/Relay/Limiter/Events.antt =====
-- congee/internal/relay/limiter.go: runs of the limiter of events.
use conduit_relay.Base.{
  ℕ, ◌≤◌, ◌≡◌, refl, ◌⊎◌, inl, inr, true, false, List, [], ◌∷◌, ◌++◌, arith, if◌then◌else◌,
  Bool-cases, nat_eq, list_eq, length, length-append, All, ℤ, pos, pos_part, leb_ℤ, int_eq,
}
use mathlib.Core.List.{append-nil}
use conduit_relay.Relay.Limiter.Window.{
  drop_expired, total, load, load-le-total, total-drop_expired-le, load-drop_expired, load-admit,
}
use conduit_relay.Relay.Limiter.{SlidingEvents, new_sliding_events, allow_event}

-- The times never go back.
abbrev pub Rising : ℕ → List ℕ → Type 0
Rising t [] = Unit {0}
Rising t (u ∷ us) = (t ≤ u) × Rising u us

-- The events that a limiter admits among those that arrive at the times.
pub admitted : SlidingEvents → List ℕ → List ℕ
admitted s [] = []
admitted s (t ∷ ts) =
    let (s', ok) = allow_event t s in let rest = admitted s' ts in if ok then t ∷ rest else rest

Rising-later : (s t : ℕ) (ts : List ℕ) → s ≤ t → Rising t ts → Rising s ts
Rising-later s t [] h r = tt
Rising-later s t (u ∷ us) h r = (omega arith, r.1)

admitted-after :
    (s : SlidingEvents) (t : ℕ) (ts : List ℕ) → Rising t ts → All (λ u. t ≤ u) (admitted s ts)
unfolding admitted
admitted-after s t [] r = tt
admitted-after s t (u ∷ us) r =
    let rest = admitted-after (allow_event u s).0 t us (Rising-later t u us r.0 r.1) in
    ground (arith, rest)

abbrev pub one : ℕ → ℕ
one t = 1

abbrev pub same : ℕ → ℕ
same t = t

total-one : (xs : List ℕ) → total one xs ≡ length xs
unfolding total
total-one [] = refl
total-one (x ∷ xs) = omega (arith, total-one xs)

-- The two outcomes of a call: the event is refused, or it is counted and the window still fits.
allow_event_cases :
    (n : ℕ) (s : SlidingEvents)
    → let kept = drop_expired same s.window n s.stamps in
      (allow_event n s ≡ (record s { stamps = kept }, false))
      ⊎ ((allow_event n s ≡ (record s { stamps = kept ++ n ∷ [] }, true))
          × (total one (kept ++ n ∷ []) ≤ pos_part s.max))
unfolding allow_event
allow_event_cases n s =
    let kept = drop_expired same s.window n s.stamps in
    elim (Bool-cases (leb_ℤ s.max (pos (length kept)))) [
      | inl e ↦ inl (ground (arith, e))
      | inr e ↦ inr (
        ground (arith, e),
        ground (arith, e, total-one (kept ++ n ∷ []), length-append kept (n ∷ [])),
      )
    ]

load-admitted :
    (s : SlidingEvents) (t now : ℕ) (ts : List ℕ)
    → Rising now ts
    → total one s.stamps ≤ pos_part s.max
    → load same one s.window t (s.stamps ++ admitted s ts) ≤ pos_part s.max
unfolding admitted
load-admitted s t now [] r fits =
    rw append-nil (omega (arith, load-le-total same one s.window t s.stamps))
load-admitted s t now (n ∷ ts) r fits = elim (allow_event_cases n s) [
  | inl e ↦
      let s' = record s { stamps = drop_expired same s.window n s.stamps } in
      rw (e, admitted)
        (load-drop_expired same one s.window t n (pos_part s.max) s.stamps (admitted s' ts)
          (admitted-after s' n ts r.1) fits
          (load-admitted s' t n ts r.1
            (omega (arith, total-drop_expired-le same one s.window n s.stamps))))
  | inr (e, f) ↦
      let s' = record s { stamps = drop_expired same s.window n s.stamps ++ n ∷ [] } in
      rw (e, admitted)
        (load-admit same one s.window t (pos_part s.max) n s.stamps (admitted s' ts)
          (admitted-after s' n ts r.1) fits (load-admitted s' t n ts r.1 f))
]

-- If the clock never goes back, then among the events that a new limiter admits no window of its length,
-- wherever it begins, holds more than the maximum.
pub admitted_bounded :
    (window : ℕ) (max : ℤ) (t start : ℕ) (ts : List ℕ)
    → Rising start ts
    → load same one window t (admitted (new_sliding_events window max) ts) ≤ pos_part max
unfolding new_sliding_events total
admitted_bounded window max t start ts r =
    load-admitted (new_sliding_events window max) t start ts r (omega arith)
