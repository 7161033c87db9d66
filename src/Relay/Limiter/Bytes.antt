-- ===== src/Relay/Limiter/Bytes.antt =====
-- congee/internal/relay/limiter.go: runs of the limiter of bytes.
use conduit_relay.Base.{
  ℕ, ◌+◌, ◌≤◌, ◌≡◌, ◌⊎◌, inl, inr, true, false, List, [], ◌∷◌, ◌++◌, arith, leb, if◌then◌else◌,
  Bool-cases, nat_eq, list_eq, All, ℤ, pos, pos_part, ltb_ℤ, int_eq,
}
use mathlib.Core.List.{append-nil}
use conduit_relay.Relay.Limiter.Window.{
  drop_expired, total, total-append, load, load-append, load-le-total, total-drop_expired-le,
  load-drop_expired, load-admit,
}
use conduit_relay.Relay.Limiter.{ByteWindow, new_byte_window, allow_bytes, ByteWindow, allow_bytes}

-- The messages of a connection, each with its time and its number of bytes.
abbrev pub when : ℕ × ℕ → ℕ
when e = e.0

abbrev pub size : ℕ × ℕ → ℕ
size e = e.1

pub passed : ByteWindow → List (ℕ × ℕ) → List (ℕ × ℕ)
passed b [] = []
passed b ((t, n) ∷ ms) =
    let (b', ok) = allow_bytes t n b in
    let rest = passed b' ms in if ok then (t, n) ∷ rest else rest

abbrev pub RisingMessages : ℕ → List (ℕ × ℕ) → Type 0
RisingMessages t [] = Unit {0}
RisingMessages t ((u, n) ∷ ms) = (t ≤ u) × RisingMessages u ms

RisingMessages-later :
    (s t : ℕ) (ms : List (ℕ × ℕ)) → s ≤ t → RisingMessages t ms → RisingMessages s ms
RisingMessages-later s t [] h r = tt
RisingMessages-later s t ((u, n) ∷ ms) h r = (omega arith, r.1)

passed-after :
    (b : ByteWindow) (t : ℕ) (ms : List (ℕ × ℕ))
    → RisingMessages t ms
    → All (λ m. t ≤ when m) (passed b ms)
unfolding passed
passed-after b t [] r = tt
passed-after b t ((u, n) ∷ ms) r =
    let rest = passed-after (allow_bytes u n b).0 t ms (RisingMessages-later t u ms r.0 r.1) in
    ground (arith, rest)

-- An empty message passes and changes nothing; another is refused, or counted while the window fits.
allow_bytes_cases :
    (t n : ℕ) (b : ByteWindow)
    → let kept = drop_expired when b.window t b.entries in
      ((n ≡ 0) × (allow_bytes t n b ≡ (b, true)))
      ⊎ ((allow_bytes t n b ≡ (record b { entries = kept }, false))
          ⊎ ((allow_bytes t n b ≡ (record b { entries = kept ++ (t, n) ∷ [] }, true))
              × (total size (kept ++ (t, n) ∷ []) ≤ pos_part b.max_bytes)))
unfolding allow_bytes
allow_bytes_cases t n b =
    let kept = drop_expired when b.window t b.entries in
    elim (Bool-cases (leb n 0)) [
      | inl z ↦ inl (ground (arith, z), ground (arith, z))
      | inr z ↦ elim (Bool-cases (ltb_ℤ b.max_bytes (pos (total size kept + n)))) [
        | inl e ↦ inr (inl (ground (arith, z, e)))
        | inr e ↦ inr (
            inr (
              ground (arith, z, e),
              unfold total in ground (arith, e, total-append size kept ((t, n) ∷ [])),
            ))
      ]
    ]

load_empty :
    (w t u : ℕ) (xs ys : List (ℕ × ℕ))
    → load when size w t (xs ++ (u, 0) ∷ ys) ≡ load when size w t (xs ++ ys)
unfolding load
load_empty w t u xs ys =
    ground (arith, load-append when size w t xs ((u, 0) ∷ ys), load-append when size w t xs ys)

load-passed :
    (b : ByteWindow) (t now : ℕ) (ms : List (ℕ × ℕ))
    → RisingMessages now ms
    → total size b.entries ≤ pos_part b.max_bytes
    → load when size b.window t (b.entries ++ passed b ms) ≤ pos_part b.max_bytes
unfolding passed
load-passed b t now [] r fits =
    rw append-nil (omega (arith, load-le-total when size b.window t b.entries))
load-passed b t now ((u, n) ∷ ms) r fits = elim (allow_bytes_cases u n b) [
  | inl (z, e) ↦ rw (e, passed) (rw z (rw load_empty (load-passed b t u ms r.1 fits)))
  | inr (inl e) ↦
      let b' = record b { entries = drop_expired when b.window u b.entries } in
      rw (e, passed)
        (load-drop_expired when size b.window t u (pos_part b.max_bytes) b.entries (passed b' ms)
          (passed-after b' u ms r.1) fits
          (load-passed b' t u ms r.1
            (omega (arith, total-drop_expired-le when size b.window u b.entries))))
  | inr (inr (e, f)) ↦
      let b' = record b { entries = drop_expired when b.window u b.entries ++ (u, n) ∷ [] } in
      rw (e, passed)
        (load-admit when size b.window t (pos_part b.max_bytes) (u, n) b.entries (passed b' ms)
          (passed-after b' u ms r.1) fits (load-passed b' t u ms r.1 f))
]

-- If the clock never goes back, then among the messages that a new limiter passes the bytes of no window
-- of its length, wherever it begins, exceed the maximum.
pub passed_bounded :
    (window : ℕ) (max : ℤ) (t start : ℕ) (ms : List (ℕ × ℕ))
    → RisingMessages start ms
    → load when size window t (passed (new_byte_window window max) ms) ≤ pos_part max
unfolding new_byte_window total
passed_bounded window max t start ms r =
    load-passed (new_byte_window window max) t start ms r (omega arith)
