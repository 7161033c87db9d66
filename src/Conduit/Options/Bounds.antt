-- ===== src/Conduit/Options/Bounds.antt =====
-- The limit of a query after the bounds of a request.
use conduit_relay.Base.{
  ℕ, ◌<◌, ◌≡◌, ◌⊎◌, inl, inr, false, ◌&&◌, arith, if◌then◌else◌, Bool-cases, nat_eq, list_eq, ℤ,
  pos, ◌≤ℤ◌, ltb_ℤ, leb_ℤ, int_eq,
}
use conduit_relay.Conduit.{Query}
use conduit_relay.Conduit.Options.{
  Scope2Options, or_default, with_defaults, apply_request_bounds, resolved_limit,
}

-- The limits alone: `l` is the query's, `d` the default and `m` the highest.
abbrev asked : ℤ → ℤ → ℤ
asked l d = if leb_ℤ l (pos 0) then d else l

abbrev clamp : ℤ → ℤ → ℤ
clamp w m = if ltb_ℤ m w then m else w

asked_lem : (l d : ℤ) → pos 1 ≤ℤ d → pos 1 ≤ℤ asked l d
asked_lem l d h = ground arith

clamp_lem : (w m : ℤ) → pos 1 ≤ℤ w → pos 1 ≤ℤ m → (pos 1 ≤ℤ clamp w m) × (clamp w m ≤ℤ m)
clamp_lem w m h k = ground arith

resolve_lem :
    (b d m : ℤ)
    → pos 1 ≤ℤ b
    → b ≤ℤ m
    → (if leb_ℤ b (pos 0) then d else if ltb_ℤ m b then m else b) ≡ b
resolve_lem b d m h k = ground arith

honoured_lem : (l d m : ℤ) → (leb_ℤ (pos 1) l && leb_ℤ l m ≡ false) ⊎ (clamp (asked l d) m ≡ l)
honoured_lem l d m = elim (Bool-cases (leb_ℤ (pos 1) l && leb_ℤ l m)) [
  | inl e ↦ inr (ground (arith, e))
  | inr e ↦ inl e
]

or_default_lem : (n : ℤ) (d : ℕ) → 0 < d → pos 1 ≤ℤ or_default n d
or_default_lem n d h = ground arith

-- For a query that does not ask for a limit of zero, with the defaults filled in and the bounds of a request
-- applied, the limit that `resolvedLimit` computes is at least one and at most `MaxQueryLimit`, and it is
-- the limit of the query if that is within these bounds.
pub resolved_limit-Bounds :
    (raw : Scope2Options) (q : Query)
    → q.limit_zero ≡ false
    → (pos 1 ≤ℤ resolved_limit (apply_request_bounds q (with_defaults raw)) (with_defaults raw))
      × (resolved_limit (apply_request_bounds q (with_defaults raw)) (with_defaults raw)
          ≤ℤ (with_defaults raw).max_query_limit)
      × ((leb_ℤ (pos 1) q.limit && leb_ℤ q.limit (with_defaults raw).max_query_limit ≡ false)
          ⊎ (resolved_limit (apply_request_bounds q (with_defaults raw)) (with_defaults raw)
              ≡ q.limit))
unfolding resolved_limit apply_request_bounds with_defaults
resolved_limit-Bounds raw q h =
    let d = or_default raw.default_query_limit 50 in
    let m = or_default raw.max_query_limit 100 in
    let high = or_default_lem raw.max_query_limit 100 (omega arith) in
    let want = asked_lem q.limit d (or_default_lem raw.default_query_limit 50 (omega arith)) in
    let (one, most) = clamp_lem (asked q.limit d) m want high in
    rw (h, resolve_lem (clamp (asked q.limit d) m) d m one most)
      (one, most, honoured_lem q.limit d m)
