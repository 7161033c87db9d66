-- ===== src/Relay/IpConns.antt =====
-- congee/internal/relay/ip_conn_tracker.go: the open connections of each peer address.
use conduit_relay.Base.{
  ℕ, ◌+◌, ◌-◌, ◌≤◌, ◌<◌, ◌≡◌, refl, Bool, true, false, ◌&&◌, none, some, List, [], ◌∷◌, ◌++◌, arith,
  leb, if◌then◌else◌, ◌==◌, nat_eq, list_eq, list_beq_iff, ℤ, pos, ltb_ℤ, leb_ℤ, int_eq, Text,
}
use conduit_relay.Base.Assoc.{lookup, insert, delete, lookup-insert, lookup-delete}

abbrev pub Counts : Type 0
Counts = List (Text × ℕ)

-- `t.counts[ip]`, 0 for an address that the map lacks.
unfoldable pub open_count : Counts → Text → ℕ
open_count t ip = elim (lookup ip t) [ none ↦ 0 | some n ↦ n ]

unfoldable pub try_acquire : Text → ℤ → Counts → Counts × ℕ × Bool
try_acquire ip max t =
    let n = open_count t ip in
    if ltb_ℤ (pos 0) max && leb_ℤ max (pos n)
    then (t, n, false)
    else (insert ip (n + 1) t, n + 1, true)

unfoldable pub release : Text → Counts → Counts
release ip t = let n = open_count t ip in if leb n 1 then delete ip t else insert ip (n - 1) t

open_count-insert :
    (ip q : Text) (n : ℕ) (t : Counts)
    → open_count (insert ip n t) q ≡ (if ip == q then n else open_count t q)
unfolding open_count
open_count-insert ip q n t = ground (arith, lookup-insert ip q n t)

open_count-delete :
    (ip q : Text) (t : Counts)
    → open_count (delete ip t) q ≡ (if ip == q then 0 else open_count t q)
unfolding open_count
open_count-delete ip q t = ground (arith, lookup-delete ip q t)

open_count-release :
    (ip q : Text) (t : Counts)
    → open_count (release ip t) q ≡ (if ip == q then open_count t q - 1 else open_count t q)
unfolding release
open_count-release ip q t = ground (
  arith,
  list_beq_iff ip q,
  open_count-insert ip q (open_count t ip - 1) t,
  open_count-delete ip q t,
)

open_count-try_acquire :
    (ip q : Text) (max : ℤ) (t : Counts)
    → open_count (try_acquire ip max t).0 q
      ≡ (if (try_acquire ip max t).2 && ip == q then open_count t q + 1 else open_count t q)
unfolding try_acquire
open_count-try_acquire ip q max t =
    ground (arith, list_beq_iff ip q, open_count-insert ip q (open_count t ip + 1) t)

-- The server's use of the tracker: it opens a connection only if a slot is reserved, and gives the slot
-- of an open connection back when that closes. `opens` lists the addresses of the open connections.
pub data Reaches (max : ℤ) : Counts → List Text → Type 0 where
  start : Reaches max [] []
  opened :
      {t : Counts} {opens : List Text} (ip : Text)
      → Reaches max t opens
      → (try_acquire ip max t).2 ≡ true
      → Reaches max (try_acquire ip max t).0 (ip ∷ opens)
  refused :
      {t : Counts} {opens : List Text} (ip : Text)
      → Reaches max t opens
      → (try_acquire ip max t).2 ≡ false
      → Reaches max (try_acquire ip max t).0 opens
  closed :
      {t : Counts} {opens : List Text} (ip : Text) (before after : List Text)
      → Reaches max t opens
      → opens ≡ before ++ ip ∷ after
      → Reaches max (release ip t) (before ++ after)

unfoldable pub count : Text → List Text → ℕ
count ip [] = 0
count ip (x ∷ xs) = (if x == ip then 1 else 0) + count ip xs

count-append : (ip : Text) (xs ys : List Text) → count ip (xs ++ ys) ≡ count ip xs + count ip ys
unfolding count
count-append ip [] ys = omega arith
count-append ip (x ∷ xs) ys = omega (arith, count-append ip xs ys)

-- After any use of the tracker the count of an address is the number of its open connections.
pub Reaches-count :
    (max : ℤ) {t : Counts} {opens : List Text}
    → Reaches max t opens
    → (ip : Text) → open_count t ip ≡ count ip opens
unfolding count
Reaches-count max start ip = unfold open_count lookup in refl
Reaches-count max (opened {t} {opens} q r ok) ip =
    ground (arith, open_count-try_acquire q ip max t, ok, Reaches-count max r ip)
Reaches-count max (refused {t} {opens} q r no_slot) ip =
    ground (arith, open_count-try_acquire q ip max t, no_slot, Reaches-count max r ip)
Reaches-count max (closed {t} {opens} q before after r e) ip = ground (
  arith,
  open_count-release q ip t,
  Reaches-count max r ip,
  e,
  count-append ip before (q ∷ after),
  count-append ip before after,
)

try_acquire-room :
    (ip : Text) (max : ℕ) (t : Counts)
    → 0 < max
    → (try_acquire ip (pos max) t).2 ≡ true
    → open_count t ip < max
unfolding try_acquire
try_acquire-room ip max t h ok = ground (arith, h, ok)

-- If the configured maximum is positive, no address ever has more open connections than it.
pub Reaches-max :
    (max : ℕ) {t : Counts} {opens : List Text}
    → 0 < max
    → Reaches (pos max) t opens
    → (ip : Text) → count ip opens ≤ max
unfolding count
Reaches-max max h start ip = omega arith
Reaches-max max h (opened {t} {opens} q r ok) ip = ground (
  arith,
  list_beq_iff q ip,
  try_acquire-room q max t h ok,
  Reaches-count (pos max) r q,
  Reaches-max max h r ip,
)
Reaches-max max h (refused q r no_slot) ip = Reaches-max max h r ip
Reaches-max max h (closed {t} {opens} q before after r e) ip = ground (
  arith,
  Reaches-max max h r ip,
  e,
  count-append ip before (q ∷ after),
  count-append ip before after,
)
