-- ===== src/Base/Maps.antt =====
-- More laws of the association lists with texts as keys: predicates of the values, and keys that stand
-- once, as they do in a Go map.
use Prim.Native.Nat.{◌+◌, ◌≤◌}
use mathlib.Core.Path.{◌≡◌, refl, sym, ap, ◌∙◌, subst}
use mathlib.Core.Logic.{inl, inr}
use mathlib.Core.Bool.{Bool, true, not, ◌&&◌}
use mathlib.Core.List.{List, [], ◌∷◌}
use mathlib.Core.Option.{none, some}
use native.Mathlib.Omega.{arith}
use conduit_relay.Base.Tests.{if◌then◌else◌, Bool-cases, is_some}
use conduit_relay.Base.Class.{◌==◌, ==_refl, nat_eq, list_eq, list_beq_iff}
use conduit_relay.Base.Lists.{length, All, In}
use conduit_relay.Base.Strings.{Text}
use conduit_relay.Base.Assoc.{lookup-delete, lookup, insert, delete}

module _ {V : Type 0} (Q : V → Type 0) where
  abbrev pub Values : List (Text × V) → Type 0
  Values m = All (λ (kv : Text × V). Q kv.1) m

  pub Values-insert :
      (k : Text) (v : V) (m : List (Text × V)) → Q v → Values m → Values (insert k v m)
  unfolding insert
  Values-insert k v [] q h = (q, tt)
  Values-insert k v ((j, w) ∷ m) q h = elim (Bool-cases (j == k)) [
    | inl e ↦ rw (e, insert) (q, h.1)
    | inr e ↦ rw (e, insert) (h.0, Values-insert k v m q h.1)
  ]

  pub Values-delete : (k : Text) (m : List (Text × V)) → Values m → Values (delete k m)
  unfolding delete
  Values-delete k [] h = tt
  Values-delete k ((j, w) ∷ m) h = elim (Bool-cases (j == k)) [
    | inl e ↦ rw (e, delete) (Values-delete k m h.1)
    | inr e ↦ rw (e, delete) (h.0, Values-delete k m h.1)
  ]

  pub Values-lookup :
      (k : Text) (v : V) (m : List (Text × V)) → Values m → lookup k m ≡ some v → Q v
  unfolding lookup
  Values-lookup k v [] h e = cc
  Values-lookup k v ((j, w) ∷ m) h e = elim (Bool-cases (j == k)) [
    | inl f ↦ subst Q (ground (arith, e, f)) h.0
    | inr f ↦ Values-lookup k v m h.1 (ground (arith, e, f))
  ]

module _ {V : Type 0} where
  pub length-insert :
      (k : Text) (v : V) (m : List (Text × V))
      → length (insert k v m) ≡ (if is_some (lookup k m) then length m else length m + 1)
  unfolding insert lookup
  length-insert k v [] = refl
  length-insert k v ((j, w) ∷ m) = ground (arith, length-insert k v m)

  pub length-delete-le : (k : Text) (m : List (Text × V)) → length (delete k m) ≤ length m
  unfolding delete
  length-delete-le k [] = omega arith
  length-delete-le k ((j, w) ∷ m) = ground (arith, length-delete-le k m)

module _ {V : Type 0} where
  abbrev pub absent : Text → List (Text × V) → Bool
  absent k [] = true
  absent k ((j, v) ∷ m) = not (j == k) && absent k m

  -- A Go map has a key once.
  abbrev pub Unique : List (Text × V) → Type 0
  Unique [] = Unit {0}
  Unique ((k, v) ∷ m) = (absent k m ≡ true) × Unique m

  pub absent-insert :
      (k j : Text) (v : V) (m : List (Text × V))
      → absent j (insert k v m) ≡ (not (k == j) && absent j m)
  unfolding insert
  absent-insert k j v [] = ground arith
  absent-insert k j v ((i, w) ∷ m) =
      ground (arith, absent-insert k j v m, list_beq_iff i k, list_beq_iff i j, list_beq_iff k j)

  pub absent-delete :
      (k j : Text) (m : List (Text × V)) → absent j m ≡ true → absent j (delete k m) ≡ true
  unfolding delete
  absent-delete k j [] h = h
  absent-delete k j ((i, w) ∷ m) h = ground (arith, absent-delete k j m)

  pub delete-absent : (k : Text) (m : List (Text × V)) → absent k m ≡ true → delete k m ≡ m
  unfolding delete
  delete-absent k [] h = refl
  delete-absent k ((i, w) ∷ m) h = ground (arith, delete-absent k m)

  pub Unique-insert : (k : Text) (v : V) (m : List (Text × V)) → Unique m → Unique (insert k v m)
  unfolding insert
  Unique-insert k v [] u = (refl, tt)
  Unique-insert k v ((i, w) ∷ m) u =
      let rest = Unique-insert k v m u.1 in
      ground (arith, rest, u.0, u.1, absent-insert k i v m, list_beq_iff i k, list_beq_iff k i)

  pub Unique-delete : (k : Text) (m : List (Text × V)) → Unique m → Unique (delete k m)
  unfolding delete
  Unique-delete k [] u = tt
  Unique-delete k ((i, w) ∷ m) u =
      let rest = Unique-delete k m u.1 in ground (arith, rest, u.0, absent-delete k i m)

  pub length-delete :
      (k : Text) (v : V) (m : List (Text × V))
      → Unique m
      → lookup k m ≡ some v
      → length (delete k m) + 1 ≡ length m
  unfolding delete lookup
  length-delete k v [] u h = cc
  length-delete k v ((i, w) ∷ m) u h =
      ground (arith, u.0, length-delete k v m u.1, delete-absent k m, list_beq_iff i k)

  pub length-insert_new :
      (k : Text) (v : V) (m : List (Text × V))
      → lookup k m ≡ none
      → length (insert k v m) ≡ length m + 1
  unfolding insert lookup
  length-insert_new k v [] h = refl
  length-insert_new k v ((i, w) ∷ m) h = ground (arith, length-insert_new k v m)

  pub lookup-delete_same : (k : Text) (m : List (Text × V)) → lookup k (delete k m) ≡ none
  unfolding lookup delete
  lookup-delete_same k [] = refl
  lookup-delete_same k ((i, w) ∷ m) = ground (arith, lookup-delete_same k m)

-- The entries of a map and what it returns for their keys.
module _ {V : Type 0} where
  pub lookup-absent : (k : Text) (m : List (Text × V)) → absent k m ≡ true → lookup k m ≡ none
  unfolding lookup
  lookup-absent k [] h = refl
  lookup-absent k ((j, w) ∷ m) h = ground (arith, lookup-absent k m)

  pub lookup-head : (k : Text) (v : V) (m : List (Text × V)) → lookup k ((k, v) ∷ m) ≡ some v
  unfolding lookup
  lookup-head k v m = rw (==_refl k) refl

  pub lookup-tail :
      (k c : Text) (v : V) (m : List (Text × V))
      → absent k m ≡ true
      → lookup c m ≡ (if k == c then none else lookup c ((k, v) ∷ m))
  unfolding lookup
  lookup-tail k c v m h = elim (Bool-cases (k == c)) [
    | inl e ↦ rw (e, ← (list_beq_iff k c).0 e) (lookup-absent k m h)
    | inr e ↦ rw e refl
  ]

  absent-In : (k : Text) (v : V) (m : List (Text × V)) → absent k m ≡ true → In (k, v) m → ⊥
  absent-In k v [] h n = n
  absent-In k v ((j, w) ∷ m) h (inl e) =
      let f : k ≡ j = ap (λ (x : Text × V). x.0) e in ground (arith, h, f, ==_refl j)
  absent-In k v ((j, w) ∷ m) h (inr n) = absent-In k v m (ground (arith, h)) n

  pub In-lookup :
      (k : Text) (v : V) (m : List (Text × V)) → Unique m → In (k, v) m → lookup k m ≡ some v
  unfolding lookup
  In-lookup k v [] u n = absurd n
  In-lookup k v ((j, w) ∷ m) u (inl e) =
      let f : k ≡ j = ap (λ (x : Text × V). x.0) e in
      let g : v ≡ w = ap (λ (x : Text × V). x.1) e in rw (f, g, ==_refl j) refl
  In-lookup k v ((j, w) ∷ m) u (inr n) = elim (Bool-cases (j == k)) [
    | inl e ↦
        absurd (absent-In k v m (subst (λ x. absent x m ≡ true) ((list_beq_iff j k).0 e) u.0) n)
    | inr e ↦ rw e (In-lookup k v m u.1 n)
  ]

  pub lookup-In : (k : Text) (v : V) (m : List (Text × V)) → lookup k m ≡ some v → In (k, v) m
  unfolding lookup
  lookup-In k v [] h = cc
  lookup-In k v ((j, w) ∷ m) h = elim (Bool-cases (j == k)) [
    | inl e ↦ inl (let f : w ≡ v = ground (arith, h, e) in rw (← f, (list_beq_iff j k).0 e) refl)
    | inr e ↦ inr (lookup-In k v m (ground (arith, h, e)))
  ]

  -- Maps that agree on every key have as many keys.
  pub same_length :
      (m n : List (Text × V))
      → Unique m
      → Unique n
      → ((c : Text) → lookup c m ≡ lookup c n)
      → length m ≡ length n
  unfolding lookup
  same_length [] [] u v h = refl
  same_length [] ((k, w) ∷ n) u v h = let here = h k ∙ lookup-head k w n in ground (arith, here)
  same_length ((k, w) ∷ m) n u v h =
      let here : lookup k n ≡ some w = sym (h k) ∙ lookup-head k w m in
      let rest = same_length m (delete k n) u.1 (Unique-delete k n v) (λ c.
        lookup-tail k c w m u.0
        ∙ ap (λ o. if k == c then none else o) (h c)
        ∙ sym (lookup-delete k c n)) in
      omega (arith, rest, length-delete k w n v here)
