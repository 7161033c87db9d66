-- ===== src/Relay/Limiter/Window.antt =====
-- The loop that forgets what has left the window, and the load of a window: the weights of the entries
-- whose time lies between t and t + w.
use mathlib.Core.List.{append_assoc}
use conduit_relay.Base.{
  ℕ, ◌+◌, ◌≤◌, ◌<◌, ◌≡◌, refl, ◌&&◌, List, [], ◌∷◌, ◌++◌, arith, ltb, leb, if◌then◌else◌, nat_eq,
  list_eq, All, int_eq,
}

module _ {A : Type 0} (time : A → ℕ) where
  unfoldable pub drop_expired : ℕ → ℕ → List A → List A
  drop_expired w now [] = []
  drop_expired w now (x ∷ xs) =
      let rest = drop_expired w now xs in if ltb (time x + w) now then rest else x ∷ xs

module _ {A : Type 0} (weight : A → ℕ) where
  unfoldable pub total : List A → ℕ
  total [] = 0
  total (x ∷ xs) = weight x + total xs

  pub total-append : (xs ys : List A) → total (xs ++ ys) ≡ total xs + total ys
  unfolding total
  total-append [] ys = omega arith
  total-append (x ∷ xs) ys = omega (arith, total-append xs ys)

module _ {A : Type 0} (time weight : A → ℕ) (w : ℕ) where
  unfoldable pub load : ℕ → List A → ℕ
  load t [] = 0
  load t (x ∷ xs) = (if leb t (time x) && leb (time x) (t + w) then weight x else 0) + load t xs

  pub load-append : (t : ℕ) (xs ys : List A) → load t (xs ++ ys) ≡ load t xs + load t ys
  unfolding load
  load-append t [] ys = omega arith
  load-append t (x ∷ xs) ys = omega (arith, load-append t xs ys)

  pub load-le-total : (t : ℕ) (xs : List A) → load t xs ≤ total weight xs
  unfolding load total
  load-le-total t [] = omega arith
  load-le-total t (x ∷ xs) = ground (arith, load-le-total t xs)

  pub total-drop_expired-le :
      (now : ℕ) (xs : List A) → total weight (drop_expired time w now xs) ≤ total weight xs
  unfolding total drop_expired
  total-drop_expired-le now [] = omega arith
  total-drop_expired-le now (x ∷ xs) = ground (arith, total-drop_expired-le now xs)

  load_later : (t n : ℕ) (xs : List A) → t + w < n → All (λ x. n ≤ time x) xs → load t xs ≡ 0
  unfolding load
  load_later t n [] h later = refl
  load_later t n (x ∷ xs) h later = ground (arith, load_later t n xs h later.1)

  -- To forget the expired entries at time n hides no load from what is accepted after n.
  pub load-drop_expired :
      (t n bound : ℕ) (xs later : List A)
      → All (λ x. n ≤ time x) later
      → total weight xs ≤ bound
      → load t (drop_expired time w n xs ++ later) ≤ bound
      → load t (xs ++ later) ≤ bound
  unfolding load total drop_expired
  load-drop_expired t n bound [] later a fits h = h
  load-drop_expired t n bound (x ∷ xs) later a fits h = ground (
    arith,
    load-drop_expired t n bound xs later a,
    load-append t xs later,
    load_later t n later,
    load-le-total t xs,
    a,
  )

  pub load-admit :
      (t bound : ℕ) (x : A) (xs later : List A)
      → All (λ y. time x ≤ time y) later
      → total weight xs ≤ bound
      → load t ((drop_expired time w (time x) xs ++ x ∷ []) ++ later) ≤ bound
      → load t (xs ++ x ∷ later) ≤ bound
  load-admit t bound x xs later a fits h =
      load-drop_expired t (time x) bound xs (x ∷ later) (omega arith, a) fits (rw append_assoc at h)
