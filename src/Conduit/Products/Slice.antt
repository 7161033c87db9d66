-- ===== src/Conduit/Products/Slice.antt =====
-- A page of a list and the place of a product in it.
use conduit_relay.Base.{
  ℕ, zero, suc, ◌+◌, ◌-◌, ◌^◌, ◌≤◌, ◌<◌, ◌≡◌, refl, sym, ap, ◌∙◌, inl, inr, false, some, List, [],
  ◌∷◌, ◌++◌, arith, ltb, if◌then◌else◌, Bool-cases, ◌==◌, nat_eq, ==_refl, list_eq, length, take,
  drop, length-append, In-All, In-append, pos, ◌+ℤ◌, ltb_ℤ, int_eq, wrap64, wrap64-IsInt64,
}
use conduit_relay.Conduit.Products.{ProductEnvelope}
use conduit_relay.Conduit.Products.Evaluate.{place_after, found, page}
use conduit_relay.Conduit.Products.Sorted.{Distinct}

module _ {A : Type 0} where
  pub drop-append : (xs ys : List A) → drop (length xs) (xs ++ ys) ≡ ys
  drop-append [] ys = refl
  drop-append (x ∷ xs) ys = drop-append xs ys

  pub take-all : (n : ℕ) (xs : List A) → length xs ≤ n → take n xs ≡ xs
  take-all zero [] h = refl
  take-all zero (x ∷ xs) h = absurd (omega (arith, h))
  take-all (suc n) [] h = refl
  take-all (suc n) (x ∷ xs) h = ap (◌∷◌ x) (take-all n xs (omega (arith, h)))

pub place_after-Distinct :
    (xs ys : List ProductEnvelope) (x : ProductEnvelope)
    → Distinct (xs ++ x ∷ ys)
    → place_after x.event.id (xs ++ x ∷ ys) ≡ some (length xs + 1)
unfolding place_after
place_after-Distinct [] ys x d = rw (==_refl x.event.id) refl
place_after-Distinct (y ∷ xs) ys x d =
    let other =
      In-All (λ (z : ProductEnvelope). (y.event.id == z.event.id) ≡ false) (xs ++ x ∷ ys) x d.0
        ((In-append x xs (x ∷ ys)).1 (inr (inl refl))) in
    let rest = place_after-Distinct xs ys x d.1 in rw (other, rest) (ap some (omega arith))

sum_lem : (m n : ℕ) → m + n < 2 ^ 63 → wrap64 (pos m +ℤ pos n) ≡ pos (m + n)
unfolding ◌+ℤ◌
sum_lem m n h =
    let e : pos m +ℤ pos n ≡ pos (m + n) = ground arith in
    rw e (wrap64-IsInt64 (pos (m + n)) (h, omega arith))

abbrev smaller : ℕ → ℕ → ℕ
smaller m n = if ltb m n then m else n

end_lem :
    (p r l : ℕ)
    → (if ltb_ℤ (pos (p + r)) (pos (p + l)) then pos (p + r) else pos (p + l))
      ≡ pos (p + smaller r l)
end_lem p r l = ground arith

forward_lem : (p k : ℕ) → ltb_ℤ (pos (p + k)) (pos p) ≡ false
forward_lem p k = ground arith

start_lem : (p k : ℕ) → p + k - p ≡ k
start_lem p k = omega arith

take-smaller : (n : ℕ) (xs : List ProductEnvelope) → take (smaller (length xs) n) xs ≡ take n xs
take-smaller n xs = elim (Bool-cases (ltb (length xs) n)) [
  | inl e ↦ rw e (take-all (length xs) xs (omega arith) ∙ sym (take-all n xs (ground (arith, e))))
  | inr e ↦ rw e refl
]

-- The page of `L` products after the first ones.
pub page-append :
    (pre rest : List ProductEnvelope) (limit : ℕ)
    → length pre + limit < 2 ^ 63
    → page (length pre) (pos limit) (pre ++ rest) ≡ found (take limit rest)
unfolding page
page-append pre rest limit h =
    let k = smaller (length rest) limit in
    rw (sum_lem (length pre) limit h, drop-append pre rest, length-append pre rest)
      (rw (end_lem (length pre) (length rest) limit) (
        rw (forward_lem (length pre) k, start_lem (length pre) k)
          (ap found (take-smaller limit rest))))
