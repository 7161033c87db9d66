-- ===== src/Conduit/Products/Pages.antt =====
-- scope2.go: the cursors from page to page of a list of products.
use conduit_relay.Base.{
  ℕ, zero, suc, ◌+◌, ◌^◌, ◌≤◌, ◌<◌, Ordering, ◌≡◌, refl, sym, ap, ◌∙◌, subst, ◌≢◌, inl, inr, true,
  false, some, List, [], ◌∷◌, ◌++◌, arith, leb, if◌then◌else◌, ◌==◌, nat_eq, ==_ne, list_eq,
  list_beq, list_beq_iff, length, take, drop, append_assoc, length-append, take-append-drop,
  length-drop, All-In, In-All, pos, int_eq, Text,
}
use conduit_relay.Base.Sorting.{sort, insert_in_order, In-insert_in_order, In-sort}
use conduit_relay.Base.Orders.{Ordering-cases}
use conduit_relay.Conduit.{Library}
use conduit_relay.Conduit.Products.{ProductEnvelope}
use conduit_relay.Conduit.Products.Evaluate.{
  place_after, find_cursor_start, build_next_cursor, Outcome, found, blocked, panic, page,
}
use conduit_relay.Conduit.Products.Slice.{place_after-Distinct, page-append}
use conduit_relay.Conduit.Products.Sorted.{Distinct}

-- The last product of a page.
unfoldable pub last_of : ProductEnvelope → List ProductEnvelope → ProductEnvelope
last_of x [] = x
last_of x (y ∷ ys) = last_of y ys

-- The client's loop: it asks for the page of a cursor, and then for the page that follows its last product.
unfoldable pub follow : Library → (Text → Outcome) → ℕ → Text → List ProductEnvelope
follow lib answers zero cursor = []
follow lib answers (suc n) cursor = elim (answers cursor) [
  | blocked reason ↦ []
  | panic ↦ []
  | found pes ↦ elim pes [
    | [] ↦ []
    | x ∷ xs ↦ (x ∷ xs) ++ follow lib answers n (build_next_cursor lib (last_of x xs).event)
  ]
]

split_last :
    (x : ProductEnvelope) (xs : List ProductEnvelope)
    → (front : List ProductEnvelope) × (x ∷ xs ≡ front ++ last_of x xs ∷ [])
unfolding last_of
split_last x [] = ([], refl)
split_last x (y ∷ ys) = let (front, e) = split_last y ys in (x ∷ front, ap (◌∷◌ x) e)

insert-Distinct :
    (cmp : ProductEnvelope → ProductEnvelope → Ordering) (x : ProductEnvelope)
    (xs : List ProductEnvelope)
    → Distinct (x ∷ xs)
    → Distinct (insert_in_order cmp x xs)
unfolding insert_in_order
insert-Distinct cmp x [] d = d
insert-Distinct cmp x (y ∷ ys) d = elim (Ordering-cases (cmp x y)) [
  | inl e ↦ rw (e, insert_in_order) d
  | inr (inl e) ↦ rw (e, insert_in_order) d
  | inr (inr e) ↦
      rw (e, insert_in_order)
        (
          All-In (λ (z : ProductEnvelope). (y.event.id == z.event.id) ≡ false)
              (insert_in_order cmp x ys)
              (λ z m. elim ((In-insert_in_order cmp z x ys).0 m) [
                | inl f ↦ ground (
                  arith,
                  f,
                  d.0.0,
                  list_beq_iff x.event.id y.event.id,
                  list_beq_iff y.event.id x.event.id,
                )
                | inr n ↦
                    In-All (λ (z : ProductEnvelope). (y.event.id == z.event.id) ≡ false) ys z d.1.0
                      n
              ]),
          insert-Distinct cmp x ys (d.0.1, d.1.1),
        )
]

pub sort-Distinct :
    (cmp : ProductEnvelope → ProductEnvelope → Ordering) (xs : List ProductEnvelope)
    → Distinct xs
    → Distinct (sort cmp xs)
unfolding sort
sort-Distinct cmp [] d = tt
sort-Distinct cmp (x ∷ xs) d = insert-Distinct cmp x (sort cmp xs) (
  All-In (λ (z : ProductEnvelope). (x.event.id == z.event.id) ≡ false) (sort cmp xs)
      (λ z m.
        In-All (λ (z : ProductEnvelope). (x.event.id == z.event.id) ≡ false) xs z d.0
          ((In-sort cmp z xs).0 m)),
  sort-Distinct cmp xs d.1,
)

abbrev pub cursor_start : Library → List ProductEnvelope → Text → ℕ
cursor_start lib products cursor =
    if list_beq cursor [] then 0 else find_cursor_start lib products cursor

abbrev pub response : Library → List ProductEnvelope → ℕ → Text → Outcome
response lib products limit cursor =
    let start = cursor_start lib products cursor in
    if leb (length products) start then found [] else page start (pos limit) products

module _ (lib : Library) (round64 : (b : Text) → lib.decode_base64 (lib.encode_base64 b) ≡ some b)
    (round_cursor : (id : Text) → lib.unmarshal_cursor (lib.marshal_cursor id) ≡ some id)
    (some_cursor : (id : Text) → lib.encode_base64 (lib.marshal_cursor id) ≢ [])
    (products : List ProductEnvelope) (d : Distinct products) where
  found_start :
      (id : Text) (n : ℕ)
      → place_after id products ≡ some n
      → find_cursor_start lib products (lib.encode_base64 (lib.marshal_cursor id)) ≡ n
  unfolding find_cursor_start
  found_start id n e =
      rw (round64 (lib.marshal_cursor id), round_cursor id, e, find_cursor_start) refl

  -- The cursor of a product leads to the place behind it.
  next_start :
      (pre post : List ProductEnvelope) (x : ProductEnvelope)
      → products ≡ pre ++ x ∷ post
      → cursor_start lib products (build_next_cursor lib x.event) ≡ length pre + 1
  unfolding build_next_cursor
  next_start pre post x e =
      rw (==_ne (lib.encode_base64 (lib.marshal_cursor x.event.id)) [] (some_cursor x.event.id)) (
        found_start x.event.id (length pre + 1)
          (rw e (place_after-Distinct pre post x (subst Distinct e d))))

  module _ (answers : Text → Outcome) (l : ℕ)
      (respond : (cursor : Text) → answers cursor ≡ response lib products (suc l) cursor)
      (bound : length products + suc l < 2 ^ 63) where
    abbrev from_start : ℕ → Outcome
    from_start start =
        if leb (length products) start then found [] else page start (pos (suc l)) products

    answers-split :
        (pre rest : List ProductEnvelope) (cursor : Text)
        → products ≡ pre ++ rest
        → cursor_start lib products cursor ≡ length pre
        → answers cursor ≡ found (take (suc l) rest)
    answers-split pre rest cursor e at =
        respond cursor
        ∙ ap (λ start. from_start start) at
        ∙ from_here pre rest e (ap length e ∙ length-append pre rest)
      where
        from_here :
            (pre rest : List ProductEnvelope)
            → products ≡ pre ++ rest
            → length products ≡ length pre + length rest
            → from_start (length pre) ≡ found (take (suc l) rest)
        from_here pre [] e m =
            let past : leb (length products) (length pre) ≡ true = ground (arith, m) in rw past refl
        from_here pre (x ∷ xs) e m =
            let inside : leb (length products) (length pre) ≡ false = ground (arith, m) in
            rw inside (rw e (page-append pre (x ∷ xs) (suc l) (omega (arith, m, bound))))

    pub follow-rest :
        (n : ℕ) (pre rest : List ProductEnvelope) (cursor : Text)
        → products ≡ pre ++ rest
        → cursor_start lib products cursor ≡ length pre
        → length rest ≤ n
        → follow lib answers n cursor ≡ rest
    unfolding follow
    follow-rest zero pre [] cursor e at h = refl
    follow-rest zero pre (x ∷ xs) cursor e at h = absurd (omega (arith, h))
    follow-rest (suc n) pre [] cursor e at h = rw (answers-split pre [] cursor e at, follow) refl
    follow-rest (suc n) pre (x ∷ xs) cursor e at h =
        let last = last_of x (take l xs) in
        let (front, f) = split_last x (take l xs) in
        let post = drop l xs in
        let shape : products ≡ (pre ++ front) ++ last ∷ post =
          e
          ∙ ap (λ ys. pre ++ ys)
              (sym (take-append-drop (suc l) (x ∷ xs))
                ∙ ap (λ ys. ys ++ post) f
                ∙ append_assoc front (last ∷ []) post)
          ∙ sym (append_assoc pre front (last ∷ post)) in
        let more : products ≡ (pre ++ (x ∷ take l xs)) ++ post =
          e
          ∙ ap (λ ys. pre ++ ys) (sym (take-append-drop (suc l) (x ∷ xs)))
          ∙ sym (append_assoc pre (x ∷ take l xs) post) in
        let count : length (pre ++ front) + 1 ≡ length (pre ++ (x ∷ take l xs)) = omega (
          arith,
          length-append pre front,
          length-append pre (x ∷ take l xs),
          ap length f,
          length-append front (last ∷ []),
        ) in
        rw (answers-split pre (x ∷ xs) cursor e at, follow)
          (ap (λ ys. x ∷ (take l xs ++ ys))
              (follow-rest n (pre ++ (x ∷ take l xs)) post (build_next_cursor lib last.event) more
                (next_start (pre ++ front) post last shape ∙ count)
                (omega (arith, h, length-drop l xs)))
            ∙ ap (◌∷◌ x) (take-append-drop l xs))
