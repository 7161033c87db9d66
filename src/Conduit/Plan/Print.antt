-- ===== src/Conduit/Plan/Print.antt =====
-- scope2.go: the capability format of a search, written and read back.
use conduit_relay.Base.{
  ℕ, ◌≡◌, refl, ap, ◌∙◌, Bool, true, false, [], ◌∷◌, ◌++◌, arith, ◌==◌, nat_eq, ==_refl, list_eq,
  list_beq, contains, int_eq, Text, codes, has_prefix, trim_space, trim_prefix,
}
use conduit_relay.Conduit.{Library}
use conduit_relay.Conduit.Plan.{
  ProductSort, newest, price_asc, price_desc, updated_at_desc, SearchPlan, split_at, split, cut,
  parse_sort, set_field, read_token, read_tokens, prefix, default_plan, parse_search_plan,
}

abbrev pub sort_text : ProductSort → Text
sort_text newest = codes "newest"
sort_text price_asc = codes "price_asc"
sort_text price_desc = codes "price_desc"
sort_text updated_at_desc = codes "updated_at_desc"

abbrev partial_text : Bool → Text
partial_text true = codes "1"
partial_text false = codes "0"

-- A request in the format, with every field.
abbrev print_body : SearchPlan → Text
print_body plan =
    (codes "q=" ++ plan.text)
    ++ b';'
      ∷ ((codes "sort=" ++ sort_text plan.sort)
          ++ b';'
            ∷ ((codes "cursor=" ++ plan.cursor)
                ++ b';' ∷ (codes "partial=" ++ partial_text plan.partial)))

abbrev pub print_plan : SearchPlan → Text
print_plan plan = prefix ++ print_body plan

split_at-append :
    (c : ℕ) (a b : Text) → contains a c ≡ false → split_at c (a ++ c ∷ b) ≡ (a, split c b)
unfolding split_at
split_at-append c [] b h = rw (==_refl c) refl
split_at-append c (x ∷ a) b h =
    let other : (x == c) ≡ false = ground (arith, h) in
    rw (split_at-append c a b (ground (arith, h)), other) refl

split_at-whole : (c : ℕ) (a : Text) → contains a c ≡ false → split_at c a ≡ (a, [])
unfolding split_at
split_at-whole c [] h = refl
split_at-whole c (x ∷ a) h =
    let other : (x == c) ≡ false = ground (arith, h) in
    rw (split_at-whole c a (ground (arith, h)), other) refl

split-append : (c : ℕ) (a b : Text) → contains a c ≡ false → split c (a ++ c ∷ b) ≡ a ∷ split c b
split-append c a b h = rw (split_at-append c a b h) refl

split-whole : (c : ℕ) (a : Text) → contains a c ≡ false → split c a ≡ a ∷ []
split-whole c a h = rw (split_at-whole c a h) refl

prefix-read :
    (s : Text) → (has_prefix (prefix ++ s) prefix ≡ true) × (trim_prefix (prefix ++ s) prefix ≡ s)
unfolding has_prefix trim_prefix
prefix-read s = (refl, refl)

module _ (lib : Library) (plan : SearchPlan) where
  token_q :
      (v : Text)
      → trim_space v ≡ v
      → read_token lib (codes "q=" ++ v) plan ≡ record plan { text = v }
  unfolding read_token cut set_field trim_space list_beq
  token_q v h = rw h refl

  token_sort :
      (mode : ProductSort)
      → read_token lib (codes "sort=" ++ sort_text mode) plan ≡ record plan { sort = mode }
  unfolding read_token cut set_field parse_sort trim_space list_beq
  token_sort newest = refl
  token_sort price_asc = refl
  token_sort price_desc = refl
  token_sort updated_at_desc = refl

  token_cursor :
      (v : Text)
      → trim_space v ≡ v
      → read_token lib (codes "cursor=" ++ v) plan ≡ record plan { cursor = v }
  unfolding read_token cut set_field trim_space list_beq
  token_cursor v h = rw h refl

  token_partial :
      (b : Bool)
      → lib.equal_fold (codes "0") (codes "true") ≡ false
      → read_token lib (codes "partial=" ++ partial_text b) plan ≡ record plan { partial = b }
  unfolding read_token cut set_field trim_space list_beq
  token_partial true h = refl
  token_partial false h = rw h refl

sort_part : (mode : ProductSort) → contains (codes "sort=" ++ sort_text mode) b';' ≡ false
sort_part newest = refl
sort_part price_asc = refl
sort_part price_desc = refl
sort_part updated_at_desc = refl

partial_part : (b : Bool) → contains (codes "partial=" ++ partial_text b) b';' ≡ false
partial_part true = refl
partial_part false = refl

split_body :
    (plan : SearchPlan)
    → contains plan.text b';' ≡ false
    → contains plan.cursor b';' ≡ false
    → split b';' (print_body plan)
      ≡ (codes "q=" ++ plan.text)
        ∷ (codes "sort=" ++ sort_text plan.sort)
        ∷ (codes "cursor=" ++ plan.cursor)
        ∷ (codes "partial=" ++ partial_text plan.partial)
        ∷ []
split_body plan t c =
    let last = codes "partial=" ++ partial_text plan.partial in
    let third = (codes "cursor=" ++ plan.cursor) ++ b';' ∷ last in
    let second = (codes "sort=" ++ sort_text plan.sort) ++ b';' ∷ third in
    split-append b';' (codes "q=" ++ plan.text) second t
    ∙ ap (◌∷◌ (codes "q=" ++ plan.text)) (
        split-append b';' (codes "sort=" ++ sort_text plan.sort) third (sort_part plan.sort)
        ∙ ap (◌∷◌ (codes "sort=" ++ sort_text plan.sort)) (
            split-append b';' (codes "cursor=" ++ plan.cursor) last c
            ∙ ap (◌∷◌ (codes "cursor=" ++ plan.cursor))
                (split-whole b';' last (partial_part plan.partial))))

-- A plan that is written in the format is read back as it is, if its text and its cursor have no semicolon and no
-- white space at their ends, and "0" is not "true" in any case of letters.
pub parse_search_plan-print :
    (lib : Library) (plan : SearchPlan)
    → contains plan.text b';' ≡ false
    → contains plan.cursor b';' ≡ false
    → trim_space plan.text ≡ plan.text
    → trim_space plan.cursor ≡ plan.cursor
    → lib.equal_fold (codes "0") (codes "true") ≡ false
    → parse_search_plan lib (print_plan plan) ≡ (plan, true)
unfolding parse_search_plan read_tokens
parse_search_plan-print lib plan t c trim_t trim_c fold =
    let body = print_body plan in
    rw ((prefix-read body).0, (prefix-read body).1, split_body plan t c)
      (ap (λ (p : SearchPlan). (p, true))
        (rw (token_q lib default_plan plan.text trim_t) (
          rw (token_sort lib (record default_plan { text = plan.text }) plan.sort) (
            rw
              (token_cursor lib (record default_plan { text = plan.text; sort = plan.sort })
                plan.cursor trim_c)
              (token_partial lib (record plan { partial = false }) plan.partial fold)))))
