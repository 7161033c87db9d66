-- ===== src/Relay/GiftWrap/Request.antt =====
-- congee/internal/relay/nip17.go: what a REQ that passes the test of NIP-17 can select.
use conduit_relay.Base.{
  ◌≡◌, refl, subst, ◌≢◌, ◌⊎◌, inl, inr, true, Option, none, some, List, [], ◌∷◌, arith,
  if◌then◌else◌, Bool-cases, Option-cases, ◌==◌, nat_eq, list_eq, list_beq_iff, any_iff, In, In-All,
  ℤ, int_eq, Text, codes, trim_prefix,
}
use conduit_relay.Base.Assoc.{lookup}
use conduit_relay.Nostr.Event.{Event}
use conduit_relay.Nostr.Filter.{Filter, matches, filters_match}
use conduit_relay.Nostr.Filter.Accepts.{Tagged, matches_iff}
use conduit_relay.Relay.Config.{Config, nip_on}
use conduit_relay.Relay.Auth.{AuthState, current_auth_pubkey}
use conduit_relay.Relay.GiftWrap.{
  is_gift_wrap_kind, last_protected, protected_kind, check_recipient, values_of, check_filter,
  check_filters, validate_req,
}

-- The first loop keeps a gift-wrap kind once it has met one.
last_protected_keeps : (seen : Option ℤ) (ks : List ℤ) → seen ≢ none → last_protected seen ks ≢ none
unfolding last_protected
last_protected_keeps seen [] ne = ne
last_protected_keeps seen (k ∷ ks) ne =
    last_protected_keeps (if is_gift_wrap_kind k then some k else seen) ks (ground arith)

last_protected_finds :
    (seen : Option ℤ) (ks : List ℤ) (k : ℤ)
    → In k ks
    → is_gift_wrap_kind k ≡ true
    → last_protected seen ks ≢ none
unfolding last_protected
last_protected_finds seen [] k m g = absurd m
last_protected_finds seen (j ∷ ks) k (inl e) g =
    last_protected_keeps (if is_gift_wrap_kind j then some j else seen) ks (ground arith)
last_protected_finds seen (j ∷ ks) k (inr m) g =
    last_protected_finds (if is_gift_wrap_kind j then some j else seen) ks k m g

protected_kind_keeps :
    (seen : Option ℤ) (fs : List Filter) → seen ≢ none → protected_kind seen fs ≢ some none
unfolding protected_kind
protected_kind_keeps seen [] ne = ground arith
protected_kind_keeps seen (f ∷ fs) ne = ground (
  arith,
  protected_kind_keeps (last_protected seen f.kinds) fs,
  last_protected_keeps seen f.kinds ne,
)

protected_kind_finds :
    (seen : Option ℤ) (fs : List Filter) (f : Filter) (k : ℤ)
    → In f fs
    → In k f.kinds
    → is_gift_wrap_kind k ≡ true
    → protected_kind seen fs ≢ some none
unfolding protected_kind
protected_kind_finds seen [] f k m n g = absurd m
protected_kind_finds seen (h ∷ fs) f k (inl e) n g =
    let found = last_protected_finds seen h.kinds k (subst (λ (x : Filter). In k x.kinds) e n) g in
    ground (arith, protected_kind_keeps (last_protected seen h.kinds) fs found)
protected_kind_finds seen (h ∷ fs) f k (inr m) n g =
    ground (arith, protected_kind_finds (last_protected seen h.kinds) fs f k m n g)

-- No filter of a REQ that passes the first loop is a wildcard.
protected_kind_kinds :
    (seen : Option ℤ) (fs : List Filter) (f : Filter)
    → In f fs
    → f.kinds ≡ []
    → protected_kind seen fs ≡ none
unfolding protected_kind
protected_kind_kinds seen [] f m e = absurd m
protected_kind_kinds seen (h ∷ fs) f (inl i) e = ground (arith, list_beq_iff h.kinds [])
protected_kind_kinds seen (h ∷ fs) f (inr m) e =
    ground (arith, protected_kind_kinds (last_protected seen h.kinds) fs f m e)

check_filters-In :
    (c : AuthState) (k : ℤ) (fs : List Filter) (f : Filter)
    → In f fs
    → check_filters c k fs ≡ none
    → check_filter c k f ≡ none
unfolding check_filters
check_filters-In c k [] f m h = absurd m
check_filters-In c k (g ∷ fs) f (inl e) h = rw e (ground arith)
check_filters-In c k (g ∷ fs) f (inr m) h = check_filters-In c k fs f m (ground arith)

check_recipient_lem :
    (c : AuthState) (ps : List Text)
    → check_recipient c ps ≡ none
    → (ps ≡ current_auth_pubkey c ∷ []) × (current_auth_pubkey c ≢ [])
unfolding check_recipient
check_recipient_lem c [] h = cc
check_recipient_lem c (p ∷ q ∷ ps) h = cc
check_recipient_lem c (p ∷ []) h =
    ground (arith, list_beq_iff p (current_auth_pubkey c), list_beq_iff (current_auth_pubkey c) [])

-- What a passed REQ means for one of its filters that can select a gift wrap.
abbrev pub Recipient : AuthState → Filter → Type 0
Recipient c f =
    (lookup (codes "#p") f.tag ≡ some (current_auth_pubkey c ∷ [])) × (current_auth_pubkey c ≢ [])

values_of-some :
    (key v : Text) (tag : List (Text × List Text))
    → values_of key tag ≡ v ∷ []
    → lookup key tag ≡ some (v ∷ [])
values_of-some key v tag h = elim (Option-cases (lookup key tag)) [
  | inl e ↦ ground (arith, e)
  | inr (vs, e) ↦ ground (arith, e)
]

recipient_checked :
    (c : AuthState) (k : ℤ) (f : Filter)
    → check_filter c k f ≡ none
    → check_recipient c (values_of (codes "#p") f.tag) ≡ none
unfolding check_filter
recipient_checked c k f h = ground arith

validate_req-Recipient :
    (cfg : Config) (c : AuthState) (fs : List Filter) (f : Filter) (k : ℤ)
    → nip_on 17 cfg ≡ true
    → validate_req cfg c fs ≡ none
    → In f fs
    → (f.kinds ≡ []) ⊎ In k f.kinds
    → is_gift_wrap_kind k ≡ true
    → Recipient c f
unfolding validate_req
validate_req-Recipient cfg c fs f k on ok m (inl e) g =
    ground (arith, on, protected_kind_kinds none fs f m e)
validate_req-Recipient cfg c fs f k on ok m (inr n) g =
    elim (Option-cases (protected_kind none fs)) [
      | inl e ↦ ground (arith, on, e)
      | inr (none, e) ↦ absurd (protected_kind_finds none fs f k m n g e)
      | inr (some p, e) ↦
          let checked : check_filter c p f ≡ none =
            check_filters-In c p fs f m (ground (arith, on, e)) in
          let one = check_recipient_lem c _ (recipient_checked c p f checked) in
          (values_of-some (codes "#p") (current_auth_pubkey c) f.tag one.0, one.1)
    ]

lookup-In :
    (key : Text) (vs : List Text) (tag : List (Text × List Text))
    → lookup key tag ≡ some vs
    → In (key, vs) tag
unfolding lookup
lookup-In key vs [] h = cc
lookup-In key vs ((j, w) ∷ tag) h = elim (Bool-cases (j == key)) [
  | inl e ↦ inl (ground (arith, list_beq_iff j key))
  | inr e ↦ inr (lookup-In key vs tag (ground arith))
]

p_key : trim_prefix (codes "#p") (codes "#") ≡ codes "p"
unfolding trim_prefix
p_key = refl

-- If NIP-17 is on and the test passes, every gift wrap that the filters match carries a p tag with the
-- connection's current authenticated key, and there is such a key.
pub validate_req-private :
    (cfg : Config) (c : AuthState) (fs : List Filter) (ev : Event)
    → nip_on 17 cfg ≡ true
    → validate_req cfg c fs ≡ none
    → is_gift_wrap_kind ev.kind ≡ true
    → filters_match fs ev ≡ true
    → (current_auth_pubkey c ≢ []) × Tagged ev.tags (codes "p") (current_auth_pubkey c ∷ [])
unfolding filters_match
validate_req-private cfg c fs ev on ok g m =
    let (f, inside, matched) = (any_iff (λ f. matches f ev) fs).0 m in
    let accepted = (matches_iff f ev).0 matched in
    let (key, some_key) =
      validate_req-Recipient cfg c fs f ev.kind on ok inside accepted.kind_listed g in
    let asked = In-All _ f.tag _ accepted.tagged (lookup-In (codes "#p") _ f.tag key) in
    (some_key, rw p_key at asked.1)
