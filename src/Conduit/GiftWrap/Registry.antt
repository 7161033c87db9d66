-- ===== src/Conduit/GiftWrap/Registry.antt =====
-- giftwrap.go: the registry of authenticated connections against the history of the connections.
use conduit_relay.Base.{
  ℕ, ◌≡◌, refl, ◌∙◌, subst, ◌⊎◌, inl, inr, Bool, true, false, not, ◌&&◌, ◌||◌, Option, none, some,
  List, [], ◌∷◌, if◌then◌else◌, Bool-cases, Option-cases, is_some, ◌==◌, nat_eq, ==_iff, list_eq,
  int_eq, Text,
}
use conduit_relay.Base.Assoc.{lookup, lookup-insert, lookup-delete}
use conduit_relay.Conduit.GiftWrap.{
  ConnectionIdentity, AuthRegistry, zero_pk, registry_connect, registry_record, registry_current,
  registry_remove,
}

-- What the hooks OnConnect, OnAuth and OnDisconnect are called for.
pub data Action : Type 0 where
  opened : ℕ → Action
  proved : ℕ → Text → Action
  closed : ℕ → Action

abbrev pub apply_action : Action → AuthRegistry → AuthRegistry
apply_action (opened ws) reg = registry_connect ws reg
apply_action (proved ws key) reg = registry_record ws key reg
apply_action (closed ws) reg = registry_remove ws reg

-- The registry after a history, whose last action stands first.
unfoldable pub registry_after : List Action → AuthRegistry
registry_after [] = []
registry_after (a ∷ history) = apply_action a (registry_after history)

-- Whether the connection is open after the history.
unfoldable pub open_after : ℕ → List Action → Bool
open_after ws [] = false
open_after ws (opened w ∷ history) = w == ws || open_after ws history
open_after ws (proved w key ∷ history) = open_after ws history
open_after ws (closed w ∷ history) = not (w == ws) && open_after ws history

-- The key that was proved last on the connection since it was last opened or closed.
unfoldable pub proved_key : ℕ → List Action → Option Text
proved_key ws [] = none
proved_key ws (opened w ∷ history) =
    let before = proved_key ws history in if w == ws then none else before
proved_key ws (proved w key ∷ history) =
    let before = proved_key ws history in if w == ws then some key else before
proved_key ws (closed w ∷ history) =
    let before = proved_key ws history in if w == ws then none else before

abbrev held : Option Text → ConnectionIdentity
held none = record { pubkey = zero_pk; authenticated = false }
held (some key) = record { pubkey = key; authenticated = true }

registry_record-lookup :
    (w ws : ℕ) (key : Text) (reg : AuthRegistry)
    → lookup ws (registry_record w key reg)
      ≡ (if w == ws && is_some (lookup ws reg) then some (held (some key)) else lookup ws reg)
unfolding registry_record
registry_record-lookup w ws key reg = elim (Option-cases (lookup w reg)) [
  | inl e ↦ rw (e, registry_record) (absent_case (Bool-cases (w == ws)) e)
  | inr (old, e) ↦
      rw (e, registry_record)
        (lookup-insert w ws (held (some key)) reg ∙ present_case (Bool-cases (w == ws)) e)
]
  where
    absent_case :
        ((w == ws) ≡ true) ⊎ ((w == ws) ≡ false)
        → lookup w reg ≡ none
        → lookup ws reg
          ≡ (if w == ws && is_some (lookup ws reg) then some (held (some key)) else lookup ws reg)
    absent_case (inl f) e =
        let same : lookup ws reg ≡ none = subst (λ n. lookup n reg ≡ none) ((==_iff w ws).0 f) e in
        rw (f, same) refl
    absent_case (inr f) e = rw f refl

    present_case :
        {old : ConnectionIdentity}
        → ((w == ws) ≡ true) ⊎ ((w == ws) ≡ false)
        → lookup w reg ≡ some old
        → (if w == ws then some (held (some key)) else lookup ws reg)
          ≡ (if w == ws && is_some (lookup ws reg) then some (held (some key)) else lookup ws reg)
    present_case {old = old} (inl f) e =
        let same : lookup ws reg ≡ some old =
          subst (λ n. lookup n reg ≡ some old) ((==_iff w ws).0 f) e in
        rw (f, same) refl
    present_case (inr f) e = rw f refl

proved_cases :
    (here live : Bool) (key : Text) (before : Option Text)
    → (if here && is_some (if live then some (held before) else none)
        then some (held (some key))
        else if live
        then some (held before)
        else none)
      ≡ (if live then some (held (if here then some key else before)) else none)
proved_cases true true key before = refl
proved_cases true false key before = refl
proved_cases false true key before = refl
proved_cases false false key before = refl

entry-history :
    (ws : ℕ) (history : List Action)
    → lookup ws (registry_after history)
      ≡ (if open_after ws history then some (held (proved_key ws history)) else none)
unfolding open_after registry_after proved_key registry_connect registry_remove lookup
entry-history ws [] = refl
entry-history ws (opened w ∷ history) =
    lookup-insert w ws (held none) (registry_after history)
    ∙ elim (Bool-cases (w == ws)) [ inl e ↦ rw e refl | inr e ↦ rw e (entry-history ws history) ]
entry-history ws (proved w key ∷ history) =
    registry_record-lookup w ws key (registry_after history)
    ∙ rw (entry-history ws history)
        (proved_cases (w == ws) (open_after ws history) key (proved_key ws history))
entry-history ws (closed w ∷ history) =
    lookup-delete w ws (registry_after history)
    ∙ elim (Bool-cases (w == ws)) [ inl e ↦ rw e refl | inr e ↦ rw e (entry-history ws history) ]

abbrev pub identity_of : Option Text → Text × Bool
identity_of none = (zero_pk, false)
identity_of (some key) = (key, true)

abbrev identity_in : Option ConnectionIdentity → Text × Bool
identity_in none = (zero_pk, false)
identity_in (some identity) =
    if not identity.authenticated then (zero_pk, false) else (identity.pubkey, true)

-- What the registry returns for a connection after any history is the key that the connection proved last since it was
-- opened, if it is open and has proved one, and otherwise no identity.
pub registry_current-history :
    (ws : ℕ) (history : List Action)
    → registry_current (some ws) (registry_after history)
      ≡ identity_of (if open_after ws history then proved_key ws history else none)
unfolding registry_current
registry_current-history ws history =
    rw (registry_current, entry-history ws history)
      (current_cases (open_after ws history) (proved_key ws history))
  where
    current_cases :
        (live : Bool) (key : Option Text)
        → identity_in (if live then some (held key) else none)
          ≡ identity_of (if live then key else none)
    current_cases true none = refl
    current_cases true (some key) = refl
    current_cases false key = refl
