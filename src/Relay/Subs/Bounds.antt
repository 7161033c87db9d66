-- ===== src/Relay/Subs/Bounds.antt =====
-- congee/internal/relay/subscription.go: what a manager may hold.
use conduit_relay.Base.{
  ◌+◌, ◌%◌, ◌^◌, ◌≤◌, ◌≡◌, refl, ◌⊎◌, inl, inr, Bool, false, not, ◌&&◌, some, List, [], ◌∷◌, arith,
  Bool-cases, Option-cases, is_some, nat_eq, list_eq, length, All, ℤ, pos, pos_part, ltb_ℤ, leb_ℤ,
  int_eq, Text,
}
use conduit_relay.Base.Assoc.{lookup, insert, delete}
use conduit_relay.Base.Maps.{
  Values-insert, Values-delete, Values-lookup, length-insert, length-delete-le,
}
use conduit_relay.Nostr.Filter.{Filter}
use conduit_relay.Relay.Subs.{
  pending_live_cap, SubEntry, SubMap, Manager, subs_of, entry_of, new_entry, add_sub, put_subs,
  remove_sub, put_entry, note_initial, note_eose,
}

-- The buffer of an entry is within its cap, and empty once the snapshot is done.
abbrev pub EntryOk : SubEntry → Type 0
EntryOk e =
    (length e.pending_live ≤ pending_live_cap) × ((e.snapshot_done ≡ false) ⊎ (e.pending_live ≡ []))

abbrev pub MapOk : ℤ → SubMap → Type 0
MapOk max cmap = (length cmap ≤ pos_part max) × All (λ (kv : Text × SubEntry). EntryOk kv.1) cmap

abbrev pub AllOk : ℤ → List (Text × SubMap) → Type 0
AllOk max subs = All (λ (kv : Text × SubMap). MapOk max kv.1) subs

abbrev pub Bounded : Manager → Type 0
Bounded m = AllOk m.max_subs_per_conn m.subs

pub subs_of-MapOk :
    (conn : Text) (m : Manager) → Bounded m → MapOk m.max_subs_per_conn (subs_of conn m)
subs_of-MapOk conn m v = elim (Option-cases (lookup conn m.subs)) [
  | inl e ↦ rw (e, subs_of) (omega arith, tt)
  | inr (cmap, e) ↦ rw (e, subs_of) (Values-lookup (MapOk m.max_subs_per_conn) conn cmap m.subs v e)
]

pub put_entry-Bounded :
    (conn sub : Text) (e d : SubEntry) (m : Manager)
    → entry_of conn sub m ≡ some e
    → EntryOk d
    → Bounded m
    → Bounded (put_entry conn sub d m)
unfolding put_entry
put_entry-Bounded conn sub e d m there ok v =
    let old = subs_of-MapOk conn m v in
    Values-insert (MapOk m.max_subs_per_conn) conn (insert sub d (subs_of conn m)) m.subs
      (
        ground (arith, length-insert sub d (subs_of conn m), there, old.0),
        Values-insert EntryOk sub d (subs_of conn m) ok old.1,
      )
      v

pub entry_of-EntryOk :
    (conn sub : Text) (e : SubEntry) (m : Manager)
    → entry_of conn sub m ≡ some e
    → Bounded m
    → EntryOk e
entry_of-EntryOk conn sub e m there v =
    Values-lookup EntryOk sub e (subs_of conn m) (subs_of-MapOk conn m v).1 there

pub add_sub-Bounded :
    (conn sub : Text) (filters : List Filter) (m : Manager)
    → Bounded m
    → Bounded (add_sub conn sub filters m).0
unfolding add_sub
add_sub-Bounded conn sub filters m v =
    elim (Bool-cases (ltb_ℤ m.max_sub_id_len (pos (length sub)))) [
      | inl e ↦ rw (e, add_sub) v
      | inr e ↦ elim (Bool-cases (ltb_ℤ m.max_filters (pos (length filters)))) [
        | inl f ↦ rw (e, f, add_sub) v
        | inr f ↦ elim (Bool-cases full) [
          | inl g ↦
              rw (e, f, g, add_sub)
                (Values-insert (MapOk m.max_subs_per_conn) conn cmap m.subs old v)
          | inr g ↦
              rw (e, f, g, add_sub)
                (Values-insert (MapOk m.max_subs_per_conn) conn (insert sub entry cmap) m.subs
                  (
                    ground (arith, g, length-insert sub entry cmap, old.0),
                    Values-insert EntryOk sub entry cmap (omega arith, inl refl) old.1,
                  )
                  v)
        ]
      ]
    ]
  where
    cmap : SubMap
    cmap = subs_of conn m

    old : MapOk m.max_subs_per_conn (subs_of conn m)
    old = subs_of-MapOk conn m v

    full : Bool
    full = not (is_some (lookup sub cmap)) && leb_ℤ m.max_subs_per_conn (pos (length cmap))

    entry : SubEntry
    entry = new_entry m.allocated ((m.next_generation + 1) % 2 ^ 64) filters

put_subs-Bounded :
    (conn : Text) (cmap : SubMap) (m : Manager)
    → MapOk m.max_subs_per_conn cmap
    → Bounded m
    → Bounded (put_subs conn cmap m)
unfolding put_subs
put_subs-Bounded conn [] m ok v = Values-delete (MapOk m.max_subs_per_conn) conn m.subs v
put_subs-Bounded conn (kv ∷ cmap) m ok v =
    Values-insert (MapOk m.max_subs_per_conn) conn (kv ∷ cmap) m.subs ok v

pub remove_sub-Bounded :
    (conn sub : Text) (m : Manager) → Bounded m → Bounded (remove_sub conn sub m)
unfolding remove_sub
remove_sub-Bounded conn sub m v = elim (Option-cases (lookup conn m.subs)) [
  | inl e ↦ rw (e, remove_sub) v
  | inr (cmap, e) ↦
      let old = Values-lookup (MapOk m.max_subs_per_conn) conn cmap m.subs v e in
      rw (e, remove_sub)
        (put_subs-Bounded conn (delete sub cmap) m
          (omega (arith, old.0, length-delete-le sub cmap), Values-delete EntryOk sub cmap old.1) v)
]

pub note_initial-Bounded :
    (conn sub : Text) (ok : Bool) (m : Manager) → Bounded m → Bounded (note_initial conn sub ok m)
unfolding note_initial
note_initial-Bounded conn sub ok m v = elim (Option-cases (entry_of conn sub m)) [
  | inl k ↦ rw (k, note_initial) v
  | inr (e, k) ↦
      let good = entry_of-EntryOk conn sub e m k v in
      elim (Bool-cases ok) [
        | inl b ↦ rw (k, b, note_initial) (put_entry-Bounded conn sub e _ m k good v)
        | inr b ↦ rw (k, b, note_initial) (put_entry-Bounded conn sub e _ m k good v)
      ]
]

pub note_eose-Bounded : (conn sub : Text) (m : Manager) → Bounded m → Bounded (note_eose conn sub m)
unfolding note_eose
note_eose-Bounded conn sub m v = elim (Option-cases (entry_of conn sub m)) [
  | inl k ↦ rw (k, note_eose) v
  | inr (e, k) ↦
      rw (k, note_eose) (put_entry-Bounded conn sub e _ m k (entry_of-EntryOk conn sub e m k v) v)
]
