-- ===== src/Conduit/Sync/Incoming.antt =====
-- What the import of events does to the counters and to what is broadcast.
use conduit_relay.Base.{
  ℕ, ◌+◌, ◌≡◌, refl, ap, ◌∙◌, inl, inr, Bool, true, false, not, ◌&&◌, ◌||◌, List, [], ◌∷◌, ◌++◌,
  arith, if◌then◌else◌, Bool-cases, ◌==◌, nat_eq, list_eq, length, select, append_nil, append_assoc,
  length-append, All, All-append, All-imp, In, pos, int_eq, Text,
}
use conduit_relay.Nostr.Event.{Event}
use conduit_relay.Conduit.Sync.{
  Host, SyncConfig, Syncer, SyncStats, AddResult, added, skipped, failed, settle, add_incoming,
  has_stored_id, outdated_event, targets_product_deletion, handle_incoming_event, handle_all,
  record_rejected, record_duplicate, record_ignored,
}

abbrev pub relevant : Event → Bool
relevant ev = ev.kind == pos 30402 || ev.kind == pos 5

abbrev pub total : SyncStats → ℕ
total stats = stats.imported + stats.rejected + stats.duplicates + stats.ignored

module _ {S : Type 0} (h : Host S) (cfg : SyncConfig) where
  -- A product, or a deletion that names products, with the right id and, where it is asked for, a valid signature.
  abbrev pub acceptable : Event → Bool
  acceptable ev =
      (ev.kind == pos 30402 || ev.kind == pos 5 && targets_product_deletion ev.tags)
      && h.check_id ev
      && (not cfg.verify_signatures || h.verify_signature ev)

  -- What a list of incoming events does: the events that it adds to the broadcasts are acceptable ones of the
  -- list, each counts as imported, and each relevant event of the list is counted once.
  pub record Effect (events : List Event) (s t : Syncer S) : Type 0 where
    pub news : List Event
    pub sent : t.broadcasts ≡ s.broadcasts ++ news
    pub fine : All (λ e. acceptable e ≡ true) news
    pub listed : All (λ e. In e events) news
    pub count : t.stats.imported ≡ s.stats.imported + length news
    pub sum : total t.stats ≡ total s.stats + length (select relevant events)
    pub lines : t.lines ≡ s.lines
    pub mark : t.synced_until ≡ s.synced_until

  -- An event that is counted and not sent on.
  counted :
      (ev : Event) (s t : Syncer S)
      → relevant ev ≡ true
      → t.broadcasts ≡ s.broadcasts
      → t.stats.imported ≡ s.stats.imported
      → total t.stats ≡ total s.stats + 1
      → t.lines ≡ s.lines
      → t.synced_until ≡ s.synced_until
      → Effect (ev ∷ []) s t
  counted ev s t r b i n l m = record {
    news = [];
    sent = b ∙ append_nil s.broadcasts;
    fine = tt;
    listed = tt;
    count = omega (arith, i);
    sum = rw r n;
    lines = l;
    mark = m;
  }

  module _ (says_duplicate : Text → Bool) where
    settle-Effect :
        (result : AddResult) (ev : Event) (s : Syncer S) (w : S)
        → relevant ev ≡ true
        → acceptable ev ≡ true
        → Effect (ev ∷ []) s (settle says_duplicate result ev (record s { host = w }))
    unfolding settle
    settle-Effect (failed message) ev s w r a = elim (Bool-cases (says_duplicate message)) [
      | inl e ↦ rw (e, settle) (counted ev s _ r refl refl (omega arith) refl refl)
      | inr e ↦ rw (e, settle) (counted ev s _ r refl refl (omega arith) refl refl)
    ]
    settle-Effect skipped ev s w r a = counted ev s _ r refl refl (omega arith) refl refl
    settle-Effect added ev s w r a = record {
      news = ev ∷ [];
      sent = refl;
      fine = (a, tt);
      listed = (inl refl, tt);
      count = refl;
      sum = rw r (omega arith);
      lines = refl;
      mark = refl;
    }

    pick-Effect :
        (ev : Event) (s x : Syncer S) (c1 c2 c3 c4 c5 c6 : Bool)
        → (c1 ≡ true → relevant ev ≡ true)
        → relevant ev ≡ not c2
        → (c1 ≡ false → c2 ≡ false → c3 ≡ false → c4 ≡ false → Effect (ev ∷ []) s x)
        → Effect (ev ∷ []) s (
            if c1
            then record_ignored s
            else if c2
            then s
            else if c3
            then record_rejected s
            else if c4
            then record_rejected s
            else if c5
            then record_duplicate s
            else if c6
            then record_duplicate s
            else x)
    pick-Effect ev s x true c2 c3 c4 c5 c6 p q r =
        counted ev s _ (p refl) refl refl (omega arith) refl refl
    pick-Effect ev s x false true c3 c4 c5 c6 p q r = record {
      news = [];
      sent = append_nil s.broadcasts;
      fine = tt;
      listed = tt;
      count = omega arith;
      sum = rw q (omega arith);
      lines = refl;
      mark = refl;
    }
    pick-Effect ev s x false false true c4 c5 c6 p q r =
        counted ev s _ q refl refl (omega arith) refl refl
    pick-Effect ev s x false false false true c5 c6 p q r =
        counted ev s _ q refl refl (omega arith) refl refl
    pick-Effect ev s x false false false false true c6 p q r =
        counted ev s _ q refl refl (omega arith) refl refl
    pick-Effect ev s x false false false false false true p q r =
        counted ev s _ q refl refl (omega arith) refl refl
    pick-Effect ev s x false false false false false false p q r = r refl refl refl refl

    handle_incoming_event-Effect :
        (ev : Event) (s : Syncer S)
        → Effect (ev ∷ []) s (handle_incoming_event h says_duplicate cfg ev s)
    unfolding handle_incoming_event add_incoming
    handle_incoming_event-Effect ev s =
        pick-Effect ev s (add_incoming h says_duplicate ev s)
          (ev.kind == pos 5 && not (targets_product_deletion ev.tags))
          (not (ev.kind == pos 30402) && not (ev.kind == pos 5)) (not (h.check_id ev))
          (cfg.verify_signatures && not (h.verify_signature ev))
          (h.is_regular ev.kind && has_stored_id h s.host ev.id)
          ((h.is_replaceable ev.kind || h.is_addressable ev.kind) && outdated_event h s.host ev)
          (λ e. ground (arith, e)) (ground arith)
          (λ a b c d.
            settle-Effect (h.add_event s.host ev).0 ev s (h.add_event s.host ev).1
              (ground (arith, b)) (ground (arith, a, b, c, d)))

    then-Effect :
        (ev : Event) (events : List Event) (s t u : Syncer S)
        → Effect (ev ∷ []) s t
        → Effect events t u
        → Effect (ev ∷ events) s u
    then-Effect ev events s t u e f = record {
      news = e.news ++ f.news;
      sent = f.sent ∙ ap (λ xs. xs ++ f.news) e.sent ∙ append_assoc s.broadcasts e.news f.news;
      fine = All-append (λ x. acceptable x ≡ true) e.news f.news e.fine f.fine;
      listed =
          All-append (λ x. In x (ev ∷ events)) e.news f.news
            (All-imp (λ x. In x (ev ∷ [])) (λ x. In x (ev ∷ events)) e.news (λ x m. first x m)
              e.listed)
            (All-imp (λ x. In x events) (λ x. In x (ev ∷ events)) f.news (λ x m. inr m) f.listed);
      count = omega (arith, e.count, f.count, length-append e.news f.news);
      sum = ground (arith, e.sum, f.sum);
      lines = f.lines ∙ e.lines;
      mark = f.mark ∙ e.mark;
    }
      where
        first : (x : Event) → In x (ev ∷ []) → In x (ev ∷ events)
        first x (inl same) = inl same
        first x (inr none_left) = absurd none_left

    -- After any incoming events, what was broadcast is what was broadcast before and then acceptable events of these,
    -- as many as the counter of imported events has grown by; and the four counters together have grown by the
    -- number of the products and deletions among them.
    pub handle_all-Effect :
        (events : List Event) (s : Syncer S)
        → Effect events s (handle_all h says_duplicate cfg events s)
    unfolding handle_all
    handle_all-Effect [] s = record {
      news = [];
      sent = append_nil s.broadcasts;
      fine = tt;
      listed = tt;
      count = omega arith;
      sum = omega arith;
      lines = refl;
      mark = refl;
    }
    handle_all-Effect (ev ∷ events) s =
        then-Effect ev events s (handle_incoming_event h says_duplicate cfg ev s) _
          (handle_incoming_event-Effect ev s)
          (handle_all-Effect events (handle_incoming_event h says_duplicate cfg ev s))
