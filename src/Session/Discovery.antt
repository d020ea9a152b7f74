-- ===== src/Session/Discovery.antt =====
-- A receiver (src/receive.rs) discovers the universes that a source advertises, page by page.
use sacn_rust.Source.Sending.{pages_req}
use sacn_rust.Common.{
  subst, sym, ◌-◌, ◌==◌, Option, ℕ, zero, suc, ◌+◌, ◌≤◌, ◌≡◌, ◌∙◌, refl, ap, true, false, none,
  some, List, arith, length,
}
use sacn_rust.External.{UuidCrate}
use sacn_rust.Receive.Discovery.{
  get_all_universes, DiscoveredSacnSource, has_all_pages, find_discovered_src,
}
use sacn_rust.Receive.Discovery.Pages.{has_all_pages-IsComplete}
use sacn_rust.Receive.Receiver.{SacnReceiver}
use sacn_rust.Receive.Handlers.{
  handle_universe_discovery_packet, add_page, update_discovered_srcs, push,
}
use sacn_rust.Source.Parts.{sent_pages-IsComplete, sent_pages}
use sacn_rust.Session.Sources.{others, HasDistinctCids, update_discovered_srcs-others}
use sacn_rust.Session.Pages.{
  get_elem?-push, modify_at-push, remove_at-push, find-push, page_of, packet_of, seen,
  seen_incomplete, seen_sorted, seen_add,
}

module _ {S U : Type 0} ⦃crate : UuidCrate U⦄ (cid : U) (name us : List ℕ) (last : ℕ)
    (self : SacnReceiver S U) where
  -- The receiver when the first `k` pages have come, and not all.
  abbrev waiting : ℕ → ℕ → SacnReceiver S U
  waiting now k = record self {
    partially_discovered_sources =
        push (seen cid name us last now k) self.partially_discovered_sources;
  }

  -- The receiver when they all have come.
  abbrev discovered : ℕ → ℕ → SacnReceiver S U
  discovered now k = record self {
    discovered_sources =
        update_discovered_srcs (seen cid name us last now k) self.discovered_sources;
  }

  add_page_incomplete :
      (before now k : ℕ)
      → suc k ≤ last
      → add_page now
          (length self.partially_discovered_sources)
          (page_of k us)
          name
          (waiting before k)
        ≡ (none, waiting now (suc k))
  unfolding add_page
  add_page_incomplete before now k h =
      let base = self.partially_discovered_sources in
      let part = seen_incomplete cid name us last now (suc k) h in
      let added = seen_add cid name us last before now k in
      let placed =
        modify_at-push
          (λ src.
            (has_all_pages
              (record src { pages = push (page_of k us) src.pages; last_updated = now })).1)
          (seen cid name us last before k) base
        ∙ ap (λ s. push s base)
            (ap (λ s. (has_all_pages s).1) added ∙ seen_sorted cid name us last now (suc k)) in
      rw (add_page, get_elem?-push (seen cid name us last before k) base, added, part, placed)

  add_page_complete :
      (before now k : ℕ)
      → (has_all_pages (seen cid name us last now (suc k))).0 ≡ true
      → add_page now
          (length self.partially_discovered_sources)
          (page_of k us)
          name
          (waiting before k)
        ≡ (some name, discovered now (suc k))
  unfolding add_page
  add_page_complete before now k all =
      let base = self.partially_discovered_sources in
      rw (
        add_page,
        get_elem?-push (seen cid name us last before k) base,
        seen_add cid name us last before now k,
        all,
        remove_at-push (seen cid name us last before k) base,
        seen_sorted cid name us last now (suc k),
      )

  later_page :
      (before now k : ℕ)
      → find_discovered_src self.partially_discovered_sources cid ≡ none
      → handle_universe_discovery_packet now cid (packet_of name us last k) (waiting before k)
        ≡ add_page now
            (length self.partially_discovered_sources)
            (page_of k us)
            name
            (waiting before k)
  unfolding handle_universe_discovery_packet
  later_page before now k new =
      let found =
        find-push (seen cid name us last before k) self.partially_discovered_sources new in
      rw (handle_universe_discovery_packet, found)

  first_page_of_many :
      (now : ℕ)
      → 1 ≤ last
      → find_discovered_src self.partially_discovered_sources cid ≡ none
      → handle_universe_discovery_packet now cid (packet_of name us last 0) self
        ≡ (none, waiting now 1)
  unfolding handle_universe_discovery_packet sent_pages
  first_page_of_many now more new =
      let differ : (0 == last) ≡ false = ground arith in
      rw (handle_universe_discovery_packet, new, differ)

  only_page :
      (now : ℕ)
      → last ≡ 0
      → find_discovered_src self.partially_discovered_sources cid ≡ none
      → handle_universe_discovery_packet now cid (packet_of name us last 0) self
        ≡ (some name, discovered now 1)
  unfolding handle_universe_discovery_packet sent_pages
  only_page now one new =
      let same : (0 == last) ≡ true = ground arith in
      rw (handle_universe_discovery_packet, new, same)

-- Page after page is handled, page `k` at the time `clock k`; with what the last one gives.
module _ {S U : Type 0} ⦃crate : UuidCrate U⦄ (clock : ℕ → ℕ) (cid : U) (name us : List ℕ)
    (last : ℕ) where
  unfoldable pub receive_pages :
      ℕ → ℕ → Option (List ℕ) → SacnReceiver S U → Option (List ℕ) × SacnReceiver S U
  receive_pages k zero result self = (result, self)
  receive_pages k (suc n) result self =
      let r = handle_universe_discovery_packet (clock k) cid (packet_of name us last k) self in
      receive_pages (suc k) n (r.0) (r.1)

  receive_pages_later :
      (k n before : ℕ) (result : Option (List ℕ)) (self : SacnReceiver S U)
      → k + n ≡ last
      → find_discovered_src self.partially_discovered_sources cid ≡ none
      → (has_all_pages (seen cid name us last (clock last) (suc last))).0 ≡ true
      → receive_pages k (suc n) result (waiting cid name us last self before k)
        ≡ (some name, discovered cid name us last self (clock last) (suc last))
  unfolding receive_pages
  receive_pages_later k zero before result self h new all =
      let e : k ≡ last = omega (arith, h) in
      rw (
        e,
        later_page cid name us last self before (clock last) last new,
        add_page_complete cid name us last self before (clock last) last all,
      )
  receive_pages_later k (suc n) before result self h new all =
      let rest = receive_pages_later (suc k) n (clock k) none self (omega (arith, h)) new all in
      rw
        (
          later_page cid name us last self before (clock k) k new,
          add_page_incomplete cid name us last self before (clock k) k (omega (arith, h)),
        )
        rest

  receive_pages_first :
      (n : ℕ) (self : SacnReceiver S U)
      → n ≡ last
      → find_discovered_src self.partially_discovered_sources cid ≡ none
      → (has_all_pages (seen cid name us last (clock last) (suc last))).0 ≡ true
      → receive_pages 0 (suc n) none self
        ≡ (some name, discovered cid name us last self (clock n) (suc n))
  unfolding receive_pages
  receive_pages_first zero self h new all = only_page cid name us last self (clock 0) (sym h) new
  receive_pages_first (suc n) self h new all =
      let e : last ≡ suc n = sym h in
      let rest = receive_pages_later 1 n (clock 0) none self (omega (arith, h)) new all in
      rw (first_page_of_many cid name us last self (clock 0) (omega (arith, h)) new)
        (rest ∙ ap (λ m. (some name, discovered cid name us last self (clock m) (suc m))) e)

-- The source with all its pages, the last of them read at the time that `clock` gives for it.
abbrev pub whole : {U : Type 0} → (ℕ → ℕ) → U → List ℕ → List ℕ → DiscoveredSacnSource U
whole clock cid name us =
    let n = pages_req (length us) in
    record {
      name = name;
      cid = cid;
      last_updated = clock (n - 1);
      pages = sent_pages 0 n us;
      last_page = n - 1;
    }

module _ {S U : Type 0} ⦃crate : UuidCrate U⦄ (clock : ℕ → ℕ) (cid : U) (name us : List ℕ) where
  -- A receiver that has no page of a source yet, has discovered at most one source for each CID,
  -- and is given the pages that `send_universe_discovery` cuts a list of at most 65535 universes
  -- into, in order, reports the name of the source after the last one; its discovered sources are
  -- then those with another CID, as before, followed by the source with all its pages, and it is
  -- otherwise as before; and `get_all_universes` of that source gives the list.
  pub receive_pages-whole :
      (self : SacnReceiver S U)
      → length us ≤ 65535
      → find_discovered_src self.partially_discovered_sources cid ≡ none
      → HasDistinctCids self.discovered_sources
      → (receive_pages clock cid name us
            (pages_req (length us) - 1)
            0
            (pages_req (length us))
            none
            self
          ≡ (
            some name,
            record self {
              discovered_sources =
                  push (whole clock cid name us) (others cid self.discovered_sources);
            },
          ))
        × (get_all_universes (whole clock cid name us) ≡ us)
  receive_pages-whole self small new distinct =
      let n = pages_req (length us) in
      let last = n - 1 in
      let e : n ≡ suc last = omega arith in
      let complete = sent_pages-IsComplete (whole clock cid name us) us small refl refl in
      let all = (has_all_pages-IsComplete (whole clock cid name us)).1 (complete.0) in
      let handled =
        receive_pages_first clock cid name us last last self refl new
          (subst (λ m. (has_all_pages (seen cid name us last (clock last) m)).0 ≡ true) e all) in
      let updated =
        update_discovered_srcs-others (whole clock cid name us) self.discovered_sources distinct in
      (
        subst
              (λ m.
                receive_pages clock cid name us last 0 m none self
                ≡ (some name, discovered cid name us last self (clock last) m))
              (sym e) handled
            ∙ ap (λ found. (some name, record self { discovered_sources = found })) updated,
        complete.1,
      )
