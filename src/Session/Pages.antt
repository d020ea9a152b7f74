-- ===== src/Session/Pages.antt =====
-- What a receiver (src/receive.rs) has stored of a source of which the first pages have come, and
-- the packets that bring them.
use sacn_rust.Packet.Root.{universe_discovery_packet}
use sacn_rust.Packet.DiscoveryFraming.{UniverseDiscoveryPacketFramingLayer}
use sacn_rust.Common.{
  ℕ, zero, suc, ◌+◌, ◌≤◌, ◌<◌, ◌≡◌, ◌∙◌, refl, ap, inl, inr, false, none, some, List, [], ◌∷◌,
  arith, length, Bool-cases,
}
use mathlib.Core.Logic.{if_pos}
use sacn_rust.External.{NetworkEndian, UuidCrate}
use sacn_rust.Packet.Constants.{discovery_uni_per_page}
use sacn_rust.Receive.Discovery.{
  UniversePage, DiscoveredSacnSource, get_elem?, insert_page, sort_pages, has_all_pages, modify_at,
  remove_at, find_discovered_src,
}
use sacn_rust.Receive.Discovery.Pages.{count, IsComplete, has_all_pages-IsComplete}
use sacn_rust.Receive.Handlers.{push}
use sacn_rust.Source.{SacnSourceInternal, discovery_packet_of, chunk}
use sacn_rust.Source.Parts.{sent_pages}

module _ {U : Type 0} where
  pub get_elem?-push :
      (s : DiscoveredSacnSource U) (xs : List (DiscoveredSacnSource U))
      → get_elem? (length xs) (push s xs) ≡ some s
  unfolding get_elem?
  get_elem?-push s [] = refl
  get_elem?-push s (x ∷ xs) = get_elem?-push s xs

  pub modify_at-push :
      (f : DiscoveredSacnSource U → DiscoveredSacnSource U) (s : DiscoveredSacnSource U)
      (xs : List (DiscoveredSacnSource U))
      → modify_at (length xs) f (push s xs) ≡ push (f s) xs
  unfolding modify_at
  modify_at-push f s [] = refl
  modify_at-push f s (x ∷ xs) = ap (λ ys. x ∷ ys) (modify_at-push f s xs)

  pub remove_at-push :
      (s : DiscoveredSacnSource U) (xs : List (DiscoveredSacnSource U))
      → remove_at (length xs) (push s xs) ≡ xs
  unfolding remove_at
  remove_at-push s [] = refl
  remove_at-push s (x ∷ xs) = ap (λ ys. x ∷ ys) (remove_at-push s xs)

module _ {U : Type 0} ⦃crate : UuidCrate U⦄ where
  pub find-push :
      (s : DiscoveredSacnSource U) (xs : List (DiscoveredSacnSource U))
      → find_discovered_src xs s.cid ≡ none
      → find_discovered_src (push s xs) s.cid ≡ some (length xs)
  unfolding find_discovered_src
  find-push s [] h = rw (if_pos (crate.equal s.cid s.cid) refl)
  find-push s (x ∷ xs) h = ground (arith, find-push s xs)

-- The pages of a source are in order.
insert_page-sent_pages :
    (p : UniversePage) (from n : ℕ) (us : List ℕ)
    → p.page < from
    → insert_page p (sent_pages from n us) ≡ p ∷ sent_pages from n us
unfolding insert_page sent_pages
insert_page-sent_pages p from zero us h = refl
insert_page-sent_pages p from (suc n) us h = ground arith

sort_pages-sent_pages :
    (from n : ℕ) (us : List ℕ) → sort_pages (sent_pages from n us) ≡ sent_pages from n us
unfolding sort_pages sent_pages
sort_pages-sent_pages from zero us = refl
sort_pages-sent_pages from (suc n) us =
    let p : UniversePage = record {
      page = from;
      universes = chunk discovery_uni_per_page from us;
    } in
    ap (insert_page p) (sort_pages-sent_pages (from + 1) n us)
    ∙ insert_page-sent_pages p (from + 1) n us (omega arith)

-- One page more.
abbrev pub page_of : ℕ → List ℕ → UniversePage
page_of k us = record { page = k; universes = chunk discovery_uni_per_page k us }

-- The packet of page `k`, as the source sends it.
abbrev pub packet_of : List ℕ → List ℕ → ℕ → ℕ → UniverseDiscoveryPacketFramingLayer
packet_of name us last k = record {
  source_name = name;
  layer = record { page = k; last_page = last; universes = chunk discovery_uni_per_page k us };
}

packet_of-discovery_packet_of :
    {S U : Type 0} ⦃net : NetworkEndian⦄ ⦃crate : UuidCrate U⦄ (src : SacnSourceInternal S U)
    (us : List ℕ) (last k : ℕ)
    → (discovery_packet_of src k last (chunk discovery_uni_per_page k us)).pdu.payload
      ≡ universe_discovery_packet (packet_of src.name us last k)
unfolding discovery_packet_of
packet_of-discovery_packet_of src us last k = refl

sent_pages-push :
    (from n : ℕ) (us : List ℕ)
    → push (page_of (from + n) us) (sent_pages from n us) ≡ sent_pages from (suc n) us
unfolding sent_pages
sent_pages-push from zero us = let e : from + 0 ≡ from = omega arith in rw e refl
sent_pages-push from (suc n) us =
    let e : from + suc n ≡ from + 1 + n = omega arith in
    rw e (ap (λ ps. page_of from us ∷ ps) (sent_pages-push (from + 1) n us))

count-sent_pages_above :
    (k from n : ℕ) (us : List ℕ) → from + n ≤ k → count k (sent_pages from n us) ≡ 0
unfolding count sent_pages
count-sent_pages_above k from zero us h = refl
count-sent_pages_above k from (suc n) us h =
    let rest = count-sent_pages_above k (from + 1) n us (omega arith) in ground arith

module _ {U : Type 0} ⦃crate : UuidCrate U⦄ (cid : U) (name us : List ℕ) (last : ℕ) where
  -- The source of which the first `k` pages have been received, the last of them at `now`.
  abbrev pub seen : ℕ → ℕ → DiscoveredSacnSource U
  seen now k = record {
    name = name;
    cid = cid;
    last_updated = now;
    pages = sent_pages 0 k us;
    last_page = last;
  }

  -- With fewer pages than the last has announced, the source is not complete.
  pub seen_incomplete : (now k : ℕ) → k ≤ last → (has_all_pages (seen now k)).0 ≡ false
  unfolding IsComplete
  seen_incomplete now k h = elim (Bool-cases ((has_all_pages (seen now k)).0)) [
    | inl e ↦
        let complete = (has_all_pages-IsComplete (seen now k)).0 e in
        absurd (omega (arith, complete.1, count-sent_pages_above last 0 k us (omega arith)))
    | inr e ↦ e
  ]

  pub seen_sorted : (now k : ℕ) → (has_all_pages (seen now k)).1 ≡ seen now k
  unfolding has_all_pages
  seen_sorted now k = ap (λ ps. record (seen now k) { pages = ps }) (sort_pages-sent_pages 0 k us)

  -- The next page is added to what has been seen.
  pub seen_add :
      (before now k : ℕ)
      → record (seen before k) {
        pages = push (page_of k us) (sent_pages 0 k us);
        last_updated = now;
      }
        ≡ seen now (suc k)
  seen_add before now k =
      let e : k ≡ 0 + k = omega arith in
      ap (λ ps. record (seen now k) { pages = ps })
        (ap (λ j. push (page_of j us) (sent_pages 0 k us)) e ∙ sent_pages-push 0 k us)
