-- ===== src/Tests/Discovering.antt =====
-- A source advertises 600 universes, on two pages.
use sacn_rust.Common.{ℕ, zero, suc, ◌+◌, ◌≡◌, refl, none, some, List, [], ◌∷◌, arith}
use sacn_rust.Receive.Discovery.{find_discovered_src, get_all_universes}
use sacn_rust.Receive.Handlers.{push}
use sacn_rust.Session.Discovery.{receive_pages, receive_pages-whole, whole}
use sacn_rust.Session.Sources.{others, HasDistinctCids}
use sacn_rust.Receive.Receiver.{SacnReceiver}
use sacn_rust.Tests.Instances.{uuid_crate, Uuid}
use sacn_rust.Tests.Packets.{cid}
use sacn_rust.Tests.Links.{listener}

abbrev count_up : ℕ → ℕ → List ℕ
count_up from zero = []
count_up from (suc n) = from ∷ count_up (from + 1) n

abbrev six_hundred : List ℕ
six_hundred = count_up 1 600

-- The receiver has discovered an earlier state of the source.
abbrev knowing : SacnReceiver ℕ Uuid
knowing = record listener {
  discovered_sources =
      record { name = 65 ∷ []; cid = cid; last_updated = 7; pages = []; last_page = 0 } ∷ [];
}

-- Page `k` is read at 1000 + k.
receive_pages-whole_example :
    (receive_pages (λ k. 1000 + k) cid (65 ∷ []) six_hundred 1 0 2 none knowing ≡ (
      some (65 ∷ []),
      record knowing {
        discovered_sources =
            push
              (whole (λ k. 1000 + k) cid (65 ∷ []) six_hundred)
              (others cid knowing.discovered_sources);
      },
    ))
    × (get_all_universes (whole (λ k. 1000 + k) cid (65 ∷ []) six_hundred) ≡ six_hundred)
unfolding find_discovered_src HasDistinctCids
receive_pages-whole_example =
    receive_pages-whole (λ k. 1000 + k) cid (65 ∷ []) six_hundred knowing (omega arith) refl
      (tt, tt)
