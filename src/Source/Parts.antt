-- ===== src/Source/Parts.antt =====
-- How src/source.rs cuts its data into universes and its universes into pages.
use sacn_rust.Common.{
  dec_lt, ℕ, zero, suc, ◌+◌, ◌-◌, ◌*◌, ◌≤◌, ◌<◌, ◌≡◌, ◌∙◌, refl, sym, ap, subst, List, [], ◌∷◌,
  ◌++◌, arith, length, take, drop, length-take, drop-drop, All,
}
use sacn_rust.Packet.Constants.{universe_channel_capacity, discovery_uni_per_page}
use sacn_rust.Receive.Discovery.{
  UniversePage, DiscoveredSacnSource, get_all_universes, concat_pages,
}
use sacn_rust.Receive.Discovery.Pages.{count, IsComplete}
use sacn_rust.Source.{chunk}
use sacn_rust.Source.Sending.{required, pages_req}

take_nil : (n : ℕ) → take {A = ℕ} n [] ≡ []
take_nil zero = refl
take_nil (suc n) = refl

take-add : (a b : ℕ) (xs : List ℕ) → take a xs ++ take b (drop a xs) ≡ take (a + b) xs
take-add zero b xs = ap (λ n. take n xs) (omega arith)
take-add (suc a) b [] = take_nil b ∙ sym (take_nil (suc a + b))
take-add (suc a) b (x ∷ xs) =
    let e : suc (a + b) ≡ suc a + b = omega arith in
    ap (λ ys. x ∷ ys) (take-add a b xs) ∙ ap (λ k. take k (x ∷ xs)) e

take_all : (n : ℕ) (xs : List ℕ) → length xs ≤ n → take n xs ≡ xs
take_all zero [] h = refl
take_all zero (x ∷ xs) h = absurd (omega arith)
take_all (suc n) [] h = refl
take_all (suc n) (x ∷ xs) h = ap (λ ys. x ∷ ys) (take_all n xs (omega arith))

-- The parts from number `i` on.
unfoldable pub parts : ℕ → ℕ → ℕ → List ℕ → List (List ℕ)
parts size i zero xs = []
parts size i (suc n) xs = chunk size i xs ∷ parts size (i + 1) n xs

unfoldable pub concat : List (List ℕ) → List ℕ
concat [] = []
concat (xs ∷ xss) = xs ++ concat xss

concat-parts :
    (size i n : ℕ) (xs : List ℕ) → concat (parts size i n xs) ≡ take (n * size) (drop (i * size) xs)
unfolding parts concat
concat-parts size i zero xs =
    let e : 0 ≡ 0 * size = omega arith in ap (λ k. take k (drop (i * size) xs)) e
concat-parts size i (suc n) xs =
    let next : i * size + size ≡ (i + 1) * size = omega arith in
    let all : size + n * size ≡ suc n * size = omega arith in
    let from : drop ((i + 1) * size) xs ≡ drop size (drop (i * size) xs) =
      ap (λ k. drop k xs) (sym next) ∙ sym (drop-drop (i * size) size xs) in
    ap (◌++◌ (chunk size i xs)) (concat-parts size (i + 1) n xs ∙ ap (take (n * size)) from)
    ∙ take-add size (n * size) (drop (i * size) xs)
    ∙ ap (λ k. take k (drop (i * size) xs)) all

parts_short : (size i n : ℕ) (xs : List ℕ) → All (λ p. length p ≤ size) (parts size i n xs)
unfolding parts
parts_short size i zero xs = tt
parts_short size i (suc n) xs =
    (omega (arith, length-take size (drop (i * size) xs)), parts_short size (i + 1) n xs)

-- The parts that `send` cuts its data into, as many as the universes that it requires, make up all
-- of the data in order, and each has at most 513 bytes, the capacity of a universe.
pub parts-required :
    (xs : List ℕ)
    → (concat (parts universe_channel_capacity 0 (required (length xs)) xs) ≡ xs)
      × All (λ p. length p ≤ 513) (parts universe_channel_capacity 0 (required (length xs)) xs)
parts-required xs = (
  concat-parts 513 0 (required (length xs)) xs
      ∙ take_all (required (length xs) * 513) xs (omega arith),
  parts_short 513 0 (required (length xs)) xs,
)

-- The pages that `send_universe_discovery` sends from page `p` on.
unfoldable pub sent_pages : ℕ → ℕ → List ℕ → List UniversePage
sent_pages p zero us = []
sent_pages p (suc n) us =
    record { page = p; universes = chunk discovery_uni_per_page p us } ∷ sent_pages (p + 1) n us

concat_pages-sent_pages :
    (p n : ℕ) (us : List ℕ) → concat_pages (sent_pages p n us) ≡ concat (parts 512 p n us)
unfolding sent_pages parts concat
concat_pages-sent_pages p zero us = refl
concat_pages-sent_pages p (suc n) us =
    ap (◌++◌ (chunk 512 p us)) (concat_pages-sent_pages (p + 1) n us)

pub count-sent_pages_below : (k p n : ℕ) (us : List ℕ) → k < p → count k (sent_pages p n us) ≡ 0
unfolding count sent_pages
count-sent_pages_below k p zero us h = refl
count-sent_pages_below k p (suc n) us h =
    let rest = count-sent_pages_below k (p + 1) n us (omega arith) in ground arith

pub count-sent_pages :
    (k p n : ℕ) (us : List ℕ) → p ≤ k → k < p + n → count k (sent_pages p n us) ≡ 1
unfolding count sent_pages
count-sent_pages k p zero us h l = absurd (omega arith)
count-sent_pages k p (suc n) us h l = elim (dec_lt p k) [
  | yes later ↦
      let rest = count-sent_pages k (p + 1) n us (omega arith) (omega arith) in ground arith
  | no same ↦ let rest = count-sent_pages_below k (p + 1) n us (omega arith) in ground arith
]

-- A source that was discovered by exactly the pages that `send_universe_discovery` cuts a list of
-- at most 65535 universes into, with the last page that it announces, has every page, and
-- `get_all_universes` gives the list back.
pub sent_pages-IsComplete :
    {U : Type 0} (src : DiscoveredSacnSource U) (us : List ℕ)
    → length us ≤ 65535
    → src.pages ≡ sent_pages 0 (pages_req (length us)) us
    → src.last_page ≡ pages_req (length us) - 1
    → IsComplete src × (get_all_universes src ≡ us)
unfolding IsComplete get_all_universes
sent_pages-IsComplete src us small pages last =
    let n = pages_req (length us) in
    let enough : length us ≤ n * 512 = omega arith in
    let some_page : 1 ≤ n = omega arith in
    (
      (
        λ k h. ap (count k) pages ∙ count-sent_pages k 0 n us (omega arith) (omega arith),
        subst (λ m. 1 ≤ m)
            (sym (
              ap (count src.last_page) pages
              ∙ count-sent_pages src.last_page 0 n us (omega arith) (omega arith)))
            (omega arith),
      ),
      ap concat_pages pages
          ∙ concat_pages-sent_pages 0 n us
          ∙ concat-parts 512 0 n us
          ∙ take_all (n * 512) us enough,
    )
