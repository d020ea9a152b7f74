-- ===== src/Receive/Discovery.antt =====
-- The sources that the receiver of src/receive.rs has discovered, and the pages of their universes.
pub mod Pages
use sacn_rust.Common.{
  ℕ, ◌+◌, ◌==◌, leb, Bool, true, false, not, Option, none, some, List, [], ◌∷◌, ◌++◌, if◌then◌else◌,
  zero, suc,
}
use mathlib.Core.Logic.{ite}
use sacn_rust.External.{UuidCrate}

pub record UniversePage : Type 0 where
  pub page : ℕ
  pub universes : List ℕ

pub record DiscoveredSacnSource (U : Type 0) : Type 0 where
  pub name : List ℕ
  pub cid : U
  pub last_updated : ℕ
  pub pages : List UniversePage
  pub last_page : ℕ

-- `slice::get`.
unfoldable pub get_elem? : {A : Type 0} → ℕ → List A → Option A
get_elem? n [] = none
get_elem? zero (x ∷ xs) = some x
get_elem? (suc n) (x ∷ xs) = get_elem? n xs

-- `sort_by`, a stable sort, by the number of the page.
unfoldable pub insert_page : UniversePage → List UniversePage → List UniversePage
insert_page p [] = p ∷ []
insert_page p (q ∷ ps) =
    let rest = insert_page p ps in if leb p.page q.page then p ∷ q ∷ ps else q ∷ rest

unfoldable pub sort_pages : List UniversePage → List UniversePage
sort_pages [] = []
sort_pages (p ∷ ps) = insert_page p (sort_pages ps)

-- The loop of `has_all_pages` from the number `i`, with `left` numbers left.
unfoldable pub check_pages : ℕ → ℕ → List UniversePage → Bool
check_pages i zero pages = true
check_pages i (suc left) pages =
    let rest = check_pages (i + 1) left pages in
    elim (get_elem? i pages) [ none ↦ false | some p ↦ if p.page == i then rest else false ]

abbrev pub retain_universes : ℕ → List ℕ → List ℕ
retain_universes universe [] = []
retain_universes universe (x ∷ xs) =
    let rest = retain_universes universe xs in if not (x == universe) then x ∷ rest else rest

abbrev pub terminate_pages : ℕ → List UniversePage → List UniversePage
terminate_pages universe [] = []
terminate_pages universe (p ∷ ps) =
    record p { universes = retain_universes universe p.universes } ∷ terminate_pages universe ps

abbrev pub concat_pages : List UniversePage → List ℕ
concat_pages [] = []
concat_pages (p ∷ ps) = p.universes ++ concat_pages ps

module _ {U : Type 0} where
  -- The pages stay sorted.
  unfoldable pub has_all_pages : DiscoveredSacnSource U → Bool × DiscoveredSacnSource U
  unfolding check_pages sort_pages
  has_all_pages self =
      let sorted = sort_pages self.pages in
      (check_pages 0 (self.last_page + 1) sorted, record self { pages = sorted })

  unfoldable pub get_all_universes : DiscoveredSacnSource U → List ℕ
  get_all_universes self = concat_pages self.pages

  unfoldable pub terminate_universe : ℕ → DiscoveredSacnSource U → DiscoveredSacnSource U
  terminate_universe universe self = record self { pages = terminate_pages universe self.pages }

  -- `srcs[index] = f(srcs[index])` and `Vec::remove`, at an index that is in range.
  unfoldable pub modify_at :
      ℕ
      → (DiscoveredSacnSource U → DiscoveredSacnSource U)
      → List (DiscoveredSacnSource U)
      → List (DiscoveredSacnSource U)
  modify_at n f [] = []
  modify_at zero f (x ∷ xs) = f x ∷ xs
  modify_at (suc n) f (x ∷ xs) = x ∷ modify_at n f xs

  unfoldable pub remove_at : ℕ → List (DiscoveredSacnSource U) → List (DiscoveredSacnSource U)
  remove_at n [] = []
  remove_at zero (x ∷ xs) = xs
  remove_at (suc n) (x ∷ xs) = x ∷ remove_at n xs

module _ {U : Type 0} ⦃crate : UuidCrate U⦄ where
  unfoldable pub find_discovered_src : List (DiscoveredSacnSource U) → U → Option ℕ
  find_discovered_src [] cid = none
  find_discovered_src (src ∷ srcs) cid =
      let rest = find_discovered_src srcs cid in
      ite (crate.equal cid src.cid) (some 0) (elim rest [ none ↦ none | some i ↦ some (i + 1) ])
