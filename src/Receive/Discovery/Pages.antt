-- ===== src/Receive/Discovery/Pages.antt =====
-- When the receiver has all the pages of a source: `has_all_pages` of src/receive.rs.
use sacn_rust.Common.{
  ap, dec_lt, subst, leb→le, ℕ, ◌+◌, ◌≤◌, ◌<◌, ◌==◌, leb, ◌≡◌, ◌↔◌, ◌∙◌, refl, sym, Bool, true,
  false, none, some, List, [], ◌∷◌, if◌then◌else◌, zero, suc, arith, drop, Bool-cases, inl, inr,
}
use sacn_rust.Receive.Discovery.{
  UniversePage, DiscoveredSacnSource, get_elem?, insert_page, sort_pages, check_pages,
  has_all_pages,
}

-- How many of the pages have a number.
unfoldable pub count : ℕ → List UniversePage → ℕ
count k [] = 0
count k (p ∷ ps) = let rest = count k ps in if p.page == k then rest + 1 else rest

AtLeast : ℕ → List UniversePage → Type 0
AtLeast e [] = Unit
AtLeast e (p ∷ ps) = (e ≤ p.page) × AtLeast e ps

Sorted : List UniversePage → Type 0
Sorted [] = Unit
Sorted (p ∷ ps) = AtLeast p.page ps × Sorted ps

count-insert_page :
    (k : ℕ) (p : UniversePage) (ps : List UniversePage)
    → count k (insert_page p ps) ≡ count k (p ∷ ps)
unfolding count insert_page
count-insert_page k p [] = refl
count-insert_page k p (q ∷ ps) = ground (arith, count-insert_page k p ps)

count-sort_pages : (k : ℕ) (ps : List UniversePage) → count k (sort_pages ps) ≡ count k ps
unfolding count sort_pages
count-sort_pages k [] = refl
count-sort_pages k (p ∷ ps) =
    ground (arith, count-insert_page k p (sort_pages ps), count-sort_pages k ps)

AtLeast-insert_page :
    (e : ℕ) (p : UniversePage) (ps : List UniversePage)
    → e ≤ p.page
    → AtLeast e ps
    → AtLeast e (insert_page p ps)
unfolding AtLeast insert_page
AtLeast-insert_page e p [] h k = (h, tt)
AtLeast-insert_page e p (q ∷ ps) h (k, ks) = ground (arith, AtLeast-insert_page e p ps h ks)

AtLeast-le : (d e : ℕ) (ps : List UniversePage) → d ≤ e → AtLeast e ps → AtLeast d ps
unfolding AtLeast
AtLeast-le d e [] h k = tt
AtLeast-le d e (p ∷ ps) h (k, ks) = (omega arith, AtLeast-le d e ps h ks)

not_leb→le : (a b : ℕ) → leb a b ≡ false → b ≤ a
not_leb→le a b h = ground arith

insert_page-Sorted :
    (p : UniversePage) (ps : List UniversePage) → Sorted ps → Sorted (insert_page p ps)
unfolding Sorted insert_page AtLeast
insert_page-Sorted p [] h = (tt, tt)
insert_page-Sorted p (q ∷ ps) (k, h) = elim (Bool-cases (leb p.page q.page)) [
  | inl e ↦
      rw e
        ((leb→le p.page q.page e, AtLeast-le p.page q.page ps (leb→le p.page q.page e) k), (k, h))
  | inr e ↦
      rw e
        (AtLeast-insert_page q.page p ps (not_leb→le p.page q.page e) k, insert_page-Sorted p ps h)
]

sort_pages-Sorted : (ps : List UniversePage) → Sorted (sort_pages ps)
unfolding Sorted sort_pages
sort_pages-Sorted [] = tt
sort_pages-Sorted (p ∷ ps) = insert_page-Sorted p (sort_pages ps) (sort_pages-Sorted ps)

-- The loop, by the list of pages that it has not come to.
starts : ℕ → ℕ → List UniversePage → Bool
starts e zero ps = true
starts e (suc n) [] = false
starts e (suc n) (p ∷ ps) = let rest = starts (e + 1) n ps in if p.page == e then rest else false

get_elem?-drop_nil : (i : ℕ) (ps : List UniversePage) → drop i ps ≡ [] → get_elem? i ps ≡ none
unfolding get_elem?
get_elem?-drop_nil i [] h = refl
get_elem?-drop_nil zero (p ∷ ps) h = cc
get_elem?-drop_nil (suc i) (p ∷ ps) h = get_elem?-drop_nil i ps h

get_elem?-drop_cons :
    (i : ℕ) (ps : List UniversePage) (q : UniversePage) (qs : List UniversePage)
    → drop i ps ≡ q ∷ qs
    → (get_elem? i ps ≡ some q) × (drop (suc i) ps ≡ qs)
unfolding get_elem?
get_elem?-drop_cons zero [] q qs h = cc
get_elem?-drop_cons (suc i) [] q qs h = cc
get_elem?-drop_cons zero (p ∷ ps) q qs h = (cc, cc)
get_elem?-drop_cons (suc i) (p ∷ ps) q qs h = get_elem?-drop_cons i ps q qs h

check_pages-starts :
    (n i : ℕ) (ps rest : List UniversePage)
    → drop i ps ≡ rest
    → check_pages i n ps ≡ starts i n rest
unfolding check_pages starts
check_pages-starts zero i ps rest h = refl
check_pages-starts (suc n) i ps [] h = rw (check_pages, get_elem?-drop_nil i ps h)
check_pages-starts (suc n) i ps (q ∷ qs) h =
    let (e, t) = get_elem?-drop_cons i ps q qs h in
    let next : suc i ≡ i + 1 = omega arith in
    rw (check_pages, e, check_pages-starts n (i + 1) ps qs (subst (λ m. drop m ps ≡ qs) next t))

count_below : (k e : ℕ) (ps : List UniversePage) → k < e → AtLeast e ps → count k ps ≡ 0
unfolding count AtLeast
count_below k e [] h g = refl
count_below k e (p ∷ ps) h (g, gs) = ground (arith, count_below k e ps h gs)

-- Without its least number, a list is above it.
AtLeast-above :
    (e : ℕ) (ps : List UniversePage) → AtLeast e ps → count e ps ≡ 0 → AtLeast (e + 1) ps
unfolding count AtLeast
AtLeast-above e [] g h = tt
AtLeast-above e (p ∷ ps) (g, gs) h = ground (arith, AtLeast-above e ps gs)

starts_head :
    (n e : ℕ) (p : UniversePage) (ps : List UniversePage)
    → starts e (suc n) (p ∷ ps) ≡ true
    → (p.page ≡ e) × (starts (e + 1) n ps ≡ true)
unfolding starts
starts_head n e p ps h = (ground arith, ground arith)

starts-AtLeast :
    (n e : ℕ) (ps : List UniversePage) → Sorted ps → starts e (suc n) ps ≡ true → AtLeast e ps
unfolding Sorted AtLeast starts
starts-AtLeast n e [] g h = tt
starts-AtLeast n e (p ∷ ps) (g, gs) h =
    let pe = (starts_head n e p ps h).0 in (omega arith, AtLeast-le e p.page ps (omega arith) g)

-- A sorted list that starts with the numbers e, ..., e + n.
starts-count :
    (n e : ℕ) (ps : List UniversePage)
    → Sorted ps
    → starts e (suc n) ps ≡ true
    → ((k : ℕ) → e ≤ k → k < e + n → count k ps ≡ 1) × (1 ≤ count (e + n) ps)
unfolding starts count Sorted
starts-count n e [] g h = cc
starts-count zero e (p ∷ ps) g h = (λ k lo hi. ground arith, ground arith)
starts-count (suc n) e (p ∷ ps) (g, gs) h =
    let (pe, rest) = starts_head (suc n) e p ps h in
    let (ih, last) = starts-count n (e + 1) ps gs rest in
    (
      λ k lo hi. elim (dec_lt e k) [
        | yes l ↦ ground (arith, ih k (omega arith) (omega arith))
        | no l ↦
            ground
              (arith, count_below k (e + 1) ps (omega arith) (starts-AtLeast n (e + 1) ps gs rest))
      ],
      let last2 : 1 ≤ count (e + suc n) ps = subst (λ m. 1 ≤ count m ps) (omega arith) last in
          ground arith,
    )

least_head :
    (e : ℕ) (p : UniversePage) (ps : List UniversePage)
    → Sorted (p ∷ ps)
    → AtLeast e (p ∷ ps)
    → 1 ≤ count e (p ∷ ps)
    → p.page ≡ e
unfolding Sorted AtLeast
least_head e p ps (g, gs) (b, bs) l = elim (dec_lt e p.page) [
  | yes later ↦ let z = count_below e p.page (p ∷ ps) later (omega arith, g) in ground arith
  | no same ↦ omega arith
]

count_later :
    (k : ℕ) (p : UniversePage) (ps : List UniversePage)
    → p.page < k
    → 1 ≤ count k (p ∷ ps)
    → 1 ≤ count k ps
unfolding count
count_later k p ps h l = ground arith

count-starts :
    (n e : ℕ) (ps : List UniversePage)
    → Sorted ps
    → AtLeast e ps
    → ((k : ℕ) → e ≤ k → k < e + n → count k ps ≡ 1)
    → 1 ≤ count (e + n) ps
    → starts e (suc n) ps ≡ true
unfolding starts count Sorted AtLeast
count-starts n e [] g b h l = ground arith
count-starts zero e (p ∷ ps) (g, gs) (b, bs) h l =
    let pe =
      least_head e p ps (g, gs) (b, bs) (subst (λ m. 1 ≤ count m (p ∷ ps)) (omega arith) l) in
    ground arith
count-starts (suc n) e (p ∷ ps) (g, gs) (b, bs) h l =
    let one = h e (omega arith) (omega arith) in
    let pe = least_head e p ps (g, gs) (b, bs) (omega arith) in
    let none_left : count e ps ≡ 0 = ground arith in
    let rest =
      count-starts n (e + 1) ps gs (AtLeast-above e ps bs none_left)
        (λ k lo hi. ground (arith, h k (omega arith) (omega arith)))
        (subst (λ m. 1 ≤ count m ps) (omega arith)
          (count_later (e + suc n) p ps (omega arith) l)) in
    ground arith

AtLeast-zero : (ps : List UniversePage) → AtLeast 0 ps
unfolding AtLeast
AtLeast-zero [] = tt
AtLeast-zero (p ∷ ps) = (omega arith, AtLeast-zero ps)

-- Every page before the last has come once, and the last at least once.
unfoldable pub IsComplete : {U : Type 0} → DiscoveredSacnSource U → Type 0
IsComplete s = ((k : ℕ) → k < s.last_page → count k s.pages ≡ 1) × (1 ≤ count s.last_page s.pages)

has_all_pages-starts :
    {U : Type 0} (s : DiscoveredSacnSource U)
    → (has_all_pages s).0 ≡ starts 0 (suc s.last_page) (sort_pages s.pages)
unfolding has_all_pages
has_all_pages-starts s =
    check_pages-starts (s.last_page + 1) 0 (sort_pages s.pages) (sort_pages s.pages) refl
    ∙ ap (λ n. starts 0 n (sort_pages s.pages)) (omega arith)

-- `has_all_pages` returns true exactly when every page number before the last has come exactly
-- once, and the last page number at least once.
pub has_all_pages-IsComplete :
    {U : Type 0} (s : DiscoveredSacnSource U) → ((has_all_pages s).0 ≡ true) ↔ IsComplete s
unfolding IsComplete
has_all_pages-IsComplete s =
    let sorted = sort_pages-Sorted s.pages in
    let same = λ (k : ℕ). count-sort_pages k s.pages in
    (
      λ h.
          let (once, last) =
            starts-count s.last_page 0 (sort_pages s.pages) sorted
              (sym (has_all_pages-starts s) ∙ h) in
          (
            λ k l. sym (same k) ∙ once k (omega arith) (omega arith),
            subst (λ m. 1 ≤ m) (same s.last_page)
                (subst (λ m. 1 ≤ count m (sort_pages s.pages)) (omega arith) last),
          ),
      λ (once, last).
          has_all_pages-starts s
          ∙ count-starts s.last_page 0 (sort_pages s.pages) sorted
              (AtLeast-zero (sort_pages s.pages)) (λ k lo hi. same k ∙ once k (omega arith))
              (subst (λ m. 1 ≤ count m (sort_pages s.pages)) (omega arith)
                (subst (λ m. 1 ≤ m) (sym (same s.last_page)) last)),
    )
