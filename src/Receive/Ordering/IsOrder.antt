-- ===== src/Receive/Ordering/IsOrder.antt =====
-- The order of `DMXData` is a total order of what is compared, and agrees with its equality.
use sacn_rust.Common.{
  ℕ, ◌==◌, ◌&&◌, ◌≡◌, ◌↔◌, ◌∙◌, refl, sym, ap, Bool, true, false, List, [], ◌∷◌, arith,
}
use sacn_rust.Receive.Merge.{DmxData}
use sacn_rust.Receive.Ordering.{
  Ordering, less, equal, greater, then_cmp, reverse, cmp_number, cmp_values, eq_values, cmp, eq,
}

-- What a comparison has to satisfy: the other way round it gives the reverse, it is transitive, and
-- what compares equal compares alike with everything.
pub record IsOrder {A : Type 0} (compare : A → A → Ordering) : Type 0 where
  pub flips : (a b : A) → compare b a ≡ reverse (compare a b)
  pub transitive : (a b c : A) → compare a b ≡ less → compare b c ≡ less → compare a c ≡ less
  pub alike_left : (a b c : A) → compare a b ≡ equal → compare a c ≡ compare b c
  pub alike_right : (a b c : A) → compare b c ≡ equal → compare a c ≡ compare a b

cmp_number-IsOrder : IsOrder cmp_number
unfolding cmp_number
cmp_number-IsOrder = record {
  flips = λ a b. ground arith;
  transitive = λ a b c ab bc. ground arith;
  alike_left = λ a b c ab. ground arith;
  alike_right = λ a b c bc. ground arith;
}

-- The laws for two comparisons, one after the other, at elements `a`, `b` and `c`.
reverse-then_cmp : (o p : Ordering) → reverse (then_cmp o p) ≡ then_cmp (reverse o) (reverse p)
reverse-then_cmp less p = refl
reverse-then_cmp equal p = refl
reverse-then_cmp greater p = refl

then_cmp-transitive :
    (ab bc ac ab' bc' ac' : Ordering)
    → (ab ≡ less → bc ≡ less → ac ≡ less)
    → (ab ≡ equal → ac ≡ bc)
    → (bc ≡ equal → ac ≡ ab)
    → (ab' ≡ less → bc' ≡ less → ac' ≡ less)
    → then_cmp ab ab' ≡ less
    → then_cmp bc bc' ≡ less
    → then_cmp ac ac' ≡ less
then_cmp-transitive less less ac ab' bc' ac' h l r k x y = ap (λ o. then_cmp o ac') (h refl refl)
then_cmp-transitive less equal ac ab' bc' ac' h l r k x y = ap (λ o. then_cmp o ac') (r refl)
then_cmp-transitive less greater ac ab' bc' ac' h l r k x y = cc
then_cmp-transitive equal less ac ab' bc' ac' h l r k x y = ap (λ o. then_cmp o ac') (l refl)
then_cmp-transitive equal equal ac ab' bc' ac' h l r k x y =
    ap (λ o. then_cmp o ac') (l refl) ∙ k x y
then_cmp-transitive equal greater ac ab' bc' ac' h l r k x y = cc
then_cmp-transitive greater bc ac ab' bc' ac' h l r k x y = cc

then_cmp-alike :
    (o p q o' p' q' : Ordering)
    → (o ≡ equal → p ≡ q)
    → (o' ≡ equal → p' ≡ q')
    → then_cmp o o' ≡ equal
    → then_cmp p p' ≡ then_cmp q q'
then_cmp-alike less p q o' p' q' f g e = cc
then_cmp-alike equal p q o' p' q' f g e = let x = f refl in let y = g e in rw (x, y) refl
then_cmp-alike greater p q o' p' q' f g e = cc

-- Two comparisons one after the other, an order of lists, and an order of what a function gives.
then_cmp-IsOrder :
    {A : Type 0} {p q : A → A → Ordering}
    → IsOrder p
    → IsOrder q
    → IsOrder (λ a b. then_cmp (p a b) (q a b))
then_cmp-IsOrder {A} {p} {q} x y = record {
  flips = λ a b.
      ap (λ o. then_cmp o (q b a)) (x.flips a b)
      ∙ ap (λ o. then_cmp (reverse (p a b)) o) (y.flips a b)
      ∙ sym (reverse-then_cmp (p a b) (q a b));
  transitive = λ a b c.
      then_cmp-transitive (p a b) (p b c) (p a c) (q a b) (q b c) (q a c) (x.transitive a b c)
        (x.alike_left a b c) (x.alike_right a b c) (y.transitive a b c);
  alike_left = λ a b c.
      then_cmp-alike (p a b) (p a c) (p b c) (q a b) (q a c) (q b c) (x.alike_left a b c)
        (y.alike_left a b c);
  alike_right = λ a b c.
      then_cmp-alike (p b c) (p a c) (p a b) (q b c) (q a c) (q a b) (x.alike_right a b c)
        (y.alike_right a b c);
}

key-IsOrder :
    {A B : Type 0} {p : B → B → Ordering} (key : A → B)
    → IsOrder p
    → IsOrder (λ a b. p (key a) (key b))
key-IsOrder key x = record {
  flips = λ a b. x.flips (key a) (key b);
  transitive = λ a b c. x.transitive (key a) (key b) (key c);
  alike_left = λ a b c. x.alike_left (key a) (key b) (key c);
  alike_right = λ a b c. x.alike_right (key a) (key b) (key c);
}

cmp_values-flips : (xs ys : List ℕ) → cmp_values ys xs ≡ reverse (cmp_values xs ys)
unfolding cmp_values
cmp_values-flips [] [] = refl
cmp_values-flips [] (y ∷ ys) = refl
cmp_values-flips (x ∷ xs) [] = refl
cmp_values-flips (x ∷ xs) (y ∷ ys) =
    ap (λ o. then_cmp o (cmp_values ys xs)) (cmp_number-IsOrder.flips x y)
    ∙ ap (λ o. then_cmp (reverse (cmp_number x y)) o) (cmp_values-flips xs ys)
    ∙ sym (reverse-then_cmp (cmp_number x y) (cmp_values xs ys))

cmp_values-alike :
    (xs ys zs : List ℕ) → cmp_values xs ys ≡ equal → cmp_values xs zs ≡ cmp_values ys zs
unfolding cmp_values
cmp_values-alike [] [] zs e = refl
cmp_values-alike [] (y ∷ ys) zs e = cc
cmp_values-alike (x ∷ xs) [] zs e = cc
cmp_values-alike (x ∷ xs) (y ∷ ys) [] e = refl
cmp_values-alike (x ∷ xs) (y ∷ ys) (z ∷ zs) e =
    then_cmp-alike (cmp_number x y) (cmp_number x z) (cmp_number y z) (cmp_values xs ys)
      (cmp_values xs zs) (cmp_values ys zs) (cmp_number-IsOrder.alike_left x y z)
      (cmp_values-alike xs ys zs) e

-- The second argument, by the first.
cmp_values-alike_right :
    (xs ys zs : List ℕ) → cmp_values ys zs ≡ equal → cmp_values xs zs ≡ cmp_values xs ys
cmp_values-alike_right xs ys zs e =
    cmp_values-flips zs xs
    ∙ ap reverse (sym (cmp_values-alike ys zs xs e))
    ∙ sym (cmp_values-flips ys xs)

cmp_values-transitive :
    (xs ys zs : List ℕ)
    → cmp_values xs ys ≡ less
    → cmp_values ys zs ≡ less
    → cmp_values xs zs ≡ less
unfolding cmp_values
cmp_values-transitive [] [] zs a b = b
cmp_values-transitive [] (y ∷ ys) [] a b = cc
cmp_values-transitive [] (y ∷ ys) (z ∷ zs) a b = refl
cmp_values-transitive (x ∷ xs) [] zs a b = cc
cmp_values-transitive (x ∷ xs) (y ∷ ys) [] a b = cc
cmp_values-transitive (x ∷ xs) (y ∷ ys) (z ∷ zs) a b =
    then_cmp-transitive (cmp_number x y) (cmp_number y z) (cmp_number x z) (cmp_values xs ys)
      (cmp_values ys zs) (cmp_values xs zs) (cmp_number-IsOrder.transitive x y z)
      (cmp_number-IsOrder.alike_left x y z) (cmp_number-IsOrder.alike_right x y z)
      (cmp_values-transitive xs ys zs) a b

cmp_values-IsOrder : IsOrder cmp_values
cmp_values-IsOrder = record {
  flips = cmp_values-flips;
  transitive = cmp_values-transitive;
  alike_left = cmp_values-alike;
  alike_right = cmp_values-alike_right;
}

-- What compares equal is equal.
then_cmp-equal :
    (o p : Ordering) (x y : Bool)
    → (o ≡ equal) ↔ (x ≡ true)
    → (p ≡ equal) ↔ (y ≡ true)
    → (then_cmp o p ≡ equal) ↔ ((x && y) ≡ true)
then_cmp-equal less p true y f g = let e = f.1 refl in cc
then_cmp-equal less p false y f g = ((λ e. cc), (λ e. cc))
then_cmp-equal equal p true y f g = g
then_cmp-equal equal p false y f g = let e = f.0 refl in cc
then_cmp-equal greater p true y f g = let e = f.1 refl in cc
then_cmp-equal greater p false y f g = ((λ e. cc), (λ e. cc))

cmp_number-equal : (a b : ℕ) → (cmp_number a b ≡ equal) ↔ ((a == b) ≡ true)
unfolding cmp_number
cmp_number-equal a b = (λ e. ground arith, λ e. ground arith)

cmp_values-equal : (xs ys : List ℕ) → (cmp_values xs ys ≡ equal) ↔ (eq_values xs ys ≡ true)
unfolding cmp_values eq_values
cmp_values-equal [] [] = (λ e. refl, λ e. refl)
cmp_values-equal [] (y ∷ ys) = (λ e. cc, λ e. cc)
cmp_values-equal (x ∷ xs) [] = (λ e. cc, λ e. cc)
cmp_values-equal (x ∷ xs) (y ∷ ys) =
    then_cmp-equal (cmp_number x y) (cmp_values xs ys) (x == y) (eq_values xs ys)
      (cmp_number-equal x y) (cmp_values-equal xs ys)

module _ {U : Type 0} where
  pub cmp-IsOrder : IsOrder (cmp {U = U})
  unfolding cmp
  cmp-IsOrder =
      then_cmp-IsOrder
        (then_cmp-IsOrder (key-IsOrder (λ (d : DmxData U). d.universe) cmp_number-IsOrder)
          (key-IsOrder (λ (d : DmxData U). d.sync_uni) cmp_number-IsOrder))
        (key-IsOrder (λ (d : DmxData U). d.values) cmp_values-IsOrder)

  -- `cmp` of two `DMXData` gives the reverse for the swapped arguments, and it is `Equal` exactly
  -- when `eq` is true.
  pub cmp-eq :
      (a b : DmxData U) → (cmp b a ≡ reverse (cmp a b)) × ((cmp a b ≡ equal) ↔ (eq a b ≡ true))
  unfolding cmp eq
  cmp-eq a b = (
    cmp-IsOrder.flips a b,
    then_cmp-equal (then_cmp (cmp_number a.universe b.universe) (cmp_number a.sync_uni b.sync_uni))
        (cmp_values a.values b.values) ((a.universe == b.universe) && (a.sync_uni == b.sync_uni))
        (eq_values a.values b.values)
        (then_cmp-equal (cmp_number a.universe b.universe) (cmp_number a.sync_uni b.sync_uni)
          (a.universe == b.universe) (a.sync_uni == b.sync_uni)
          (cmp_number-equal a.universe b.universe) (cmp_number-equal a.sync_uni b.sync_uni))
        (cmp_values-equal a.values b.values),
  )

  pub cmp-transitive : (a b c : DmxData U) → cmp a b ≡ less → cmp b c ≡ less → cmp a c ≡ less
  cmp-transitive = cmp-IsOrder.transitive
