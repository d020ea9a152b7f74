-- ===== src/Receive/Merge/Htp.antt =====
-- The highest-takes-priority merge of src/receive.rs, slot by slot.
use sacn_rust.Common.{
  lt→ltb, eq→==, ==_refl, ◌<◌, ℕ, ltb, false, ◌≡◌, refl, ◌||◌, none, List, [], ◌∷◌, ok, length,
  arith, tests,
}
use Prim.Native.Nat.{zero, suc}
use sacn_rust.Receive.Merge.{merged, DmxData, max, merge_values, htp_dmx_merge, cannot_merge}

-- A slot that a packet does not carry is zero.
unfoldable pub slot : ℕ → List ℕ → ℕ
slot k [] = 0
slot zero (x ∷ xs) = x
slot (suc k) (x ∷ xs) = slot k xs

pub slot-merge_values :
    (k : ℕ) (is ns : List ℕ) → slot k (merge_values is ns) ≡ max (slot k is) (slot k ns)
unfolding slot merge_values
slot-merge_values k [] [] = refl
slot-merge_values zero [] (n ∷ ns) = ground arith
slot-merge_values (suc k) [] (n ∷ ns) = slot-merge_values k [] ns
slot-merge_values zero (i ∷ is) [] = ground arith
slot-merge_values (suc k) (i ∷ is) [] = slot-merge_values k is []
slot-merge_values zero (i ∷ is) (n ∷ ns) = refl
slot-merge_values (suc k) (i ∷ is) (n ∷ ns) = slot-merge_values k is ns

pub length-merge_values :
    (is ns : List ℕ) → length (merge_values is ns) ≡ max (length is) (length ns)
unfolding merge_values
length-merge_values [] [] = refl
length-merge_values [] (n ∷ ns) = ground (arith, length-merge_values [] ns)
length-merge_values (i ∷ is) [] = ground (arith, length-merge_values is [])
length-merge_values (i ∷ is) (n ∷ ns) = ground (arith, length-merge_values is ns)

pub merge_values_comm : (is ns : List ℕ) → merge_values is ns ≡ merge_values ns is
unfolding merge_values
merge_values_comm [] [] = refl
merge_values_comm [] (n ∷ ns) = ground (arith, merge_values_comm [] ns)
merge_values_comm (i ∷ is) [] = ground (arith, merge_values_comm is [])
merge_values_comm (i ∷ is) (n ∷ ns) = ground (arith, merge_values_comm is ns)

-- The slot by slot merge of three lists of values gives the same whichever two are merged first.
pub merge_values_assoc :
    (is ns ms : List ℕ)
    → merge_values (merge_values is ns) ms ≡ merge_values is (merge_values ns ms)
unfolding merge_values
merge_values_assoc [] [] [] = refl
merge_values_assoc [] [] (m ∷ ms) = ground (arith, merge_values_assoc [] [] ms)
merge_values_assoc [] (n ∷ ns) [] = ground (arith, merge_values_assoc [] ns [])
merge_values_assoc [] (n ∷ ns) (m ∷ ms) = ground (arith, merge_values_assoc [] ns ms)
merge_values_assoc (i ∷ is) [] [] = ground (arith, merge_values_assoc is [] [])
merge_values_assoc (i ∷ is) [] (m ∷ ms) = ground (arith, merge_values_assoc is [] ms)
merge_values_assoc (i ∷ is) (n ∷ ns) [] = ground (arith, merge_values_assoc is ns [])
merge_values_assoc (i ∷ is) (n ∷ ns) (m ∷ ms) = ground (arith, merge_values_assoc is ns ms)

-- The data of two packets that may be merged.
pub record CanMerge {U : Type 0} (i n : DmxData U) : Type 0 where
  pub same_universe : i.universe ≡ n.universe
  pub same_sync : i.sync_uni ≡ n.sync_uni
  pub start_code : ℕ
  pub i_slots : List ℕ
  pub n_slots : List ℕ
  pub i_values : i.values ≡ start_code ∷ i_slots
  pub n_values : n.values ≡ start_code ∷ n_slots

module _ {U : Type 0} where
  cannot_merge-CanMerge : (i n : DmxData U) → CanMerge i n → cannot_merge i n ≡ false
  cannot_merge-CanMerge i n h = rw (
    h.i_values,
    h.n_values,
    eq→== i.universe n.universe h.same_universe,
    eq→== i.sync_uni n.sync_uni h.same_sync,
    ==_refl h.start_code,
  )

  pub htp_dmx_merge-higher :
      (i n : DmxData U) → CanMerge i n → n.priority < i.priority → htp_dmx_merge i n ≡ ok i
  unfolding htp_dmx_merge
  htp_dmx_merge-higher i n h p = rw (cannot_merge-CanMerge i n h, lt→ltb n.priority i.priority p)

  pub htp_dmx_merge-lower :
      (i n : DmxData U) → CanMerge i n → i.priority < n.priority → htp_dmx_merge i n ≡ ok n
  unfolding htp_dmx_merge
  htp_dmx_merge-lower i n h p =
      let q : ltb n.priority i.priority ≡ false = omega tests in
      rw (cannot_merge-CanMerge i n h, q, lt→ltb i.priority n.priority p)

  -- Two data of equal priority that may be merged (same universe, synchronisation universe and
  -- start code) are merged slot by slot to the higher value, a slot that is missing counting as
  -- zero; the result is as long as the longer one, keeps universe, synchronisation universe and
  -- priority, is preview data if either is, and has no source.
  pub htp_dmx_merge-equal :
      (i n : DmxData U)
      → CanMerge i n
      → i.priority ≡ n.priority
      → (r : DmxData U) × (htp_dmx_merge i n ≡ ok r)
        × ((k : ℕ) → slot k r.values ≡ max (slot k i.values) (slot k n.values))
        × (length r.values ≡ max (length i.values) (length n.values))
        × (r.universe ≡ i.universe)
        × (r.sync_uni ≡ i.sync_uni)
        × (r.priority ≡ i.priority)
        × (r.preview ≡ i.preview || n.preview)
        × (r.src_cid ≡ none)
  unfolding htp_dmx_merge
  htp_dmx_merge-equal i n h p =
      let q : ltb n.priority i.priority ≡ false = omega tests in
      let s : ltb i.priority n.priority ≡ false = omega tests in
      (
        merged i n,
        rw (cannot_merge-CanMerge i n h, q, s),
        λ k. slot-merge_values k i.values n.values,
        length-merge_values i.values n.values,
        refl,
        refl,
        refl,
        refl,
        refl,
      )
