-- ===== src/Receive/Merge.antt =====
-- `DMXData` and the two merge functions of src/receive.rs.
pub mod Htp
use sacn_rust.Common.{
  ℕ, ◌+◌, ◌==◌, ltb, Bool, true, false, not, ◌||◌, Option, none, some, List, [], ◌∷◌, Outcome, ok,
  err, if◌then◌else◌,
}
use sacn_rust.Common.Results.{refuse_if, ◌>>=◌, ◌>>◌}
use sacn_rust.Error.{SacnError, dmx_merge_error, Result}

pub record DmxData (U : Type 0) : Type 0 where
  pub universe : ℕ
  pub values : List ℕ
  pub sync_uni : ℕ
  pub priority : ℕ
  pub src_cid : Option U
  pub preview : Bool
  pub recv_timestamp : ℕ

-- `std::cmp::max`.
abbrev pub max : ℕ → ℕ → ℕ
max a b = if ltb b a then a else b

-- The loop over both iterators: it goes on while either has a value.
unfoldable pub merge_values : List ℕ → List ℕ → List ℕ
merge_values [] [] = []
merge_values [] (n ∷ ns) = n ∷ merge_values [] ns
merge_values (i ∷ is) [] = i ∷ merge_values is []
merge_values (i ∷ is) (n ∷ ns) = max i n ∷ merge_values is ns

-- `i.values[0] != n.values[0]`, and the two tests for an empty vector before it.
abbrev pub start_codes_differ : List ℕ → List ℕ → Bool
start_codes_differ (i ∷ _) (n ∷ _) = not (i == n)
start_codes_differ _ _ = true

module _ {U : Type 0} where
  unfoldable pub discard_lowest_priority_then_previous :
      DmxData U → DmxData U → Result U (DmxData U)
  discard_lowest_priority_then_previous i n = if ltb n.priority i.priority then ok i else ok n

  abbrev pub cannot_merge : DmxData U → DmxData U → Bool
  cannot_merge i n =
      not (i.universe == n.universe)
      || start_codes_differ i.values n.values
      || not (i.sync_uni == n.sync_uni)

  -- The data of equal priority, merged.
  abbrev pub merged : DmxData U → DmxData U → DmxData U
  merged i n = record {
    universe = i.universe;
    values = merge_values i.values n.values;
    sync_uni = i.sync_uni;
    priority = i.priority;
    src_cid = none;
    preview = i.preview || n.preview;
    recv_timestamp = i.recv_timestamp;
  }

  unfoldable pub htp_dmx_merge : DmxData U → DmxData U → Result U (DmxData U)
  htp_dmx_merge i n = do
    refuse_if (cannot_merge i n) dmx_merge_error
    if ltb n.priority i.priority
        then ok i
        else (if ltb i.priority n.priority then ok n else ok (merged i n))
