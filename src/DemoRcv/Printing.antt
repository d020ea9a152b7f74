-- ===== src/DemoRcv/Printing.antt =====
-- What the demo receiver (examples/demo_rcv/src/main.rs) prints and what it writes to a file. What is
-- printed is data; what is written is text, as a list of bytes.
use sacn_rust.Common.{
  ℕ, zero, suc, ◌+◌, ◌/◌, ◌%◌, ltb, Bool, true, false, List, [], ◌∷◌, ◌++◌, Outcome, ok, err, panic,
  if◌then◌else◌,
}
use sacn_rust.Error.{SacnError, universe_terminated}
use sacn_rust.Receive.Merge.{DmxData}
use sacn_rust.Receive.Discovery.{DiscoveredSacnSource, get_all_universes}
use sacn_rust.Receive.Ordering.{less, equal, greater, cmp}
use sacn_rust.DemoSrc.Program.{DemoError, sacn}

-- The lines that are printed.
pub data Printed (U : Type 0) : Type 0 where
  help : Printed U
  terminated : ℕ → Printed U
  error_encountered : DemoError U → Printed U
  received : List (DmxData U) → Printed U
  discovered : List (List ℕ × List ℕ) → Printed U

module _ {U : Type 0} where
  -- `sort`, a stable sort.
  unfoldable pub insert_data : DmxData U → List (DmxData U) → List (DmxData U)
  insert_data d [] = d ∷ []
  insert_data d (x ∷ xs) = elim (cmp d x) [
    | less ↦ d ∷ x ∷ xs
    | equal ↦ d ∷ x ∷ xs
    | greater ↦ x ∷ insert_data d xs
  ]

  unfoldable pub sort_data : List (DmxData U) → List (DmxData U)
  unfolding insert_data
  sort_data [] = []
  sort_data (d ∷ ds) = insert_data d (sort_data ds)

  unfoldable pub print_recv :
      Outcome (SacnError U) (List (DmxData U)) → Outcome (DemoError U) (Printed U)
  unfolding sort_data
  print_recv (ok d) = ok (received (sort_data d))
  print_recv (err (universe_terminated src uni)) = ok (terminated uni)
  print_recv (err e) = ok (error_encountered (sacn e))
  print_recv panic = panic

  abbrev pub print_discovered_sources : List (DiscoveredSacnSource U) → Printed U
  print_discovered_sources srcs = discovered (names srcs)
    where
      names : List (DiscoveredSacnSource U) → List (List ℕ × List ℕ)
      names [] = []
      names (s ∷ ss) = (s.name, get_all_universes s) ∷ names ss

-- A number in decimal; a `u64` has at most twenty digits.
unfoldable pub digits : ℕ → ℕ → List ℕ
digits zero n = []
digits (suc fuel) n =
    let more = digits fuel (n / 10) in
    if ltb n 10 then (48 + n) ∷ [] else more ++ ((48 + n % 10) ∷ [])

abbrev pub decimal : ℕ → List ℕ
decimal n = digits 20 n

abbrev pub boolean : Bool → List ℕ
boolean true = 116 ∷ 114 ∷ 117 ∷ 101 ∷ []
boolean false = 102 ∷ 97 ∷ 108 ∷ 115 ∷ 101 ∷ []

-- Each value after a comma.
abbrev pub with_commas : List ℕ → List ℕ
with_commas [] = []
with_commas (v ∷ vs) = 44 ∷ decimal v ++ with_commas vs

unfoldable pub create_values_str : List ℕ → List ℕ
create_values_str [] = []
create_values_str (v ∷ vs) = decimal v ++ with_commas vs

-- The line that `write_to_file` writes for data.
module _ {U : Type 0} where
  unfoldable pub line_of : ℕ → DmxData U → List ℕ
  unfolding create_values_str
  line_of data_id d =
      decimal data_id
      ++ (44 ∷ decimal d.universe)
      ++ (44 ∷ decimal d.sync_uni)
      ++ (44 ∷ decimal d.priority)
      ++ (44 ∷ boolean d.preview)
      ++ (44 ∷ create_values_str d.values)
      ++ (10 ∷ [])
