-- ===== src/Receive/Receiver.antt =====
-- The state of a `SacnReceiver` (src/receive.rs), and the methods that do not handle a packet.
use sacn_rust.Common.{
  ℕ, ◌==◌, ltb, ◌-◌, Bool, true, false, Option, none, some, List, [], ◌∷◌, ok, err, panic,
  if◌then◌else◌, ℕ_discrete,
}
use sacn_rust.Common.State.{Stateful, ◌>>◌, lift, return}
use sacn_rust.Common.HashMap.{get, remove, retain}
use sacn_rust.Packet.Constants.{e131_network_data_loss_timeout, universe_discovery_source_timeout}
use sacn_rust.Packet.Universe.{is_universe_in_range}
use sacn_rust.Error.{SacnError, universe_not_found, Result}
use sacn_rust.Receive.Merge.{DmxData}
use sacn_rust.Receive.Discovery.{DiscoveredSacnSource}
use sacn_rust.Receive.Sequence.{SequenceNumbering, clear}
use sacn_rust.Receive.Network.{
  SocketCalls, SacnNetworkReceiver, listen_multicast_universe, mute_multicast_universe,
}

pub record SacnReceiver (S U : Type 0) : Type 0 where
  pub receiver : SacnNetworkReceiver S
  pub waiting_data : List (ℕ × DmxData U)
  pub universes : List ℕ
  pub discovered_sources : List (DiscoveredSacnSource U)
  pub merge_func : DmxData U → DmxData U → Result U (DmxData U)
  pub partially_discovered_sources : List (DiscoveredSacnSource U)
  pub source_limit : Option ℕ
  pub sequences : SequenceNumbering U
  pub process_preview_data : Bool
  pub announce_source_discovery : Bool
  pub announce_stream_termination : Bool
  pub announce_timeout : Bool

-- `Option::is_some`.
abbrev pub is_some : {A : Type 0} → Option A → Bool
is_some none = false
is_some (some a) = true

-- `universes.contains(universe)`
unfoldable pub contains_universe : ℕ → List ℕ → Bool
contains_universe u [] = false
contains_universe u (x ∷ xs) = let rest = contains_universe u xs in if x == u then true else rest

-- `binary_search` and `insert` at the index that it returns, on a list that is in order: a number
-- that is there is not inserted again.
unfoldable pub insert_universe : ℕ → List ℕ → List ℕ
insert_universe u [] = u ∷ []
insert_universe u (x ∷ xs) =
    let rest = insert_universe u xs in if ltb x u then x ∷ rest else u ∷ x ∷ xs

-- `remove` at the index that `binary_search` returns.
unfoldable pub delete_universe : ℕ → List ℕ → List ℕ
delete_universe u [] = []
delete_universe u (x ∷ xs) = let rest = delete_universe u xs in if x == u then xs else x ∷ rest

-- `Vec::retain`.
unfoldable pub retain_sources :
    {U : Type 0}
    → (DiscoveredSacnSource U → Bool)
    → List (DiscoveredSacnSource U)
    → List (DiscoveredSacnSource U)
retain_sources test [] = []
retain_sources test (x ∷ xs) =
    let rest = retain_sources test xs in if test x then x ∷ rest else rest

module _ {U : Type 0} where
  -- `data.recv_timestamp.elapsed() < E131_NETWORK_DATA_LOSS_TIMEOUT`
  abbrev pub is_recent : ℕ → DmxData U → Bool
  is_recent now dmx_data = ltb (now - dmx_data.recv_timestamp) e131_network_data_loss_timeout

  abbrev pub is_current : ℕ → DiscoveredSacnSource U → Bool
  is_current now s = ltb (now - s.last_updated) universe_discovery_source_timeout

module _ {S U : Type 0} where
  unfoldable pub is_listening : SacnReceiver S U → ℕ → Bool
  is_listening self universe = contains_universe universe self.universes

  unfoldable pub reset_sources : SacnReceiver S U → SacnReceiver S U
  reset_sources self = record self {
    sequences = clear self.sequences;
    partially_discovered_sources = [];
    discovered_sources = [];
  }

  unfoldable pub clear_all_waiting_data : SacnReceiver S U → SacnReceiver S U
  clear_all_waiting_data self = record self { waiting_data = [] }

  -- With whether there was data.
  unfoldable pub clear_waiting_data : ℕ → SacnReceiver S U → Bool × SacnReceiver S U
  clear_waiting_data universe self = (
    is_some (get ℕ_discrete universe self.waiting_data),
    record self { waiting_data = remove ℕ_discrete universe self.waiting_data },
  )

  unfoldable pub check_waiting_data_timeouts : ℕ → SacnReceiver S U → SacnReceiver S U
  check_waiting_data_timeouts now self = record self {
    waiting_data = retain (is_recent now) self.waiting_data;
  }

  unfoldable pub remove_expired_sources : ℕ → SacnReceiver S U → SacnReceiver S U
  remove_expired_sources now self = record self {
    partially_discovered_sources =
        retain_sources (is_current now) self.partially_discovered_sources;
    discovered_sources = retain_sources (is_current now) self.discovered_sources;
  }

  unfoldable pub get_discovered_sources :
      ℕ → SacnReceiver S U → List (DiscoveredSacnSource U) × SacnReceiver S U
  unfolding remove_expired_sources
  get_discovered_sources now self =
      let s = remove_expired_sources now self in (s.discovered_sources, s)

  abbrev pub on_network :
      Stateful (SacnNetworkReceiver S) (SacnError U) (Unit {0})
      → Stateful (SacnReceiver S U) (SacnError U) (Unit {0})
  on_network m self = let r = m self.receiver in (r.0, record self { receiver = r.1 })

module _ {U : Type 0} where
  -- The first loop of `listen_universes`.
  unfoldable pub check_range : List ℕ → Result U (Unit {0})
  check_range [] = ok tt
  check_range (u ∷ us) = elim (is_universe_in_range {U = U} u) [
    | ok _ ↦ check_range us
    | err e ↦ err e
    | panic ↦ panic
  ]

module _ {S U : Type 0} ⦃calls : SocketCalls S⦄ where
  -- One turn of the second loop of `listen_universes`.
  unfoldable pub listen_universe : ℕ → Stateful (SacnReceiver S U) (SacnError U) (Unit {0})
  listen_universe u self =
      if contains_universe u self.universes
      then (ok tt, self)
      else (let s = record self { universes = insert_universe u self.universes } in
          if self.receiver.is_multicast_enabled
          then on_network (listen_multicast_universe u) s
          else (ok tt, s))

  unfoldable pub listen_each : List ℕ → Stateful (SacnReceiver S U) (SacnError U) (Unit {0})
  unfolding listen_universe
  listen_each [] = return tt
  listen_each (u ∷ us) = listen_universe u >> listen_each us

  unfoldable pub listen_universes : List ℕ → Stateful (SacnReceiver S U) (SacnError U) (Unit {0})
  unfolding listen_each check_range
  listen_universes universes = lift (check_range universes) >> listen_each universes

  unfoldable pub mute_universe : ℕ → Stateful (SacnReceiver S U) (SacnError U) (Unit {0})
  unfolding mute_multicast_universe
  mute_universe universe = do
    lift (is_universe_in_range universe)
    λ self.
        if contains_universe universe self.universes
        then on_network (mute_multicast_universe universe)
            (record self { universes = delete_universe universe self.universes })
        else (err (universe_not_found universe), self)
