-- ===== src/Source.antt =====
-- `SacnSourceInternal` of src/source.rs: its universes and sequence numbers, and the packets that it
-- sends. The socket is the operating system's: its call is a parameter.
pub mod Behaviour
pub mod Checks
pub mod Creation
pub mod Handle
pub mod Keeping
pub mod Parts
pub mod Sending
pub mod Universes
use sacn_rust.Common.{
  ℕ, ◌+◌, ◌*◌, ◌==◌, ltb, Bool, false, Option, none, some, List, [], ◌∷◌, ok, err, panic,
  if◌then◌else◌, ℕ_discrete, length, take, drop,
}
use sacn_rust.Common.State.{Stateful, ◌>>◌, lift, return}
use sacn_rust.Common.HashMap.{get}
use sacn_rust.Packet.Constants.{starting_sequence_number, e131_source_name_field_length}
use sacn_rust.Packet.Universe.{
  SocketAddr, v4, v6, is_universe_in_range, universe_to_ipv4_multicast_addr,
  universe_to_ipv6_multicast_addr,
}
use sacn_rust.Packet.Root.{data_packet, synchronization_packet, universe_discovery_packet}
use sacn_rust.Packet.Acn.{AcnRootLayerProtocol}
use sacn_rust.Error.{
  SacnError, IoErrorKind, text, universe_not_found, universe_not_registered, illegal_sync_universe,
  malformed_source_name, Result,
}
use sacn_rust.Receive.Receiver.{contains_universe, insert_universe, delete_universe}

-- `Socket::send_to`.
pub record SendCalls (S : Type 0) : Type 0 where
  pub send_to : List ℕ → SocketAddr → Stateful S IoErrorKind (Unit {0})

pub record SacnSourceInternal (S U : Type 0) : Type 0 where
  pub socket : S
  pub addr : SocketAddr
  pub cid : U
  pub name : List ℕ
  pub preview_data : Bool
  pub data_sequences : List (ℕ × ℕ)
  pub sync_sequences : List (ℕ × ℕ)
  pub universes : List ℕ
  pub running : Bool
  pub last_discovery_advert_timestamp : ℕ
  pub is_sending_discovery : Bool

-- The number that the next packet of a universe has.
abbrev pub current_sequence : ℕ → List (ℕ × ℕ) → ℕ
current_sequence universe sequences = elim (get ℕ_discrete universe sequences) [
  | none ↦ starting_sequence_number
  | some s ↦ s
]

-- `if sequence == 255 { sequence = 0 } else { sequence += 1 }`
abbrev pub next_sequence : ℕ → ℕ
next_sequence sequence = if sequence == 255 then 0 else sequence + 1

-- `&universes[p * 512 .. min((p + 1) * 512, universes.len())]`, and the same for the data of a
-- universe.
abbrev pub chunk : ℕ → ℕ → List ℕ → List ℕ
chunk size i xs = take size (drop (i * size) xs)

module _ {U : Type 0} where
  abbrev pub check_allowed : ℕ → List ℕ → Result U (Unit {0})
  check_allowed u universes = elim (is_universe_in_range {U = U} u) [
    | err e ↦ err e
    | panic ↦ panic
    | ok _ ↦ if contains_universe u universes then ok tt else err (universe_not_registered u)
  ]

  -- The check of all the universes of a call of `send`.
  unfoldable pub check_all_allowed : List ℕ → List ℕ → Result U (Unit {0})
  check_all_allowed [] universes = ok tt
  check_all_allowed (u ∷ us) universes = elim (check_allowed u universes) [
    | ok _ ↦ check_all_allowed us universes
    | err e ↦ err e
    | panic ↦ panic
  ]

  -- `map_err(|_e| IllegalSyncUniverse)`
  abbrev pub check_sync_allowed : Option ℕ → List ℕ → Result U (Unit {0})
  check_sync_allowed none universes = ok tt
  check_sync_allowed (some u) universes = elim (check_allowed u universes) [
    | ok _ ↦ ok tt
    | err _ ↦ err (illegal_sync_universe u)
    | panic ↦ panic
  ]

  unfoldable pub source_multicast_addr : SocketAddr → ℕ → Result U SocketAddr
  source_multicast_addr (v6 _ _) universe = universe_to_ipv6_multicast_addr universe
  source_multicast_addr (v4 _ _) universe = universe_to_ipv4_multicast_addr universe

  -- Where a packet goes: to the address given, or to the multicast address of its universe.
  abbrev pub destination : SocketAddr → Option SocketAddr → ℕ → Result U SocketAddr
  destination addr (some dst) universe = ok dst
  destination addr none universe = source_multicast_addr addr universe

  -- `unwrap` on the bytes of a packet.
  abbrev pub unwrap : {A : Type 0} → Result U A → Result U A
  unwrap (ok a) = ok a
  unwrap (err e) = panic
  unwrap panic = panic

module _ {S U : Type 0} where
  unfoldable pub register_universe : ℕ → Stateful (SacnSourceInternal S U) (SacnError U) (Unit {0})
  register_universe universe = do
    lift (is_universe_in_range universe)
    λ self. (
      ok tt,
      if contains_universe universe self.universes
          then self
          else record self { universes = insert_universe universe self.universes },
    )

  unfoldable pub register_universes :
      List ℕ → Stateful (SacnSourceInternal S U) (SacnError U) (Unit {0})
  unfolding register_universe
  register_universes [] = return tt
  register_universes (u ∷ us) = register_universe u >> register_universes us

  unfoldable pub deregister_universe :
      ℕ → Stateful (SacnSourceInternal S U) (SacnError U) (Unit {0})
  deregister_universe universe = do
    lift (is_universe_in_range universe)
    λ self.
        if contains_universe universe self.universes
        then (ok tt, record self { universes = delete_universe universe self.universes })
        else (err (universe_not_found universe), self)

  unfoldable pub universe_allowed : ℕ → SacnSourceInternal S U → Result U (Unit {0})
  universe_allowed u self = check_allowed u self.universes

  unfoldable pub set_name : List ℕ → Stateful (SacnSourceInternal S U) (SacnError U) (Unit {0})
  set_name name self =
      if ltb e131_source_name_field_length (length name)
      then (
        err (malformed_source_name (text "Source name provided is longer than maximum allowed")),
        self,
      )
      else (ok tt, record self { name = name })

  -- The packets of a source.
  unfoldable pub data_packet_of :
      SacnSourceInternal S U → ℕ → ℕ → ℕ → Bool → ℕ → List ℕ → AcnRootLayerProtocol U
  data_packet_of self priority sync_address sequence stream_terminated universe values = record {
    pdu = record {
      cid = self.cid;
      payload = data_packet (record {
        source_name = self.name;
        priority = priority;
        synchronization_address = sync_address;
        sequence_number = sequence;
        preview_data = self.preview_data;
        stream_terminated = stream_terminated;
        force_synchronization = false;
        universe = universe;
        dmp = record { property_values = values };
      });
    };
  }

  unfoldable pub sync_packet_of : SacnSourceInternal S U → ℕ → ℕ → AcnRootLayerProtocol U
  sync_packet_of self sequence universe = record {
    pdu = record {
      cid = self.cid;
      payload =
          synchronization_packet
            (record { sequence_number = sequence; synchronization_address = universe });
    };
  }

  unfoldable pub discovery_packet_of :
      SacnSourceInternal S U → ℕ → ℕ → List ℕ → AcnRootLayerProtocol U
  discovery_packet_of self page last_page universes = record {
    pdu = record {
      cid = self.cid;
      payload = universe_discovery_packet (record {
        source_name = self.name;
        layer = record { page = page; last_page = last_page; universes = universes };
      });
    };
  }
