-- ===== src/Source/Behaviour.antt =====
-- What a source of src/source.rs sends, and that a receiver accepts its sequence numbers.
use sacn_rust.Error.{SacnError, IoErrorKind, Result, io, invalid_priority, exceed_universe_capacity}
use sacn_rust.Common.HashMap.{insert}
use sacn_rust.Packet.Acn.{AcnRootLayerProtocol, pack_alloc}
use sacn_rust.Packet.Universe.{SocketAddr}
use sacn_rust.Receive.Sequence.Steps.{Accepts}
use sacn_rust.Receive.Sequence.{TimedStampedSeqNo}
use sacn_rust.External.{IsByte, UuidCrate, NetworkEndian}
use sacn_rust.Source.Sending.{send_universe, send_bytes, store_data_sequence}
use sacn_rust.Source.{
  SendCalls, SacnSourceInternal, current_sequence, next_sequence, destination, data_packet_of,
  unwrap,
}
use sacn_rust.Common.State.{Stateful, ◌>>=◌, ◌>>◌, bind_ok, lift, refuse_if}
use sacn_rust.Common.{
  ◌%◌, le→not_ltb, ℕ, ◌+◌, ◌<◌, ltb, ◌≡◌, ◌∙◌, ap, subst, Bool, false, Option, some, List, [],
  Outcome, ok, err, panic, ℕ_discrete, arith, length, append-nil,
}
use sacn_rust.Packet.Acn
use sacn_rust.Packet.Acn.RoundTrip as AcnTrip
use sacn_rust.Packet.DataFraming.RoundTrip as DataTrip
use sacn_rust.Packet.DataFraming.{DataPacketFramingLayer}

not_stale : (n k : ℕ) → n < 256 → k < 20 → (next_sequence n + k) % 256 ≡ n → ⊥
not_stale n k h small e = ground arith

-- The sequence number that a source sends after a sequence number that is a byte is again a byte,
-- and a receiver that has last seen the first accepts the second.
pub next_sequence-Accepts :
    (last : TimedStampedSeqNo)
    → IsByte last.sequence_number
    → IsByte (next_sequence last.sequence_number)
      × Accepts (next_sequence last.sequence_number) (some last)
unfolding Accepts
next_sequence-Accepts last h =
    (ground arith, (h, λ (k, small, e). not_stale last.sequence_number k h small e))

module _ {S U : Type 0} ⦃net : NetworkEndian⦄ ⦃crate : UuidCrate U⦄ ⦃calls : SendCalls S⦄ where
  send_bytes_ok :
      (bytes : List ℕ) (dst : SocketAddr) (self : SacnSourceInternal S U) {socket : S}
      → calls.send_to bytes dst self.socket ≡ (ok tt, socket)
      → send_bytes dst bytes self ≡ (ok tt, record self { socket = socket })
  send_bytes_ok bytes dst self sending =
      ap
        (λ (r : Outcome IoErrorKind (Unit {0}) × S).
          elim (r.0) as (λ _. Outcome (SacnError U) (Unit {0}) × SacnSourceInternal S U) [
            | ok _ ↦ (ok tt, record self { socket = r.1 })
            | err e ↦ (err (io e), record self { socket = r.1 })
            | panic ↦ (panic, record self { socket = r.1 })
          ])
        sending

  -- The calls of `send_universe`, one after the other, when none fails.
  steps_ok :
      (low short : Bool) (e e' : SacnError U) (to : Result U SocketAddr)
      (packed : Result U (List ℕ)) (bytes : List ℕ) (dst : SocketAddr)
      (self : SacnSourceInternal S U) {socket : S} (universe sequence : ℕ)
      → low ≡ false
      → short ≡ false
      → to ≡ ok dst
      → packed ≡ ok bytes
      → calls.send_to bytes dst self.socket ≡ (ok tt, socket)
      → (do
        refuse_if low e
        refuse_if short e'
        d ← lift to
        b ← lift (unwrap packed)
        send_bytes d b
        store_data_sequence universe sequence)
          self
        ≡ store_data_sequence universe sequence (record self { socket = socket })
  steps_ok low short e e' to packed bytes dst self universe sequence l h t p sending =
      let last : Stateful (SacnSourceInternal S U) (SacnError U) (Unit {0}) =
        store_data_sequence universe sequence in
      bind_ok (refuse_if low e) _ (ap (λ b. refuse_if b e self) l)
      ∙ bind_ok (refuse_if short e') _ (ap (λ b. refuse_if b e' self) h)
      ∙ bind_ok (lift to) _ (ap (λ r. lift r self) t)
      ∙ bind_ok (lift (unwrap packed)) _ (ap (λ r. lift (unwrap r) self) p)
      ∙ bind_ok (send_bytes dst bytes) (λ _. last) (send_bytes_ok bytes dst self sending)

  -- The data packet that `send_universe` sends.
  abbrev pub sent : SacnSourceInternal S U → ℕ → ℕ → ℕ → List ℕ → AcnRootLayerProtocol U
  sent self priority sync_address universe values =
      data_packet_of self priority sync_address (current_sequence universe self.data_sequences)
        false universe values

  -- Its framing layer.
  abbrev pub layer : SacnSourceInternal S U → ℕ → ℕ → ℕ → List ℕ → DataPacketFramingLayer
  layer self priority sync_address universe values = record {
    source_name = self.name;
    priority = priority;
    synchronization_address = sync_address;
    sequence_number = current_sequence universe self.data_sequences;
    preview_data = self.preview_data;
    stream_terminated = false;
    force_synchronization = false;
    universe = universe;
    dmp = record { property_values = values };
  }

  -- If the packet of `send_universe` has its fields in range, its destination exists and the socket
  -- sends it, `send_universe` succeeds: it has sent the packet's bytes to the destination and
  -- stored the next sequence number of the universe, and nothing else of the source has changed;
  -- and `parse` reads from these bytes the packet with the values, the universe and the sequence
  -- number that the source had for it.
  pub send_universe-sent :
      (self : SacnSourceInternal S U) (universe : ℕ) (values : List ℕ) (priority sync_address : ℕ)
      (dst_ip : Option SocketAddr) (dst : SocketAddr) (socket : S)
      → AcnTrip.Fits (sent self priority sync_address universe values)
      → destination {U = U} self.addr dst_ip universe ≡ ok dst
      → calls.send_to
          (AcnTrip.encode (sent self priority sync_address universe values))
          dst
          self.socket
        ≡ (ok tt, socket)
      → (send_universe universe values priority dst_ip sync_address self ≡ (
        ok tt,
        record self {
          socket = socket;
          data_sequences =
              insert ℕ_discrete universe
                (next_sequence (current_sequence universe self.data_sequences))
                self.data_sequences;
        },
      ))
        × (Acn.parse (AcnTrip.encode (sent self priority sync_address universe values))
            ≡ ok (sent self priority sync_address universe values))
  unfolding send_universe data_packet_of
  send_universe-sent self universe values priority sync_address dst_ip dst socket fits to sending =
      let packet = sent self priority sync_address universe values in
      let limits : DataTrip.Fits (layer self priority sync_address universe values) = fits in
      (
        steps_ok (ltb 200 priority) (ltb 513 (length values)) (invalid_priority priority)
            (exceed_universe_capacity (length values)) (destination self.addr dst_ip universe)
            (pack_alloc packet) (AcnTrip.encode packet) dst self universe
            (next_sequence (current_sequence universe self.data_sequences))
            (le→not_ltb 200 priority limits.priority_limit)
            (le→not_ltb 513 (length values) limits.values) to
            ((AcnTrip.pack_alloc-encode packet fits).0) sending,
        subst (λ bytes. Acn.parse bytes ≡ ok packet) (append-nil (AcnTrip.encode packet))
            (AcnTrip.parse-encode packet [] fits),
      )
