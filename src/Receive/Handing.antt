-- ===== src/Receive/Handing.antt =====
-- Which data packets make `handle_data_packet` of src/receive.rs hand data on.
use sacn_rust.Common.{
  ◌==◌, arith, ℕ, ◌≡◌, ◌∙◌, ◌&&◌, sym, subst, ap, inl, inr, true, false, not, none, some, List, [],
  ◌∷◌, ok, err, ℕ_discrete, Bool-cases,
}
use sacn_rust.Common.State.{Stateful, ◌>>◌, ◌>>=◌, and_then-eq-ok, return}
use sacn_rust.Common.HashMap.{get, get-remove_self}
use sacn_rust.External.{UuidCrate}
use sacn_rust.Packet.Constants.{e131_no_sync_addr}
use sacn_rust.Packet.DataFraming.{DataPacketFramingLayer}
use sacn_rust.Error.{universe_terminated}
use sacn_rust.Receive.Merge.{DmxData}
use sacn_rust.Receive.Network.{SocketCalls}
use sacn_rust.Receive.Receiver.{SacnReceiver, is_listening, clear_waiting_data, listen_universes}
use sacn_rust.Receive.Handlers.{
  check_data_packet, deliver_data_packet, packet_data, store_waiting_data, handle_data_packet,
}

eq_lem : (a b : ℕ) → (a == b) ≡ true → a ≡ b
eq_lem a b e = ground arith

-- A call that returns `None` if it succeeds.
return_none_lem :
    {S E A B : Type 0} (m : Stateful S E A) (s : S) (b : B)
    → ((m >>= λ _. return none) s).0 ≡ ok (some b)
    → ⊥
return_none_lem m s b e = let (a, _, rest) = and_then-eq-ok (m s) (λ _. return none) e in cc

module _ {S U : Type 0} ⦃crate : UuidCrate U⦄ ⦃calls : SocketCalls S⦄ where
  -- The data of a packet, with no synchronisation, as the only piece; none waits for its universe.
  abbrev pub IsPlain : ℕ → U → DataPacketFramingLayer → List (DmxData U) → SacnReceiver S U → Type 0
  IsPlain now cid pkt given after =
      (pkt.synchronization_address ≡ 0)
      × (given
          ≡ record {
            universe = pkt.universe;
            values = pkt.dmp.property_values;
            sync_uni = 0;
            priority = pkt.priority;
            src_cid = some cid;
            preview = pkt.preview_data;
            recv_timestamp = now;
          }
            ∷ [])
      × (get ℕ_discrete pkt.universe after.waiting_data ≡ none)

  deliver_data_packet-some :
      (now : ℕ) (cid : U) (pkt : DataPacketFramingLayer) (self after : SacnReceiver S U)
      (given : List (DmxData U))
      → deliver_data_packet now cid pkt self ≡ (ok (some given), after)
      → IsPlain now cid pkt given after
  unfolding deliver_data_packet clear_waiting_data packet_data
  deliver_data_packet-some now cid pkt self after given e =
      elim (Bool-cases (pkt.synchronization_address == e131_no_sync_addr)) [
        | inl b ↦
            let sync = eq_lem pkt.synchronization_address 0 b in
            let same : deliver_data_packet now cid pkt self ≡ (
              ok (some (packet_data now cid pkt ∷ [])),
              (clear_waiting_data pkt.universe self).1,
            ) =
              rw (deliver_data_packet, b) in
            let left : (clear_waiting_data pkt.universe self).1 ≡ after = cc in
            let only : packet_data now cid pkt ∷ [] ≡ given = cc in
            (
              sync,
              sym only ∙ ap (λ u. record (packet_data now cid pkt) { sync_uni = u } ∷ []) sync,
              subst (λ (s : SacnReceiver S U). get ℕ_discrete pkt.universe s.waiting_data ≡ none)
                  left (get-remove_self ℕ_discrete pkt.universe self.waiting_data),
            )
        | inr b ↦
            let waits =
              listen_universes (pkt.synchronization_address ∷ [])
              >> store_waiting_data (packet_data now cid pkt) in
            let same : deliver_data_packet now cid pkt self ≡ (waits >> return none) self =
              rw (deliver_data_packet, b) in
            absurd (return_none_lem waits self given (ap (λ r. r.0) (sym same ∙ e)))
      ]

  terminated_lem :
      (now : ℕ) (cid : U) (pkt : DataPacketFramingLayer) (self after : SacnReceiver S U)
      (given : List (DmxData U))
      → (pkt.preview_data && not self.process_preview_data) ≡ false
      → pkt.stream_terminated ≡ true
      → handle_data_packet now cid pkt self ≡ (ok (some given), after)
      → ⊥
  unfolding handle_data_packet
  terminated_lem now cid pkt self after given p q e =
      elim (Bool-cases self.announce_stream_termination) [
        | inl a ↦
            let told : (handle_data_packet now cid pkt self).0
                ≡ err (universe_terminated cid pkt.universe) =
              rw (handle_data_packet, p, q, a) in
            cc
        | inr a ↦
            let told : (handle_data_packet now cid pkt self).0 ≡ ok none =
              rw (handle_data_packet, p, q, a) in
            cc
      ]

  -- When `handle_data_packet` returns data, the packet is preview data only if that is asked for,
  -- ends no stream, is for a universe that the receiver listens to, has passed the check of its
  -- sequence number and has no synchronisation address; the data is one piece with the fields of
  -- the packet, and no data waits for its universe any more.
  pub handle_data_packet-some :
      (now : ℕ) (cid : U) (pkt : DataPacketFramingLayer) (self after : SacnReceiver S U)
      (given : List (DmxData U))
      → handle_data_packet now cid pkt self ≡ (ok (some given), after)
      → ((pkt.preview_data && not self.process_preview_data) ≡ false)
        × (pkt.stream_terminated ≡ false)
        × (is_listening self pkt.universe ≡ true)
        × ((check_data_packet now cid pkt self).0 ≡ ok tt)
        × IsPlain now cid pkt given after
  unfolding handle_data_packet
  handle_data_packet-some now cid pkt self after given e =
      elim (Bool-cases (pkt.preview_data && not self.process_preview_data)) [
        | inl p ↦
            let ignored : handle_data_packet now cid pkt self ≡ (ok none, self) =
              rw (handle_data_packet, p) in
            cc
        | inr p ↦ elim (Bool-cases pkt.stream_terminated) [
          | inl q ↦ absurd (terminated_lem now cid pkt self after given p q e)
          | inr q ↦ elim (Bool-cases (is_listening self pkt.universe)) [
            | inl l ↦
                let rest : handle_data_packet now cid pkt self
                    ≡ (check_data_packet now cid pkt >> deliver_data_packet now cid pkt) self =
                  rw (handle_data_packet, p, q, l) in
                let (_, checked, delivered) =
                  and_then-eq-ok (check_data_packet now cid pkt self)
                    (λ _. deliver_data_packet now cid pkt) (ap (λ r. r.0) (sym rest ∙ e)) in
                (
                  p,
                  q,
                  l,
                  checked,
                  deliver_data_packet-some now cid pkt ((check_data_packet now cid pkt self).1)
                      after given (sym delivered ∙ sym rest ∙ e),
                )
            | inr l ↦
                let ignored : handle_data_packet now cid pkt self ≡ (ok none, self) =
                  rw (handle_data_packet, p, q, l) in
                cc
          ]
        ]
      ]
