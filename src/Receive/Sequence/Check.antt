-- ===== src/Receive/Sequence/Check.antt =====
-- `check_seq_number` of src/receive.rs, as an operation on the table of the last sequence numbers,
-- without announcing timeouts.
use sacn_rust.Common.{
  sym, subst, le→not_ltb, ap, ℕ, ◌≤◌, ◌≡◌, ◌∙◌, refl, false, Option, none, some, ok, err, length,
}
use sacn_rust.Common.State.{bind_ok, bind_err, ◌>>◌}
use sacn_rust.Common.HashMap.{get}
use sacn_rust.Packet.Constants.{e131_network_data_loss_timeout}
use sacn_rust.Error.{out_of_sequence, sources_exceeded_error}
use sacn_rust.External.{UuidCrate, IsByte}
use sacn_rust.Receive.Sequence.{
  TimedStampedSeqNo, Sequences, check_timeouts, add_source, accept_seq, check_seq_number,
  wrapping_sub, as_i8,
}
use sacn_rust.Receive.Sequence.Window.{IsStale, is_discarded-IsStale}
use sacn_rust.Receive.Sequence.Lookup.{last_seq-some, IsTable, last_seq, check_timeouts-live}
use sacn_rust.Receive.Sequence.Steps.{
  Accepts, put, put_same, HasPlace, add_source_known, accept_seq_stale, expired, live_seq, check,
  check_step, add_source_place, accept_seq_place,
}

module _ {U : Type 0} ⦃crate : UuidCrate U⦄ where
  -- Without announcing timeouts, a packet whose number is stale (one of the last twenty numbers,
  -- around 256, counted from the last number of its source and universe that is still alive) is
  -- refused with `OutOfSequence`; the table of last numbers is then the table after the timeouts.
  pub check_seq_number-IsStale :
      (now : ℕ) (limit : Option ℕ) (cid : U) (n universe : ℕ) (s : Sequences U)
      (last : TimedStampedSeqNo)
      → IsTable s
      → IsByte n
      → live_seq now s cid universe ≡ some last
      → IsByte last.sequence_number
      → IsStale last.sequence_number n
      → ((check now limit cid n universe s).0
          ≡ err (
              out_of_sequence n last.sequence_number (as_i8 (wrapping_sub n last.sequence_number))))
        × ((c : U) (u : ℕ)
            → last_seq ((check now limit cid n universe s).1) c u ≡ live_seq now s c u)
  check_seq_number-IsStale now limit cid n universe s last h hn e hl stale =
      let (_, _, table) = check_timeouts-live now e131_network_data_loss_timeout s cid universe h in
      let (us, known, l) = last_seq-some (expired now s) cid universe (table ∙ e) in
      let r =
        check_step now limit cid n universe s (add_source_known limit cid (expired now s) known)
        ∙ accept_seq_stale now cid n universe (expired now s) known l
            ((is_discarded-IsStale last.sequence_number n hl hn).1 stale) in
      (
        ap (λ r. r.0) r,
        λ c u.
            ap (λ r. last_seq r.1 c u) r
            ∙ (check_timeouts-live now e131_network_data_loss_timeout s c u h).2,
      )

  -- Without announcing timeouts, a packet whose number is the first of its universe or not stale,
  -- from a source that is known after the timeouts or for which there is room, passes
  -- `check_seq_number`; the table of last numbers is then the table after the timeouts with the
  -- packet's number stored at the present time, and is still a table with one entry for each key.
  pub check_seq_number-Accepts :
      (now : ℕ) (limit : Option ℕ) (cid : U) (n universe : ℕ) (s : Sequences U)
      → IsTable s
      → IsByte n
      → HasPlace limit cid (expired now s)
      → Accepts n (live_seq now s cid universe)
      → ((check now limit cid n universe s).0 ≡ ok tt)
        × IsTable ((check now limit cid n universe s).1)
        × ((c : U) (u : ℕ)
            → last_seq ((check now limit cid n universe s).1) c u
              ≡ put cid universe
                  (record { sequence_number = n; last_recv = now })
                  (live_seq now s)
                  c
                  u)
  check_seq_number-Accepts now limit cid n universe s h hn place fresh =
      let t0 = e131_network_data_loss_timeout in
      let table = λ (c : U) (u : ℕ). (check_timeouts-live now t0 s c u h).2 in
      let h1 = (check_timeouts-live now t0 s cid universe h).1 in
      let (s2, us, added, h2, known, same) = add_source_place limit cid (expired now s) h1 place in
      let (s3, accepted, h3, stored) =
        accept_seq_place now cid n universe s2 us h2 hn known
          (subst (Accepts n) (sym (same cid universe ∙ table cid universe)) fresh) in
      let r = check_step now limit cid n universe s added ∙ accepted in
      (
        ap (λ r. r.0) r,
        subst (λ r. IsTable r.1) (sym r) h3,
        λ c u.
            ap (λ r. last_seq r.1 c u) r
            ∙ stored c u
            ∙ put_same cid universe (record { sequence_number = n; last_recv = now }) (last_seq s2)
                (live_seq now s) c u (same c u ∙ table c u),
      )

  -- Without announcing timeouts, a packet of a source that is not known after the timeouts is
  -- refused with `SourcesExceededError` if the limit is reached; the sequence numbers are those
  -- after the timeouts.
  pub check_seq_number-full :
      (now : ℕ) (limit : ℕ) (cid : U) (n universe : ℕ) (s : Sequences U)
      → get crate.equal cid (expired now s) ≡ none
      → limit ≤ length (expired now s)
      → check now (some limit) cid n universe s
        ≡ (err (sources_exceeded_error (length (expired now s))), expired now s)
  unfolding check_seq_number check_timeouts add_source
  check_seq_number-full now limit cid n universe s unknown full =
      bind_ok (check_timeouts now e131_network_data_loss_timeout false)
        (λ _. add_source (some limit) cid >> accept_seq now cid n universe) refl
      ∙ bind_err (add_source (some limit) cid) (λ _. accept_seq now cid n universe)
          (rw (add_source, unknown, le→not_ltb (length (expired now s)) limit full))
