-- ===== src/PacketVerifier/Verifier/Writes.antt =====
-- Calls that return, and the steps of Daemon::handle_file in iot_packet_verifier/src/daemon.rs that
-- write to the tables and to the sinks.
use oracles.Prelude.{ℕ, ◌≡◌, [], some, Outcome, ok, err, panic, Action, ◌>>=◌, done, arith}
use oracles.PacketVerifier.Solana.{PublicKey, SolanaNetwork}
use oracles.PacketVerifier.Pending.{statement, on_db, add_burned_amount, begin, commit}
use oracles.PacketVerifier.Orgs.{OrgService}
use oracles.PacketVerifier.Verifier.{
  PacketReport, Daemon, VerificationError, on_world, on_valid, on_invalid, write, burn_error,
  valid_packet_writer_error, invalid_packet_writer_error, valid_packet, invalid_packet, into_stream,
  commit_sink,
}

-- A call returns, in a state with a property.
abbrev pub Returns : {S E A : Type 0} → (S → Type 0) → Outcome E A × S → Type 0
Returns P (ok a, s) = P s
Returns P (err e, s) = ⊥
Returns P (panic, s) = ⊥

module _ {S E A B : Type 0} (P : S → Type 0) where
  from-Returns :
      (r : Outcome E A × S) (f : A → Action S E B)
      → Returns P r
      → ((a : A) (s : S) → P s → Returns P (f a s))
      → Returns {E = E} {A = B} P
          (elim r.0 [ ok a ↦ f a r.1 | err e ↦ (err e, r.1) | panic ↦ (panic, r.1) ])
  from-Returns (ok a, s) f h k = k a s h
  from-Returns (err e, s) f h k = absurd h
  from-Returns (panic, s) f h k = absurd h

  pub bind-Returns :
      (m : Action S E A) (f : A → Action S E B) (s : S)
      → Returns P (m s)
      → ((a : A) (t : S) → P t → Returns P (f a t))
      → Returns P ((m >>= f) s)
  bind-Returns m f s = from-Returns (m s) f

-- The chain and the service answer every call, and every organisation has a payer.
pub record Answering {Chain E Transaction Server CE : Type 0}
    (net : SolanaNetwork Chain E Transaction) (service : OrgService Server CE) : Type 0 where
  pub payer_balance :
      (payer : PublicKey) (c : Chain)
      → (b : ℕ) × (c' : Chain) × (net.payer_balance payer c ≡ (done b, c'))
  pub get :
      (oui : ℕ) (s : Server)
      → (payer : PublicKey) × (s' : Server) × (service.get oui s ≡ (done (some payer), s'))
  pub disable : (oui : ℕ) (s : Server) → (s' : Server) × (service.disable oui s ≡ (done tt, s'))

-- No statement, no write and no commit of a sink is to fail.
pub record Faultless {Chain Server : Type 0} (d : Daemon Chain Server) : Type 0 where
  pub db : d.world.db.faults ≡ []
  pub valid_packets : d.valid_packets.faults ≡ []
  pub invalid_packets : d.invalid_packets.faults ≡ []

module _ {Chain Server : Type 0} (E CE : Type 0) where
  pub begin-Returns :
      (d : Daemon Chain Server)
      → Faultless d
      → Returns Faultless
          (on_world {F = VerificationError E CE} burn_error (on_db (λ e. e) begin) d)
  unfolding on_world on_db begin statement
  begin-Returns d h =
      let a = h.db in let b = h.valid_packets in let c = h.invalid_packets in ground arith

  pub commit-Returns :
      (d : Daemon Chain Server)
      → Faultless d
      → Returns Faultless
          (on_world {F = VerificationError E CE} burn_error (on_db (λ e. e) commit) d)
  unfolding on_world on_db commit statement
  commit-Returns d h =
      let a = h.db in let b = h.valid_packets in let c = h.invalid_packets in ground arith

  pub add-Returns :
      (payer amount now : ℕ) (d : Daemon Chain Server)
      → Faultless d
      → Returns Faultless (
          on_world {F = VerificationError E CE} burn_error
            (on_db (λ e. e) (add_burned_amount payer amount now))
            d)
  unfolding on_world on_db add_burned_amount statement
  add-Returns payer amount now d h =
      let a = h.db in let b = h.valid_packets in let c = h.invalid_packets in ground arith

  pub valid-Returns :
      (r : PacketReport) (amount : ℕ) (d : Daemon Chain Server)
      → Faultless d
      → Returns Faultless (
          on_valid {F = VerificationError E CE} valid_packet_writer_error
            (write (valid_packet r amount))
            d)
  unfolding on_valid write
  valid-Returns r amount d h =
      let a = h.db in let b = h.valid_packets in let c = h.invalid_packets in ground arith

  pub invalid-Returns :
      (r : PacketReport) (d : Daemon Chain Server)
      → Faultless d
      → Returns Faultless (
          on_invalid {F = VerificationError E CE} invalid_packet_writer_error
            (write (invalid_packet r))
            d)
  unfolding on_invalid write
  invalid-Returns r d h =
      let a = h.db in let b = h.valid_packets in let c = h.invalid_packets in ground arith

  pub into_stream-Returns :
      (d : Daemon Chain Server)
      → Faultless d
      → Returns Faultless
          (on_world {F = VerificationError E CE} burn_error (on_db (λ e. e) into_stream) d)
  unfolding on_world on_db into_stream statement
  into_stream-Returns d h =
      let a = h.db in let b = h.valid_packets in let c = h.invalid_packets in ground arith

  pub commit_valid-Returns :
      (d : Daemon Chain Server)
      → Faultless d
      → Returns Faultless
          (on_valid {F = VerificationError E CE} valid_packet_writer_error commit_sink d)
  unfolding on_valid commit_sink
  commit_valid-Returns d h =
      let a = h.db in let b = h.valid_packets in let c = h.invalid_packets in ground arith

  pub commit_invalid-Returns :
      (d : Daemon Chain Server)
      → Faultless d
      → Returns Faultless
          (on_invalid {F = VerificationError E CE} invalid_packet_writer_error commit_sink d)
  unfolding on_invalid commit_sink
  commit_invalid-Returns d h =
      let a = h.db in let b = h.valid_packets in let c = h.invalid_packets in ground arith
