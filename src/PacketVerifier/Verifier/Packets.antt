-- ===== src/PacketVerifier/Verifier/Packets.antt =====
-- iot_packet_verifier/src/verifier.rs: which packets `verify` writes.
use mathlib.Core.List.{append_assoc, append-nil}
use oracles.Prelude.{
  ◌↔◌, ℕ, ◌*◌, ◌%◌, ◌^◌, ◌≤◌, ◌<◌, ◌≡◌, refl, sym, ◌∙◌, ◌≢◌, ◌⊎◌, List, [], ◌∷◌, ◌++◌, Option, none,
  some, panic, Ends, Ends-bind, Ends-mono, inl, inr, arith, Dict, Action, pure,
}
use oracles.PacketVerifier.Solana.{PublicKey, SolanaNetwork}
use oracles.PacketVerifier.Balances.{Cache, debit_if_sufficient}
use oracles.PacketVerifier.Balances.Debit.{debit_if_sufficient-ne-panic}
use oracles.PacketVerifier.Pending.{statement}
use oracles.PacketVerifier.Orgs.{OrgService, OrgClient, ConfigServerError, fetch_org}
use oracles.PacketVerifier.Verifier.{
  Daemon, PacketReport, PacketType, uplink, join, offer, VerificationError, debit_error,
  config_error, on_orgs, on_cache, accept, reject, charge, charge_org, debit_org, verify_uplink,
  verify_report, verify_from, verify, payload_size_to_dc, ValidPacket, InvalidPacket, valid_packet,
  invalid_packet, bytes_per_dc, insufficient_balance,
}
use oracles.PacketVerifier.Verifier.Charges.{fetch_org-ne-panic, disable_org-ne-panic}

-- The price of a payload, whose size is a `u32`, is one credit at least, and a number of credits from
-- one on is at least the price exactly if it covers the payload at 24 bytes a credit.
pub payload_size_to_dc-ceil :
    (size n : ℕ)
    → size < 2 ^ 32
    → 1 ≤ n
    → (1 ≤ payload_size_to_dc size) × ((payload_size_to_dc size ≤ n) ↔ (size ≤ bytes_per_dc * n))
unfolding payload_size_to_dc
payload_size_to_dc-ceil size n h one = (omega arith, ground arith)

-- A packet that is written for a report: it is about the report, and a valid one has the price.
pub record IsCharged (r : PacketReport) (v : ValidPacket) : Type 0 where
  pub packet_timestamp : v.packet_timestamp ≡ r.timestamp
  pub payload_size : v.payload_size ≡ r.payload_size
  pub gateway : v.gateway ≡ r.gateway
  pub payload_hash : v.payload_hash ≡ r.payload_hash
  pub num_dcs : v.num_dcs ≡ payload_size_to_dc r.payload_size % 2 ^ 32

pub record IsRefused (r : PacketReport) (u : InvalidPacket) : Type 0 where
  pub payload_size : u.payload_size ≡ r.payload_size
  pub gateway : u.gateway ≡ r.gateway
  pub payload_hash : u.payload_hash ≡ r.payload_hash
  pub reason : u.reason ≡ insufficient_balance

-- The verdicts on a file's reports: each uplink is charged or refused, in the order of the reports,
-- and every other packet is skipped.
pub data Verdicts : List (PacketReport × ℕ) → List ValidPacket → List InvalidPacket → Type 0 where
  finished : Verdicts [] [] []
  skipped :
      {r : PacketReport} {now : ℕ} {rs : List (PacketReport × ℕ)} {vs : List ValidPacket}
      {us : List InvalidPacket}
      → r.packet_type ≢ uplink
      → Verdicts rs vs us
      → Verdicts ((r, now) ∷ rs) vs us
  charged :
      {r : PacketReport} {now : ℕ} {rs : List (PacketReport × ℕ)} {vs : List ValidPacket}
      {us : List InvalidPacket} {v : ValidPacket}
      → r.packet_type ≡ uplink
      → IsCharged r v
      → Verdicts rs vs us
      → Verdicts ((r, now) ∷ rs) (v ∷ vs) us
  refused :
      {r : PacketReport} {now : ℕ} {rs : List (PacketReport × ℕ)} {vs : List ValidPacket}
      {us : List InvalidPacket} {u : InvalidPacket}
      → r.packet_type ≡ uplink
      → IsRefused r u
      → Verdicts rs vs us
      → Verdicts ((r, now) ∷ rs) vs (u ∷ us)

module _ {Chain E Transaction Server CE : Type 0} (net : SolanaNetwork Chain E Transaction)
    (service : OrgService Server CE) where
  -- The packets that have been written since `d`.
  abbrev Wrote :
      Daemon Chain Server → List ValidPacket → List InvalidPacket → Daemon Chain Server → Type 0
  Wrote d vs us d' =
      (d'.valid_packets.written ≡ d.valid_packets.written ++ vs)
      × (d'.invalid_packets.written ≡ d.invalid_packets.written ++ us)

  accept-Wrote :
      (minimum : ℕ) (r : PacketReport) (payer amount remaining now : ℕ) (d : Daemon Chain Server)
      → Ends
          (λ _ d'. Wrote d (valid_packet r amount ∷ []) [] d')
          (accept net service minimum r payer amount remaining now d)
  unfolding accept statement
  accept-Wrote minimum r payer amount remaining now d =
      ground
        (arith, disable_org-ne-panic service r.oui d.orgs, append-nil d.invalid_packets.written)

  reject-Wrote :
      (r : PacketReport) (d : Daemon Chain Server)
      → Ends (λ _ d'. Wrote d [] (invalid_packet r ∷ []) d') (reject net service r d)
  unfolding reject
  reject-Wrote r d =
      ground (arith, disable_org-ne-panic service r.oui d.orgs, append-nil d.valid_packets.written)

  -- One packet is written for an uplink: charged at its price, or refused.
  abbrev WroteOne : PacketReport → Daemon Chain Server → Daemon Chain Server → Type 0
  WroteOne r d d' =
      Wrote d (valid_packet r (payload_size_to_dc r.payload_size) ∷ []) [] d'
      ⊎ Wrote d [] (invalid_packet r ∷ []) d'

  charge_org-WroteOne :
      (minimum : ℕ) (r : PacketReport) (now payer : ℕ) (org_cache : Dict PublicKey) (o : Option ℕ)
      (d : Daemon Chain Server)
      → Ends (λ _ d'. WroteOne r d d') (charge_org net service minimum r now (payer, org_cache) o d)
  unfolding charge_org charge
  charge_org-WroteOne minimum r now payer org_cache none d =
      Ends-bind (λ _ d'. Wrote d [] (invalid_packet r ∷ []) d') (λ _ d'. WroteOne r d d')
        (reject net service r) (λ _. pure org_cache) d (reject-Wrote r d) (λ _ d' e. inr e)
  charge_org-WroteOne minimum r now payer org_cache (some remaining) d =
      let price = payload_size_to_dc r.payload_size in
      Ends-bind (λ _ d'. Wrote d (valid_packet r price ∷ []) [] d') (λ _ d'. WroteOne r d d')
        (accept net service minimum r payer price remaining now) (λ _. pure org_cache) d
        (accept-Wrote minimum r payer price remaining now d) (λ _ d' e. inl e)

  -- The sinks are as they were.
  abbrev Quiet : Daemon Chain Server → Daemon Chain Server → Type 0
  Quiet d d' = (d'.valid_packets ≡ d.valid_packets) × (d'.invalid_packets ≡ d.invalid_packets)

  on_cache-Quiet :
      {A : Type 0} (m : Action (Cache Chain) E A) (d : Daemon Chain Server)
      → (m d.world.cache).0 ≢ panic
      → Ends {E = VerificationError E CE} (λ _ d'. Quiet d d') (on_cache debit_error m d)
  unfolding on_cache
  on_cache-Quiet m d n = ground arith

  on_orgs-Quiet :
      {A : Type 0} (m : Action (OrgClient Server) (ConfigServerError CE) A)
      (d : Daemon Chain Server)
      → (m d.orgs).0 ≢ panic
      → Ends {E = VerificationError E CE} (λ _ d'. Quiet d d') (on_orgs config_error m d)
  unfolding on_orgs
  on_orgs-Quiet m d n = ground arith

  Quiet-WroteOne :
      (r : PacketReport) (d d' d'' : Daemon Chain Server)
      → Quiet d d'
      → WroteOne r d' d''
      → WroteOne r d d''
  Quiet-WroteOne r d d' d'' q (inl (v, u)) = inl (rw (← q.0) v, rw (← q.1) u)
  Quiet-WroteOne r d d' d'' q (inr (v, u)) = inr (rw (← q.0) v, rw (← q.1) u)

  debit_org-WroteOne :
      (minimum : ℕ) (r : PacketReport) (now : ℕ) (found : PublicKey × Dict PublicKey)
      (d : Daemon Chain Server)
      → Ends (λ _ d'. WroteOne r d d') (debit_org net service minimum r now found d)
  unfolding debit_org
  debit_org-WroteOne minimum r now found d =
      let debit = debit_if_sufficient net found.0 (payload_size_to_dc r.payload_size) minimum in
      Ends-bind (λ _ d'. Quiet d d') (λ _ d'. WroteOne r d d') (on_cache debit_error debit)
        (charge_org net service minimum r now found) d
        (on_cache-Quiet debit d (
          debit_if_sufficient-ne-panic net found.0 (payload_size_to_dc r.payload_size) minimum
            d.world.cache))
        (λ o d' q.
          Ends-mono (λ _ d''. WroteOne r d' d'') (λ _ d''. WroteOne r d d'') _
            (λ _ d'' w. Quiet-WroteOne r d d' d'' q w)
            (charge_org-WroteOne minimum r now found.0 found.1 o d'))

  verify_uplink-WroteOne :
      (minimum : ℕ) (org_cache : Dict PublicKey) (r : PacketReport) (now : ℕ)
      (d : Daemon Chain Server)
      → Ends (λ _ d'. WroteOne r d d') (verify_uplink net service minimum org_cache r now d)
  unfolding verify_uplink
  verify_uplink-WroteOne minimum org_cache r now d =
      Ends-bind (λ _ d'. Quiet d d') (λ _ d'. WroteOne r d d')
        (on_orgs config_error (fetch_org service r.oui org_cache))
        (debit_org net service minimum r now) d
        (on_orgs-Quiet (fetch_org service r.oui org_cache) d
          (fetch_org-ne-panic service r.oui org_cache d.orgs))
        (λ found d' q.
          Ends-mono (λ _ d''. WroteOne r d' d'') (λ _ d''. WroteOne r d d'') _
            (λ _ d'' w. Quiet-WroteOne r d d' d'' q w) (debit_org-WroteOne minimum r now found d'))

  -- The packets that a file has added are verdicts on its reports.
  abbrev pub Judged : List (PacketReport × ℕ) → Daemon Chain Server → Daemon Chain Server → Type 0
  Judged reports d d' =
      (vs : List ValidPacket) × (us : List InvalidPacket) × Verdicts reports vs us
      × Wrote d vs us d'

  -- What one report adds, by its type.
  abbrev WroteReport :
      PacketType → PacketReport → Daemon Chain Server → Daemon Chain Server → Type 0
  WroteReport uplink r d d' = WroteOne r d d'
  WroteReport join r d d' = Quiet d d'
  WroteReport offer r d d' = Quiet d d'

  verify_report-WroteReport :
      (minimum : ℕ) (org_cache : Dict PublicKey) (t : PacketType) (r : PacketReport) (now : ℕ)
      (d : Daemon Chain Server)
      → Ends (λ _ d'. WroteReport t r d d') (verify_report net service minimum org_cache t r now d)
  unfolding verify_report
  verify_report-WroteReport minimum org_cache uplink r now d =
      verify_uplink-WroteOne minimum org_cache r now d
  verify_report-WroteReport minimum org_cache join r now d = (refl, refl)
  verify_report-WroteReport minimum org_cache offer r now d = (refl, refl)

  Judged-skip :
      (r : PacketReport) (now : ℕ) (rs : List (PacketReport × ℕ)) (d d' d'' : Daemon Chain Server)
      → r.packet_type ≢ uplink
      → Quiet d d'
      → Judged rs d' d''
      → Judged ((r, now) ∷ rs) d d''
  Judged-skip r now rs d d' d'' n q (vs, us, v, w) =
      (vs, us, skipped n v, (rw (← q.0) w.0, rw (← q.1) w.1))

  Judged-cons :
      (t : PacketType) (r : PacketReport) (now : ℕ) (rs : List (PacketReport × ℕ))
      (d d' d'' : Daemon Chain Server)
      → r.packet_type ≡ t
      → WroteReport t r d d'
      → Judged rs d' d''
      → Judged ((r, now) ∷ rs) d d''
  Judged-cons uplink r now rs d d' d'' e (inl (v, u)) (vs, us, w, z) = (
    valid_packet r (payload_size_to_dc r.payload_size) ∷ vs,
    us,
    charged e
        (record {
          packet_timestamp = refl;
          payload_size = refl;
          gateway = refl;
          payload_hash = refl;
          num_dcs = refl;
        })
        w,
    (z.0 ∙ rw (v, append_assoc) refl, z.1 ∙ rw (u, append-nil) refl),
  )
  Judged-cons uplink r now rs d d' d'' e (inr (v, u)) (vs, us, w, z) = (
    vs,
    invalid_packet r ∷ us,
    refused e (record { payload_size = refl; gateway = refl; payload_hash = refl; reason = refl })
        w,
    (z.0 ∙ rw (v, append-nil) refl, z.1 ∙ rw (u, append_assoc) refl),
  )
  Judged-cons join r now rs d d' d'' e q j = Judged-skip r now rs d d' d'' (λ x. cc) q j
  Judged-cons offer r now rs d d' d'' e q j = Judged-skip r now rs d d' d'' (λ x. cc) q j

  verify_from-Judged :
      (minimum : ℕ) (org_cache : Dict PublicKey) (reports : List (PacketReport × ℕ))
      (d : Daemon Chain Server)
      → Ends (λ _ d'. Judged reports d d') (verify_from net service minimum org_cache reports d)
  unfolding verify_from
  verify_from-Judged minimum org_cache [] d = (
    [],
    [],
    finished,
    (sym (append-nil d.valid_packets.written), sym (append-nil d.invalid_packets.written)),
  )
  verify_from-Judged minimum org_cache ((r, now) ∷ reports) d =
      Ends-bind (λ _ d'. WroteReport r.packet_type r d d')
        (λ _ d'. Judged ((r, now) ∷ reports) d d')
        (verify_report net service minimum org_cache r.packet_type r now)
        (λ org_cache'. verify_from net service minimum org_cache' reports) d
        (verify_report-WroteReport minimum org_cache r.packet_type r now d)
        (λ org_cache' d' q.
          Ends-mono (λ _ d''. Judged reports d' d'') (λ _ d''. Judged ((r, now) ∷ reports) d d'') _
            (λ _ d'' j. Judged-cons r.packet_type r now reports d d' d'' refl q j)
            (verify_from-Judged minimum org_cache' reports d'))

  -- When `verify` returns, it has written exactly one packet for each uplink of the stream and none
  -- for other packets, in the order of the stream: a valid packet with the time, the size, the gateway
  -- and the hash of the report and with the price of its payload, as a u32, or an invalid one with the
  -- same of the report and the reason that the balance is insufficient. It does not panic.
  pub verify-Judged :
      (minimum : ℕ) (reports : List (PacketReport × ℕ)) (d : Daemon Chain Server)
      → Ends (λ _ d'. Judged reports d d') (verify net service minimum reports d)
  unfolding verify
  verify-Judged minimum reports d = verify_from-Judged minimum [] reports d
