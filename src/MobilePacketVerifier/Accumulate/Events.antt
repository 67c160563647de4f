-- ===== src/MobilePacketVerifier/Accumulate/Events.antt =====
-- mobile_packet_verifier/src/accumulate.rs: what its statements do to the tables.
use oracles.Prelude.{
  ℕ, ◌≡◌, refl, sym, arith, Bool, true, false, ◌||◌, List, [], ◌∷◌, Option, none, some, Outcome, ok,
  err, panic, Action, Ends, lookup, lookup-insert, ◌==◌, ==_iff, Bool-cases, inl, inr,
}
use oracles.PacketVerifier.Pending.{SqlxError}
use oracles.MobilePacketVerifier.Accumulate.{
  IngestReport, Tables, Db, execute, put_event_id, Work, on_conn,
}

abbrev pub is_some {ℓ} : {A : Type ℓ} → Option A → Bool
is_some none = false
is_some (some a) = true

abbrev pub event_id_of : IngestReport → ℕ
event_id_of r = r.report.data_transfer_usage.event_id

-- What a statement that goes through does to the tables.
ran :
    {A : Type 0} (P : A → Tables → Type 0) (r : Outcome SqlxError A × Tables) (fs : List Bool)
    → Ends P r
    → Ends (λ a (d : Db). P a d.tables) (r.0, record { tables = r.1; faults = fs })
ran P (ok a, t) fs k = k
ran P (err e, t) fs k = tt
ran P (panic, t) fs k = k

pub execute-Ends :
    {A : Type 0} (P : A → Tables → Type 0) (run : Tables → Outcome SqlxError A × Tables)
    (t : Tables) (fs : List Bool)
    → Ends P (run t)
    → Ends (λ a d. P a d.tables) (execute run (record { tables = t; faults = fs }))
unfolding execute
execute-Ends P run t [] h = ran P (run t) [] h
execute-Ends P run t (true ∷ fs) h = tt
execute-Ends P run t (false ∷ fs) h = ran P (run t) fs h

pub on_conn-Ends :
    {A : Type 0} (P : A → Tables → Type 0) (m : Action Db SqlxError A) (w : Work)
    → Ends (λ a d. P a d.tables) (m w.conn)
    → Ends (λ a v. P a v.conn.tables × (v.invalid_sessions ≡ w.invalid_sessions)) (on_conn m w)
unfolding on_conn
on_conn-Ends {A} P m w h = lifted (m w.conn) h
  where
    lifted :
        (r : Outcome SqlxError A × Db)
        → Ends (λ a d. P a d.tables) r
        → Ends
            (λ a v. P a v.conn.tables × (v.invalid_sessions ≡ w.invalid_sessions))
            (on_conn (λ _. r) w)
    lifted (ok a, d) k = (k, refl)
    lifted (err e, d) k = tt
    lifted (panic, d) k = k

abbrev pub HasEvents : Tables → ℕ → Tables → Type 0
HasEvents t event_id t' =
    (t'.sessions ≡ t.sessions)
    × ((i : ℕ)
        → is_some (lookup i t'.event_ids) ≡ (is_some (lookup i t.event_ids) || (event_id == i)))

pub put_event_id-HasEvents :
    (event_id received : ℕ) (t : Tables) (o : Option ℕ)
    → lookup event_id t.event_ids ≡ o
    → Ends
        (λ rows t'. ((rows == 0) ≡ is_some o) × HasEvents t event_id t')
        (put_event_id event_id received t o)
put_event_id-HasEvents event_id received t none e =
    (refl, (refl, λ i. rw (lookup-insert event_id i received t.event_ids) (ground arith)))
put_event_id-HasEvents event_id received t (some a) e = (refl, (refl, λ i. old i))
  where
    old :
        (i : ℕ)
        → is_some (lookup i t.event_ids) ≡ (is_some (lookup i t.event_ids) || (event_id == i))
    old i = elim (Bool-cases (event_id == i)) [
      | inl q ↦ rw (sym ((==_iff event_id i).0 q), e) refl
      | inr q ↦ rw q (ground arith)
    ]
