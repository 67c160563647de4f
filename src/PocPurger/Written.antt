-- ===== src/PocPurger/Written.antt =====
-- iot_verifier/src/purger.rs: a report that is deleted has been written out.
use oracles.Prelude.{ℕ, ◌≡◌, refl, ◌⊎◌, inl, inr, List, [], ◌∷◌, ◌++◌}
use oracles.PocRunner.Reports.{Report}
use oracles.PocRunner.State.{InvalidBeaconReport, InvalidWitnessReport, Reading}
use oracles.PocPurger.{Purger, without_id}

-- An element of the list has the id.
abbrev pub HasId : {A : Type 0} → (A → ℕ) → ℕ → List A → Type 0
HasId id_of id [] = ⊥
HasId id_of id (x ∷ xs) = (id_of x ≡ id) ⊎ HasId id_of id xs

HasId-append :
    {A : Type 0} (id_of : A → ℕ) (id : ℕ) (xs ys : List A)
    → HasId id_of id xs
    → HasId id_of id (xs ++ ys)
HasId-append id_of id [] ys h = absurd h
HasId-append id_of id (x ∷ xs) ys (inl e) = inl e
HasId-append id_of id (x ∷ xs) ys (inr h) = inr (HasId-append id_of id xs ys h)

pub HasId-last :
    {A : Type 0} (id_of : A → ℕ) (xs : List A) (x : A) → HasId id_of (id_of x) (xs ++ x ∷ [])
HasId-last id_of [] x = inl refl
HasId-last id_of (y ∷ xs) x = inr (HasId-last id_of xs x)

-- The rows without those of the ids.
abbrev pub without : List ℕ → List Report → List Report
without [] rows = rows
without (id ∷ ids) rows = without_id id (without ids rows)

module _ (reading : Reading) where
  abbrev pub beacon_id : InvalidBeaconReport → ℕ
  beacon_id x = reading.hash x.report.packet x.received_timestamp x.report.pub_key

  abbrev pub invalid_witness_id : InvalidWitnessReport → ℕ
  invalid_witness_id x = reading.hash x.report.packet x.received_timestamp x.report.pub_key

  abbrev pub IsWritten : List InvalidBeaconReport → List InvalidWitnessReport → ℕ → Type 0
  IsWritten bs ws id = HasId beacon_id id bs ⊎ HasId invalid_witness_id id ws

  abbrev pub AllWritten : List InvalidBeaconReport → List InvalidWitnessReport → List ℕ → Type 0
  AllWritten bs ws [] = Unit {0}
  AllWritten bs ws (id ∷ ids) = IsWritten bs ws id × AllWritten bs ws ids

  -- The table is the first one without the rows of some ids, each of which is that of a written report.
  abbrev pub IsPurged :
      List Report → List InvalidBeaconReport → List InvalidWitnessReport → List Report → Type 0
  IsPurged first bs ws rows = (gone : List ℕ) × (rows ≡ without gone first) × AllWritten bs ws gone

  pub AllWritten-mono :
      (bs bs' : List InvalidBeaconReport) (ws ws' : List InvalidWitnessReport) (ids : List ℕ)
      → ((id : ℕ) → IsWritten bs ws id → IsWritten bs' ws' id)
      → AllWritten bs ws ids
      → AllWritten bs' ws' ids
  AllWritten-mono bs bs' ws ws' [] k h = tt
  AllWritten-mono bs bs' ws ws' (id ∷ ids) k h = (k id h.0, AllWritten-mono bs bs' ws ws' ids k h.1)

  pub more_beacons :
      (bs : List InvalidBeaconReport) (ws : List InvalidWitnessReport) (x : InvalidBeaconReport)
      (id : ℕ)
      → IsWritten bs ws id
      → IsWritten (bs ++ x ∷ []) ws id
  more_beacons bs ws x id (inl h) = inl (HasId-append beacon_id id bs (x ∷ []) h)
  more_beacons bs ws x id (inr h) = inr h

  pub more_witnesses :
      (bs : List InvalidBeaconReport) (ws : List InvalidWitnessReport) (x : InvalidWitnessReport)
      (id : ℕ)
      → IsWritten bs ws id
      → IsWritten bs (ws ++ x ∷ []) id
  more_witnesses bs ws x id (inl h) = inl h
  more_witnesses bs ws x id (inr h) = inr (HasId-append invalid_witness_id id ws (x ∷ []) h)

  module _ (first : List Report) where
    -- The table, and the copy of the transaction.
    abbrev pub Table : Purger → Type 0
    Table s = IsPurged first s.invalid_beacons.written s.invalid_witnesses.written s.poc_report

    abbrev pub Both : Purger → Type 0
    Both s =
        Table s × IsPurged first s.invalid_beacons.written s.invalid_witnesses.written s.open_report
