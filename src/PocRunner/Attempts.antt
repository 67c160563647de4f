-- ===== src/PocRunner/Attempts.antt =====
-- iot_verifier/src/poc_report.rs: the attempts of each report, and what the runner's changes do to them.
use oracles.Prelude.{
  ℕ, suc, ◌≤◌, ◌≡◌, arith, Bool, true, not, List, [], ◌∷◌, filter, map, ◌==◌, Bool-cases, inl, inr,
}
use oracles.Poc.Types.{Bytes}
use oracles.Poc.Checks.{eq_bytes}
use oracles.PocRunner.Reports.{Report, count_attempt, without_packet}

-- The rows of an id that are in the table have n attempts at least.
abbrev pub AtLeast : ℕ → ℕ → List Report → Type 0
AtLeast id n [] = Unit {0}
AtLeast id n (r ∷ rs) = ((r.id == id) ≡ true → n ≤ r.attempts) × AtLeast id n rs

-- The rows of an id are of one packet.
abbrev pub OfPacket : ℕ → Bytes → List Report → Type 0
OfPacket id packet [] = Unit {0}
OfPacket id packet (r ∷ rs) =
    ((r.id == id) ≡ true → eq_bytes r.packet_data packet ≡ true) × OfPacket id packet rs

-- What each change of the table keeps: no row loses attempts, and no row of another packet comes in.
pub record Keeps (t t' : List Report) : Type 0 where
  pub attempts : (id n : ℕ) → AtLeast id n t → AtLeast id n t'
  pub packets : (id : ℕ) (packet : Bytes) → OfPacket id packet t → OfPacket id packet t'

-- The rows of the id have left the table, or have more attempts.
abbrev pub IsCounted : ℕ → List Report → List Report → Type 0
IsCounted id t t' = (n : ℕ) → AtLeast id n t → AtLeast id (suc n) t'

pub Keeps-refl : (t : List Report) → Keeps t t
Keeps-refl t = record { attempts = λ id n h. h; packets = λ id p h. h }

pub Keeps-trans : {t u v : List Report} → Keeps t u → Keeps u v → Keeps t v
Keeps-trans h k = record {
  attempts = λ id n a. k.attempts id n (h.attempts id n a);
  packets = λ id p o. k.packets id p (h.packets id p o);
}

AtLeast-count :
    (id now j n : ℕ) (t : List Report) → AtLeast j n t → AtLeast j n (map (count_attempt id now) t)
AtLeast-count id now j n [] h = tt
AtLeast-count id now j n (r ∷ rs) h = elim (Bool-cases (r.id == id)) [
  | inl e ↦ rw e ((λ q. let k = h.0 q in omega arith), AtLeast-count id now j n rs h.1)
  | inr e ↦ rw e (h.0, AtLeast-count id now j n rs h.1)
]

OfPacket-count :
    (id now j : ℕ) (packet : Bytes) (t : List Report)
    → OfPacket j packet t
    → OfPacket j packet (map (count_attempt id now) t)
OfPacket-count id now j packet [] h = tt
OfPacket-count id now j packet (r ∷ rs) h = elim (Bool-cases (r.id == id)) [
  | inl e ↦ rw e (h.0, OfPacket-count id now j packet rs h.1)
  | inr e ↦ rw e (h.0, OfPacket-count id now j packet rs h.1)
]

-- An attempt that is counted.
pub count-Keeps : (id now : ℕ) (t : List Report) → Keeps t (map (count_attempt id now) t)
count-Keeps id now t = record {
  attempts = λ j n. AtLeast-count id now j n t;
  packets = λ j p. OfPacket-count id now j p t;
}

pub count-IsCounted : (id now : ℕ) (t : List Report) → IsCounted id t (map (count_attempt id now) t)
count-IsCounted id now [] n h = tt
count-IsCounted id now (r ∷ rs) n h = elim (Bool-cases (r.id == id)) [
  | inl e ↦ rw e ((λ q. let k = h.0 e in omega arith), count-IsCounted id now rs n h.1)
  | inr e ↦ rw e ((λ q. absurd (cc (e, q))), count-IsCounted id now rs n h.1)
]

AtLeast-filter :
    (p : Report → Bool) (id n : ℕ) (t : List Report) → AtLeast id n t → AtLeast id n (filter p t)
AtLeast-filter p id n [] h = tt
AtLeast-filter p id n (r ∷ rs) h = elim (Bool-cases (p r)) [
  | inl e ↦ rw e (h.0, AtLeast-filter p id n rs h.1)
  | inr e ↦ rw e (AtLeast-filter p id n rs h.1)
]

OfPacket-filter :
    (p : Report → Bool) (id : ℕ) (packet : Bytes) (t : List Report)
    → OfPacket id packet t
    → OfPacket id packet (filter p t)
OfPacket-filter p id packet [] h = tt
OfPacket-filter p id packet (r ∷ rs) h = elim (Bool-cases (p r)) [
  | inl e ↦ rw e (h.0, OfPacket-filter p id packet rs h.1)
  | inr e ↦ rw e (OfPacket-filter p id packet rs h.1)
]

-- The rows of a packet that are deleted.
pub delete-Keeps : (packet : Bytes) (t : List Report) → Keeps t (without_packet packet t)
delete-Keeps packet t = record {
  attempts = λ id n. AtLeast-filter (λ r. not (eq_bytes r.packet_data packet)) id n t;
  packets = λ id p. OfPacket-filter (λ r. not (eq_bytes r.packet_data packet)) id p t;
}

pub delete-IsCounted :
    (id : ℕ) (packet : Bytes) (t : List Report)
    → OfPacket id packet t
    → IsCounted id t (without_packet packet t)
delete-IsCounted id packet [] o n h = tt
delete-IsCounted id packet (r ∷ rs) o n h = elim (Bool-cases (eq_bytes r.packet_data packet)) [
  | inl e ↦ rw e (delete-IsCounted id packet rs o.1 n h.1)
  | inr e ↦ rw e ((λ q. absurd (cc (o.0 q, e))), delete-IsCounted id packet rs o.1 n h.1)
]
