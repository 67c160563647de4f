-- ===== src/PocRunner/Reports.antt =====
-- iot_verifier/src/poc_report.rs: the table poc_report, as the runner reads and changes it, with the
-- other tables that the runner changes. A statement may fail: the schedule `faults` says which do.
use oracles.Prelude.{
  ℕ, ◌+◌, ◌-◌, ◌*◌, pure, ◌>>◌, Bool, true, false, not, ◌&&◌, List, [], ◌∷◌, Option, none, some,
  Outcome, ok, err, Action, Dict, lookup, insert, filter, map, take, ltb, ◌==◌, if◌then◌else◌,
}
use oracles.Prelude.Int.{ℤ}
use oracles.PacketVerifier.Pending.{SqlxError, statement_failed}
use oracles.Poc.Types.{Bytes, PublicKey}
use oracles.Poc.Checks.{eq_bytes}
use oracles.IotRewards.{ReportType, witness, beacon, GatewayPocShare, Tables, save_poc_share}

pub data IotStatus : Type 0 where
  pending ready valid invalid : IotStatus

-- A row of poc_report; `timestamp` and `version` are those of the entropy that it is joined to.
pub record Report : Type 0 where
  pub id : ℕ
  pub remote_entropy : ℕ
  pub packet_data : Bytes
  pub report_data : Bytes
  pub report_type : ReportType
  pub status : IotStatus
  pub attempts : ℕ
  pub report_timestamp : ℕ
  pub last_processed : Option ℕ
  pub created_at : ℕ
  pub timestamp : Option ℕ
  pub version : Option ℤ

pub record EntropyRow : Type 0 where
  pub timestamp : ℕ
  pub version : ℤ

pub record Db (D : Type 0) : Type 0 where
  pub poc_report : List Report
  pub entropy : Dict EntropyRow
  pub last_beacon : Dict ℕ
  pub shares : Tables D
  pub open_shares : Tables D
  pub faults : List Bool

unfoldable pub statement :
    {D A : Type 0} → (Db D → Outcome SqlxError A × Db D) → Action (Db D) SqlxError A
statement run db = elim db.faults [
  | [] ↦ run db
  | fault ∷ rest ↦
      let later = record db { faults = rest } in
      if fault then (err statement_failed, later) else run later
]

-- `order by`, of a column.
unfoldable pub insert_by : (Report → ℕ) → Report → List Report → List Report
insert_by column r [] = r ∷ []
insert_by column r (x ∷ xs) =
    let rest = insert_by column r xs in if ltb (column x) (column r) then x ∷ rest else r ∷ x ∷ xs

unfoldable pub order_by : (Report → ℕ) → List Report → List Report
order_by column [] = []
order_by column (r ∷ rs) = insert_by column r (order_by column rs)

abbrev pub is_beacon : Report → Bool
is_beacon r = elim r.report_type [ beacon ↦ true | witness ↦ false ]

abbrev pub is_ready : Report → Bool
is_ready r = elim r.status [ ready ↦ true | _ ↦ false ]

-- The join with the entropy, where this is older than the given time.
abbrev pub joined : ℕ → Report → Option EntropyRow → List Report
joined entropy_min_time r none = []
joined entropy_min_time r (some e) =
    if ltb e.timestamp entropy_min_time
    then record r { timestamp = some e.timestamp; version = some e.version } ∷ []
    else []

abbrev pub join_entropy : ℕ → Dict EntropyRow → List Report → List Report
join_entropy entropy_min_time entropy [] = []
join_entropy entropy_min_time entropy (r ∷ rs) =
    let rest = join_entropy entropy_min_time entropy rs in
    elim (joined entropy_min_time r (lookup r.remote_entropy entropy)) [
      | [] ↦ rest
      | x ∷ _ ↦ x ∷ rest
    ]

-- The beacons to handle at the time `now`; an entropy lives for 180 seconds.
abbrev pub beacons_of : ℕ → ℕ → Dict EntropyRow → List Report → List Report
beacons_of now max_retries entropy rows = take 25_000 (
    order_by (λ r. r.created_at)
      (join_entropy (now - 180 * 1_000_000_000) entropy
        (filter (λ r. is_beacon r && (is_ready r && ltb r.attempts max_retries)) rows)))

unfoldable pub get_next_beacons : {D : Type 0} → ℕ → ℕ → Action (Db D) SqlxError (List Report)
unfolding statement order_by
get_next_beacons now max_retries =
    statement λ db. (ok (beacons_of now max_retries db.entropy db.poc_report), db)

abbrev pub witnesses_of : Bytes → ℕ → List Report → List Report
witnesses_of packet_data max_retries rows =
    order_by (λ r. r.report_timestamp)
      (filter
        (λ r.
          eq_bytes r.packet_data packet_data && (not (is_beacon r) && ltb r.attempts max_retries))
        rows)

unfoldable pub get_witnesses_for_beacon :
    {D : Type 0} → Bytes → ℕ → Action (Db D) SqlxError (List Report)
unfolding statement order_by
get_witnesses_for_beacon packet_data max_retries =
    statement λ db. (ok (witnesses_of packet_data max_retries db.poc_report), db)

abbrev pub count_attempt : ℕ → ℕ → Report → Report
count_attempt id now r =
    if r.id == id then record r { attempts = r.attempts + 1; last_processed = some now } else r

unfoldable pub update_attempts : {D : Type 0} → ℕ → ℕ → Action (Db D) SqlxError (Unit {0})
unfolding statement
update_attempts id now =
    statement λ db. (ok tt, record db { poc_report = map (count_attempt id now) db.poc_report })

-- The rows of the other packets.
abbrev pub without_packet : Bytes → List Report → List Report
without_packet packet_data = filter (λ r. not (eq_bytes r.packet_data packet_data))

unfoldable pub delete_poc : {D : Type 0} → Bytes → Action (Db D) SqlxError (Unit {0})
unfolding statement
delete_poc packet_data =
    statement λ db. (ok tt, record db { poc_report = without_packet packet_data db.poc_report })

unfoldable pub update_last_timestamp :
    {D : Type 0} → PublicKey → ℕ → Action (Db D) SqlxError (Unit {0})
unfolding statement
update_last_timestamp id timestamp =
    statement λ db. (ok tt, record db { last_beacon = insert id timestamp db.last_beacon })

-- The transaction of the shares: its statements work on a copy, which the commit makes the table.
unfoldable pub begin : {D : Type 0} → Action (Db D) SqlxError (Unit {0})
unfolding statement
begin = statement λ db. (ok tt, record db { open_shares = db.shares })

unfoldable pub commit : {D : Type 0} → Action (Db D) SqlxError (Unit {0})
unfolding statement
commit = statement λ db. (ok tt, record db { shares = db.open_shares })

unfoldable pub save : {D : Type 0} → GatewayPocShare D → Action (Db D) SqlxError (Unit {0})
unfolding statement
save share =
    statement λ db. (ok tt, record db { open_shares = (save_poc_share share db.open_shares).1 })

unfoldable pub save_each :
    {D : Type 0} → List (GatewayPocShare D) → Action (Db D) SqlxError (Unit {0})
unfolding save
save_each [] = pure tt
save_each (s ∷ ss) = do save s; save_each ss
