-- ===== src/PocRunner/Select.antt =====
-- iot_verifier/src/runner.rs: which witnesses of a proof of coverage are selected for a reward.
use oracles.Prelude.{
  ℕ, Bool, true, false, not, List, [], ◌∷◌, ◌++◌, filter, length, take, drop, leb, if◌then◌else◌,
}
use oracles.Poc.Types.{
  VerifiedWitness, VerificationStatus, valid, invalid, InvalidReason, self_witness,
}
pub mod Earliest

pub data FilterStatus : Type 0 where
  drop_it include : FilterStatus

unfoldable pub filter_witness : InvalidReason → FilterStatus
filter_witness self_witness = drop_it
filter_witness reason = include

abbrev pub is_included : VerifiedWitness → Bool
is_included w = elim (filter_witness w.invalid_reason) [ drop_it ↦ false | include ↦ true ]

abbrev pub is_valid : VerifiedWitness → Bool
is_valid w = elim w.status [ valid ↦ true | invalid ↦ false ]

unfoldable pub filter_witnesses : List VerifiedWitness → List VerifiedWitness × List VerifiedWitness
filter_witnesses ws =
    let included = filter is_included ws in
    (filter is_valid included, filter (λ w. not (is_valid w)) included)

-- `sort_by` of the received timestamps, which is stable: a witness goes before the first later one.
unfoldable pub insert_witness : VerifiedWitness → List VerifiedWitness → List VerifiedWitness
insert_witness w [] = w ∷ []
insert_witness w (x ∷ xs) =
    let rest = insert_witness w xs in
    if leb w.received_timestamp x.received_timestamp then w ∷ x ∷ xs else x ∷ rest

unfoldable pub sort_witnesses : List VerifiedWitness → List VerifiedWitness
sort_witnesses [] = []
sort_witnesses (w ∷ ws) = insert_witness w (sort_witnesses ws)

-- The witnesses that are left, and those that are split off.
unfoldable pub sort_and_split_witnesses :
    List VerifiedWitness → ℕ → List VerifiedWitness × List VerifiedWitness
sort_and_split_witnesses ws max_count =
    if leb (length ws) max_count
    then (ws, [])
    else let sorted = sort_witnesses ws in (take max_count sorted, drop max_count sorted)

-- The selected and the unselected witnesses of the handler.
unfoldable pub select : List VerifiedWitness → ℕ → List VerifiedWitness × List VerifiedWitness
select ws max_count =
    let (valids, invalids) = filter_witnesses ws in
    let (selected, unselected) = sort_and_split_witnesses valids max_count in
    (selected, unselected ++ invalids)
