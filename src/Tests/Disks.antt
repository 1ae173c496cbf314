-- ===== src/Tests/Disks.antt =====
-- The theorems on the slot directories of src/storage.rs at concrete disks and faults.
use k_carrier.Slots.Refines.{Refines, view_of, promote-Refines}
use k_carrier.Base.{true, List, [], ◌∷◌, trim}
use k_carrier.Slots.{
  missing, broken, whole, Fault, works, fails_midway, fails_after, Disk, stage, promote,
}
use k_carrier.Slots.Promotes.{before, Returned, repeatedly, repeatedly-Returned}
use k_carrier.Slots.Stages.{disk, StaysStaging, stage-StaysStaging}

-- The second rename fails after it was done, then removing the backup fails midway.
abbrev ready : List Fault → Disk
ready f = record {
  stable_dir = whole "1";
  experiment_dir = whole "2";
  old = broken;
  staging = missing;
  bootstrap = missing;
  journal = true;
  faults = f;
}

abbrev two_faults : List Fault
two_faults = works ∷ fails_after ∷ []

promote-Refines_example : Refines (view_of (ready two_faults)) (promote (ready two_faults))
promote-Refines_example = promote-Refines "1" "2" (ready two_faults) before

abbrev two_rounds : List (List Fault)
two_rounds = two_faults ∷ (works ∷ fails_midway ∷ []) ∷ []

repeatedly-Returned_example :
    Returned "2" (promote (record (repeatedly two_rounds (ready [])) { faults = [] }))
repeatedly-Returned_example = repeatedly-Returned "1" "2" two_rounds (ready []) before

abbrev busy_disk : Disk
busy_disk = disk (whole "1") missing missing true broken (whole "0") two_faults

stage-StaysStaging_example :
    StaysStaging (whole "1") missing missing true (whole "0") (trim " 2 ") (stage " 2 " busy_disk)
stage-StaysStaging_example =
    stage-StaysStaging (whole "1") missing missing true " 2 " broken (whole "0") two_faults
