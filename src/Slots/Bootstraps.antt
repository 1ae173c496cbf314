-- ===== src/Slots/Bootstraps.antt =====
-- `bootstrap_locked` of src/storage.rs adopts a version only where there is none.
use k_carrier.Base.{String, Bool, true, false, ◌≡◌, List, [], ◌∷◌, is_empty, trim}
use k_carrier.Error.{Result, ok, err}
use k_carrier.Slots.{Entry, missing, broken, whole, Fault, works, Disk, is_there}

module _ (old staging : Entry) where
  abbrev pub at : Entry → Entry → Entry → Bool → List Fault → Disk
  at b s e j f = record {
    stable_dir = s;
    experiment_dir = e;
    old = old;
    staging = staging;
    bootstrap = b;
    journal = j;
    faults = f;
  }

  -- The disk is as it was but for the area that a bootstrap fills, or the version is adopted.
  pub data Adopting (s e : Entry) (j : Bool) (t : String) : Disk → Type 0 where
    unadopted : {b : Entry} {f : List Fault} → Adopting s e j t (at b s e j f)
    adopted :
        {b : Entry} {f : List Fault}
        → s ≡ missing
        → e ≡ missing
        → j ≡ false
        → Adopting s e j t (at b (whole t) e j f)

  -- One of the next calls fails.
  abbrev pub Faulty : List Fault → Type 0
  Faulty [] = ⊥
  Faulty (works ∷ f) = Faulty f
  Faulty (_ ∷ f) = Unit

  -- What a bootstrap may be refused for: the version, the slots, the journal, the source or a
  -- call that failed.
  pub data Excused (source : Bool) (v : String) (s e : Entry) (j : Bool) (f : List Fault)
      : Type 0 where
    blank_version : is_empty (trim v) ≡ true → Excused source v s e j f
    blank_after_trim : s ≡ missing → is_empty (trim (trim v)) ≡ true → Excused source v s e j f
    broken_stable : s ≡ broken → Excused source v s e j f
    begun : s ≡ missing → j ≡ true → Excused source v s e j f
    has_experiment : s ≡ missing → is_there e ≡ true → Excused source v s e j f
    unreadable_source : s ≡ missing → source ≡ false → Excused source v s e j f
    fault_in_call : s ≡ missing → Faulty f → Excused source v s e j f

  abbrev is_version : Entry → Bool
  is_version (whole v) = true
  is_version _ = false

  module _ (source : Bool) (v : String) where
    -- How a bootstrap ends, on the disk that it was given.
    abbrev pub Adopts : Entry → Entry → Entry → Bool → List Fault → Result Bool × Disk → Type 0
    Adopts b s e j f (ok true, d) =
        (s ≡ missing)
        × (e ≡ missing)
        × (j ≡ false)
        × (d.stable_dir ≡ whole (trim (trim v)))
        × (d.experiment_dir ≡ missing)
    Adopts b s e j f (ok false, d) = (is_version s ≡ true) × (d ≡ at b s e j f)
    Adopts b s e j f (err x, d) = Adopting s e j (trim (trim v)) d × Excused source v s e j f

  module _ (source : Bool) (v : String) (b₀ : Entry) (g : List Fault) where
    EndsFor : Result Bool × Disk → Type 0
    EndsFor = Adopts source v b₀ missing missing false g
