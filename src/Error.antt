-- ===== src/Error.antt =====
-- src/error.rs: errors and fallible results.
use k_carrier.Base.{ℕ, String, Bool, true, false, ◌<>◌, decimal, ◌≡◌, ◌⊎◌, inl, inr, refl, sym}
use k_carrier.State.{Operation}

-- `std::io::ErrorKind`, as far as the program tells the kinds apart.
pub data IoKind : Type 0 where
  not_found already_exists other_kind : IoKind

-- The texts of `Io`, `Json` and `Http` are those of the errors they wrap.
pub data Error : Type 0 where
  replay : Operation → Error
  invalid uncertain : String → Error
  locked : ℕ → Error
  io : IoKind → String → Error
  json http : String → Error

abbrev pub is_uncertain : Error → Bool
is_uncertain (uncertain _) = true
is_uncertain _ = false

-- `Display`, which `thiserror` derives from the attributes.
unfoldable pub message : Error → String
message (replay op) = "OPERATION_REPLAY: " <> op.id
message (invalid s) = s
message (uncertain s) = s
message (locked pid) = "UPGRADE_IN_PROGRESS: holder pid " <> decimal pid
message (io _ s) = s
message (json s) = s
message (http s) = s

pub data Result {ℓ} (A : Type ℓ) : Type ℓ where
  ok : A → Result A
  err : Error → Result A

abbrev pub is_err {ℓ} : {A : Type ℓ} → Result A → Bool
is_err (ok _) = false
is_err (err _) = true

-- `?`: the error of `m`, or what `next` makes of its value.
infixl 5 ◌>>=◌
abbrev pub ◌>>=◌ {ℓ κ} : {A : Type ℓ} {B : Type κ} (m : Result A) (next : A → Result B) → Result B
err x >>= next = err x
ok value >>= next = next value

infixl 5 ◌>>◌
abbrev pub ◌>>◌ {ℓ} : {B : Type ℓ} (check : Result (Unit {0})) (rest : Result B) → Result B
check >> rest = check >>= λ _. rest

-- `if bad { return Err(invalid(code)) }`
abbrev pub refuse_if : Bool → String → Result (Unit {0})
refuse_if true code = err (invalid code)
refuse_if false code = ok tt

abbrev is_ok {ℓ} : {A : Type ℓ} → Result A → Bool
is_ok (ok _) = true
is_ok (err _) = false

ok-err {ℓ} : {A : Type ℓ} (a : A) (x : Error) → ok a ≡ err x → ⊥
ok-err a x h = cc

-- What a chain that returned went through.
pub gate-ok {ℓ} :
    {B : Type ℓ} (b : Bool) (code : String) (k : Result B) {x : B}
    → (refuse_if b code >> k) ≡ ok x
    → (b ≡ false) × (k ≡ ok x)
gate-ok false code k h = (refl, h)
gate-ok true code k {x} h = absurd (ok-err x (invalid code) (sym h))

pub check-ok {ℓ} :
    {B : Type ℓ} (m : Result (Unit {0})) (k : Result B) {x : B}
    → (m >> k) ≡ ok x
    → (m ≡ ok tt) × (k ≡ ok x)
check-ok (ok _) k h = (refl, h)
check-ok (err e) k {x} h = absurd (ok-err x e (sym h))

pub ok-injective {ℓ} : {A : Type ℓ} {a b : A} → ok a ≡ ok b → a ≡ b
ok-injective h = cc

pub refuse_if-ok : (b : Bool) (code : String) → refuse_if b code ≡ ok tt → b ≡ false
refuse_if-ok false code h = refl
refuse_if-ok true code h = absurd (ok-err tt (invalid code) (sym h))

pub Result-cases : (m : Result (Unit {0})) → (m ≡ ok tt) ⊎ ((x : Error) × (m ≡ err x))
Result-cases (ok _) = inl refl
Result-cases (err x) = inr (x, refl)
