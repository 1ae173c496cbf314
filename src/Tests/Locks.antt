-- ===== src/Tests/Locks.antt =====
-- The theorems on src/lock.rs at concrete runs.
use k_carrier.Base.{
  ℕ, ◌+◌, ◌≡◌, refl, true, false, none, some, List, [], ◌∷◌, nat_eq, length, if◌then◌else◌, arith,
}
use k_carrier.Lock.{
  idle, listing, scanning, creating, writing, held, dead, Claims, is_in, put, claims_it, lists,
  skips_itself, scanned, creates, writes, Run, stop, go, after,
}
use k_carrier.Lock.Exclusive.{Run-alone}
use k_carrier.Lock.Recorded.{own_file, Run-own_file}
use k_carrier.Lock.Acquires.{Reaches, idle-Reaches}

abbrev no_pids : ℕ → ℕ
no_pids q = q

abbrev empty_store : Claims
empty_store = record { stages = λ _. idle; claims = λ _. false; lock = none }

-- Caller 3 alone, from its claim to its record.
abbrev taken : Claims
unfolding put
taken = after no_pids 3 held (put 3 true (λ _. false)) (some (own_file 3)) (
    after no_pids 3 writing (put 3 true (λ _. false)) (some (record { creator = 3; owner = none }))
      (after no_pids 3 (creating 50) (put 3 true (λ _. false)) none (
        after no_pids 3 (scanning []) (put 3 true (λ _. false)) none (
          after no_pids 3 (scanning (3 ∷ [])) (put 3 true (λ _. false)) none
            (after no_pids 3 listing (put 3 true (λ _. false)) none empty_store)))))

only_3 : (q : ℕ) → put 3 true (λ _. false) q ≡ true → is_in q (3 ∷ []) ≡ true
unfolding put
only_3 q h = ground (arith, h)

taking : Run no_pids 6 empty_store taken
unfolding put
taking = go 3 (claims_it refl) (
    go 3 (lists (3 ∷ []) refl only_3) (
      go 3 (skips_itself [] refl)
        (go 3 (scanned refl) (go 3 (creates 49 refl refl) (go 3 (writes refl) stop)))))

abbrev holder : ℕ
holder = 3

Run-alone_example : holder ≡ holder
unfolding put
Run-alone_example = Run-alone no_pids 6 holder holder empty_store taken (λ _. refl) taking refl refl

Run-own_file_example : taken.lock ≡ some (own_file 3)
unfolding put
Run-own_file_example = Run-own_file no_pids 6 3 empty_store taken (λ _. refl) taking refl

-- Caller 7 died after it wrote its record.
abbrev left_behind : Claims
left_behind = record {
  stages = λ q. if nat_eq q 5 then idle else dead;
  claims = λ q. nat_eq q 7;
  lock = some (own_file 7);
}

others_dead : (q : ℕ) → nat_eq q 5 ≡ false → left_behind.stages q ≡ dead
others_dead q h = rw h refl

claim_of_7 : (q : ℕ) → left_behind.claims q ≡ true → is_in q (7 ∷ []) ≡ true
claim_of_7 q h = ground (arith, h)

abbrev entry_of_7 : List ℕ
entry_of_7 = 7 ∷ []

idle-Reaches_example : Reaches no_pids 5 (length entry_of_7 + 9) left_behind
idle-Reaches_example =
    idle-Reaches no_pids 5 entry_of_7 left_behind refl others_dead refl claim_of_7
