-- ===== src/Queue/Tests.antt =====
-- A queue with one job of a prover and one of a settler.
use shade.Shared.{ℕ, ◌≡◌, ◌≢◌, refl, [], ◌∷◌, none, some, arith, member}
use shade.Queue.{ServiceJob, Tables, claim_next, claimed, new_job, get_job}
use shade.Queue.Claiming.{claim_next-exclusive}
use shade.Queue.Bounds.{IsKeyed, Bounded, claims, Step-Bounded}

abbrev empty : Tables ℕ ℕ
empty = record { jobs = []; events = [] }

abbrev early : ServiceJob ℕ ℕ
early = new_job "j1" 5 "prover" "PROVE" 0 (some "k1")

abbrev late : ServiceJob ℕ ℕ
late = new_job "j2" 8 "prover" "PROVE" 1 none

abbrev table : Tables ℕ ℕ
table = record { jobs = late ∷ early ∷ []; events = [] }

abbrev after_one : Tables ℕ ℕ
after_one = record table { jobs = late ∷ claimed early ∷ [] }

abbrev after_two : Tables ℕ ℕ
after_two = record table { jobs = claimed late ∷ claimed early ∷ [] }

first_claim : claim_next table "prover" [] 9 ≡ (some (claimed early), after_one)
unfolding claim_next
first_claim = refl

second_claim : claim_next after_one "prover" ("PROVE" ∷ []) 10 ≡ (some (claimed late), after_two)
unfolding claim_next member
second_claim = refl

claim_next-exclusive_example : (claimed late).job_id ≢ (claimed early).job_id
claim_next-exclusive_example =
    claim_next-exclusive table after_one after_two "prover" "prover" [] ("PROVE" ∷ []) 9 10
      (claimed early) (claimed late) first_claim second_claim

table-IsKeyed : IsKeyed table
unfolding get_job
table-IsKeyed = (refl, (refl, tt))

Step-Bounded_example : Bounded (claim_next table "prover" [] 9).1
Step-Bounded_example =
    Step-Bounded (claims "prover" [] 9) table-IsKeyed
      ((omega arith, λ w. omega arith), ((omega arith, λ w. omega arith), tt))
