-- ===== src/Cctp/Polling.antt =====
-- The wait for Circle's attestation: what it returns, and that it ends.
use shade.Shared.{ℕ, ◌+◌, ◌*◌, ◌≤◌, ◌<◌, ◌≡◌, ◌≢◌, true, List, [], ◌∷◌, arith, length}
use shade.Shared.Results.{ok, running}
use shade.Cctp.{CctpAttestation, is_complete, Poll, poll_attestation}

-- Whatever is returned is an attestation that is there.
pub poll_attestation_complete :
    (timeout : ℕ) (polls : List Poll) (att : CctpAttestation)
    → poll_attestation timeout polls ≡ ok att
    → is_complete att ≡ true
unfolding poll_attestation
poll_attestation_complete timeout [] att h = cc
poll_attestation_complete timeout (p ∷ polls) att h =
    ground (arith, poll_attestation_complete timeout polls att)

-- The rounds are `interval` apart at least, the first not before `start`, and Circle answers each.
abbrev pub Spaced : ℕ → ℕ → List Poll → Type 0
Spaced interval start [] = Unit {0}
Spaced interval start (p ∷ polls) =
    (start ≤ p.elapsed) × (p.answer ≢ running) × Spaced interval (p.elapsed + interval) polls

-- The wait ends, with an attestation or an error, after no more rounds than fit into the timeout.
pub poll_attestation-ends :
    (timeout interval start : ℕ) (p : Poll) (polls : List Poll)
    → Spaced interval start (p ∷ polls)
    → timeout < start + interval * length polls
    → poll_attestation timeout (p ∷ polls) ≢ running
unfolding poll_attestation
poll_attestation-ends timeout interval start p [] s h = ground arith
poll_attestation-ends timeout interval start p (q ∷ polls) s h =
    ground (
      arith,
      poll_attestation-ends timeout interval (p.elapsed + interval) q polls s.2 (grind arith),
    )
