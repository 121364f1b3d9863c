-- ===== src/Tests/Guard.antt =====
-- Runs of `ProofGuard`.
use txodds_agent_desk.Prelude.{◌≡◌, ◌↔◌, ◌⊎◌, ◌<◌, refl, some, [], ◌∷◌, ◌++◌, Returns, arith}
use txodds_agent_desk.Text.{Text, byte_len, IsAscii, is_ascii_alphanumeric}
use txodds_agent_desk.Wager.{implied_probability}
use txodds_agent_desk.Prelude.Int.{◌-ℤ◌, ◌*ℤ◌, ◌/ℤ◌}
use txodds_agent_desk.Float.Micro.{micro_float}
use txodds_agent_desk.ProofGuard.{run_checks, verify, is_valid_proof_ref}
use txodds_agent_desk.ProofGuard.Checks.{IsSound, IsAttested, run_checks_iff}
use txodds_agent_desk.ProofGuard.Verdict.{Passed, Vetoed, verify-stake}
use txodds_agent_desk.Tests.{backed_home, loose, reference, eleven}

abbrev quoted : Text → Text
quoted t = b'"' ∷ (t ++ b'"' ∷ [])

-- A long reference of single bytes.
abbrev long_reference : Text
long_reference = eleven ++ eleven

reference-IsAscii : IsAscii reference
reference-IsAscii = ground arith

verify-stake_example :
    Returns
      (verify quoted backed_home (some reference) loose)
      λ v. Passed loose backed_home (some reference) v ⊎ Vetoed loose backed_home (some reference) v
verify-stake_example = verify-stake quoted backed_home (some reference) loose refl reference-IsAscii

run_checks_iff_example :
    (run_checks quoted backed_home (some reference) loose ≡ some [])
    ↔ (IsSound loose backed_home × IsAttested (some reference))
run_checks_iff_example = run_checks_iff quoted backed_home (some reference) loose

eleven_bytes : byte_len eleven ≡ 11
unfolding byte_len
eleven_bytes = refl

eleven-IsAscii : IsAscii eleven
eleven-IsAscii = ground arith

over_twenty : 20 < byte_len (eleven ++ 0x1F600 ∷ eleven)
unfolding byte_len
over_twenty = omega arith

-- The sample wager with a well-shaped reference raises no failure.
checks_pass : run_checks quoted backed_home (some reference) loose ≡ some []
unfolding run_checks is_valid_proof_ref byte_len is_ascii_alphanumeric implied_probability ◌-ℤ◌ ◌*ℤ◌
    ◌/ℤ◌
checks_pass = refl
