-- ===== src/Consensus/Protocol/Waves.antt =====
-- Rounds and waves (consensus/consensus.cpp, lines 177 to 181), with the machine's arithmetic.
use dag_rider.Prelude.{ℕ, ◌+◌, ◌-◌, ◌*◌, ◌/◌, ◌^◌, ◌≤◌, ◌<◌, ◌≡◌, ◌↔◌, true, arith}
use dag_rider.Consensus.Protocol.{max_wave, get_round_for_wave, is_last_round_in_wave}

-- From wave 1 to wave 2 ^ 30 nothing wraps: the waves are consecutive blocks of four rounds,
-- and wave 1 begins with round 1.
pub get_round_for_wave_closed :
    (wave round : ℕ)
    → 0 < wave
    → wave ≤ 2 ^ 30
    → round ≤ 4
    → get_round_for_wave wave round ≡ 4 * (wave - 1) + round
unfolding get_round_for_wave
get_round_for_wave_closed wave round pos small h = omega arith

-- Wave 0, which has no rounds of its own, wraps round to a wave far beyond the last.
pub get_round_for_wave_zero :
    (round : ℕ) → round ≤ 4 → get_round_for_wave 0 round ≡ 2 ^ 32 - 4 + round
unfolding get_round_for_wave
get_round_for_wave_zero round h = omega arith

-- For a round from 1 on that fits in 32 bits, the test `isLastRoundInWave` holds exactly at the
-- fourth round of some wave from 1 on, and that wave is the one which the loop then orders,
-- `round / MAX_WAVE`; and the wave's four rounds are the round itself and the three before it.
pub last_round_of_wave :
    (round : ℕ)
    → 0 < round
    → round < 2 ^ 32
    → (is_last_round_in_wave round ≡ true) ↔ (
        (0 < round / max_wave)
        × (get_round_for_wave (round / max_wave) max_wave ≡ round)
        × (get_round_for_wave (round / max_wave) 1 + 3 ≡ round))
unfolding is_last_round_in_wave get_round_for_wave
last_round_of_wave round pos small = ground arith
