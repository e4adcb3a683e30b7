-- ===== src/Rhythm/Tests.antt =====
-- Sessions on concrete packets.
use x402_health_oracle.Prelude.{◌≡◌, ◌≢◌, refl, arith, some, List, [], ◌∷◌, Text, text_Eq, codes}
use x402_health_oracle.Prelude.Dict.{get}
use x402_health_oracle.Prelude.Int.{pos}
use x402_health_oracle.Double.Laws.{IsNumber}
use x402_health_oracle.Double.Fixed.{Fixed, fixed_Double, Fixed-IsOrdered}
use x402_health_oracle.Rhythm.Session.{
  RhythmState, Sessions, validate_rhythm, next_state, avg_deviation, deviations, update_trust,
  decay, trust_delta, decide,
}
use x402_health_oracle.Rhythm.Update.{IsTrustAfter, shown_by}
use x402_health_oracle.Rhythm.Trust.{IsVerdict, FollowsUp, validate_rhythm_lem}

abbrev an_id : Text
an_id = codes "s1"

abbrev a_state : RhythmState Fixed
a_state = record {
  session_id = an_id;
  secret_sequence = 450 ∷ 150 ∷ [];
  client_noise_profile = [];
  trust_score = some (pos 500);
  last_sync = 1000;
  drift_compensation = some (pos 1000);
}

abbrev sessions : Sessions Fixed
sessions = (an_id, a_state) ∷ []

abbrev timings : List Fixed
timings = some (pos 450000) ∷ some (pos 160000) ∷ []

abbrev other_id : Text
other_id = codes "s2"

other : an_id ≢ other_id
other e = ground (arith, text_Eq.eq_correct an_id other_id)

known : get an_id sessions ≡ some a_state
known = refl

number : IsNumber (validate_rhythm sessions an_id timings 1500 1500).1.trust_score
unfolding validate_rhythm next_state avg_deviation deviations update_trust decay trust_delta decide
    fixed_Double
number = refl

validate_rhythm_lem_example :
    let (m', r) = validate_rhythm sessions an_id timings 1500 1500 in
    let (m'', r') = validate_rhythm m' an_id timings 2500 2500 in
    IsVerdict r
    × IsTrustAfter (shown_by a_state timings) a_state.trust_score 500 r.trust_score
    × FollowsUp a_state m' r an_id timings 1000 m'' r'
    × (get other_id m'' ≡ get other_id sessions)
validate_rhythm_lem_example =
    validate_rhythm_lem Fixed-IsOrdered sessions an_id other_id a_state timings timings 1500 1500
      2500 2500 other known number
