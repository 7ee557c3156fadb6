-- ===== src/Universe/Missing.antt =====
-- What universe.cpp answers for a system that it does not hold.
use sabot.Prelude.{ℕ, ◌≡◌, refl, ◌==◌, none, List}
use sabot.Outcome.{Exception, threw}
use sabot.Chp.Run.{Env}
use sabot.MsContainer.{find, edit_item}
use sabot.Universe.{Universe, rescue}
use sabot.Universe.Operations.{
  edit_system, create_state, modify_state, measure_state, delete_state, compute_result,
}

-- The operations on the states of a system that does not exist, and compute_result, throw
-- `invalid_argument` and change nothing: the handlers for `out_of_range`, which are to answer false, are
-- not reached.
pub missing_system_throws :
    {Rng : Type 0} (env : Env Rng) (junk id state_id : ℕ) (dialect text : List ℕ) (line : ℕ)
    (buffer : List ℕ) (u : Universe Rng)
    → find ◌==◌ id u.systems.entries ≡ none
    → (create_state env junk id dialect text line u ≡ (u, threw Exception.invalid_argument))
      × (modify_state env junk id state_id dialect text line u
          ≡ (u, threw Exception.invalid_argument))
      × (measure_state env junk id state_id dialect text line buffer u
          ≡ (u, threw Exception.invalid_argument))
      × (delete_state env junk id state_id u ≡ (u, threw Exception.invalid_argument))
      × (compute_result env junk id dialect text line buffer u
          ≡ (u, threw Exception.invalid_argument))
unfolding edit_system create_state modify_state measure_state delete_state compute_result edit_item
    rescue
missing_system_throws env junk id state_id dialect text line buffer u missing =
    rw missing (refl, refl, refl, refl, refl)
