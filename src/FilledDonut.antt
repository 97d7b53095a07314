-- ===== src/FilledDonut.antt =====
-- apps/wedding_cake/include/ingester_evolver_types.hpp: Ingester_ST01_FilledDonut, the state of a
-- donut that has reached its capacity; and ingester_tier_hydrator.hpp, which state an object folder
-- on disk is in.
use wedding_cake_cpp.Base.{ℕ, Bool, Option, Result, ok, ◌>>=◌, if◌then◌else◌}
use wedding_cake_cpp.Lookup.{Lookupable}
use wedding_cake_cpp.Manifest.{Folder}
use wedding_cake_cpp.ObjectFolder.{FileName}
use wedding_cake_cpp.TierConstants.{ingester_donut_capacity}
use wedding_cake_cpp.Remainder.{Remainder, new_remainder}
use wedding_cake_cpp.Remainder

-- An object folder on disk: its ST00 folder if there is one, and whether its ST01 folder exists.
pub record ObjectDirectory : Type 0 where
  pub st00 : Option Folder
  pub st01_exists : Bool

pub record FilledDonut : Type 0 where
  pub prior_st00 : Remainder

-- Both branches of the constructor leave the same object: the hydrations do nothing.
unfoldable pub new_filled_donut : Remainder → FilledDonut
new_filled_donut prior_state = record { prior_st00 = prior_state }

-- The operations, each passed to the contained donut.
unfoldable pub filled_lookupable : FilledDonut → Lookupable
filled_lookupable f = record {
  first_offset = f.prior_st00.first_global_pi;
  next_offset = Remainder.next_offset f.prior_st00;
  forward_lookup = Remainder.forward_lookup f.prior_st00;
  reverse_lookup = Remainder.reverse_lookup f.prior_st00;
}

pub data IngesterEvolver : Type 0 where
  remainder_donut : Remainder → IngesterEvolver
  filled_donut : FilledDonut → IngesterEvolver

unfoldable pub ingester_hydrate_evolver_from_disk :
    ℕ → FileName → ObjectDirectory → Result IngesterEvolver
ingester_hydrate_evolver_from_disk hash_bytes_count object_path directory = do
  st00 ← new_remainder hash_bytes_count object_path ingester_donut_capacity directory.st00
  if directory.st01_exists
      then ok (filled_donut (new_filled_donut st00))
      else ok (remainder_donut st00)
