-- ===== src/Tests/Keys.antt =====
-- Tests of the keys' canonical strings.
use zodia.Prelude.{◌≡◌, some, arith}
use zodia.Core.Planet.{mars}
use zodia.Core.Interp.{placement, to_sig, parse_interp_sig}
use zodia.Core.Interp.RoundTrip.{parse_interp_sig-to_sig}

parse_interp_sig-to_sig_example :
    parse_interp_sig (to_sig (placement mars 16 (some 7))) ≡ some (placement mars 4 (some 7))
parse_interp_sig-to_sig_example = parse_interp_sig-to_sig (placement mars 16 (some 7)) (omega arith)
