-- ===== src/Core.antt =====
-- core/src: the astrological vocabulary and the computations that need no ephemeris.
pub mod Planet
pub mod Aspects
pub mod Interp
pub mod Patterns
