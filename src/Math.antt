-- ===== src/Math.antt =====
-- crates/tactus/src/math.rs: the beat grid.
pub mod Word
pub mod Grid
pub mod Align
pub mod SessionBeat
pub mod Float
pub mod Rounding
pub mod Bijection
pub mod AppBeat
pub mod Extrapolation
