-- ===== src/Vlong/Shifts.antt =====
-- The shifts of vlrt.c, and what they are on the numbers.
mod Left
mod Right
pub use Left.*
pub use Right.*
