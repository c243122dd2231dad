-- ===== src/Js.antt =====
-- What the backend uses of JavaScript itself: numbers, their arithmetic, and parsed JSON.
pub mod Number
pub mod Floats
pub mod Fractions
pub mod Json
