-- ===== src/Float.antt =====
-- Python's floats, which the program computes with and does not implement: times, weights, scores.
-- A type of floats is a parameter; no value is NaN, so `a < b` is the negation of `b <= a`, and
-- `a == b` is both orders.
mod Base
mod Order
pub mod Fixed
pub use Base.*
unfoldable pub use Order.*
