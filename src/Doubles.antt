-- ===== src/Doubles.antt =====
-- The operations on `double` that the server uses. The kernel has no floating-point numbers, so
-- they are an argument of the definitions; times are whole nanoseconds.
use rtsp_server.Prelude.{ℕ, Bool, Option}
use rtsp_server.Prelude.Bits.{Bytes}
use rtsp_server.Prelude.Numbers.{ℤ}

pub record Doubles (D : Type 0) : Type 0 where
  pub zero_d : D
  pub minus_one : D
  -- `static_cast<double>` of an unsigned number, and `static_cast<uint32_t>`.
  pub of_u32 : ℕ → D
  pub to_u32 : D → ℕ
  -- The same for `int64_t`, and `static_cast<float>`.
  pub of_i64 : ℤ → D
  pub to_i64 : D → ℤ
  pub to_float : D → D
  pub add : D → D → D
  pub mul : D → D → D
  pub div : D → D → D
  pub max_d : D → D → D
  pub lt : D → D → Bool
  pub le : D → D → Bool
  -- `duration_cast<nanoseconds>` of a number of seconds.
  pub to_ns : D → ℤ
  -- `std::fixed << std::setprecision(3)`.
  pub fixed3 : D → Bytes
  -- `std::stod`, with `none` for an exception.
  pub stod : Bytes → Option D
