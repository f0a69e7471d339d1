-- ===== src/Main/Timeouts.antt =====
-- The time limits of the listener. (cmd/main.go, internal/config/config.go)
use leasewebassignment.Base.{ℕ, ◌*◌, ◌^◌, ◌≤◌, ◌<◌, none, ◌≡◌, subst, ◌↔◌, arith}
use leasewebassignment.Base.Int.{pos, int_half, mul_int, mul_int-pos, mul_int-IsInt, IsInt}
use leasewebassignment.Config.{Config, validate}
use leasewebassignment.Config.Validity.{IsValid, validate_iff}
use leasewebassignment.Main.{second, http_server, request_timeout}

-- The most seconds that fit a `time.Duration`.
abbrev pub max_seconds : ℕ
max_seconds = 9223372036

fits : {n : ℕ} → IsInt (pos (n * second)) → n ≤ max_seconds
fits h = omega (arith, h)

mul_int-second :
    (n : ℕ) → n < int_half → (mul_int (pos n) (pos second) ≡ pos (n * second)) ↔ (n ≤ max_seconds)
mul_int-second n h = (
  λ e. fits (subst IsInt e (mul_int-IsInt (pos n) (pos second))),
  λ le. mul_int-pos n second (omega arith),
)

mul_int-wraps : (k : ℕ) → mul_int (pos (k * 2 ^ 55)) (pos second) ≡ pos 0
unfolding mul_int
mul_int-wraps k = ground arith

-- The time limits of a request are those of the configuration, in nanoseconds, exactly when it has at
-- most 9223372036 seconds, about 292 years.
pub http_server_timeout :
    (cfg : Config) (n : ℕ)
    → cfg.server.timeout ≡ pos n
    → n < int_half
    → (((http_server cfg).read_timeout ≡ pos (n * second))
        × ((http_server cfg).write_timeout ≡ pos (n * second)))
      ↔ (n ≤ max_seconds)
unfolding http_server
http_server_timeout cfg n is h =
    let (to, from) = mul_int-second n h in
    rw (is, request_timeout) (λ (read, write). to read, λ le. (from le, from le))

-- A configuration with a positive multiple of 2^55 seconds is as valid as one with a second, and its
-- listener has no time limit at all: both limits wrap round to 0.
pub http_server_overflow :
    (cfg : Config) (k : ℕ)
    → IsValid cfg
    → 0 < k
    → k < 256
    → let cfg' = record cfg { server = record cfg.server { timeout = pos (k * 2 ^ 55) } } in
      (validate cfg' ≡ none)
      × ((http_server cfg').read_timeout ≡ pos 0)
      × ((http_server cfg').write_timeout ≡ pos 0)
unfolding http_server request_timeout
http_server_overflow cfg k valid some_k small = (
  (validate_iff _).1 (record {
    host_given = valid.host_given;
    port_given = valid.port_given;
    timeout_positive = omega arith;
    data_file_given = valid.data_file_given;
    upload_dir_given = valid.upload_dir_given;
  }),
  mul_int-wraps k,
  mul_int-wraps k,
)
