-- ===== src/Coins/Digits.antt =====
-- Arithmetic with numbers of one digit, for runs of app/backend/coin.c.
use tiny_https_server.Prelude.{ℕ, ◌+◌, ◌-◌, [], ◌∷◌, Bytes}
use tiny_https_server.Coins.{Arithmetic}

-- Numbers of one digit.
abbrev pub digit : Bytes → ℕ × Bytes
digit [] = (0, [])
digit (c ∷ s) = (c - 48, s)

abbrev pub digits : Arithmetic
digits = record {
  F = ℕ;
  D = ℕ;
  zero_f = 0;
  add = λ x y. x + y;
  sub = λ x y. x - y;
  div = λ x y. x;
  strtod = digit;
  show_f = λ x. (x + 48) ∷ [];
  show_d = λ x. (x + 48) ∷ [];
}
