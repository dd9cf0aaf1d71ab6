-- ===== src/Bin/Numbers.antt =====
-- bin/date.c, bin/ping.c: numbers as decimal text.
pub mod Decimal
use ephemeral_os.Base.{
  ℕ, zero, suc, ◌+◌, ◌-◌, ◌/◌, ◌%◌, [], ◌∷◌, ◌++◌, Bytes, ◌==◌, if◌then◌else◌, length, replicate,
}

-- The loop that fills `temp`: the digits of `num`, the last one first. A number above 0 has
-- no more digits than its value is, so as many rounds are enough.
unfoldable pub digits_up : ℕ → ℕ → Bytes
digits_up zero num = []
digits_up (suc fuel) num =
    let rest = digits_up fuel (num / 10) in if num == 0 then [] else (b'0' + num % 10) ∷ rest

-- The loop that takes `temp` from its end.
unfoldable pub reversed : Bytes → Bytes → Bytes
reversed [] out = out
reversed (c ∷ cs) out = reversed cs (c ∷ out)

unfoldable pub decimal : ℕ → Bytes
unfolding digits_up reversed
decimal num = if num == 0 then b'0' ∷ [] else reversed (digits_up num num) []

-- Spaces up to `min_width`, and the number. `num` is not negative.
unfoldable pub int_to_str : ℕ → ℕ → Bytes
unfolding decimal
int_to_str num min_width = replicate (min_width - length (decimal num)) b' ' ++ decimal num

-- The text that `print_ip` prints: the four bytes of an address, the highest first.
unfoldable pub print_ip : ℕ → Bytes
unfolding decimal
print_ip ip =
    decimal (ip / 16777216 % 256)
    ++ (b'.' ∷ decimal (ip / 65536 % 256)
        ++ (b'.' ∷ decimal (ip / 256 % 256) ++ (b'.' ∷ decimal (ip % 256))))
