-- ===== src/Common/Trim.antt =====
-- `str::trim`: the characters of the Unicode property White_Space, in UTF-8, at both ends.
use Prim.Native.Nat.{ℕ, zero, suc}
use mathlib.Core.Bool.{Bool, ◌&&◌, ◌||◌}
use mathlib.Core.List.{[], ◌∷◌}
use plain_rs.Common.Tests.{◌==◌, within, if◌then◌else◌}
use plain_rs.Common.Lists.{is_empty}
use plain_rs.Common.Text.{Bytes}

-- U+1680, U+2000 to U+200A, U+2028, U+2029, U+202F, U+205F and U+3000.
abbrev wide_space : ℕ → ℕ → ℕ → Bool
wide_space a b c =
    (a == 0xE1 && (b == 0x9A && c == 0x80))
    || ((a == 0xE2
          && ((b == 0x80 && (within 0x80 0x8A c || (within 0xA8 0xA9 c || c == 0xAF)))
              || (b == 0x81 && c == 0x9F)))
        || (a == 0xE3 && (b == 0x80 && c == 0x80)))

abbrev narrow_space : ℕ → Bool
narrow_space a = within 9 13 a || a == 32

abbrev latin_space : ℕ → ℕ → Bool
latin_space a b = a == 0xC2 && (b == 0x85 || b == 0xA0)

-- The bytes of the white space that a text begins with, or zero.
unfoldable pub space_length : Bytes → ℕ
space_length [] = 0
space_length (a ∷ []) = if narrow_space a then 1 else 0
space_length (a ∷ b ∷ []) = if narrow_space a then 1 else if latin_space a b then 2 else 0
space_length (a ∷ b ∷ c ∷ rest) =
    if narrow_space a then 1 else if latin_space a b then 2 else if wide_space a b c then 3 else 0

-- The text after `n` bytes and the white space behind them.
unfoldable pub skip_space : ℕ → Bytes → Bytes
skip_space n [] = []
skip_space (suc n) (b ∷ bs) = skip_space n bs
skip_space zero (b ∷ bs) = elim (space_length (b ∷ bs)) [ zero ↦ b ∷ bs | suc n ↦ skip_space n bs ]

-- A byte inside of a character begins no white space.
unfoldable pub trim_end : Bytes → Bytes
trim_end [] = []
trim_end (b ∷ bs) = if is_empty (skip_space 0 (b ∷ bs)) then [] else b ∷ trim_end bs

unfoldable pub trim : Bytes → Bytes
trim s = trim_end (skip_space 0 s)
