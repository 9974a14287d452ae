-- ===== src/Core/Transport/Encoding.antt =====
-- The percent encoding can be read back.
use elasticctl.Prelude.{
  ℕ, ◌+◌, ◌-◌, ◌*◌, ◌/◌, ◌%◌, ◌<◌, ◌≡◌, refl, false, [], ◌∷◌, arith, ltb, ◌==◌, if◌then◌else◌, All,
  Bool-cases, inl, inr,
}
use elasticctl.Core.Transport.{Bytes, is_unreserved, hex_digit, urlencode}

-- what a reader of the encoded text has met of an encoded byte
pub data Pending : Type 0 where
  plain percent : Pending
  high : ℕ → Pending

abbrev digit : ℕ → ℕ
digit c = if ltb c 58 then c - 48 else c - 55

decode_from : Pending → Bytes → Bytes
decode_from plain (b ∷ bs) =
    let direct = b ∷ decode_from plain bs in
    let encoded = decode_from percent bs in if b == 37 then encoded else direct
decode_from percent (b ∷ bs) = decode_from (high (digit b)) bs
decode_from (high h) (b ∷ bs) = (h * 16 + digit b) ∷ decode_from plain bs
decode_from _ [] = []

-- percent decoding, by the standard
unfoldable pub percent_decode : Bytes → Bytes
unfolding decode_from
percent_decode bs = decode_from plain bs

digit-hex_digit : (d : ℕ) → d < 16 → digit (hex_digit d) ≡ d
unfolding hex_digit
digit-hex_digit d h = ground arith

-- Decoding the encoding of bytes gives the bytes.
pub percent_decode-urlencode :
    (bs : Bytes) → All (λ b. b < 256) bs → percent_decode (urlencode bs) ≡ bs
unfolding percent_decode decode_from urlencode
percent_decode-urlencode [] h = refl
percent_decode-urlencode (b ∷ bs) h = elim (Bool-cases (is_unreserved b)) [
  | inl e ↦
      let other : (b == 37) ≡ false = unfold is_unreserved in ground (arith, e) in
      ground (arith, e, other, percent_decode-urlencode bs h.1)
  | inr e ↦ ground (
    arith,
    e,
    digit-hex_digit (b / 16) (ground (arith, h.0)),
    digit-hex_digit (b % 16) (ground arith),
    percent_decode-urlencode bs h.1,
  )
]
