-- ===== src/Frame/Words.antt =====
-- encoding/binary as protocol.go calls it: four bytes, most significant first.
use deep_protocol.Base.{ℕ, ◌^◌, ◌<◌, ◌≡◌, [], ◌∷◌, ◌++◌, Bytes, IsByte, All, arith}
use deep_protocol.Frame.{put_uint32, uint32}

pub uint32-put_uint32 : (v : ℕ) (rest : Bytes) → v < 2 ^ 32 → uint32 (put_uint32 v ++ rest) ≡ v
unfolding uint32 put_uint32
uint32-put_uint32 v rest h = omega arith

pub put_uint32-uint32 :
    (a b c d : ℕ) (rest : Bytes)
    → All IsByte (a ∷ b ∷ c ∷ d ∷ [])
    → put_uint32 (uint32 (a ∷ b ∷ c ∷ d ∷ rest)) ≡ a ∷ b ∷ c ∷ d ∷ []
unfolding uint32 put_uint32
put_uint32-uint32 a b c d rest h = ground arith

pub uint32-lt :
    (a b c d : ℕ) (rest : Bytes)
    → All IsByte (a ∷ b ∷ c ∷ d ∷ [])
    → uint32 (a ∷ b ∷ c ∷ d ∷ rest) < 2 ^ 32
unfolding uint32
uint32-lt a b c d rest h = omega arith
