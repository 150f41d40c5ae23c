-- ===== src/Core/Icmp/Echo.antt =====
-- The checksum of `LiteEthICMPEcho`, of liteeth/core/icmp.py, and the words of a message.
use liteeth.Prelude.{ℕ, ◌+◌, ◌*◌, ◌%◌, ◌^◌, ◌<◌, ◌≡◌, arith}
use liteeth.Prelude.{List, ◌∷◌}
use liteeth.Core.Ip.Checksum.Sum.{sum}
use liteeth.Core.Icmp.{echo_checksum, echo_msgtype}

-- The words of an ICMP message: type and code, the checksum, and the rest.
abbrev pub message : ℕ → ℕ → ℕ → List ℕ → List ℕ
message msgtype code checksum rest = (msgtype * 2 ^ 8 + code) ∷ checksum ∷ rest

-- RFC 1071: the one's complement sum of all words is minus zero.
abbrev pub IsValid : List ℕ → Type 0
IsValid ws = (sum ws % 65535 ≡ 0) × (0 < sum ws)

echo_congruent :
    (c n : ℕ)
    → c < 2 ^ 16
    → (8 * 2 ^ 8 + n + c) % 65535 ≡ 0
    → ((n + echo_checksum c) % 65535 ≡ 0) × (0 < echo_checksum c)
unfolding echo_checksum
echo_congruent c n h e = ground arith

-- The answer to a valid ICMP echo request (type 8) with a checksum of 16 bits is a valid message of
-- type 0 with the same code and data, under the checksum that the echo computes.
pub echo-IsValid :
    (code checksum : ℕ) (rest : List ℕ)
    → checksum < 2 ^ 16
    → IsValid (message 8 code checksum rest)
    → IsValid (message echo_msgtype code (echo_checksum checksum) rest)
echo-IsValid code c rest h valid =
    let moved : 8 * 2 ^ 8 + (code + sum rest) + c ≡ sum (message 8 code c rest) = omega arith in
    let e : (8 * 2 ^ 8 + (code + sum rest) + c) % 65535 ≡ 0 = rw moved valid.0 in
    let (congruent, pos) = echo_congruent c (code + sum rest) h e in
    let back : sum (message echo_msgtype code (echo_checksum c) rest)
        ≡ code + sum rest + echo_checksum c =
      omega arith in
    (rw back congruent, omega arith)
