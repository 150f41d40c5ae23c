-- ===== src/Tests/Crossbar.antt =====
-- The crossbar of liteeth/crossbar.py with three users.
use liteeth.Prelude.{◌≡◌, refl, List, [], ◌∷◌, map}
use liteeth.Crossbar.{User, Request, udp, sel}
use liteeth.Crossbar.Dispatch.{user, sel-get_ports}

abbrev requests : List Request
requests =
    record { key = 1; dw = 8 } ∷ record { key = 17; dw = 32 } ∷ record { key = 6; dw = 8 } ∷ []

abbrev users : List User
users =
    record { key = 1; port = record { dw = 32 } }
    ∷ record { key = 17; port = record { dw = 32 } }
    ∷ record { key = 6; port = record { dw = 32 } }
    ∷ []

-- The UDP crossbar is 32 bits wide.
sel-get_ports_example : (users ≡ map (user (udp 32)) requests) × (sel users 17 ≡ 2)
sel-get_ports_example =
    sel-get_ports (udp 32) requests users 1 record { key = 17; dw = 32 } refl refl
