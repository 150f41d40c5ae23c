-- ===== src/Crossbar.antt =====
-- liteeth/crossbar.py and the crossbars of liteeth/mac/common.py, liteeth/core/ip.py and
-- liteeth/core/udp.py. The arbiter and the dispatcher are the library's: of the latter the one-hot
-- `sel` is modelled.
pub mod Dispatch
use liteeth.Prelude.{ℕ, Bool, true, false, ◌+◌, ◌^◌, ◌==◌, ◌||◌, if◌then◌else◌}
use liteeth.Prelude.{List, [], ◌∷◌, ◌++◌, Option, none, some}

infixl 5 ◌>>=◌
abbrev pub ◌>>=◌ : {A B : Type 0} → Option A → (A → Option B) → Option B
none >>= f = none
some a >>= f = f a

-- A port by its width, which its endpoints have.
pub record Port : Type 0 where
  pub dw : ℕ

-- An item of `users`.
pub record User : Type 0 where
  pub key : ℕ
  pub port : Port

-- `key in self.users.keys()`
abbrev pub assigned : ℕ → List User → Bool
assigned key [] = false
assigned key (u ∷ us) = (key == u.key) || assigned key us

-- A port and the new `users`; none is the ValueError. Of `self.users` an item is the last one added.
abbrev pub Granted : Type 0
Granted = Option (Port × List User)

-- `get_port` of the crossbars of the MAC and of IP.
abbrev pub get_port : ℕ → ℕ → List User → Granted
get_port key dw us =
    if assigned key us
    then none
    else some (record { dw = dw }, us ++ (record { key = key; port = record { dw = dw } } ∷ []))

-- That of UDP, whose width is `self_dw`: the port that it returns stands behind converters.
abbrev pub udp_get_port : ℕ → ℕ → ℕ → List User → Granted
udp_get_port self_dw key dw us =
    if assigned key us
    then none
    else some
        (record { dw = dw }, us ++ (record { key = key; port = record { dw = self_dw } } ∷ []))

-- `dispatcher.sel` at this value of `dispatch_param`, from the `i`-th user on.
abbrev pub sel_from : ℕ → List User → ℕ → ℕ
sel_from i [] x = 0
sel_from i (u ∷ us) x = if x == u.key then 2 ^ i else sel_from (i + 1) us x

abbrev pub sel : List User → ℕ → ℕ
sel us x = sel_from 0 us x

-- A crossbar by its `get_port`; that of UDP has a width of its own.
pub data Kind : Type 0 where
  mac : Kind
  ip : Kind
  udp : ℕ → Kind

abbrev pub port_of : Kind → ℕ → ℕ → List User → Granted
port_of mac key dw us = get_port key dw us
port_of ip key dw us = get_port key dw us
port_of (udp self_dw) key dw us = udp_get_port self_dw key dw us

-- A request, and a design that makes several: an exception ends it.
pub record Request : Type 0 where
  pub key : ℕ
  pub dw : ℕ

abbrev pub get_ports : Kind → List Request → List User → Option (List User)
get_ports kind [] us = some us
get_ports kind (r ∷ rs) us = do granted ← port_of kind r.key r.dw us; get_ports kind rs granted.1
