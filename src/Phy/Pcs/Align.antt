-- ===== src/Phy/Pcs/Align.antt =====
-- The alignment of what `TransmitPath` of liteeth/phy/pcs_1000basex.py sends, for any input.
use liteeth.Prelude.{
  ℕ, Bool, true, false, ◌≡◌, refl, ◌&&◌, ◌||◌, not, ◌==◌, List, [], ◌∷◌, ◌++◌, arith,
}
use liteeth.Machine.{outs}
use liteeth.Phy.Pcs.{Symbol, comma, start_of_packet}
use liteeth.Phy.Pcs.Transmit.{State, start, config_d, config_reg_lsb, config_reg_msb, idle}
use liteeth.Phy.Pcs.Transmit.{data_state, carrier_extend_1, carrier_extend_2}
use liteeth.Phy.Pcs.Transmit.{Tx, Inputs, Output, tx_step, at}

-- The symbols that the receiver aligns to.
abbrev pub is_ordered_set : Symbol → Bool
is_ordered_set x = x.k && (x.d == comma || x.d == start_of_packet)

-- They stand at even places; the flag tells whether the first place is odd.
unfoldable pub all_even : Bool → List Output → Bool
all_even odd [] = true
all_even odd (o ∷ os) = (not (is_ordered_set o.symbol) || not odd) && all_even (not odd) os

-- The parity that each state is entered at.
abbrev pub ParityInv : State → Bool → Type 0
ParityInv start p = p ≡ false
ParityInv config_d p = p ≡ true
ParityInv config_reg_lsb p = p ≡ false
ParityInv config_reg_msb p = p ≡ true
ParityInv idle p = p ≡ true
ParityInv data_state p = Unit
ParityInv carrier_extend_1 p = Unit
ParityInv carrier_extend_2 p = p ≡ true

next-ParityInv :
    (s : State) (p c : Bool) (b t : ℕ) (i : Inputs)
    → ParityInv s p
    → let n = (tx_step (at s p c b t) i).0 in ParityInv n.fsm n.parity
unfolding tx_step
next-ParityInv start p c b t i h = ground arith
next-ParityInv config_d p c b t i h = ground arith
next-ParityInv config_reg_lsb p c b t i h = ground arith
next-ParityInv config_reg_msb p c b t i h = ground arith
next-ParityInv idle p c b t i h = ground arith
next-ParityInv data_state p c b t i h = ground arith
next-ParityInv carrier_extend_1 p c b t i h = ground arith
next-ParityInv carrier_extend_2 p c b t i h = ground arith

out_even :
    (s : State) (p c : Bool) (b t : ℕ) (i : Inputs) (more : List Output)
    → ParityInv s p
    → all_even (not p) more ≡ true
    → all_even p ((tx_step (at s p c b t) i).1 ++ more) ≡ true
unfolding tx_step all_even
out_even start p c b t i more h e = ground arith
out_even config_d p c b t i more h e = ground arith
out_even config_reg_lsb p c b t i more h e = ground arith
out_even config_reg_msb p c b t i more h e = ground arith
out_even idle p c b t i more h e = ground arith
out_even data_state p c b t i more h e = ground arith
out_even carrier_extend_1 p c b t i more h e = ground arith
out_even carrier_extend_2 p c b t i more h e = ground arith

-- In a state whose parity is that which its FSM state is entered at, for any inputs, every K28.5
-- and every /S/ that the transmitter sends stands at an even place.
pub tx_step-all_even :
    (s : Tx) (is : List Inputs)
    → ParityInv s.fsm s.parity
    → all_even s.parity (outs tx_step s is) ≡ true
unfolding outs tx_step all_even
tx_step-all_even s [] h = refl
tx_step-all_even s (i ∷ is) h =
    out_even s.fsm s.parity s.c_type s.config_reg_buffer s.timer i (outs tx_step (tx_step s i).0 is)
      h
      (tx_step-all_even (tx_step s i).0 is
        (next-ParityInv s.fsm s.parity s.c_type s.config_reg_buffer s.timer i h))
