-- ===== src/Crossbar/Dispatch.antt =====
-- Which user of the crossbar in liteeth/crossbar.py a packet goes to.
use mathlib.Core.List.{append_assoc, append-nil}
use mathlib.Core.Option.{some-injective, none-ne-some}
use mathlib.Core.Bool.{false≢true}
use liteeth.Prelude.{ℕ, zero, suc, Bool, true, false, ◌+◌, ◌^◌, ◌==◌, ◌||◌, if◌then◌else◌}
use liteeth.Prelude.{List, [], ◌∷◌, ◌++◌, none, some, length, length-append, get_elem?, map, arith}
use liteeth.Prelude.{◌≡◌, refl, ap, sym, ◌∙◌}
use liteeth.Crossbar.{
  User, Kind, mac, ip, udp, Request, Granted, assigned, port_of, get_ports, ◌>>=◌,
}
use liteeth.Crossbar.{sel, sel_from}

-- The user that is added last is selected by its key, if no other has it.
sel_from-append :
    (i : ℕ) (us : List User) (u : User) (x : ℕ)
    → sel_from i (us ++ (u ∷ [])) x
      ≡ (if assigned x us then sel_from i us x else if x == u.key then 2 ^ (i + length us) else 0)
sel_from-append i [] u x =
    let same : i + 0 ≡ i = omega arith in ap (λ n. if x == u.key then 2 ^ n else 0) (sym same)
sel_from-append i (v ∷ us) u x =
    by_key (x == v.key) (assigned x us) (sel_from-append (i + 1) us u x)
  where
    by_key :
        (b a : Bool)
        → sel_from (i + 1) (us ++ (u ∷ [])) x
          ≡ (if a then sel_from (i + 1) us x else if x == u.key then 2 ^ (i + 1 + length us) else 0)
        → (if b then 2 ^ i else sel_from (i + 1) (us ++ (u ∷ [])) x) ≡ (
            if b || a
            then (if b then 2 ^ i else sel_from (i + 1) us x)
            else if x == u.key
            then 2 ^ (i + length (v ∷ us))
            else 0)
    by_key true a e = refl
    by_key false a e =
        let same : i + 1 + length us ≡ i + suc (length us) = omega arith in
        e ∙ ap (λ n. if a then sel_from (i + 1) us x else if x == u.key then 2 ^ n else 0) same

assigned-append_left :
    (us vs : List User) (x : ℕ) → assigned x us ≡ true → assigned x (us ++ vs) ≡ true
assigned-append_left [] vs x h = absurd (false≢true h)
assigned-append_left (u ∷ us) vs x h = by_key (x == u.key) (assigned-append_left us vs x) h
  where
    by_key :
        (b : Bool)
        → (assigned x us ≡ true → assigned x (us ++ vs) ≡ true)
        → (b || assigned x us) ≡ true
        → (b || assigned x (us ++ vs)) ≡ true
    by_key true rest h = refl
    by_key false rest h = rest h

assigned-append_last : (us : List User) (u : User) → assigned u.key (us ++ (u ∷ [])) ≡ true
assigned-append_last [] u = let own : (u.key == u.key) ≡ true = ground arith in rw own refl
assigned-append_last (v ∷ us) u = by_key (u.key == v.key) (assigned-append_last us u)
  where
    by_key :
        (b : Bool)
        → assigned u.key (us ++ (u ∷ [])) ≡ true
        → (b || assigned u.key (us ++ (u ∷ []))) ≡ true
    by_key true h = refl
    by_key false h = h

-- The user that a request makes.
abbrev pub user : Kind → Request → User
user (udp self_dw) r = record { key = r.key; port = record { dw = self_dw } }
user kind r = record { key = r.key; port = record { dw = r.dw } }

-- Requests that succeed leave the earlier users where they are, and give the `i`-th bit `i`.
record Dispatched (kind : Kind) (us us' : List User) (rs : List Request) : Type 0 where
  pub users : us' ≡ us ++ map (user kind) rs
  pub stays : (x : ℕ) → assigned x us ≡ true → sel us' x ≡ sel us x
  pub each : (i : ℕ) (r : Request) → get_elem? rs i ≡ some r → sel us' r.key ≡ 2 ^ (length us + i)

-- The answer by whether the key is assigned.
abbrev answer : Kind → Request → List User → Bool → Granted
answer kind r us b = if b then none else some (record { dw = r.dw }, us ++ (user kind r ∷ []))

port_of-answer :
    (kind : Kind) (r : Request) (us : List User)
    → port_of kind r.key r.dw us ≡ answer kind r us (assigned r.key us)
port_of-answer mac r us = refl
port_of-answer ip r us = refl
port_of-answer (udp self_dw) r us = refl

key-user : (kind : Kind) (r : Request) → (user kind r).key ≡ r.key
key-user mac r = refl
key-user ip r = refl
key-user (udp self_dw) r = refl

sel-append :
    (us : List User) (u : User) (x : ℕ) → assigned x us ≡ true → sel (us ++ (u ∷ [])) x ≡ sel us x
sel-append us u x a = sel_from-append 0 us u x ∙ rw a refl

sel-append_last :
    (us : List User) (u : User)
    → assigned u.key us ≡ false
    → sel (us ++ (u ∷ [])) u.key ≡ 2 ^ length us
sel-append_last us u f =
    let own : (u.key == u.key) ≡ true = ground arith in
    let same : 0 + length us ≡ length us = omega arith in
    sel_from-append 0 us u u.key ∙ rw (f, own) (ap (λ n. 2 ^ n) same)

granted_more :
    (kind : Kind) (r : Request) (rs : List Request) (us us' : List User)
    → assigned r.key us ≡ false
    → Dispatched kind (us ++ (user kind r ∷ [])) us' rs
    → Dispatched kind us us' (r ∷ rs)
granted_more kind r rs us us' f h = record {
  users = h.users ∙ append_assoc us (u ∷ []) (map (user kind) rs);
  stays = λ x a. h.stays x (assigned-append_left us (u ∷ []) x a) ∙ sel-append us u x a;
  each = by_index;
}
  where
    u : User
    u = user kind r

    first : sel us' u.key ≡ 2 ^ (length us + 0)
    first =
        let same : length us ≡ length us + 0 = omega arith in
        let free : assigned u.key us ≡ false = ap (λ x. assigned x us) (key-user kind r) ∙ f in
        h.stays u.key (assigned-append_last us u) ∙ sel-append_last us u free ∙ ap (λ n. 2 ^ n) same

    by_index :
        (i : ℕ) (t : Request) → get_elem? (r ∷ rs) i ≡ some t → sel us' t.key ≡ 2 ^ (length us + i)
    by_index zero t e =
        ap (λ (q : Request). sel us' q.key) (sym (some-injective r t e))
        ∙ ap (sel us') (sym (key-user kind r))
        ∙ first
    by_index (suc i) t e =
        let same : length (us ++ (u ∷ [])) + i ≡ length us + suc i =
          omega (arith, length-append us (u ∷ [])) in
        h.each i t e ∙ ap (λ n. 2 ^ n) same

granted :
    (kind : Kind) (rs : List Request) (us us' : List User)
    → get_ports kind rs us ≡ some us'
    → Dispatched kind us us' rs
granted kind [] us us' e = record {
  users = sym (some-injective us us' e) ∙ sym (append-nil us);
  stays = λ x a. ap (λ (t : List User). sel t x) (sym (some-injective us us' e));
  each = λ i r o. absurd (none-ne-some r o);
}
granted kind (r ∷ rs) us us' e =
    by_key (assigned r.key us) refl
      (sym (ap (λ (g : Granted). g >>= (λ a. get_ports kind rs a.1)) (port_of-answer kind r us))
        ∙ e)
      (granted kind rs (us ++ (user kind r ∷ [])) us')
  where
    by_key :
        (b : Bool)
        → assigned r.key us ≡ b
        → (answer kind r us b >>= (λ g. get_ports kind rs g.1)) ≡ some us'
        → (get_ports kind rs (us ++ (user kind r ∷ [])) ≡ some us'
            → Dispatched kind (us ++ (user kind r ∷ [])) us' rs)
        → Dispatched kind us us' (r ∷ rs)
    by_key true f e rest = absurd (none-ne-some us' e)
    by_key false f e rest = granted_more kind r rs us us' f (rest e)

-- When the requests of a design for ports of a crossbar of the MAC, IP or UDP all succeed, the
-- users are theirs in order, with the width that each asks for, or that of the UDP crossbar, and a
-- packet with the key of the `i`-th one is dispatched with bit `i` of `sel` set and no other; so no
-- two have the same key.
pub sel-get_ports :
    (kind : Kind) (rs : List Request) (us : List User) (i : ℕ) (r : Request)
    → get_ports kind rs [] ≡ some us
    → get_elem? rs i ≡ some r
    → (us ≡ map (user kind) rs) × (sel us r.key ≡ 2 ^ i)
sel-get_ports kind rs us i r e o =
    let h = granted kind rs [] us e in
    let same : 0 + i ≡ i = omega arith in (h.users, h.each i r o ∙ ap (λ n. 2 ^ n) same)
