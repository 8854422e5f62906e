-- ===== src/Topo/Commands/NextHop.antt =====
-- src/topos/TopoGenerator.py: the commands name the addresses that the description gives.
use mathlib.Core.List.{Memᴰ}
use mathlib.Core.List.Memᴰ
use mathlib.Core.Path.{subst}
use smoothie.Base.{
  ℕ, zero, suc, ◌+◌, String, ◌≡◌, refl, sym, ap, ◌∙◌, true, false, some, List, [], ◌∷◌, ◌++◌, arith,
  nat_eq, string_eq, pair_eq, get_elem?,
}
use smoothie.Base.Error.{ok, >>=-eq-ok}
use smoothie.Helper.{mac_to_ipv6_linklocal}
use smoothie.Topo.Commands.Parts.{ok-injective, in_first, in_rest}
use smoothie.Topo.Commands.{
  Command, ipv6_forward, Texts, id_to_mac, spine_hops, leaf_hops, spine_lines, leaf_lines,
}

-- a command that forwards to the next hop with this address, by this port
abbrev pub Forwards : String → ℕ → List Command → Type 0
Forwards mac port cs =
    (ip : ℕ) × (mac_to_ipv6_linklocal mac ≡ ok ip) × Memᴰ (ipv6_forward ip 128 mac port) cs

Forwards-left :
    (mac : String) (port : ℕ) (a b : List Command)
    → Forwards mac port a
    → Forwards mac port (a ++ b)
Forwards-left mac port a b (ip, v, m) = (ip, v, Memᴰ.append_left b m)

Forwards-right :
    (mac : String) (port : ℕ) (a b : List Command)
    → Forwards mac port b
    → Forwards mac port (a ++ b)
Forwards-right mac port a b (ip, v, m) = (ip, v, Memᴰ.append_right a m)

some-injective : (n m : ℕ) → some m ≡ some n → m ≡ n
some-injective n m h = cc

-- the first command of a list
found :
    (mac : String) (n m : ℕ) (mac_of : ℕ → String) (port port' ip : ℕ) (rest cs : List Command)
    → some m ≡ some n
    → mac ≡ mac_of m
    → port' ≡ port
    → mac_to_ipv6_linklocal mac ≡ ok ip
    → ok (ipv6_forward ip 128 mac port' ∷ rest) ≡ ok cs
    → Forwards (mac_of n) port cs
found mac n m mac_of port port' ip rest cs h same p f e =
    let wanted : mac ≡ mac_of n = same ∙ ap mac_of (some-injective n m h) in
    (
      ip,
      rw (sym wanted) f,
      subst (λ (r : List Command). Memᴰ (ipv6_forward ip 128 (mac_of n) port) r)
          (ok-injective _ cs e) (Memᴰ.head (rw (sym wanted, p) refl)),
    )

spine_hops-Forwards :
    (idx i k n : ℕ) (ns : List ℕ) (cs : List Command)
    → get_elem? ns k ≡ some n
    → spine_hops idx i ns ≡ ok cs
    → Forwards (id_to_mac (idx + 1) (n + 1) false) (i + k + 1) cs
unfolding spine_hops
spine_hops-Forwards idx i k n [] cs h e = cc
spine_hops-Forwards idx i zero n (m ∷ ns) cs h e =
    let mac = id_to_mac (idx + 1) (m + 1) false in
    let (ip, f, e1) = >>=-eq-ok (mac_to_ipv6_linklocal mac) _ e in
    let (rest, g, e2) = >>=-eq-ok (spine_hops idx (i + 1) ns) _ e1 in
    found mac n m (λ n. id_to_mac (idx + 1) (n + 1) false) (i + 0 + 1) (i + 1) ip _ cs h refl
      (omega arith) f e2
spine_hops-Forwards idx i (suc k) n (m ∷ ns) cs h e =
    let (ip, f, e1) = >>=-eq-ok (mac_to_ipv6_linklocal (id_to_mac (idx + 1) (m + 1) false)) _ e in
    let (rest, g, e2) = >>=-eq-ok (spine_hops idx (i + 1) ns) _ e1 in
    let (ip', f', m') = spine_hops-Forwards idx (i + 1) k n ns rest h g in
    let port : i + 1 + k + 1 ≡ i + suc k + 1 = omega arith in
    let m2 =
      subst (λ p. Memᴰ (ipv6_forward ip' 128 (id_to_mac (idx + 1) (n + 1) false) p) rest) port m' in
    (
      ip',
      f',
      subst
          (λ (r : List Command).
            Memᴰ (ipv6_forward ip' 128 (id_to_mac (idx + 1) (n + 1) false) (i + suc k + 1)) r)
          (ok-injective _ cs e2) (Memᴰ.tail (Memᴰ.tail (Memᴰ.tail m2))),
    )

leaf_hops-Forwards :
    (nbr_h idx i cnt k n : ℕ) (ns : List ℕ) (cs : List Command)
    → get_elem? ns k ≡ some n
    → leaf_hops nbr_h idx i cnt ns ≡ ok cs
    → Forwards (id_to_mac (n + 1) (idx + 1) true) (i + k + nbr_h + 1) cs
unfolding leaf_hops
leaf_hops-Forwards nbr_h idx i cnt k n [] cs h e = cc
leaf_hops-Forwards nbr_h idx i cnt zero n (m ∷ ns) cs h e =
    let mac = id_to_mac (m + 1) (idx + 1) true in
    let (ip, f, e1) = >>=-eq-ok (mac_to_ipv6_linklocal mac) _ e in
    let (rest, g, e2) = >>=-eq-ok (leaf_hops nbr_h idx (i + 1) (cnt + 1) ns) _ e1 in
    found mac n m (λ n. id_to_mac (n + 1) (idx + 1) true) (i + 0 + nbr_h + 1) (i + nbr_h + 1) ip _
      cs h refl (omega arith) f e2
leaf_hops-Forwards nbr_h idx i cnt (suc k) n (m ∷ ns) cs h e =
    let (ip, f, e1) = >>=-eq-ok (mac_to_ipv6_linklocal (id_to_mac (m + 1) (idx + 1) true)) _ e in
    let (rest, g, e2) = >>=-eq-ok (leaf_hops nbr_h idx (i + 1) (cnt + 1) ns) _ e1 in
    let (ip', f', m') = leaf_hops-Forwards nbr_h idx (i + 1) (cnt + 1) k n ns rest h g in
    let port : i + 1 + k + nbr_h + 1 ≡ i + suc k + nbr_h + 1 = omega arith in
    let m2 =
      subst (λ p. Memᴰ (ipv6_forward ip' 128 (id_to_mac (n + 1) (idx + 1) true) p) rest) port m' in
    (
      ip',
      f',
      subst
          (λ (r : List Command).
            Memᴰ (ipv6_forward ip' 128 (id_to_mac (n + 1) (idx + 1) true) (i + suc k + nbr_h + 1))
              r)
          (ok-injective _ cs e2) (Memᴰ.tail (Memᴰ.tail m2)),
    )

module _ (t : Texts) (edges : ℕ → List ℕ) where
  pub spine_lines-Forwards :
      (idx k n : ℕ) (cs : List Command)
      → get_elem? (edges idx) k ≡ some n
      → spine_lines t edges idx ≡ ok cs
      → Forwards (id_to_mac (idx + 1) (n + 1) false) (k + 1) cs
  unfolding spine_lines
  spine_lines-Forwards idx k n cs h e =
      let mac = id_to_mac (idx + 1) (n + 1) false in
      let port : 0 + k + 1 ≡ k + 1 = omega arith in
      in_rest (Forwards mac (k + 1)) _ _ cs e (Forwards-right mac (k + 1)) (λ b f.
        in_first (Forwards mac (k + 1)) (spine_hops idx 0 (edges idx)) _ b f
          (Forwards-left mac (k + 1))
          (λ a g.
            subst (λ p. Forwards mac p a) port (spine_hops-Forwards idx 0 k n (edges idx) a h g)))

  pub leaf_lines-Forwards :
      (idx k n nbr_h hosts_per_leaf : ℕ) (proportion timeout : String) (cs : List Command)
      → get_elem? (edges idx) k ≡ some n
      → leaf_lines t edges idx nbr_h hosts_per_leaf proportion timeout ≡ ok cs
      → Forwards (id_to_mac (n + 1) (idx + 1) true) (k + nbr_h + 1) cs
  unfolding leaf_lines
  leaf_lines-Forwards idx k n nbr_h hosts_per_leaf proportion timeout cs h e =
      let mac = id_to_mac (n + 1) (idx + 1) true in
      let port : 0 + k + nbr_h + 1 ≡ k + nbr_h + 1 = omega arith in
      in_rest (Forwards mac (k + nbr_h + 1)) _ _ cs e (Forwards-right mac (k + nbr_h + 1)) (λ b f.
        in_first (Forwards mac (k + nbr_h + 1)) (leaf_hops nbr_h idx 0 0 (edges idx)) _ b f
          (Forwards-left mac (k + nbr_h + 1))
          (λ a g.
            subst (λ p. Forwards mac p a) port
              (leaf_hops-Forwards nbr_h idx 0 0 k n (edges idx) a h g)))
