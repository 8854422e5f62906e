-- ===== src/Topo/Commands/Prefix.antt =====
-- src/topos/TopoGenerator.py: the IPv6 prefixes of the leaves.
use mathlib.Core.List.{Memᴰ}
use mathlib.Core.List.Memᴰ
use mathlib.Core.Path.{subst}
use smoothie.Base.{
  ℕ, zero, suc, ◌+◌, ◌*◌, ◌/◌, ◌%◌, ◌^◌, ◌<◌, ◌≡◌, ◌↔◌, some, List, [], ◌∷◌, false, arith, nat_eq,
  string_eq, pair_eq, get_elem?,
}
use smoothie.Base.Error.{ok, >>=-eq-ok}
use smoothie.Helper.{mac_to_ipv6_linklocal, converttov6}
use smoothie.Topo.Commands.Parts.{ok-injective, in_first, in_rest}
use smoothie.Topo.Commands.{Command, ipv6_leaf, Texts, id_to_mac, spine_hops, spine_lines}

-- The digits of a decimal numeral read as hexadecimal digits, as '2002::a00:{}00' puts them into an
-- IPv6 address; four digits at most make a group with the two that follow.
unfoldable pub as_hex : ℕ → ℕ
as_hex n = n / 10 * 16 + n % 10

-- the prefix that a spine forwards to leaf `n`, of at most two digits: '2002::a00:{n}00/120'
unfoldable pub leaf_prefix : ℕ → ℕ
unfolding as_hex
leaf_prefix n = 0x2002 * 2 ^ 112 + 0x0a00 * 2 ^ 16 + as_hex n * 256

-- 10.0.n.x as a number
abbrev pub host_v4 : ℕ → ℕ → ℕ
host_v4 n x = 10 * 2 ^ 24 + n * 256 + x

covers_below_10 :
    (n x : ℕ)
    → n < 100
    → x < 256
    → (converttov6 (host_v4 n x) / 256 ≡ leaf_prefix n / 256) ↔ (n < 10)
unfolding leaf_prefix converttov6
covers_below_10 n x h k = (λ e. omega arith, λ small. omega arith)

-- the line of a spine for the IPv6 addresses behind the neighbour at place `p`
abbrev leaf_line : ℕ → ℕ → ℕ → Command
leaf_line idx n p = ipv6_leaf p (id_to_mac (idx + 1) (n + 1) false) p

same_leaf_line : (idx n m p q : ℕ) → some m ≡ some n → p ≡ q → leaf_line idx n q ≡ leaf_line idx m p
same_leaf_line idx n m p q h e = cc

spine_hops-leaf_line :
    (idx i k n : ℕ) (ns : List ℕ) (cs : List Command)
    → get_elem? ns k ≡ some n
    → spine_hops idx i ns ≡ ok cs
    → Memᴰ (leaf_line idx n (i + k + 1)) cs
unfolding spine_hops
spine_hops-leaf_line idx i k n [] cs h e = cc
spine_hops-leaf_line idx i zero n (m ∷ ns) cs h e =
    let (ip, f, e1) = >>=-eq-ok (mac_to_ipv6_linklocal (id_to_mac (idx + 1) (m + 1) false)) _ e in
    let (rest, g, e2) = >>=-eq-ok (spine_hops idx (i + 1) ns) _ e1 in
    subst (λ (r : List Command). Memᴰ (leaf_line idx n (i + 0 + 1)) r) (ok-injective _ cs e2)
      (Memᴰ.tail
        (Memᴰ.tail (Memᴰ.head (same_leaf_line idx n m (i + 1) (i + 0 + 1) h (omega arith)))))
spine_hops-leaf_line idx i (suc k) n (m ∷ ns) cs h e =
    let (ip, f, e1) = >>=-eq-ok (mac_to_ipv6_linklocal (id_to_mac (idx + 1) (m + 1) false)) _ e in
    let (rest, g, e2) = >>=-eq-ok (spine_hops idx (i + 1) ns) _ e1 in
    let there = spine_hops-leaf_line idx (i + 1) k n ns rest h g in
    let place : i + 1 + k + 1 ≡ i + suc k + 1 = omega arith in
    subst (λ (r : List Command). Memᴰ (leaf_line idx n (i + suc k + 1)) r) (ok-injective _ cs e2)
      (Memᴰ.tail (Memᴰ.tail (Memᴰ.tail (subst (λ p. Memᴰ (leaf_line idx n p) rest) place there))))

-- A spine has a line that forwards IPv6 addresses by the port of each of its neighbours. The prefix
-- in the line covers the addresses of the hosts of the leaf with that number for the leaves up to
-- number 9, and none of them for the leaves from 10 to 99.
pub leaf_prefix-covers :
    (t : Texts) (edges : ℕ → List ℕ) (idx k n x : ℕ) (cs : List Command)
    → get_elem? (edges idx) k ≡ some n
    → spine_lines t edges idx ≡ ok cs
    → k < 99
    → x < 256
    → Memᴰ (ipv6_leaf (k + 1) (id_to_mac (idx + 1) (n + 1) false) (k + 1)) cs
      × ((converttov6 (host_v4 (k + 1) x) / 256 ≡ leaf_prefix (k + 1) / 256) ↔ (k + 1 < 10))
unfolding spine_lines
leaf_prefix-covers t edges idx k n x cs h e low b =
    let Has : List Command → Type 0 = Memᴰ (leaf_line idx n (k + 1)) in
    let place : 0 + k + 1 ≡ k + 1 = omega arith in
    (
      in_rest Has _ _ cs e (λ a b. Memᴰ.append_right a)
          (λ r f.
            in_first Has (spine_hops idx 0 (edges idx)) _ r f (λ a b. Memᴰ.append_left b)
              (λ a g.
                subst (λ p. Memᴰ (leaf_line idx n p) a) place
                  (spine_hops-leaf_line idx 0 k n (edges idx) a h g))),
      covers_below_10 (k + 1) x (omega arith) b,
    )
