-- ===== src/Network/Links/Store/Invariant.antt =====
-- What holds of the links of a network.
use smoothie.Base.{ℕ, String, ◌≡◌, ◌⊎◌, none, some, nat_eq, string_eq, pair_eq}
use smoothie.Base.Dict.{get}
use smoothie.Network.Value.{Value, text, given, Attrs, value_eq}
use smoothie.Network.Mininet.{Graph}
use smoothie.Network.Links.Library.{find}

-- `info['node1']` is `a`, and `info['node2']` is `b`.
abbrev pub IsFromTo : Attrs → String → String → Type 0
IsFromTo i a b = (get i "node1" ≡ some (text a)) × (get i "node2" ≡ some (text b))

-- The end of the link at the node `n` has the port `p`.
abbrev pub HasPort : String → Value → Attrs → Type 0
HasPort n p i =
    ((get i "node1" ≡ some (text n)) × (given i "port1" ≡ some p))
    ⊎ ((get i "node2" ≡ some (text n)) × (given i "port2" ≡ some p))

-- Both nodes see the same links, which are between them; no link joins a node with itself; and no
-- two links have the same port of a node.
pub record IsLinked (g : Graph) : Type 0 where
  pub symmetric : (a b : String) (k : ℕ) → find g a b k ≡ find g b a k
  pub no_loops : (a : String) (k : ℕ) → find g a a k ≡ none
  pub ends :
      (a b : String) (k : ℕ) (i : Attrs) → find g a b k ≡ some i → IsFromTo i a b ⊎ IsFromTo i b a
  pub unique :
      (n : String) (p : Value) (m m' : String) (k k' : ℕ) (i i' : Attrs)
      → find g n m k ≡ some i
      → HasPort n p i
      → find g n m' k' ≡ some i'
      → HasPort n p i'
      → (m ≡ m') × (k ≡ k')
