-- ===== src/Network/Links/Library.antt =====
-- What mininet and Python give for links: adding an edge, the links in order, floats. `find` is the
-- view of the links that the laws are about.
use smoothie.Base.{
  ℕ, String, ◌≡◌, sym, ◌⊎◌, inl, inr, Bool, true, ◌&&◌, ◌||◌, Option, none, some, List, arith,
  if◌then◌else◌, ◌==◌, nat_eq, string_eq, pair_eq, Bool-cases,
}
use smoothie.Base.Dict.{get, has}
use smoothie.Base.Error.{key_error, Result, ok, err}
use mathlib.Core.List.{Memᴰ}
use smoothie.Network.Value.{text, Attrs}
use smoothie.Network.Mininet.{Entry, Graph}

-- One link as `links(withKeys=True, withInfo=True)` gives it; the nodes are `info['node1']` and
-- `info['node2']`.
pub record Row : Type 0 where
  pub node1 : String
  pub node2 : String
  pub key : ℕ
  pub info : Attrs

-- self.g.edge[a][b]
unfoldable pub entry : Graph → String → String → Option Entry
entry g a b = elim (get g.edge a) [ none ↦ none | some m ↦ get m b ]

-- self.g.edge[a][b][k]
unfoldable pub find : Graph → String → String → ℕ → Option Attrs
find g a b k = elim (entry g a b) [ none ↦ none | some e ↦ get e k ]

-- the two nodes, in one order or the other
abbrev pub joins : String → String → String → String → Bool
joins a b x y = (a == x && b == y) || (a == y && b == x)

pub joins-cases :
    (a b x y : String) → joins a b x y ≡ true → ((x ≡ a) × (y ≡ b)) ⊎ ((x ≡ b) × (y ≡ a))
joins-cases a b x y h = elim (Bool-cases (a == x)) [
  | inl e ↦ elim (Bool-cases (b == y)) [
    | inl d ↦ inl (sym ((string_eq.beq_iff a x).0 e), sym ((string_eq.beq_iff b y).0 d))
    | inr d ↦ inr (
      ground (arith, h, d, string_eq.beq_iff a y, string_eq.beq_iff b x),
      ground (arith, h, d, string_eq.beq_iff a y, string_eq.beq_iff b x),
    )
  ]
  | inr e ↦ inr (
    ground (arith, h, e, string_eq.beq_iff a y, string_eq.beq_iff b x),
    ground (arith, h, e, string_eq.beq_iff a y, string_eq.beq_iff b x),
  )
]

pub record LinkLib : Type 0 where
  -- MultiGraph.add_edge, with the key that it returns
  pub add_edge : Graph → String → String → Option ℕ → Attrs → ℕ × Graph
  -- Topo.links, as it comes and in natural order
  pub links : Graph → List Row
  pub sorted_links : Graph → List Row
  -- Topo._linkEntry
  pub link_entry : Graph → String → String → Option ℕ → Result (Entry × ℕ)
  -- floats, by their representation: 0 <= x <= 1, and x * 100
  pub in_unit : ℕ → Bool
  pub times_100 : ℕ → ℕ
  -- str() of a number
  pub str : ℕ → String
  pub find-add_edge :
      (g : Graph) (a b : String) (k : Option ℕ) (o : Attrs) (x y : String) (j : ℕ)
      → find (add_edge g a b k o).1 x y j ≡ (
          if joins a b x y
          then (if (add_edge g a b k o).0 == j then some o else find g a b j)
          else find g x y j)
  pub node-add_edge :
      (g : Graph) (a b : String) (k : Option ℕ) (o : Attrs)
      → has g.node a ≡ true
      → has g.node b ≡ true
      → (add_edge g a b k o).1.node ≡ g.node
  pub add_edge_key :
      (g : Graph) (a b : String) (k : ℕ) (o : Attrs) → (add_edge g a b (some k) o).0 ≡ k
  pub add_edge_fresh :
      (g : Graph) (a b : String) (o : Attrs) → find g a b (add_edge g a b none o).0 ≡ none
  -- every link is listed
  pub links_complete :
      (g : Graph) (a b : String) (k : ℕ) (i : Attrs)
      → find g a b k ≡ some i
      → get i "node1" ≡ some (text a)
      → get i "node2" ≡ some (text b)
      → Memᴰ (record { node1 = a; node2 = b; key = k; info = i }) (links g)
  pub link_entry_none :
      (g : Graph) (a b : String) (k : Option ℕ)
      → entry g a b ≡ none
      → link_entry g a b k ≡ err key_error
  pub link_entry_key :
      (g : Graph) (a b : String) (k : ℕ) (e : Entry)
      → entry g a b ≡ some e
      → link_entry g a b (some k) ≡ ok (e, k)
  -- without a key, the lowest one of those that are there
  pub link_entry_some :
      (g : Graph) (a b : String) (k : Option ℕ) (e : Entry) (j : ℕ)
      → link_entry g a b k ≡ ok (e, j)
      → entry g a b ≡ some e
