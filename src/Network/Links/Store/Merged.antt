-- ===== src/Network/Links/Store/Merged.antt =====
-- Which options a link has after `updateLink`.
use smoothie.Base.{
  ℕ, String, ◌≡◌, true, false, Option, none, some, [], ◌∷◌, if◌then◌else◌, ◌==◌, nat_eq, string_eq,
  pair_eq,
}
use smoothie.Base.Dict.{get}
use smoothie.Network.Value.{Value, text, is_params, Attrs, value_eq}
use smoothie.Network.Mininet.{Net, Mininet}
use smoothie.Network.Links.Library.{LinkLib, find}
use smoothie.Network.Links.Ends.{other_end}
use smoothie.Network.Links.Setters.Stored.{is_option}

abbrev or_else : Option Value → Option Value → Option Value
or_else none o = o
or_else (some v) o = some v

-- the last value that the caller gives for a field, named at the other end of the link
abbrev pub turned : Attrs → String → Option Value
turned [] f = none
turned ((k, v) ∷ o) f = or_else (turned o f) (if other_end k == f then some v else none)

-- what the caller gives for a field of a link whose second node is `b`: read as it is, and at the
-- other end of the link where the caller names this node first
abbrev pub asked : String → String → Attrs → String → Option Value
asked b n1 opts f = if n1 == b then turned opts f else get opts f

module _ (mn : Mininet) (lib : LinkLib) where
  -- the link of the key `j`, before and after a change
  pub record Merged (n1 n2 : String) (opts : Attrs) (s : Net) (j : ℕ) (t : Net) : Type 0 where
    pub before : Attrs
    pub link : Attrs
    pub a : String
    pub b : String
    pub was : find s.g n1 n2 j ≡ some before
    pub is_now : find t.g n1 n2 j ≡ some link
    pub name1 : (get before "node1" ≡ some (text a)) × (get link "node1" ≡ some (text a))
    pub name2 : (get before "node2" ≡ some (text b)) × (get link "node2" ≡ some (text b))
    pub changed :
        (f : String) (v : Value)
        → is_option f ≡ true
        → is_params v ≡ false
        → asked b n1 opts f ≡ some v
        → get link f ≡ some v
    pub kept :
        (f : String) (v : Value)
        → is_option f ≡ true
        → asked b n1 opts f ≡ none
        → get before f ≡ some v
        → get link f ≡ some v
