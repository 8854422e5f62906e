-- ===== src/Topo/Description/Ends.antt =====
-- src/topos/TopoGenerator.py: the commands of the switches name the addresses of the description.
use smoothie.Base.{
  ℕ, ◌+◌, String, ◌≡◌, refl, ap, ◌∙◌, true, false, some, List, nat_eq, string_eq, pair_eq,
  get_elem?,
}
use Prim.Native.Char.{Char}
use Prim.Native.String.{◌++◌ as append}
use text.Mathlib.TextLemmas.{nil-append, cons-append}
use smoothie.Base.Error.{ok}
use smoothie.Topo.Commands.{Texts, Command, id_to_mac, spine_lines, leaf_lines}
use smoothie.Topo.Commands.NextHop.{Forwards, spine_lines-Forwards, leaf_lines-Forwards}
use smoothie.Topo.Description.{LinkRow, bare, leaf_name, spine_name, from2, with_macs}

two_letters :
    (a b : Char) (s : String)
    → append (String.◌∷◌ a (String.◌∷◌ b String.[])) s ≡ String.◌∷◌ a (String.◌∷◌ b s)
two_letters a b s =
    cons-append a (String.◌∷◌ b String.[]) s
    ∙ ap (λ r. String.◌∷◌ a r) (cons-append b String.[] s ∙ ap (λ r. String.◌∷◌ b r) (nil-append s))

-- A name of two letters and a number gives its number back.
from2-append :
    (t : Texts) (a b : Char) (s : String)
    → from2 t (append (String.◌∷◌ a (String.◌∷◌ b String.[])) s) ≡ s
unfolding from2
from2-append t a b s = ap (from2 t) (two_letters a b s)

module _ (t : Texts) (edges : ℕ → List ℕ) (leaf spine : ℕ)
    (reads_leaf : t.int_of (t.str (leaf + 1)) ≡ ok (leaf + 1))
    (reads_spine : t.int_of (t.str (spine + 1)) ≡ ok (spine + 1)) where
  -- the link of a leaf and a spine, as the description has it
  abbrev pub link_row : LinkRow
  link_row = record {
    node1 = leaf_name t leaf;
    node2 = spine_name t spine;
    addr1 = id_to_mac (spine + 1) (leaf + 1) false;
    addr2 = id_to_mac (spine + 1) (leaf + 1) true;
  }

  with_macs-link_row : with_macs t (bare (leaf_name t leaf) (spine_name t spine)) ≡ ok link_row
  unfolding with_macs leaf_name spine_name
  with_macs-link_row =
      let sp : t.int_of (from2 t (append "SP" (t.str (spine + 1)))) ≡ ok (spine + 1) =
        ap t.int_of (from2-append t "S" "P" (t.str (spine + 1))) ∙ reads_spine in
      let le : t.int_of (from2 t (append "LE" (t.str (leaf + 1)))) ≡ ok (leaf + 1) =
        ap t.int_of (from2-append t "L" "E" (t.str (leaf + 1))) ∙ reads_leaf in
      rw (sp, with_macs) (rw le refl)

  -- What a spine forwards to a leaf, by the port of its place among the neighbours, goes to the MAC
  -- address that the description gives to the leaf's end of their link.
  pub spine_lines-addr1 :
      (k : ℕ) (cs : List Command)
      → get_elem? (edges spine) k ≡ some leaf
      → spine_lines t edges spine ≡ ok cs
      → (row : LinkRow) × (with_macs t (bare (leaf_name t leaf) (spine_name t spine)) ≡ ok row)
        × Forwards row.addr1 (k + 1) cs
  spine_lines-addr1 k cs h e =
      (link_row, with_macs-link_row, spine_lines-Forwards t edges spine k leaf cs h e)

  -- What a leaf forwards to a spine, by a port behind those of its hosts, goes to the MAC address
  -- that the description gives to the spine's end of their link.
  pub leaf_lines-addr2 :
      (k hosts : ℕ) (proportion timeout : String) (cs : List Command)
      → get_elem? (edges leaf) k ≡ some spine
      → leaf_lines t edges leaf hosts hosts proportion timeout ≡ ok cs
      → (row : LinkRow) × (with_macs t (bare (leaf_name t leaf) (spine_name t spine)) ≡ ok row)
        × Forwards row.addr2 (k + hosts + 1) cs
  leaf_lines-addr2 k hosts proportion timeout cs h e = (
    link_row,
    with_macs-link_row,
    leaf_lines-Forwards t edges leaf k spine hosts hosts proportion timeout cs h e,
  )
