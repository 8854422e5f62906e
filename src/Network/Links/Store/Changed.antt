-- ===== src/Network/Links/Store/Changed.antt =====
-- What `updateLink` stores.
use smoothie.Base.{
  ℕ, String, ◌≡◌, sym, ap, inl, inr, true, Option, some, arith, nat_eq, string_eq, pair_eq,
}
use smoothie.Base.Dict.{remove}
use smoothie.Base.Error.{Result, ok}
use smoothie.Base.Exec.{lift}
use smoothie.Base.Exec.{>>=-eq-ok}
use mathlib.Core.Path.{subst}
use smoothie.Network.Value.{Value, given, Attrs, value_eq}
use smoothie.Network.Mininet.{Graph, Net, Mininet}
use smoothie.Network.Links.Library.{LinkLib, find, joins}
use smoothie.Network.Links.Ends.{name_at, oriented}
use smoothie.Network.Links.Store.{
  link_options, insert_link, pop_link, add_link, add_again, update_link,
}
use smoothie.Network.Links.Store.Gate.{add_link-Passed}
use smoothie.Network.Links.Store.Updating.{InOrder, name_there, find-pop_link}
use smoothie.Network.Links.Store.Invariant.{IsLinked}

module _ (mn : Mininet) (lib : LinkLib) where
  -- the options that `updateLink` gives to `addLink`
  abbrev pub merged : Attrs → Attrs → Attrs
  merged i changed = mn.merge_dict (remove (remove i "node1") "node2") changed

  -- the options of the link after the change
  abbrev pub changed_link : Attrs → String → String → Attrs → Attrs → Attrs
  changed_link lopts a b i changed =
      let m = merged i changed in
      link_options mn lib lopts a b (given m "port1") (given m "port2")
        (remove (remove m "port1") "port2")

  -- A link that is changed keeps its key, and has the options that it had, merged with the new ones.
  pub record Changed (n1 n2 : String) (opts : Attrs) (s : Net) (j : ℕ) (t : Net) : Type 0 where
    pub before : Attrs
    pub changed : Attrs
    pub a : String
    pub b : String
    pub lopts : Attrs
    pub was : find s.g n1 n2 j ≡ some before
    pub turned : oriented n1 n2 before opts ≡ ok changed
    pub name1 : name_at before "node1" ≡ ok a
    pub name2 : name_at before "node2" ≡ ok b
    pub is_now : find t.g n1 n2 j ≡ some (changed_link lopts a b before changed)

  find-add_link :
      (n1 n2 : String) (p1 p2 : Option Value) (k : ℕ) (o : Attrs) (s : Net) {j : ℕ} {t : Net}
      → add_link mn lib n1 n2 p1 p2 (some k) o s ≡ (ok j, t)
      → (x y : String) → joins n1 n2 x y ≡ true
      → (j ≡ k) × (find t.g x y j ≡ some (link_options mn lib s.lopts n1 n2 p1 p2 o))
  unfolding insert_link
  find-add_link n1 n2 p1 p2 k o s {j} {t} e x y met =
      let done = (add_link-Passed mn lib n1 n2 p1 p2 (some k) o s e).inserted in
      let opts = link_options mn lib s.lopts n1 n2 p1 p2 o in
      let key : (lib.add_edge s.g n1 n2 (some k) opts).0 ≡ k = lib.add_edge_key s.g n1 n2 k opts in
      let law = lib.find-add_edge s.g n1 n2 (some k) opts x y j in
      let gives : ◌≡◌ {A = Result ℕ} (ok (lib.add_edge s.g n1 n2 (some k) opts).0) (ok j) =
        ap (λ (p : Result ℕ × Net). p.0) done in
      let same : (lib.add_edge s.g n1 n2 (some k) opts).1 ≡ t.g =
        ap (λ (p : Result ℕ × Net). p.1.g) done in
      (
        cc (gives, key),
        subst (λ g. find g x y j ≡ some opts) same
            (ground (arith, law, met, gives, nat_eq.beq_iff j j)),
      )

  met_again :
      (g : Graph) (n1 n2 a b : String) (k : ℕ) (i : Attrs)
      → IsLinked g
      → find g n1 n2 k ≡ some i
      → name_at i "node1" ≡ ok a
      → name_at i "node2" ≡ ok b
      → joins a b n1 n2 ≡ true
  met_again g n1 n2 a b k i v f ea eb = elim (v.ends n1 n2 k i f) [
    | inl w ↦ ground (
      arith,
      name_there mn lib i "node1" n1 a w.0 ea,
      name_there mn lib i "node2" n2 b w.1 eb,
      string_eq.beq_iff a n1,
      string_eq.beq_iff b n2,
    )
    | inr w ↦ ground (
      arith,
      name_there mn lib i "node2" n1 b w.1 eb,
      name_there mn lib i "node1" n2 a w.0 ea,
      string_eq.beq_iff a n2,
      string_eq.beq_iff b n1,
    )
  ]

  -- A change of a link that returns keeps the link's key and its two nodes, and merges the options,
  -- turned where the caller names the nodes the other way round, into those that it had.
  pub update_link-Changed :
      (n1 n2 : String) (key : Option ℕ) (opts : Attrs) (s : Net) {j : ℕ} {t : Net}
      → InOrder s
      → update_link mn lib n1 n2 key opts s ≡ (ok j, t)
      → Changed n1 n2 opts s j t
  unfolding update_link add_again
  update_link-Changed n1 n2 key opts s {j} {t} v e =
      let ((i, k), u, first, e1) = >>=-eq-ok (pop_link mn lib n1 n2 key) _ s e in
      let (c, u1, turn, e2) = >>=-eq-ok (lift (oriented n1 n2 i opts)) _ u e1 in
      let (a, u2, ea, e3) = >>=-eq-ok (lift (name_at i "node1")) _ u1 e2 in
      let (b, u3, eb, e4) = >>=-eq-ok (lift (name_at i "node2")) _ u2 e3 in
      let was =
        find-pop_link mn lib n1 n2 key s i k (ap (λ (p : Result (Attrs × ℕ) × Net). p.0) first) in
      let name1 = ap (λ (p : Result String × Net). p.0) ea in
      let name2 = ap (λ (p : Result String × Net). p.0) eb in
      let (same, now) =
        find-add_link a b _ _ k _ u3 e4 n1 n2 (met_again s.g n1 n2 a b k i v was name1 name2) in
      record {
        before = i;
        changed = c;
        a = a;
        b = b;
        lopts = u3.lopts;
        was = subst (λ x. find s.g n1 n2 x ≡ some i) (sym same) was;
        turned = ap (λ (p : Result Attrs × Net). p.0) turn;
        name1 = name1;
        name2 = name2;
        is_now = now;
      }
