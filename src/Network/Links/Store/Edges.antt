-- ===== src/Network/Links/Store/Edges.antt =====
-- What the graph's edges look like after a change of one object of `g.edge`.
use smoothie.Base.{
  ℕ, String, ◌≡◌, refl, sym, ◌∙◌, inl, inr, true, ◌&&◌, Option, none, some, [], ◌∷◌, arith,
  if◌then◌else◌, ◌==◌, nat_eq, string_eq, pair_eq, Bool-cases, Option-cases, is_some, length,
}
use smoothie.Base.Dict.{Dict, get, put, remove, has, get-put, get-remove}
use smoothie.Base.Error.{ok}
use smoothie.Network.Value.{Attrs, value_eq}
use smoothie.Network.Mininet.{Entry, Graph}
use smoothie.Network.Links.Library.{entry, find}
use smoothie.Network.Links.Store.{set_seen, drop_seen}
use smoothie.Network.Links.Store.Invariant.{IsLinked}

-- `h` has no links that `g` does not have.
abbrev pub Within : Graph → Graph → Type 0
Within h g = (a b : String) (k : ℕ) (i : Attrs) → find h a b k ≡ some i → find g a b k ≡ some i

none-within : (o p : Option Attrs) → ((i : Attrs) → o ≡ some i → p ≡ some i) → p ≡ none → o ≡ none
none-within none p h e = refl
none-within (some i) p h e = cc (h i refl, e)

pub Within-IsLinked :
    (h g : Graph)
    → Within h g
    → ((a b : String) (k : ℕ) → find h a b k ≡ find h b a k)
    → IsLinked g
    → IsLinked h
Within-IsLinked h g w s v = record {
  symmetric = s;
  no_loops = λ a k. none-within (find h a a k) (find g a a k) (w a a k) (v.no_loops a k);
  ends = λ a b k i f. v.ends a b k i (w a b k i f);
  unique = λ n p m m' k k' i i' f a f' a'.
      v.unique n p m m' k k' i i' (w n m k i f) a (w n m' k' i' f') a';
}

-- The links are the same.
abbrev pub Alike : Graph → Graph → Type 0
Alike h g = (a b : String) (k : ℕ) → find h a b k ≡ find g a b k

pub Alike-IsLinked : (h g : Graph) → Alike h g → IsLinked g → IsLinked h
Alike-IsLinked h g e v =
    Within-IsLinked h g (λ a b k i f. sym (e a b k) ∙ f)
      (λ a b k. e a b k ∙ v.symmetric a b k ∙ sym (e b a k)) v

get-empty : (d : Dict String Entry) (b : String) → (length d == 0) ≡ true → get d b ≡ none
unfolding get
get-empty [] b h = refl
get-empty ((j, e) ∷ d) b h = ground (arith, h)

pub empty_entry : (d : Entry) (k : ℕ) → (length d == 0) ≡ true → get d k ≡ none
unfolding get
empty_entry [] k h = refl
empty_entry ((j, e) ∷ d) k h = ground (arith, h)

-- a graph with these edges
abbrev pub with_edges : Graph → Dict String (Dict String Entry) → Graph
with_edges g edge = record { node = g.node; edge = edge }

entry_row :
    (g : Graph) (x : String) (m : Dict String Entry) (y : String)
    → get g.edge x ≡ some m
    → entry g x y ≡ get m y
unfolding entry
entry_row g x m y q = rw (q, entry) refl

pub entry-row :
    (g : Graph) (a b : String) (f : Entry)
    → entry g a b ≡ some f
    → (m : Dict String Entry) × (get g.edge a ≡ some m) × (get m b ≡ some f)
unfolding entry
entry-row g a b f h = elim (Option-cases (get g.edge a)) [
  | inl q ↦ cc (rw (q, entry) at h)
  | inr (m, q) ↦ (m, q, rw (q, entry) at h)
]

pub entry-set_seen :
    (g : Graph) (a b : String) (e f : Entry) (x y : String)
    → entry g a b ≡ some f
    → entry (with_edges g (set_seen g.edge a b e)) x y
      ≡ (if a == x && b == y then some e else entry g x y)
unfolding entry set_seen has is_some
entry-set_seen g a b e f x y h =
    let (m, q, r) = entry-row g a b f h in
    ground (
      arith,
      q,
      r,
      get-put g.edge a x (put m b e),
      get-put m b y e,
      string_eq.beq_iff a x,
      string_eq.beq_iff b y,
    )

pub find-entry :
    (g : Graph) (a b : String) (e : Entry) (k : ℕ) → entry g a b ≡ some e → find g a b k ≡ get e k
unfolding find
find-entry g a b e k h = rw (h, find) refl

pub find-some :
    (g : Graph) (a b : String) (k : ℕ) (i : Attrs)
    → find g a b k ≡ some i
    → (e : Entry) × (entry g a b ≡ some e) × (get e k ≡ some i)
unfolding find
find-some g a b k i h = elim (Option-cases (entry g a b)) [
  | inl q ↦ cc (rw (q, find) at h)
  | inr (e, q) ↦ (e, q, rw (q, find) at h)
]

pub entry-drop_seen :
    (g : Graph) (a b : String) (edge : Dict String (Dict String Entry)) (x y : String)
    → drop_seen g.edge a b ≡ ok edge
    → entry (with_edges g edge) x y ≡ (if a == x && b == y then none else entry g x y)
unfolding entry drop_seen has is_some
entry-drop_seen g a b edge x y h = elim (Option-cases (get g.edge a)) [
  | inl q ↦ cc (rw (q, drop_seen) at h)
  | inr (m, q) ↦ ground (
    arith,
    h,
    q,
    get-put g.edge a x (remove m b),
    get-remove g.edge a x,
    get-remove m b y,
    get-empty (remove m b) y,
    string_eq.beq_iff a x,
    string_eq.beq_iff b y,
  )
]

pub drop_seen-Alike :
    (g : Graph) (a b : String) (edge : Dict String (Dict String Entry))
    → drop_seen g.edge a b ≡ ok edge
    → ((j : ℕ) → find g a b j ≡ none)
    → Alike (with_edges g edge) g
unfolding find
drop_seen-Alike g a b edge h bare x y j = elim (Bool-cases (a == x && b == y)) [
  | inl met ↦
      let ex : a ≡ x = ground (arith, met, string_eq.beq_iff a x) in
      let ey : b ≡ y = ground (arith, met, string_eq.beq_iff b y) in
      let gone : entry (with_edges g edge) x y ≡ none =
        entry-drop_seen g a b edge x y h ∙ rw met refl in
      rw (find, gone) (sym (rw (ex, ey) at (bare j)))
  | inr away ↦
      let same : entry (with_edges g edge) x y ≡ entry g x y =
        entry-drop_seen g a b edge x y h ∙ rw away refl in
      rw (find, same) refl
]

pub same_edges : (h g : Graph) → h.edge ≡ g.edge → Alike h g
unfolding find entry
same_edges h g e a b k = rw e refl
