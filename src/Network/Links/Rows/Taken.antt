-- ===== src/Network/Links/Rows/Taken.antt =====
-- What `node_ports` and `node_intfs` hold: the values of every link that is listed.
use smoothie.Base.{
  String, ◌≡◌, sym, inl, inr, Bool, true, false, Option, none, some, List, [], ◌∷◌, arith,
  if◌then◌else◌, Eq, ◌==◌, nat_eq, string_eq, pair_eq, beq_refl, Option-cases, is_some,
}
use smoothie.Base.Dict.{Dict, get, put, has, get-put}
use mathlib.Core.List.{Memᴰ}
use mathlib.Core.List.Memᴰ.{head, tail}
use smoothie.Network.Value.{Value, given, value_eq}
use smoothie.Network.Links.Library.{Row}
use smoothie.Network.Links.Rows.{Facing, set_empty, note_at, note_row, note_rows}

-- The node `n` has the value `p`.
abbrev pub taken : Dict String (Dict Value Facing) → String → Value → Bool
taken d n p = elim (get d n) [ none ↦ false | some m ↦ has m p ]

has-put {ℓ κ} :
    {K : Type ℓ} {V : Type κ} ⦃e : Eq K⦄ (d : Dict K V) (k j : K) (v : V)
    → has (put d k v) j ≡ (if k == j then true else has d j)
unfolding has is_some
has-put d k j v = ground (arith, get-put d k j v)

taken-put :
    (d : Dict String (Dict Value Facing)) (x n : String) (m : Dict Value Facing) (p : Value)
    → taken (put d x m) n p ≡ (if x == n then has m p else taken d n p)
taken-put d x n m p = ground (arith, get-put d x n m)

taken-set_empty :
    (d : Dict String (Dict Value Facing)) (x n : String) (p : Value)
    → taken d n p ≡ true
    → taken (set_empty d x) n p ≡ true
unfolding has is_some
taken-set_empty d x n p h = ground (arith, taken-put d x n [] p, h, string_eq.beq_iff x n)

taken-note_at :
    (d : Dict String (Dict Value Facing)) (x n : String) (k : Option Value) (v : Facing) (p : Value)
    → taken d n p ≡ true
    → taken (note_at d x k v) n p ≡ true
taken-note_at d x n none v p h = h
taken-note_at d x n (some k) v p h = elim (Option-cases (get d x)) [
  | inl e ↦ ground (arith, taken-put d x n (put [] k v) p, e, h, string_eq.beq_iff x n)
  | inr (m, e) ↦
      ground (arith, taken-put d x n (put m k v) p, has-put m k p v, e, h, string_eq.beq_iff x n)
]

taken-note_at_self :
    (d : Dict String (Dict Value Facing)) (n : String) (p : Value) (v : Facing)
    → taken (note_at d n (some p) v) n p ≡ true
taken-note_at_self d n p v =
    let m : Dict Value Facing = elim (get d n) [ none ↦ [] | some m ↦ m ] in
    ground (arith, taken-put d n n (put m p v) p, has-put m p p v, beq_refl n, beq_refl p)

module _ (field1 field2 : String) where
  taken-note_row :
      (r : Row) (d : Dict String (Dict Value Facing)) (n : String) (p : Value)
      → taken d n p ≡ true
      → taken (note_row field1 field2 r d) n p ≡ true
  unfolding note_row
  taken-note_row r d n p h = taken-note_at _ r.node2 n (given r.info field2) _ p (
      taken-note_at _ r.node1 n (given r.info field1) _ p
        (taken-set_empty _ r.node2 n p (taken-set_empty d r.node1 n p h)))

  taken-note_rows :
      (rs : List Row) (d : Dict String (Dict Value Facing)) (n : String) (p : Value)
      → taken d n p ≡ true
      → taken (note_rows field1 field2 rs d) n p ≡ true
  unfolding note_rows
  taken-note_rows [] d n p h = h
  taken-note_rows (r ∷ rs) d n p h =
      taken-note_rows rs (note_row field1 field2 r d) n p (taken-note_row r d n p h)

  note_row_first :
      (r : Row) (d : Dict String (Dict Value Facing)) (p : Value)
      → given r.info field1 ≡ some p
      → taken (note_row field1 field2 r d) r.node1 p ≡ true
  unfolding note_row
  note_row_first r d p e =
      taken-note_at _ r.node2 r.node1 (given r.info field2) _ p
        (rw e (taken-note_at_self _ r.node1 p _))

  note_row_second :
      (r : Row) (d : Dict String (Dict Value Facing)) (p : Value)
      → given r.info field2 ≡ some p
      → taken (note_row field1 field2 r d) r.node2 p ≡ true
  unfolding note_row
  note_row_second r d p e = rw e (taken-note_at_self _ r.node2 p _)

  -- A value at the one end of a link that is listed is taken at the node of that end.
  pub note_rows_first :
      (r : Row) (rs : List Row) (d : Dict String (Dict Value Facing)) (p : Value)
      → Memᴰ r rs
      → given r.info field1 ≡ some p
      → taken (note_rows field1 field2 rs d) r.node1 p ≡ true
  unfolding note_rows
  note_rows_first r [] d p m e = elim m [ ]
  note_rows_first r (x ∷ rs) d p (head h) e =
      rw (sym h)
        (taken-note_rows rs (note_row field1 field2 r d) r.node1 p (note_row_first r d p e))
  note_rows_first r (x ∷ rs) d p (tail m) e =
      note_rows_first r rs (note_row field1 field2 x d) p m e

  pub note_rows_second :
      (r : Row) (rs : List Row) (d : Dict String (Dict Value Facing)) (p : Value)
      → Memᴰ r rs
      → given r.info field2 ≡ some p
      → taken (note_rows field1 field2 rs d) r.node2 p ≡ true
  unfolding note_rows
  note_rows_second r [] d p m e = elim m [ ]
  note_rows_second r (x ∷ rs) d p (head h) e =
      rw (sym h)
        (taken-note_rows rs (note_row field1 field2 r d) r.node2 p (note_row_second r d p e))
  note_rows_second r (x ∷ rs) d p (tail m) e =
      note_rows_second r rs (note_row field1 field2 x d) p m e
