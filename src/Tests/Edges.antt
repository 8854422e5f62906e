-- ===== src/Tests/Edges.antt =====
-- Links that dictionaries hold.
use smoothie.Base.{
  ℕ, ◌+◌, ◌*◌, ◌≤◌, String, ◌≡◌, refl, sym, ◌∙◌, inl, inr, Bool, true, false, ◌&&◌, Option, none,
  some, List, [], ◌∷◌, ◌++◌, arith, leb, if◌then◌else◌, ◌==◌, nat_eq, string_eq, pair_eq, beq_refl,
  Bool-cases, Option-cases,
}
use smoothie.Base.Dict.{Dict, get, put, get-put}
use smoothie.Base.Error.{key_error, Result, ok, err}
use mathlib.Core.List.{Memᴰ}
use mathlib.Core.List.Memᴰ.{head, tail, append_left, append_right}
use smoothie.Network.Value.{Value, text, Attrs, value_eq}
use smoothie.Network.Mininet.{Entry, Graph}
use smoothie.Network.Links.Library.{Row, LinkLib, entry, find, joins}
use smoothie.Network.Links.Store.Edges.{with_edges, find-entry, find-some, entry-row}

abbrev row_at : Dict String (Dict String Entry) → String → Dict String Entry
row_at edge a = elim (get edge a) [ none ↦ [] | some m ↦ m ]

-- edge[a][b] = e, and nothing else
abbrev put_seen : Graph → String → String → Entry → Graph
put_seen g a b e = with_edges g (put g.edge a (put (row_at g.edge a) b e))

entry-put_seen :
    (g : Graph) (a b : String) (e : Entry) (x y : String)
    → entry (put_seen g a b e) x y ≡ (if a == x && b == y then some e else entry g x y)
unfolding entry get
entry-put_seen g a b e x y = elim (Option-cases (get g.edge a)) [
  | inl q ↦ ground (
    arith,
    q,
    get-put g.edge a x (put [] b e),
    get-put [] b y e,
    string_eq.beq_iff a x,
    string_eq.beq_iff b y,
  )
  | inr (m, q) ↦ ground (
    arith,
    q,
    get-put g.edge a x (put m b e),
    get-put m b y e,
    string_eq.beq_iff a x,
    string_eq.beq_iff b y,
  )
]

abbrev entry_or_new : Graph → String → String → Entry
entry_or_new g a b = elim (entry g a b) [ none ↦ [] | some e ↦ e ]

-- greater than every key
abbrev above_keys : Entry → ℕ
above_keys [] = 0
above_keys ((k, i) ∷ e) = if leb (above_keys e) k then k + 1 else above_keys e

above_keys-none : (e : Entry) (k : ℕ) → above_keys e ≤ k → get e k ≡ none
unfolding get
above_keys-none [] k h = refl
above_keys-none ((j, i) ∷ e) k h = ground (arith, above_keys-none e k, nat_eq.beq_iff j k)

abbrev key_of : Graph → String → String → Option ℕ → ℕ
key_of g a b none = above_keys (entry_or_new g a b)
key_of g a b (some k) = k

abbrev joined : Graph → String → String → Option ℕ → Attrs → Graph
joined g a b k o =
    let e = put (entry_or_new g a b) (key_of g a b k) o in put_seen (put_seen g a b e) b a e

find-new : (g : Graph) (a b : String) (j : ℕ) → get (entry_or_new g a b) j ≡ find g a b j
unfolding find get entry
find-new g a b j = elim (Option-cases (entry g a b)) [
  | inl q ↦ rw (q, find, entry_or_new, get) refl
  | inr (e, q) ↦ rw (q, find, entry_or_new) refl
]

pub find-joined :
    (g : Graph) (a b : String) (k : Option ℕ) (o : Attrs) (x y : String) (j : ℕ)
    → find (joined g a b k o) x y j ≡ (
        if joins a b x y
        then (if key_of g a b k == j then some o else find g a b j)
        else find g x y j)
unfolding find
find-joined g a b k o x y j =
    let e = put (entry_or_new g a b) (key_of g a b k) o in
    let seen : entry (joined g a b k o) x y ≡ (if joins a b x y then some e else entry g x y) =
      ground (
        arith,
        entry-put_seen (put_seen g a b e) b a e x y,
        entry-put_seen g a b e x y,
        string_eq.beq_iff a x,
        string_eq.beq_iff b y,
        string_eq.beq_iff a y,
        string_eq.beq_iff b x,
      ) in
    let stored : get e j ≡ (if key_of g a b k == j then some o else find g a b j) =
      get-put (entry_or_new g a b) (key_of g a b k) j o ∙ rw (find-new g a b j) refl in
    elim (Bool-cases (joins a b x y)) [
      | inl met ↦ rw met (find-entry (joined g a b k o) x y e j (seen ∙ rw met refl) ∙ stored)
      | inr away ↦
          let same : entry (joined g a b k o) x y ≡ entry g x y = seen ∙ rw away refl in
          rw (away, find, same) refl
    ]

pub find-fresh : (g : Graph) (a b : String) → find g a b (key_of g a b none) ≡ none
find-fresh g a b =
    sym (find-new g a b (key_of g a b none))
    ∙ above_keys-none (entry_or_new g a b) (above_keys (entry_or_new g a b)) (omega arith)

abbrev at : Attrs → String → Value → Bool
at i f v = elim (get i f) [ none ↦ false | some w ↦ w == v ]

-- a link is listed at its first node
abbrev listed : String → String → Entry → List Row
listed a b [] = []
listed a b ((k, i) ∷ e) =
    if at i "node1" (text a) && at i "node2" (text b)
    then record { node1 = a; node2 = b; key = k; info = i } ∷ listed a b e
    else listed a b e

abbrev listed_at : String → Dict String Entry → List Row
listed_at a [] = []
listed_at a ((b, e) ∷ m) = listed a b e ++ listed_at a m

abbrev all_listed : Dict String (Dict String Entry) → List Row
all_listed [] = []
all_listed ((a, m) ∷ d) = listed_at a m ++ all_listed d

module _ (a b : String) (k : ℕ) (i : Attrs) (w1 : get i "node1" ≡ some (text a))
    (w2 : get i "node2" ≡ some (text b)) where
  abbrev row : Row
  row = record { node1 = a; node2 = b; key = k; info = i }

  from_here : (at i "node1" (text a) && at i "node2" (text b)) ≡ true
  from_here = rw (at, w1, w2, beq_refl a, beq_refl b) refl

  listed-get : (e : Entry) → get e k ≡ some i → Memᴰ row (listed a b e)
  unfolding get
  listed-get [] h = cc h
  listed-get ((j, o) ∷ e) h = elim (Bool-cases (j == k)) [
    | inl q ↦
        let key : j ≡ k = (nat_eq.beq_iff j k).0 q in
        let opts : o ≡ i = ground (arith, h, q) in rw (key, opts, from_here) (head refl)
    | inr q ↦
        let rest : Memᴰ row (listed a b e) = listed-get e (ground (arith, h, q)) in
        elim (Bool-cases (at o "node1" (text a) && at o "node2" (text b))) [
          | inl c ↦ rw c (tail rest)
          | inr c ↦ rw c rest
        ]
  ]

  listed_at-get :
      (m : Dict String Entry) (e : Entry)
      → get m b ≡ some e
      → get e k ≡ some i
      → Memᴰ row (listed_at a m)
  unfolding get
  listed_at-get [] e h r = cc h
  listed_at-get ((c, f) ∷ m) e h r = elim (Bool-cases (c == b)) [
    | inl q ↦
        let node : c ≡ b = (string_eq.beq_iff c b).0 q in
        let same : f ≡ e = ground (arith, h, q) in
        append_left (listed_at a m) (rw (node, same) (listed-get e r))
    | inr q ↦ append_right (listed a c f) (listed_at-get m e (ground (arith, h, q)) r)
  ]

  all_listed-get :
      (d : Dict String (Dict String Entry)) (m : Dict String Entry) (e : Entry)
      → get d a ≡ some m
      → get m b ≡ some e
      → get e k ≡ some i
      → Memᴰ row (all_listed d)
  unfolding get
  all_listed-get [] m e h q r = cc h
  all_listed-get ((c, f) ∷ d) m e h q r = elim (Bool-cases (c == a)) [
    | inl p ↦
        let node : c ≡ a = (string_eq.beq_iff c a).0 p in
        let same : f ≡ m = ground (arith, h, p) in
        append_left (all_listed d) (rw (node, same) (listed_at-get m e q r))
    | inr p ↦ append_right (listed_at c f) (all_listed-get d m e (ground (arith, h, p)) q r)
  ]

  pub listed-find : (g : Graph) → find g a b k ≡ some i → Memᴰ row (all_listed g.edge)
  listed-find g f =
      let (e, here, r) = find-some g a b k i f in
      let (m, h, q) = entry-row g a b e here in all_listed-get g.edge m e h q r

-- the lowest key
abbrev lowest : Entry → Option ℕ
lowest [] = none
lowest ((k, i) ∷ e) = elim (lowest e) [ none ↦ some k | some j ↦ some (if leb k j then k else j) ]

abbrev key_or : Option ℕ → Entry → Option ℕ
key_or none e = lowest e
key_or (some k) e = some k

abbrev entry_of : Graph → String → String → Option ℕ → Result (Entry × ℕ)
entry_of g a b k = elim (entry g a b) [
  | none ↦ err key_error
  | some e ↦ elim (key_or k e) [ none ↦ err key_error | some j ↦ ok (e, j) ]
]

pub entry_of-none :
    (g : Graph) (a b : String) (k : Option ℕ)
    → entry g a b ≡ none
    → entry_of g a b k ≡ err key_error
entry_of-none g a b k h = rw (entry_of, h) refl

pub entry_of_key :
    (g : Graph) (a b : String) (k : ℕ) (e : Entry)
    → entry g a b ≡ some e
    → entry_of g a b (some k) ≡ ok (e, k)
entry_of_key g a b k e h = rw (entry_of, h) refl

pub entry_of-some :
    (g : Graph) (a b : String) (k : Option ℕ) (e : Entry) (j : ℕ)
    → entry_of g a b k ≡ ok (e, j)
    → entry g a b ≡ some e
entry_of-some g a b k e j h = elim (Option-cases (entry g a b)) [
  | inl q ↦ cc (rw (entry_of, q) at h)
  | inr (f, q) ↦ elim (Option-cases (key_or k f)) [
    | inl r ↦ cc (rw (entry_of, q, r) at h)
    | inr (l, r) ↦
        let same : ◌≡◌ {A = Result (Entry × ℕ)} (ok (f, l)) (ok (e, j)) =
          rw (entry_of, q, r) at h in
        cc (same, q)
  ]
]

-- a number of one digit
abbrev digit_text : ℕ → String
digit_text n = if n == 5 then "5" else "7"

abbrev pub dict_links : LinkLib
dict_links = record {
  add_edge = λ g a b k o. (key_of g a b k, joined g a b k o);
  links = λ g. all_listed g.edge;
  sorted_links = λ g. all_listed g.edge;
  link_entry = entry_of;
  in_unit = λ x. leb x 1;
  times_100 = λ x. x * 100;
  str = digit_text;
  find-add_edge = find-joined;
  node-add_edge = λ g a b k o h h'. refl;
  add_edge_key = λ g a b k o. refl;
  add_edge_fresh = λ g a b o. find-fresh g a b;
  links_complete = λ g a b k i f w1 w2. listed-find a b k i w1 w2 g f;
  link_entry_none = entry_of-none;
  link_entry_key = entry_of_key;
  link_entry_some = entry_of-some;
}
