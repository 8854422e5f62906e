-- ===== src/Network/Links/Setters/Stored.antt =====
-- What the setters of links store, at the end of the link that the caller names.
use smoothie.Base.{
  ℕ, String, ◌≡◌, refl, ap, ◌∙◌, ◌≢◌, ◌⊎◌, inl, inr, Bool, true, false, not, ◌&&◌, Option, some, [],
  ◌∷◌, arith, ◌==◌, nat_eq, string_eq, pair_eq, beq_refl, Bool-cases,
}
use smoothie.Base.Dict.{get, put, remove, get-remove}
use smoothie.Base.Error.{Result, ok, Result-cases}
use smoothie.Network.Value.{
  Value, text, given, is_params, real, flag, params, nothing, number, cls, Attrs, value_eq,
}
use smoothie.Network.Mininet.{Net, Mininet}
use smoothie.Network.Nodes.{set_default, no_options}
use smoothie.Network.Links.Library.{LinkLib, find}
use smoothie.Network.Links.Ends.{name_at, oriented, other_ends, other_end, contains_char}
use smoothie.Network.Links.Setters.{only, update_if, set_bw, is_real, is_int}
use smoothie.Network.Links.Store.{link_options, update_link}
use smoothie.Network.Links.Store.Updating.{InOrder}
use smoothie.Network.Links.Store.Changed.{merged, changed_link, update_link-Changed}
use smoothie.Network.Links.Store.Adding.{get-put_option}

-- no field that `addLink` sets itself
abbrev pub is_option : String → Bool
is_option f =
    not ("cls" == f)
    && not ("weight" == f)
    && not ("node1" == f)
    && not ("node2" == f)
    && not ("port1" == f)
    && not ("port2" == f)

get-set_default :
    (d : Attrs) (k f : String) (v : Value) → (k == f) ≡ false → get (set_default d k v) f ≡ get d f
unfolding set_default
get-set_default d k f v h = ground (arith, get-put_option d k f v, h)

module _ (mn : Mininet) (lib : LinkLib) where
  some_options : (o : Attrs) (f : String) (v : Value) → get o f ≡ some v → no_options mn o ≡ false
  unfolding no_options get
  some_options [] f v h = cc h
  some_options (x ∷ o) f v h = refl

  pub get-link_options :
      (lopts o : Attrs) (a b f : String) (p q : Option Value) (v : Value)
      → is_option f ≡ true
      → get o f ≡ some v
      → get (link_options mn lib lopts a b p q o) f ≡ some v
  unfolding link_options
  get-link_options lopts o a b f p q v own h =
      let d = set_default (set_default o "cls" (cls "TCLink")) "weight" (number 1) in
      let stored : get d f ≡ some v =
        get-set_default (set_default o "cls" (cls "TCLink")) "weight" f (number 1)
          (ground (arith, own))
        ∙ get-set_default o "cls" f (cls "TCLink") (ground (arith, own))
        ∙ h in
      rw
        (
          get-put_option _ "port2" f _,
          get-put_option _ "port1" f _,
          get-put_option _ "node2" f _,
          get-put_option _ "node1" f _,
          some_options o f v h,
        )
        (ground (arith, own, stored))

  pub get-changed_link :
      (lopts i c : Attrs) (a b f : String) (v : Value)
      → is_option f ≡ true
      → is_params v ≡ false
      → get c f ≡ some v
      → get (changed_link mn lib lopts a b i c) f ≡ some v
  get-changed_link lopts i c a b f v own plain h =
      let m = merged mn lib i c in
      let merged_f : get m f ≡ some v =
        mn.merge_dict_new (remove (remove i "node1") "node2") c f v h plain in
      let left : get (remove (remove m "port1") "port2") f ≡ some v =
        ground
          (arith, own, merged_f, get-remove (remove m "port1") "port2" f, get-remove m "port1" f) in
      get-link_options lopts (remove (remove m "port1") "port2") a b f (given m "port1")
        (given m "port2") v own left

  pub oriented-cases :
      (n1 n2 : String) (i : Attrs) (f : String) (v : Value) (c : Attrs)
      → oriented n1 n2 i (only f v) ≡ ok c
      → ((c ≡ only f v) × (name_at i "node2" ≢ ok n1))
        ⊎ ((c ≡ only (other_end f) v) × (name_at i "node2" ≡ ok n1))
  unfolding oriented other_ends put
  oriented-cases n1 n2 i f v c h = elim (Result-cases (name_at i "node2")) [
    | inr (x, q) ↦ cc (rw (oriented, q) at h)
    | inl (b, q) ↦ elim (Bool-cases (n1 == b)) [
      | inr r ↦
          let same : ◌≡◌ {A = Result Attrs} (ok (only f v)) (ok c) = rw (oriented, q, r) at h in
          inl (cc same, ground (arith, q, r, string_eq.beq_iff n1 b))
      | inl r ↦
          let name2 : name_at i "node2" ≡ ok n1 = ground (arith, q, r, string_eq.beq_iff n1 b) in
          elim (Result-cases (name_at i "node1")) [
            | inr (x, qa) ↦ cc (rw (oriented, q, r, qa) at h)
            | inl (a, qa) ↦ elim (Bool-cases (n2 == a)) [
              | inr ra ↦ cc (rw (oriented, q, r, qa, ra) at h)
              | inl ra ↦
                  let same : ◌≡◌ {A = Result Attrs} (ok (only (other_end f) v)) (ok c) =
                    rw (oriented, q, r, qa, ra) at h in
                  inr (cc same, name2)
            ]
          ]
    ]
  ]

  -- A change of one option that is the same at both ends stores it.
  update_link_stored :
      (n1 n2 : String) (key : Option ℕ) (f : String) (v : Value) (s : Net) {j : ℕ} {t : Net}
      → is_option f ≡ true
      → other_end f ≡ f
      → is_params v ≡ false
      → InOrder s
      → update_link mn lib n1 n2 key (only f v) s ≡ (ok j, t)
      → (i : Attrs) × (find t.g n1 n2 j ≡ some i) × (get i f ≡ some v)
  unfolding get
  update_link_stored n1 n2 key f v s own both plain w e =
      let u = update_link-Changed mn lib n1 n2 key (only f v) s w e in
      let same : u.changed ≡ only f v =
        elim (oriented-cases n1 n2 u.before f v u.changed u.turned) [
          | inl c ↦ c.0
          | inr c ↦ c.0 ∙ rw both refl
        ] in
      (
        changed_link mn lib u.lopts u.a u.b u.before u.changed,
        u.is_now,
        get-changed_link u.lopts u.before u.changed u.a u.b f v own plain
            (rw (same, beq_refl f) refl),
      )

  -- Where `setBw` returns, the link has this bandwidth, under the key that is returned.
  pub set_bw_stored :
      (n1 n2 : String) (bw : Value) (key : Option ℕ) (s : Net) {j : ℕ} {t : Net}
      → InOrder s
      → set_bw mn lib n1 n2 bw key s ≡ (ok j, t)
      → (i : Attrs) × (find t.g n1 n2 j ≡ some i) × (get i "bw" ≡ some bw)
  unfolding set_bw update_if is_real is_int other_end contains_char
  set_bw_stored n1 n2 (real x) key s w e =
      update_link_stored n1 n2 key "bw" (real x) s refl refl refl w e
  set_bw_stored n1 n2 (number x) key s w e =
      update_link_stored n1 n2 key "bw" (number x) s refl refl refl w e
  set_bw_stored n1 n2 (flag x) key s w e =
      update_link_stored n1 n2 key "bw" (flag x) s refl refl refl w e
  set_bw_stored n1 n2 (text x) key s w e = cc (ap (λ (p : Result ℕ × Net). p.0) e)
  set_bw_stored n1 n2 (cls x) key s w e = cc (ap (λ (p : Result ℕ × Net). p.0) e)
  set_bw_stored n1 n2 (params x) key s w e = cc (ap (λ (p : Result ℕ × Net). p.0) e)
  set_bw_stored n1 n2 nothing key s w e = cc (ap (λ (p : Result ℕ × Net). p.0) e)
