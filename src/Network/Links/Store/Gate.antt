-- ===== src/Network/Links/Store/Gate.antt =====
-- What `addLink` tests before it changes anything.
use smoothie.Base.{
  List, ℕ, String, ◌≡◌, refl, sym, ap, ◌∙◌, inl, inr, Bool, true, false, Option, none, some, arith,
  nat_eq, string_eq, pair_eq, Option-cases,
}
use smoothie.Base.Dict.{get, Dict}
use smoothie.Base.Error.{error, Error, Result, ok, err, Result-cases, guard, assertion_error}
use smoothie.Base.Exec.{Exec, ◌>>=◌}
use smoothie.Base.Exec.{>>=-eq-ok}
use smoothie.Network.Value.{Value, given, Attrs, value_eq}
use smoothie.Network.Mininet.{Net, Mininet}
use smoothie.Network.Ids.{is_node, is_switch}
use smoothie.Network.Links.Library.{LinkLib}
use smoothie.Network.Links.Rows.{Facing, node_ports, node_intfs, ip_addresses, address_of, ip_of}
use smoothie.Network.Links.Rows.Taken.{taken}
use smoothie.Network.Links.Store.{refuse_taken, check_address, insert_link, add_link}

-- A step that reads leaves the state as it was.
abbrev pub Reads {ℓ} : {S A : Type ℓ} → Exec S A → Type ℓ
Reads {S = S} m = (s : S) → (m s).1 ≡ s

module _ {ℓ} {S A B : Type ℓ} where
  -- a bind behind a step that reads
  pub behind :
      (m : Exec S A) (f : A → Exec S B) (s : S) {b : B} {t : S}
      → Reads m
      → (m >>= f) s ≡ (ok b, t)
      → (a : A) × (m s ≡ (ok a, s)) × (f a s ≡ (ok b, t))
  behind m f s {b} {t} reads e =
      let (a, u, done, rest) = >>=-eq-ok m f s e in
      let same : u ≡ s = sym (ap (λ (p : Result A × S). p.1) done) ∙ reads s in
      (a, rw same at done, rw same at rest)

-- A step that raises leaves the state as it was.
abbrev Unchanged {ℓ} : {S A : Type ℓ} → Exec S A → Type ℓ
Unchanged {S = S} m = (s : S) (x : Error) → (m s).0 ≡ err x → (m s).1 ≡ s

module _ {ℓ} {S A B : Type ℓ} where
  behind-Unchanged :
      (m : Exec S A) (f : A → Exec S B)
      → Reads m
      → ((a : A) → Unchanged (f a))
      → Unchanged (m >>= f)
  behind-Unchanged m f reads u s x e = elim (Result-cases (m s).0) [
    | inr (y, q) ↦ rw q (reads s)
    | inl (a, q) ↦
        let start : (f a (m s).1).1 ≡ (m s).1 = u a (m s).1 x (rw q at e) in rw q (start ∙ reads s)
  ]

-- Where the value is given, the node does not have it.
abbrev pub Free : Dict String (Dict Value Facing) → String → Option Value → Type 0
Free d n p = (v : Value) → p ≡ some v → taken d n v ≡ false

module _ (mn : Mininet) (lib : LinkLib) where
  refuse_taken-Reads :
      (d : Dict String (Dict Value Facing)) (n : String) (p : Option Value)
      → Reads (refuse_taken mn lib d n p)
  unfolding refuse_taken
  refuse_taken-Reads d n none s = refl
  refuse_taken-Reads d n (some v) s = ground arith

  refuse_taken-Free :
      (d : Dict String (Dict Value Facing)) (n : String) (p : Option Value) (s t : Net)
      (u : Unit {0})
      → refuse_taken mn lib d n p s ≡ (ok u, t)
      → Free d n p
  unfolding refuse_taken
  refuse_taken-Free d n none s t u e v h = cc
  refuse_taken-Free d n (some w) s t u e v h = ground arith

  check_address-Reads : (n f g : String) (o : Attrs) → Reads (check_address mn lib n f g o)
  unfolding check_address
  check_address-Reads n f g o s = elim (Result-cases (is_switch mn s.g n)) [
    | inr (x, q) ↦ rw (q, check_address) refl
    | inl (true, q) ↦ elim (Option-cases (given o f)) [
      | inl h ↦ rw (q, h, check_address) refl
      | inr (v, h) ↦ elim (Result-cases (address_of v)) [
        | inl (a, r) ↦ rw (q, h, r, check_address) refl
        | inr (x, r) ↦ rw (q, h, r, check_address) refl
      ]
    ]
    | inl (false, q) ↦ elim (Option-cases (given o g)) [
      | inl h ↦ rw (q, h, check_address) refl
      | inr (v, h) ↦ elim (Result-cases (ip_of v)) [
        | inl (a, r) ↦ rw (q, h, r, check_address) refl
        | inr (x, r) ↦ rw (q, h, r, check_address) refl
      ]
    ]
  ]

  -- what a link has passed that is added
  pub record Passed (n1 n2 : String) (p1 p2 : Option Value) (key : Option ℕ) (o : Attrs) (s : Net)
      (j : ℕ) (t : Net) : Type 0 where
    pub node1 : is_node mn s.g n1 ≡ true
    pub node2 : is_node mn s.g n2 ≡ true
    pub free_port1 : Free (node_ports mn lib s.g) n1 p1
    pub free_port2 : Free (node_ports mn lib s.g) n2 p2
    pub free_intf1 : Free (node_intfs mn lib s.g) n1 (given o "intfName1")
    pub free_intf2 : Free (node_intfs mn lib s.g) n2 (given o "intfName2")
    pub inserted : insert_link mn lib n1 n2 p1 p2 key o s ≡ (ok j, t)

  guard-ok :
      (b : Bool) (s t : Net) (u : Unit {0})
      → ◌≡◌ {A = Result Unit × Net} (guard b assertion_error, s) (ok u, t)
      → b ≡ true
  guard-ok true s t u e = refl
  guard-ok false s t u e = cc (ap (λ (p : Result Unit × Net). p.0) e)

  -- A link that is added has passed the tests, and was inserted into the network as it was.
  pub add_link-Passed :
      (n1 n2 : String) (p1 p2 : Option Value) (key : Option ℕ) (o : Attrs) (s : Net) {j : ℕ}
      {t : Net}
      → add_link mn lib n1 n2 p1 p2 key o s ≡ (ok j, t)
      → Passed n1 n2 p1 p2 key o s j t
  unfolding add_link
  add_link-Passed n1 n2 p1 p2 key o s {j} {t} e =
      let (ips, e3, k3) = behind (λ (s : Net). (ip_addresses mn lib s.g, s)) _ s (λ s. refl) e in
      let (u4, e4, k4) =
        behind (λ (s : Net). (guard (is_node mn s.g n1) assertion_error, s)) _ s (λ s. refl) k3 in
      let (u5, e5, k5) =
        behind (λ (s : Net). (guard (is_node mn s.g n2) assertion_error, s)) _ s (λ s. refl) k4 in
      let (u6, e6, k6) =
        behind (refuse_taken mn lib (node_ports mn lib s.g) n1 p1) _ s (refuse_taken-Reads _ n1 p1)
          k5 in
      let (u7, e7, k7) =
        behind (refuse_taken mn lib (node_ports mn lib s.g) n2 p2) _ s (refuse_taken-Reads _ n2 p2)
          k6 in
      let (u8, e8, k8) =
        behind (refuse_taken mn lib (node_intfs mn lib s.g) n1 (given o "intfName1")) _ s
          (refuse_taken-Reads _ n1 (given o "intfName1")) k7 in
      let (u9, e9, k9) =
        behind (refuse_taken mn lib (node_intfs mn lib s.g) n2 (given o "intfName2")) _ s
          (refuse_taken-Reads _ n2 (given o "intfName2")) k8 in
      let (u10, e10, k10) =
        behind (check_address mn lib n1 "sw_ip1" "params1" o) _ s
          (check_address-Reads n1 "sw_ip1" "params1" o) k9 in
      let (u11, e11, k11) =
        behind (check_address mn lib n2 "sw_ip2" "params2" o) _ s
          (check_address-Reads n2 "sw_ip2" "params2" o) k10 in
      record {
        node1 = guard-ok (is_node mn s.g n1) s s u4 e4;
        node2 = guard-ok (is_node mn s.g n2) s s u5 e5;
        free_port1 = refuse_taken-Free _ n1 p1 s s u6 e6;
        free_port2 = refuse_taken-Free _ n2 p2 s s u7 e7;
        free_intf1 = refuse_taken-Free _ n1 (given o "intfName1") s s u8 e8;
        free_intf2 = refuse_taken-Free _ n2 (given o "intfName2") s s u9 e9;
        inserted = k11;
      }

  -- A link that is refused leaves the network as it was.
  pub add_link_refused :
      (n1 n2 : String) (p1 p2 : Option Value) (key : Option ℕ) (o : Attrs) (s : Net) (x : Error)
      → (add_link mn lib n1 n2 p1 p2 key o s).0 ≡ err x
      → (add_link mn lib n1 n2 p1 p2 key o s).1 ≡ s
  unfolding add_link insert_link
  add_link_refused n1 n2 p1 p2 key o s =
      behind-Unchanged (λ (s : Net). (ip_addresses mn lib s.g, s)) _ (λ s. refl)
        (λ ips.
          behind-Unchanged (λ (s : Net). (guard (is_node mn s.g n1) assertion_error, s)) _
            (λ s. refl)
            (λ u1.
              behind-Unchanged (λ (s : Net). (guard (is_node mn s.g n2) assertion_error, s)) _
                (λ s. refl)
                (λ u2.
                  behind-Unchanged (refuse_taken mn lib (node_ports mn lib s.g) n1 p1) _
                    (refuse_taken-Reads _ n1 p1)
                    (λ u3.
                      behind-Unchanged (refuse_taken mn lib (node_ports mn lib s.g) n2 p2) _
                        (refuse_taken-Reads _ n2 p2)
                        (λ u4.
                          behind-Unchanged
                            (refuse_taken mn lib (node_intfs mn lib s.g) n1 (given o "intfName1")) _
                            (refuse_taken-Reads _ n1 (given o "intfName1"))
                            (λ u5.
                              behind-Unchanged
                                (refuse_taken mn lib (node_intfs mn lib s.g) n2
                                  (given o "intfName2"))
                                _ (refuse_taken-Reads _ n2 (given o "intfName2"))
                                (λ u6.
                                  behind-Unchanged (check_address mn lib n1 "sw_ip1" "params1" o) _
                                    (check_address-Reads n1 "sw_ip1" "params1" o)
                                    (λ u7.
                                      behind-Unchanged
                                        (check_address mn lib n2 "sw_ip2" "params2" o)
                                        (λ u8. insert_link mn lib n1 n2 p1 p2 key o)
                                        (check_address-Reads n2 "sw_ip2" "params2" o)
                                        (λ u8 t y e. cc e)))))))))
        s

  refuse_taken-taken :
      (d : Dict String (Dict Value Facing)) (n : String) (p : Value) (s : Net)
      → taken d n p ≡ true
      → refuse_taken mn lib d n (some p) s ≡ (err error, s)
  unfolding refuse_taken
  refuse_taken-taken d n p s h = elim (Option-cases (get d n)) [
    | inl q ↦ cc (rw (q, taken) at h)
    | inr (m, q) ↦ rw (refuse_taken, q, (rw (q, taken) at h)) refl
  ]

  -- A port that the first node has already is refused, and the network stays as it was; both nodes
  -- exist, and the options of the links that are there can be read.
  pub add_link_used :
      (n1 n2 : String) (p : Value) (p2 : Option Value) (key : Option ℕ) (o : Attrs) (s : Net)
      (ips : List String)
      → is_node mn s.g n1 ≡ true
      → is_node mn s.g n2 ≡ true
      → ip_addresses mn lib s.g ≡ ok ips
      → taken (node_ports mn lib s.g) n1 p ≡ true
      → add_link mn lib n1 n2 (some p) p2 key o s ≡ (err error, s)
  unfolding add_link
  add_link_used n1 n2 p p2 key o s ips there1 there2 read used =
      rw (add_link, read, there1, there2, refuse_taken-taken (node_ports mn lib s.g) n1 p s used)
        refl
