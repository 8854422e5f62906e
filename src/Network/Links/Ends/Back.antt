-- ===== src/Network/Links/Ends/Back.antt =====
-- The other end of the other end.
use smoothie.Base.{
  String, ◌≡◌, refl, sym, ap, inl, inr, true, false, ◌&&◌, arith, ◌==◌, nat_eq, string_eq, pair_eq,
  beq_refl, Bool-cases,
}
use Prim.Native.Char.{Char, code}
use text.Mathlib.TextEquality.{Char-path}
use smoothie.Network.Links.Ends.{replace, contains_char, one, two, other_end}

same_char : (c a : Char) → (code c == code a) ≡ true → c ≡ a
same_char c a h = Char-path c a ((nat_eq.beq_iff (code c) (code a)).0 h)

replace-replace :
    (a b : Char) (k : String) → contains_char b k ≡ false → replace b a (replace a b k) ≡ k
unfolding replace contains_char
replace-replace a b String.[] h = refl
replace-replace a b (String.◌∷◌ c k) h =
    let rest : replace b a (replace a b k) ≡ k = replace-replace a b k (ground (arith, h)) in
    elim (Bool-cases (code c == code a)) [
      | inl q ↦ rw (q, beq_refl (code b), rest) (ap (λ x. String.◌∷◌ x k) (sym (same_char c a q)))
      | inr q ↦
          let other : (code c == code b) ≡ false = ground (arith, h) in rw (q, other, rest) refl
    ]

-- Nothing is left of what is replaced.
contains-replace :
    (a b : Char) (k : String) → (code b == code a) ≡ false → contains_char a (replace a b k) ≡ false
unfolding replace contains_char
contains-replace a b String.[] h = refl
contains-replace a b (String.◌∷◌ c k) h = ground (arith, contains-replace a b k h, h)

contains-replace_new :
    (a b : Char) (k : String) → contains_char a k ≡ true → contains_char b (replace a b k) ≡ true
unfolding replace contains_char
contains-replace_new a b String.[] h = cc h
contains-replace_new a b (String.◌∷◌ c k) h =
    ground (arith, h, contains-replace_new a b k, beq_refl (code b))

-- The other end of a field's other end is the field, unless its name has both digits.
pub other_end-other_end :
    (k : String)
    → (contains_char one k && contains_char two k) ≡ false
    → other_end (other_end k) ≡ k
unfolding other_end
other_end-other_end k h = elim (Bool-cases (contains_char one k)) [
  | inl q ↦
      let no_two : contains_char two k ≡ false = ground (arith, h, q) in
      rw (q, contains-replace one two k refl, contains-replace_new one two k q)
        (replace-replace one two k no_two)
  | inr q ↦ elim (Bool-cases (contains_char two k)) [
    | inr r ↦ rw (q, r, q, r) refl
    | inl r ↦ rw (q, r, contains-replace_new two one k r) (replace-replace two one k q)
  ]
]
