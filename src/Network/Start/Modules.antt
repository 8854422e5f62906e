-- ===== src/Network/Start/Modules.antt =====
-- src/Network_API_l.py: which options an object of a module is made with.
use smoothie.Base.{
  String, ◌≡◌, refl, ap, ◌∙◌, inl, inr, Option, none, some, [], ◌∷◌, arith, if◌then◌else◌, ◌==◌,
  nat_eq, string_eq, pair_eq, Bool-cases, Option-cases,
}
use smoothie.Base.Dict.{get, put, has, update, get-put, get-put_self}
use smoothie.Base.Error.{ok}
use smoothie.Network.Value.{Value, Attrs, value_eq}
use smoothie.Network.Nodes.{set_default}
use smoothie.Network.Start.{Boot, Module, chosen, set_defaults, module_of, set_module}

-- the first of two values that is there
abbrev pub or_else {ℓ} : {A : Type ℓ} → Option A → Option A → Option A
or_else none o = o
or_else (some a) o = some a

get-set_default :
    (a : Attrs) (k j : String) (v : Value)
    → get (set_default a k v) j ≡ or_else (get a j) (if k == j then some v else none)
unfolding set_default has
get-set_default a k j v = elim (Option-cases (get a k)) [
  | inl e ↦ ground (arith, e, get-put a k j v, string_eq.beq_iff k j)
  | inr (w, e) ↦ ground (arith, e, string_eq.beq_iff k j)
]

get-set_defaults :
    (a d : Attrs) (k : String) → get (set_defaults a d) k ≡ or_else (get a k) (get d k)
unfolding set_defaults get
get-set_defaults a [] k = ground arith
get-set_defaults a ((j, v) ∷ d) k =
    ground (arith, get-set_defaults (set_default a j v) d k, get-set_default a j k v)

-- the value that an update leaves under a key: the last one of the options
abbrev pub last_of : Attrs → String → Option Value
last_of [] k = none
last_of ((j, v) ∷ u) k = or_else (last_of u k) (if j == k then some v else none)

or_else_assoc {ℓ} :
    {A : Type ℓ} (a b c : Option A) → or_else (or_else a b) c ≡ or_else a (or_else b c)
or_else_assoc none b c = refl
or_else_assoc (some x) b c = refl

get-update : (d u : Attrs) (k : String) → get (update d u) k ≡ or_else (last_of u k) (get d k)
unfolding update
get-update d [] k = refl
get-update d ((j, v) ∷ u) k =
    get-update (put d j v) u k
    ∙ rw (get-put d j k v, or_else_assoc (last_of u k) (if j == k then some v else none) (get d k))
        (elim (Bool-cases (j == k)) [ inl e ↦ rw e refl | inr e ↦ rw e refl ])

chosen_lem : (o : Option Value) (old : Value) → chosen o old ≡ (elim o [ none ↦ old | some c ↦ c ])
chosen_lem none old = refl
chosen_lem (some c) old = refl

-- The options of an object that is made of a module: those of the call come first, then those of the
-- last `setCompiler`, `setNet` or `setSwitchClient`, then the older defaults. The class is the one
-- that was set, where one was.
pub module_of-set_module :
    (name k : String) (class_of : Option Value) (kwargs given : Attrs) (m : Module) (s : Boot)
    → get s.modules name ≡ some m
    → (a : Attrs) × ((module_of name kwargs (set_module name class_of given s).1).0
        ≡ ok (elim class_of [ none ↦ m.class_of | some c ↦ c ], a))
      × (get a k ≡ or_else (get kwargs k) (or_else (last_of given k) (get m.kwargs k)))
unfolding module_of set_module
module_of-set_module name k class_of kwargs given m s e = (
  set_defaults kwargs (update m.kwargs given),
  rw (e, set_module)
      (rw (get-put_self s.modules name _, module_of)
        (ap (λ c. ok (c, set_defaults kwargs (update m.kwargs given)))
          (chosen_lem class_of m.class_of))),
  get-set_defaults kwargs (update m.kwargs given) k ∙ rw (get-update m.kwargs given k) refl,
)
