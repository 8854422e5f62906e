-- ===== src/Network/Start/InOrder.antt =====
-- The start of a network leaves the links in order.
use smoothie.Base.{
  String, Bool, Option, none, some, List, [], ◌∷◌, if◌then◌else◌, nat_eq, string_eq, pair_eq,
  Option-cases, inl, inr,
}
use smoothie.Base.Dict.{get}
use smoothie.Base.Exec.{Exec, ◌>>=◌}
use smoothie.Base.Exec.{>>=_keeps, if_keeps}
use smoothie.Network.Value.{Attrs}
use smoothie.Network.Mininet.{Mininet}
use smoothie.Network.Nodes.{get_node, update_node}
use smoothie.Network.Links.Store.Updating.{InOrder}
use smoothie.Network.Links.Auto.InOrder.{node-Keeps}
use smoothie.Network.Cpu.InOrder.{get_node-Keeps}
use smoothie.Network.Start.{Boot, Action, on_api, act, for_each, running, module_of}

-- the links of the description are in order
abbrev pub IsSound : Boot → Type 0
IsSound s = InOrder s.api

abbrev pub Sound : {A : Type 0} → Exec Boot A → Type 0
Sound m = (s : Boot) → IsSound s → IsSound (m s).1

-- A change of the rest of the state.
pub act-Sound : (a : Action) → Sound (act a)
unfolding act
act-Sound a s v = v

pub running-Sound : (n : String) → Sound (running n)
unfolding running
running-Sound n s v = v

pub module_of-Sound : (name : String) (o : Attrs) → Sound (module_of name o)
unfolding module_of
module_of-Sound name o s v = elim (Option-cases (get s.modules name)) [
  | inl q ↦ rw (module_of, q) v
  | inr (m, q) ↦ rw (module_of, q) v
]

pub then-Sound :
    {A B : Type 0} (m : Exec Boot A) (f : A → Exec Boot B)
    → Sound m
    → ((a : A) → Sound (f a))
    → Sound (m >>= f)
then-Sound m f = >>=_keeps IsSound m f

pub if-Sound :
    {A : Type 0} (b : Bool) (m k : Exec Boot A) → Sound m → Sound k → Sound (if b then m else k)
if-Sound b m k = if_keeps IsSound b m k

pub for_each-Sound :
    {A : Type 0} (xs : List A) (body : A → Exec Boot (Unit {0}))
    → ((x : A) → Sound (body x))
    → Sound (for_each xs body)
unfolding for_each
for_each-Sound [] body k = λ s v. v
for_each-Sound (x ∷ xs) body k =
    then-Sound (body x) (λ u. for_each xs body) (k x) (λ u. for_each-Sound xs body k)

pub option-Sound :
    {A B : Type 0} (o : Option A) (m : Exec Boot B) (f : A → Exec Boot B)
    → Sound m
    → ((a : A) → Sound (f a))
    → Sound (elim o [ none ↦ m | some a ↦ f a ])
option-Sound none m f k l = k
option-Sound (some a) m f k l = l a

pub get_node-Sound : (mn : Mininet) (n : String) → Sound (on_api (get_node mn n))
get_node-Sound mn n s v = get_node-Keeps mn n s.api v

pub update_node-Sound :
    (mn : Mininet) (n : String) (o : Attrs) → Sound (on_api (update_node mn n o))
update_node-Sound mn n o s v = node-Keeps mn n o s.api v
