-- ===== src/Network/Links/Ends.antt =====
-- src/Network_API_l.py: the options of a link, read from its one end or from the other.
pub mod Back
use smoothie.Base.{
  String, Bool, false, ◌||◌, some, [], ◌∷◌, arith, if◌then◌else◌, ◌==◌, nat_eq, string_eq, pair_eq,
}
use smoothie.Base.Dict.{get, put}
use smoothie.Base.Error.{assertion_error, key_error, Result, ok, err, guard, ◌>>=◌, ◌>>◌}
use Prim.Native.Char.{Char, code}
use smoothie.Network.Value.{text, Attrs}

-- a node name of the options: `link['node1']`
unfoldable pub name_at : Attrs → String → Result String
name_at info field = elim (get info field) [ some (text s) ↦ ok s | _ ↦ err key_error ]

-- k.replace(a, b), for single characters
unfoldable pub replace : Char → Char → String → String
replace a b String.[] = ""
replace a b (String.◌∷◌ c s) = String.◌∷◌ (if code c == code a then b else c) (replace a b s)

-- a in k
unfoldable pub contains_char : Char → String → Bool
contains_char a String.[] = false
contains_char a (String.◌∷◌ c s) = code c == code a || contains_char a s

abbrev pub one : Char
one = "1"

abbrev pub two : Char
two = "2"

-- the name of the same field at the other end of a link
unfoldable pub other_end : String → String
other_end k =
    if contains_char one k
    then replace one two k
    else if contains_char two k
    then replace two one k
    else k

-- `opts_new`
unfoldable pub other_ends : Attrs → Attrs → Attrs
other_ends [] acc = acc
other_ends ((k, v) ∷ o) acc = other_ends o (put acc (other_end k) v)

-- The options are of the ends in the order of the caller, who may name them the other way round.
unfoldable pub oriented : String → String → Attrs → Attrs → Result Attrs
oriented node1 node2 info opts = do
  b ← name_at info "node2"
  if node1 == b
      then (do
        a ← name_at info "node1"
        guard (node2 == a) assertion_error
        ok (other_ends opts []))
      else ok opts
