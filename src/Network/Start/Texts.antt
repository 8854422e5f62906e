-- ===== src/Network/Start/Texts.antt =====
-- Texts that the start of a network takes apart as Python does.
use Prim.Native.Char.{code, Char}
use Prim.Native.String.{◌++◌ as append}
use smoothie.Base.{
  String, Bool, true, false, ◌&&◌, ◌||◌, Option, none, some, leb, if◌then◌else◌, ◌==◌, nat_eq,
  string_eq, pair_eq,
}

-- s.split('/')[0]
unfoldable pub before_slash : String → String
before_slash String.[] = ""
before_slash (String.◌∷◌ c s) = if code c == b'/' then "" else String.◌∷◌ c (before_slash s)

-- the white space of ASCII
unfoldable pub is_space : Char → Bool
is_space c =
    code c == 32 || (leb 9 (code c) && leb (code c) 13) || (leb 28 (code c) && leb (code c) 31)

-- the word that ends here, or the one before it
last_of_two : String → Option String → Option String
last_of_two word last = if word == "" then last else some word

last_word_from : String → String → Option String → Option String
unfolding is_space last_of_two
last_word_from String.[] word last = last_of_two word last
last_word_from (String.◌∷◌ c s) word last =
    let gap = is_space c in
    last_word_from s (if gap then "" else append word (String.◌∷◌ c ""))
      (if gap then last_of_two word last else last)

-- s.split()[-1], where there is a word
unfoldable pub last_word : String → Option String
unfolding last_word_from
last_word s = last_word_from s "" none

unfoldable pub starts_with : String → String → Bool
starts_with s String.[] = true
starts_with String.[] (String.◌∷◌ d p) = false
starts_with (String.◌∷◌ c s) (String.◌∷◌ d p) = code c == code d && starts_with s p

-- s.__contains__(part)
unfoldable pub has_part : String → String → Bool
unfolding starts_with
has_part String.[] part = starts_with "" part
has_part (String.◌∷◌ c s) part = starts_with (String.◌∷◌ c s) part || has_part s part

-- '{}' of a text that may be None
unfoldable pub shown : Option String → String
shown none = "None"
shown (some t) = t
