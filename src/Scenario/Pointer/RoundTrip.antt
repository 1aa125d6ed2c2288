-- ===== src/Scenario/Pointer/RoundTrip.antt =====
-- Pointers as pointerTokens of internal/scenario/assertions.go reads them, against a printer.
use text.Mathlib.TextEquality.{Char-path}
use epoch.Base.{
  byte_length, ◌≤◌, Char, code, String, false, List, [], ◌∷◌, ◌≡◌, refl, ◌==◌, if◌then◌else◌, ok,
  arith,
}
use epoch.Scenario.Pointer.{
  tilde, slash, prepend, unescape, unescape_all, split_slash, add_char, tokens_of, pointer_tokens,
}

-- A token with its `~` and `/` escaped, before the rest of a pointer.
abbrev pub escape_onto : String → String → String
escape_onto String.[] rest = rest
escape_onto (String.◌∷◌ c t) rest =
    let more = escape_onto t rest in
    if code c == b'~'
    then String.◌∷◌ tilde (String.◌∷◌ "0" more)
    else if code c == b'/'
    then String.◌∷◌ tilde (String.◌∷◌ "1" more)
    else String.◌∷◌ c more

abbrev pub print_pointer : List String → String
print_pointer [] = String.[]
print_pointer (t ∷ ts) = String.◌∷◌ slash (escape_onto t (print_pointer ts))

unescape-plain :
    (c : Char) (s : String)
    → code c == b'~' ≡ false
    → unescape (String.◌∷◌ c s) ≡ prepend c (unescape s)
unfolding unescape prepend
unescape-plain c String.[] h = ground (arith, h)
unescape-plain c (String.◌∷◌ d s) h = ground (arith, h)

unescape-escape : (t : String) → unescape (escape_onto t String.[]) ≡ ok t
unfolding unescape prepend
unescape-escape String.[] = refl
unescape-escape (String.◌∷◌ c t) = ground (
  arith,
  unescape-escape t,
  unescape-plain c (escape_onto t String.[]),
  Char-path c tilde,
  Char-path c slash,
)

split-end : (t : String) → split_slash (escape_onto t String.[]) ≡ escape_onto t String.[] ∷ []
unfolding split_slash add_char
split-end String.[] = refl
split-end (String.◌∷◌ c t) = ground (arith, split-end t)

split-escape :
    (t r : String)
    → split_slash (escape_onto t (String.◌∷◌ slash r)) ≡ escape_onto t String.[] ∷ split_slash r
unfolding split_slash add_char
split-escape String.[] r = refl
split-escape (String.◌∷◌ c t) r = ground (arith, split-escape t r)

tokens-print :
    (t : String) (ts : List String)
    → unescape_all (split_slash (escape_onto t (print_pointer ts))) ≡ ok (t ∷ ts)
unfolding unescape_all
tokens-print t [] = ground (arith, split-end t, unescape-escape t)
tokens-print t (u ∷ us) =
    ground (
      arith,
      split-escape t (escape_onto u (print_pointer us)),
      unescape-escape t,
      tokens-print u us,
    )

-- A printed pointer of at most 4096 bytes reads back as its tokens.
pub pointer_tokens-print :
    (ts : List String)
    → byte_length (print_pointer ts) ≤ 4096
    → pointer_tokens (print_pointer ts) ≡ ok ts
unfolding pointer_tokens tokens_of
pointer_tokens-print [] h = ground arith
pointer_tokens-print (t ∷ ts) h = ground (arith, tokens-print t ts)
