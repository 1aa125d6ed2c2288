-- ===== src/Guest/Manifest/Paths.antt =====
-- path.IsAbs, path.Clean and path.Base as internal/protocol/protocol.go uses them: the test that a
-- path is absolute and its own Clean, and the last element of such a path.
use epoch.Base.{
  String, Char, code, Bool, false, not, ◌&&◌, ◌||◌, List, [], ◌∷◌, ◌==◌, all, str_eq, if◌then◌else◌,
}

extend : Char → List String → List String
extend c [] = String.◌∷◌ c String.[] ∷ []
extend c (t ∷ ts) = String.◌∷◌ c t ∷ ts

-- The elements between slashes.
elements : String → List String
unfolding extend
elements String.[] = String.[] ∷ []
elements (String.◌∷◌ c rest) =
    let later = elements rest in if code c == b'/' then String.[] ∷ later else extend c later

clean_element : String → Bool
clean_element e = not (str_eq e "") && (not (str_eq e ".") && not (str_eq e ".."))

clean_elements : List String → Bool
unfolding clean_element
clean_elements ts = all clean_element ts

-- path.IsAbs(p) && path.Clean(p) == p: the root, or elements that Clean keeps.
unfoldable pub is_clean_absolute : String → Bool
unfolding elements clean_elements
is_clean_absolute String.[] = false
is_clean_absolute (String.◌∷◌ c rest) =
    code c == b'/' && (str_eq rest "" || clean_elements (elements rest))

last_of : String → List String → String
last_of d [] = d
last_of d (t ∷ ts) = last_of t ts

-- path.Base of a clean absolute path
unfoldable pub base_name : String → String
unfolding elements last_of
base_name String.[] = "."
base_name (String.◌∷◌ c rest) = if str_eq rest "" then "/" else last_of "" (elements rest)
