-- ===== src/Package/Names.antt =====
-- The names that backend/app/features/package/manifest.py and backend/app/api/routes/packages.py
-- accept, by their regular expressions: `$` passes before a newline that ends the text.
use Prim.Native.Char.{code}
use natimai_tiai.Prelude.{
  ℕ, ◌+◌, Bool, true, false, not, ◌&&◌, ◌||◌, String, List, [], ◌∷◌, ◌++◌, any, length, all, leb,
  contains, nat_eq, ◌==◌, if◌then◌else◌,
}

-- The code points of a text
abbrev pub codes : String → List ℕ
codes String.[] = []
codes (String.◌∷◌ c s) = code c ∷ codes s

-- A text without the newline that ends it, where one does
unfoldable pub chomp : List ℕ → List ℕ
chomp [] = []
chomp (c ∷ []) = if c == 10 then [] else c ∷ []
chomp (c ∷ d ∷ cs) = c ∷ chomp (d ∷ cs)

abbrev pub is_alnum : ℕ → Bool
is_alnum c =
    (leb b'0' c && leb c b'9') || ((leb b'A' c && leb c b'Z') || (leb b'a' c && leb c b'z'))

-- `^[A-Za-z0-9]` and at most so many more characters that a class holds, to `$`
abbrev pub fits : (ℕ → Bool) → ℕ → List ℕ → Bool
fits char most [] = false
fits char most (c ∷ cs) = is_alnum c && (all char cs && leb (length cs) most)

-- `_FILE_NAME`: letters, digits and ` ._()+-`
abbrev pub is_name_char : ℕ → Bool
is_name_char c = is_alnum c || contains (32 ∷ 46 ∷ 95 ∷ 40 ∷ 41 ∷ 43 ∷ 45 ∷ []) c

-- What stands before the first full stop, in lower case
unfoldable pub stem : List ℕ → List ℕ
stem [] = []
stem (c ∷ cs) =
    let rest = stem cs in
    if c == 46 then [] else (if leb b'A' c && leb c b'Z' then c + 32 else c) ∷ rest

abbrev pub same_text : List ℕ → List ℕ → Bool
same_text [] [] = true
same_text [] (d ∷ ds) = false
same_text (c ∷ cs) [] = false
same_text (c ∷ cs) (d ∷ ds) = c == d && same_text cs ds

-- The names of devices that `_RESERVED` lists, in lower case
abbrev pub is_device : List ℕ → Bool
is_device cs =
    any (λ (name : String). same_text cs (codes name)) ("con" ∷ "prn" ∷ "aux" ∷ "nul" ∷ [])
    || any (λ (d : ℕ). same_text cs (codes "com" ++ d ∷ []) || same_text cs (codes "lpt" ++ d ∷ []))
        (48 ∷ 49 ∷ 50 ∷ 51 ∷ 52 ∷ 53 ∷ 54 ∷ 55 ∷ 56 ∷ 57 ∷ [])

-- `name.endswith((".", " "))`
abbrev pub ends_badly : List ℕ → Bool
ends_badly [] = false
ends_badly (c ∷ []) = c == 46 || c == 32
ends_badly (c ∷ d ∷ cs) = ends_badly (d ∷ cs)

-- `valid_file_name`; a name that passes the first test is ASCII.
unfoldable pub valid_file_name : String → Bool
unfolding chomp stem
valid_file_name name =
    fits is_name_char 254 (chomp (codes name))
    && (not (is_device (stem (chomp (codes name)))) && not (ends_badly (codes name)))

-- WINGET_ID and WINGET_VERSION: letters, digits and `._+-`
abbrev pub is_winget_char : ℕ → Bool
is_winget_char c = is_alnum c || contains (46 ∷ 95 ∷ 43 ∷ 45 ∷ []) c

unfoldable pub valid_winget_id : String → Bool
unfolding chomp
valid_winget_id s = fits is_winget_char 127 (chomp (codes s))

unfoldable pub valid_winget_version : String → Bool
unfolding chomp
valid_winget_version s = fits is_winget_char 63 (chomp (codes s))
