-- ===== src/Base/Path.antt =====
-- What the program uses of Go's `path/filepath` on a Unix host.
pub mod Clean
use Prim.Native.Char.{code}
use Prim.Native.String.{String, ◌++◌}
use mathlib.Core.Bool.{Bool, true, false, not, ◌&&◌, ◌||◌}
use mathlib.Core.Option.{Option, none, some}
use mathlib.Core.List.{List, [], ◌∷◌, reverse}
use mathlib.Core.Path.{◌≡◌, refl}
use computer_host.Base.Tests.{◌==◌, ◌=?◌, =?-refl, string_key, if◌then◌else◌}

-- The elements between the slashes, the current one in `word`.
split_from : String → String → List String
split_from word String.[] = word ∷ []
split_from word (String.◌∷◌ c s) =
    let next = split_from (word ++ String.◌∷◌ c String.[]) s in
    let start = split_from "" s in if code c == b'/' then word ∷ start else next

unfoldable pub is_rooted : String → Bool
is_rooted String.[] = false
is_rooted (String.◌∷◌ c s) = code c == b'/'

-- One element of Clean; `out` has the kept elements, the last one first.
clean_element : Bool → String → List String → List String
clean_element rooted e [] =
    if e =? "" || e =? "."
    then []
    else if e =? ".."
    then (if rooted then [] else e ∷ [])
    else e ∷ []
clean_element rooted e (last ∷ out) =
    if e =? "" || e =? "."
    then last ∷ out
    else if e =? ".."
    then (if last =? ".." then e ∷ last ∷ out else out)
    else e ∷ last ∷ out

clean_elements : Bool → List String → List String → List String
clean_elements rooted [] out = out
clean_elements rooted (e ∷ es) out = clean_elements rooted es (clean_element rooted e out)

pub join_slash : List String → String
join_slash [] = ""
join_slash (e ∷ []) = e
join_slash (e ∷ f ∷ es) = e ++ ("/" ++ join_slash (f ∷ es))

or_dot : String → String
or_dot s = if s =? "" then "." else s

-- filepath.Clean.
unfoldable pub clean : String → String
unfolding split_from is_rooted clean_element clean_elements join_slash or_dot
clean p = or_dot (
    (if is_rooted p then "/" else "")
    ++ join_slash (reverse (clean_elements (is_rooted p) (split_from "" p) [])))

without_empty : List String → List String
without_empty [] = []
without_empty (e ∷ es) = if e =? "" then without_empty es else e ∷ without_empty es

clean_if_some : String → String
unfolding clean
clean_if_some s = if s =? "" then "" else clean s

-- filepath.Join.
unfoldable pub join : List String → String
unfolding without_empty clean_if_some join_slash
join es = clean_if_some (join_slash (without_empty es))

-- The text before the last slash, with that slash; empty if there is none.
up_to_slash : String → String → String
up_to_slash seen String.[] = ""
up_to_slash seen (String.◌∷◌ c s) =
    let here = seen ++ String.◌∷◌ c String.[] in
    let rest = up_to_slash here s in
    if rest =? "" then (if code c == b'/' then here else "") else rest

-- filepath.Dir.
unfoldable pub dir : String → String
unfolding up_to_slash clean
dir p = clean (up_to_slash "" p)

has_no_slash : String → Bool
has_no_slash String.[] = true
has_no_slash (String.◌∷◌ c s) = not (code c == b'/') && has_no_slash s

-- filepath.Ext: what is left from the last dot of the last element on.
unfoldable pub ext : String → String
unfolding has_no_slash
ext String.[] = ""
ext (String.◌∷◌ c s) =
    let rest = ext s in
    if not (rest =? "")
    then rest
    else if code c == b'.' && has_no_slash s
    then String.◌∷◌ c s
    else ""

-- strings.TrimSuffix(s, filepath.Ext(s)).
unfoldable pub stem : String → String
unfolding ext
stem String.[] = ""
stem (String.◌∷◌ c s) =
    let rest = stem s in if ext (String.◌∷◌ c s) =? String.◌∷◌ c s then "" else String.◌∷◌ c rest

without_slashes : String → String
without_slashes String.[] = ""
without_slashes (String.◌∷◌ c s) =
    let rest = without_slashes s in if rest =? "" && code c == b'/' then "" else String.◌∷◌ c rest

last_element : String → String
unfolding has_no_slash
last_element String.[] = ""
last_element (String.◌∷◌ c s) =
    let rest = last_element s in if has_no_slash (String.◌∷◌ c s) then String.◌∷◌ c s else rest

-- filepath.Base.
unfoldable pub base : String → String
unfolding without_slashes last_element
base p =
    let name = last_element (without_slashes p) in
    if p =? "" then "." else if name =? "" then "/" else name

-- What is left of a text without a prefix.
unfoldable pub strip_prefix : String → String → Option String
strip_prefix String.[] s = some s
strip_prefix (String.◌∷◌ c p) String.[] = none
strip_prefix (String.◌∷◌ c p) (String.◌∷◌ d s) = if code c == code d then strip_prefix p s else none

is_prefix : String → String → Bool
is_prefix String.[] s = true
is_prefix (String.◌∷◌ c p) String.[] = false
is_prefix (String.◌∷◌ c p) (String.◌∷◌ d s) = if code c == code d then is_prefix p s else false

-- Whether os.RemoveAll of the first of two clean paths takes the second: it is the same or lies below.
unfoldable pub lies_in : String → String → Bool
unfolding is_prefix
lies_in root path = root =? path || (root =? "/" || is_prefix (root ++ "/") path)

pub lies_in_itself : (path : String) → lies_in path path ≡ true
unfolding lies_in
lies_in_itself path = rw (=?-refl path) refl
