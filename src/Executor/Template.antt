-- ===== src/Executor/Template.antt =====
-- executor.go, `render`, `baseName` and `dirName`.
pub mod Paths
use ocis_workflows.Base.{
  ℕ, Text, text, slash, teq, Option, none, some, List, [], ◌∷◌, ◌++◌, trim, split, last_part,
  last_index, take, replace_all, if◌then◌else◌, ◌≡◌, refl,
}

-- `map[string]string`: each key once.
abbrev pub Vars : Type 0
Vars = List (Text × Text)

-- `vars[key]`, the empty string if there is no such key
unfoldable pub get_var : Text → Vars → Text
get_var key [] = []
get_var key ((k, v) ∷ rest) = if teq k key then v else get_var key rest

-- `vars[key] = value`
unfoldable pub set_var : Text → Text → Vars → Vars
set_var key value [] = (key, value) ∷ []
set_var key value ((k, v) ∷ rest) =
    if teq k key then (k, value) ∷ rest else (k, v) ∷ set_var key value rest

-- `"{{"+key+"}}"`
abbrev pub placeholder : Text → Text
placeholder key = text "{{" ++ (key ++ text "}}")

-- `render`, over the variables in the order in which `range` yields them
unfoldable pub render : Text → Vars → Text
unfolding replace_all
render out [] = out
render out ((key, value) ∷ rest) = render (replace_all out (placeholder key) value) rest

unfoldable pub base_name : Text → Text
unfolding trim split last_part
base_name path = last_part (split slash (trim slash path))

abbrev pub before : Text → Option ℕ → Text
before s none = []
before s (some i) = take i s

unfoldable pub dir_name : Text → Text
unfolding trim last_index take
dir_name path = let trimmed = trim slash path in before trimmed (last_index slash trimmed)

base_name_test : base_name (text "/a/b/c.txt/") ≡ text "c.txt"
unfolding base_name
base_name_test = refl

dir_name_test : dir_name (text "/a/b/c.txt") ≡ text "a/b"
unfolding dir_name
dir_name_test = refl

render_test :
    render (text "Hi {{x}}, {{y}}") ((text "x", text "1") ∷ (text "y", text "2") ∷ [])
    ≡ text "Hi 1, 2"
unfolding render
render_test = refl
