-- ===== src/Text/FilePath.antt =====
-- The package path/filepath on Unix: `Clean` and `Join`.
use kong_gateway_cert_lite.Prelude.{
  List, [], ◌∷◌, ◌++◌, Bool, false, ◌||◌, if◌then◌else◌, ◌==◌, eq_ℕ, eq_List, is_empty,
}
use kong_gateway_cert_lite.Text.{Text, lit, split_on, join}

-- `..` after the elements kept so far, the last one at the head: a rooted path stops at its root.
climb : Bool → Text → List Text → List Text
climb rooted part [] = if rooted then [] else part ∷ []
climb rooted part (top ∷ below) = if top == part then part ∷ top ∷ below else below

resolve : Bool → List Text → Text → List Text
unfolding climb
resolve rooted stack part =
    if is_empty part || part == lit "."
    then stack
    else if part == lit ".."
    then climb rooted part stack
    else part ∷ stack

resolve_all : Bool → List Text → List Text → List Text
unfolding resolve
resolve_all rooted stack [] = stack
resolve_all rooted stack (part ∷ parts) = resolve_all rooted (resolve rooted stack part) parts

reversed : List Text → List Text → List Text
reversed [] acc = acc
reversed (x ∷ xs) acc = reversed xs (x ∷ acc)

is_rooted : Text → Bool
is_rooted [] = false
is_rooted (c ∷ s) = c == b'/'

-- filepath.Clean
clean : Text → Text
unfolding resolve_all reversed is_rooted lit split_on join
clean path =
    let body =
      join (lit "/") (reversed (resolve_all (is_rooted path) [] (split_on b'/' path)) []) in
    if is_rooted path then b'/' ∷ body else if is_empty body then lit "." else body

-- filepath.Join of a directory and a name
unfoldable pub file_join : Text → Text → Text
unfolding clean
file_join dir name =
    if is_empty dir
    then (if is_empty name then [] else clean name)
    else if is_empty name
    then clean dir
    else clean (dir ++ b'/' ∷ name)
