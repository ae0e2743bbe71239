-- ===== src/Server/Listing.antt =====
-- listAllModules of pkg/server/server.go: the reply to a request for the list of modules.
use rsync_gateway.Prelude.{List, [], ◌∷◌, String, if◌then◌else◌}
use rsync_gateway.Prelude.Keys.{Map}
use rsync_gateway.Prelude.Text.{◌^^◌, str_lt}
use rsync_gateway.Server.{Server, Target}

-- sort.Strings
pub insert_sorted : String → List String → List String
insert_sorted s [] = s ∷ []
insert_sorted s (t ∷ ts) =
    let later = insert_sorted s ts in if str_lt t s then t ∷ later else s ∷ t ∷ ts

unfoldable pub sort_strings : List String → List String
unfolding insert_sorted
sort_strings [] = []
sort_strings (s ∷ ss) = insert_sorted s (sort_strings ss)

-- The keys of a map.
pub names_of : Map String (List Target) → List String
names_of [] = []
names_of ((name, targets) ∷ rest) = name ∷ names_of rest

unfoldable pub lines : List String → String
lines [] = "@RSYNCD: EXIT\n"
lines (name ∷ names) = name ^^ "\n" ^^ lines names

-- The text that listAllModules writes.
unfoldable pub module_list : Server → String
unfolding sort_strings names_of lines
module_list s = lines (sort_strings (names_of s.modules))
