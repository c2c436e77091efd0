-- ===== src/Server/Userdata.antt =====
-- The file `userdata.yml`: `registerUser` and `openUserdata` of
-- src/server/src/servernetwork/servernetwork.cpp.
pub mod Users
pub mod Returning
use open_simp.Prelude.{◌++◌, ◌==◌, if◌then◌else◌, List, [], ◌∷◌, Option, none, some, Bytes, c_str}
use open_simp.Server.{Platform, ServerNetwork}

-- The lines that `std::getline` reads; an end of file right behind a line break starts no line.
unfoldable pub lines_from : Bytes → Bytes → List Bytes
lines_from [] [] = []
lines_from (c ∷ cur) [] = (c ∷ cur) ∷ []
lines_from cur (x ∷ rest) =
    let cut = cur ∷ lines_from [] rest in
    let more = lines_from (cur ++ x ∷ []) rest in if x == 10 then cut else more

-- `while (getline(getter, buffer)) prevFile += buffer + '\n'`
unfoldable pub reread : List Bytes → Bytes
reread [] = []
reread (buffer ∷ rest) = buffer ++ 10 ∷ reread rest

unfoldable pub prev_file : Bytes → Bytes
unfolding lines_from reread
prev_file file = reread (lines_from [] file)

-- The entry is printed behind the file as it was read.
unfoldable pub register_user : Platform → Bytes → Bytes → ServerNetwork → ServerNetwork
unfolding prev_file
register_user p username password w = record w {
  userdata = prev_file w.userdata ++ c_str (p.emit_user username password);
}

-- A file that is missing is made empty; the document loaded here is not used.
unfoldable pub open_userdata : Option Bytes → Bytes
open_userdata none = []
open_userdata (some file) = file
