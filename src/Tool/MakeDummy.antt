-- ===== src/Tool/MakeDummy.antt =====
-- tools/make_dummy.cxx: the source file that it writes for a target of the build.
use Prim.Native.String.{◌++◌}
use yeti_vm.Base.{Bool, List, ◌∷◌, String}
use yeti_vm.Base.{if◌then◌else◌}

-- The text, by the parts of its format.
unfoldable pub generate : String → String
generate name =
    "// generated file\n// do not edit\n// see: " ++ name ++ "\nint _generated() "
    ++ "{ return 42; }" ++ "\n"

-- How it returns: two messages, or the path and the text of the file that is written.
pub data DummyResult : Type 0 where
  usage unable_open : DummyResult
  written : String → String → DummyResult

-- `main`; whether a path can be opened for writing is a parameter.
unfoldable pub make_dummy : (String → Bool) → List String → DummyResult
make_dummy opens (program ∷ path ∷ name ∷ rest) =
    if opens path then written path (generate name) else unable_open
make_dummy opens _ = usage
